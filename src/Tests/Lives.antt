-- ===== src/Tests/Lives.antt =====
-- The group of one user id, and the registration of one gate.
use kim_gate.Prelude.{◌≡◌, ◌⊎◌, refl, true, false, none, some, []}
use kim_gate.Prelude.Int.{pos}
use kim_gate.Effect.{ok}
use kim_gate.Text.{Text, codes, trim_space, cut, contains}
use kim_gate.Discovery.Registry.{
  ServiceInstance, Etcd, Registry, register, deregister, endpoint_key,
}
use kim_gate.Discovery.Endpoints.{Endpoints, EtcdLaws, set_endpoint}
use kim_gate.Discovery.Lifecycle.{Registers, register_lem, deregister-register}
use kim_gate.Rpc.Server.{register_instance}
use kim_gate.Rpc.Lifetime.{
  serving, finished, Life, deregister_instance, registers, deregisters, is_forced, Steps, stay,
  step, started, deregistered_for_good,
}
use kim_gate.Gateway.AppGroup.{parse_app_group, format_app_group}
use kim_gate.Gateway.Groups.{Names, group_of, parse_app_group_sound, parse_app_group_complete}

abbrev user : Text
user = codes " shop : ann "

user-Names : Names user (codes "shop ") (codes " ann")
unfolding trim_space contains
user-Names = record { parts = refl; one_colon = (refl, refl); has_app = refl; has_user = refl }

accepted : parse_app_group user ≡ ok (group_of (codes "shop "))
unfolding parse_app_group trim_space contains cut format_app_group
accepted = refl

parse_app_group_sound_example :
    (x : Text) × (y : Text) × Names user x y × (group_of (codes "shop ") ≡ group_of x)
parse_app_group_sound_example = parse_app_group_sound user accepted

parse_app_group_complete_example : parse_app_group user ≡ ok (group_of (codes "shop "))
parse_app_group_complete_example =
    parse_app_group_complete user (codes "shop ") (codes " ann") user-Names

-- The state is the endpoints that etcd has.
abbrev etcd : Etcd Endpoints
etcd = record {
  new_manager = λ name w. (ok tt, w);
  grant = λ seconds w. (ok 7, w);
  keep_alive = λ lease w. (ok tt, w);
  add_endpoint = λ name key address lease w. (ok tt, set_endpoint key (some (address, lease)) w);
  delete_endpoint = λ name key w. (ok tt, set_endpoint key none w);
  revoke = λ lease w. (ok tt, w);
  close = λ w. (ok tt, w);
}

abbrev etcd_laws : EtcdLaws etcd
etcd_laws = record {
  endpoint = λ w. w;
  new_manager_same = λ name w k. refl;
  grant_same = λ seconds w k. refl;
  keep_alive_same = λ lease w k. refl;
  add_ok = λ name key address lease w k h. refl;
  delete_ok = λ name key w k h. refl;
  close_same = λ w k. refl;
}

abbrev gate : ServiceInstance
gate = record { id = codes "1"; name = codes "kim-gate"; address = codes "10.0.0.1:9090" }

abbrev other_gate : ServiceInstance
other_gate = record { id = codes "2"; name = codes "kim-gate"; address = [] }

abbrev fresh : Registry
fresh = record {
  ttl = pos 0;
  manager = none;
  registered = false;
  instance_of = other_gate;
  lease_id = 0;
  cancelled = false;
}

abbrev held : Registry
held = record fresh {
  manager = some gate.name;
  registered = true;
  instance_of = gate;
  lease_id = 7;
}

-- Another gate is there before, and with it the gate.
abbrev before_it : Endpoints
before_it = set_endpoint (endpoint_key other_gate) (some (codes "10.0.0.2:9090", 3)) (λ k. none)

abbrev with_it : Endpoints
with_it = set_endpoint (endpoint_key gate) (some (gate.address, 7)) before_it

registered : register etcd gate (fresh, before_it) ≡ (ok tt, held, with_it)
unfolding register
registered = refl

register_lem_example :
    Registers etcd_laws gate fresh before_it (register etcd gate (fresh, before_it))
register_lem_example = register_lem etcd_laws gate fresh before_it refl

deregister-register_example :
    (with_it (endpoint_key gate) ≡ some (gate.address, 7))
    × (register etcd other_gate (held, with_it) ≡ (ok tt, held, with_it))
    × ((deregister etcd (held, with_it)).0 ≡ ok tt)
    × ((deregister etcd (held, with_it)).1.registered ≡ false)
    × ((k : Text)
        → (deregister etcd (held, with_it)).2 k ≡ set_endpoint (endpoint_key gate) none before_it k)
deregister-register_example =
    deregister-register etcd_laws gate fresh before_it other_gate refl registered refl

-- The gate after its registration, and after a shutdown whose stop was forced.
abbrev up : Life Endpoints
up = record { state = (held, with_it); attempted = true; phase = serving }

abbrev down : Life Endpoints
down = record {
  state = deregister_instance etcd gate (held, with_it);
  attempted = true;
  phase = finished;
}

goes_up : Steps etcd gate (started etcd gate (fresh, before_it)) up
unfolding register_instance register
goes_up = step (registers refl refl) stay

goes_down : Steps etcd gate up down
goes_down = step (deregisters refl refl) (step (is_forced refl refl) stay)

deregistered_for_good_example :
    (down.state.0.registered ≡ false)
    × ((up.state.0.registered ≡ false) ⊎ (down.state.1 (endpoint_key gate) ≡ none))
deregistered_for_good_example =
    deregistered_for_good etcd_laws gate (λ name key w. refl) (fresh, before_it) refl goes_up refl
      refl goes_down (λ h. cc (h))
