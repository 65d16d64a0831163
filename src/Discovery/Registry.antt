-- ===== src/Discovery/Registry.antt =====
-- internal/discovery/etcd/registry.go: `Registry`. The etcd client is the parameter `Etcd`, over the
-- state `W`. The mutex makes each method one step; the goroutine that drains the keep-alive channel and
-- the contexts are not modelled, but for the cancellation by `Close`.
use kim_gate.Prelude.{
  ℕ, ◌*◌, Bool, true, false, not, ◌++◌, Option, none, some, List, [], if◌then◌else◌,
}
use kim_gate.Prelude.Int.{ℤ, pos, leb_ℤ}
use kim_gate.Effect.{Result, ok, err, wrap, Action, pure, map_err, ◌>>◌}
use kim_gate.Text.{Text, codes}
use kim_gate.Time.{second, whole_seconds}

pub record ServiceInstance : Type 0 where
  pub id : Text
  pub name : Text
  pub address : Text

-- A manager is known by the name that it was made for.
pub record Etcd (W : Type 0) : Type 0 where
  pub new_manager : Text → Action W (Unit {0})
  pub grant : ℤ → Action W ℕ
  pub keep_alive : ℕ → Action W (Unit {0})
  pub add_endpoint : Text → Text → Text → ℕ → Action W (Unit {0})
  pub delete_endpoint : Text → Text → Action W (Unit {0})
  pub revoke : ℕ → Action W (Unit {0})
  pub close : Action W (Unit {0})

pub record Registry : Type 0 where
  pub ttl : ℤ
  pub manager : Option Text
  pub registered : Bool
  pub instance_of : ServiceInstance
  pub lease_id : ℕ
  pub cancelled : Bool

-- `fmt.Sprintf("%s/%s", instance.Name, instance.ID)`
abbrev pub endpoint_key : ServiceInstance → Text
endpoint_key i = i.name ++ codes "/" ++ i.id

-- `Config` of the registry.
pub record EtcdConfig : Type 0 where
  pub endpoints : List Text
  pub service_name : Text
  pub username : Text
  pub password : Text
  pub ttl : ℤ

-- `New`; `new_client` is `clientv3.New`, whose client is part of the state.
unfoldable pub new_registry :
    {W : Type 0} → (List Text → Text → Text → Action W (Unit {0})) → EtcdConfig → Action W Registry
new_registry new_client cfg =
    map_err (wrap "create etcd client") (new_client cfg.endpoints cfg.username cfg.password)
    >> pure (record {
      ttl = cfg.ttl;
      manager = none;
      registered = false;
      instance_of = record { id = []; name = []; address = [] };
      lease_id = 0;
      cancelled = false;
    })

-- A registry and the world around it.
abbrev pub State : Type 0 → Type 0
State W = Registry × W

-- The time that a lease is asked for, in seconds; `int64(ttl.Seconds())` drops the fraction.
unfoldable pub lease_seconds : ℤ → ℤ
lease_seconds ttl = whole_seconds (if leb_ℤ ttl (pos 0) then pos (15 * second) else ttl)

module _ {W : Type 0} (etcd : Etcd W) where
  -- The end of `Register`: a lease whose endpoint cannot be added is revoked.
  unfoldable pub added :
      ServiceInstance → Registry → Result (Unit {0}) × W → Result (Unit {0}) × Registry × W
  added i r (ok _, w) = (ok tt, record r { instance_of = i; registered = true }, w)
  added i r (err e, w) = (err (wrap "etcd add endpoint" e), r, (etcd.revoke r.lease_id w).1)

  unfoldable pub kept_alive :
      ServiceInstance → Registry → Result (Unit {0}) × W → Result (Unit {0}) × Registry × W
  unfolding added
  kept_alive i r (err e, w) = (err (wrap "etcd keepalive" e), r, w)
  kept_alive i r (ok _, w) =
      added i r (etcd.add_endpoint i.name (endpoint_key i) i.address r.lease_id w)

  unfoldable pub granted :
      ServiceInstance → Registry → Result ℕ × W → Result (Unit {0}) × Registry × W
  unfolding kept_alive
  granted i r (err e, w) = (err (wrap "etcd grant lease" e), r, w)
  granted i r (ok lease, w) = kept_alive i (record r { lease_id = lease }) (etcd.keep_alive lease w)

  unfoldable pub managed :
      ServiceInstance → Registry → Result (Unit {0}) × W → Result (Unit {0}) × Registry × W
  unfolding granted
  managed i r (err e, w) = (err (wrap "etcd new manager" e), r, w)
  managed i r (ok _, w) =
      granted i (record r { manager = some i.name }) (etcd.grant (lease_seconds r.ttl) w)

  unfoldable pub register : ServiceInstance → State W → Result (Unit {0}) × Registry × W
  unfolding managed
  register i (r, w) =
      if r.registered then (ok tt, r, w) else managed i r (etcd.new_manager i.name w)

  -- An error of the deletion is ignored.
  unfoldable pub deregister : State W → Result (Unit {0}) × Registry × W
  deregister (r, w) = elim r.manager [
    | none ↦ (ok tt, r, w)
    | some name ↦ if not r.registered then (ok tt, r, w) else (
      ok tt,
      record r { registered = false },
      (etcd.delete_endpoint name (endpoint_key r.instance_of) w).1,
    )
  ]

  unfoldable pub close : State W → Result (Unit {0}) × Registry × W
  close (r, w) = ((etcd.close w).0, record r { cancelled = true }, (etcd.close w).1)
