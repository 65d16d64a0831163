-- ===== src/Discovery/Endpoints.antt =====
-- The endpoints that etcd holds for the gates, as internal/discovery/etcd/registry.go adds and deletes
-- them.
use kim_gate.Prelude.{
  ℕ, ◌≡◌, refl, sym, subst, ap, ◌∙◌, Option, none, some, arith, if◌then◌else◌, false,
}
use kim_gate.Prelude.Int.{ℤ}
use kim_gate.Effect.{Result, ok, err}
use kim_gate.Text.{Text, text_eq}
use kim_gate.Cluster.Dispatch.{is_err}
use kim_gate.Discovery.Registry.{
  ServiceInstance, Etcd, Registry, endpoint_key, added, kept_alive, granted, managed, register,
}

-- The endpoint of each key: its address and its lease.
abbrev pub Endpoints : Type 0
Endpoints = Text → Option (Text × ℕ)

abbrev pub set_endpoint : Text → Option (Text × ℕ) → Endpoints → Endpoints
set_endpoint key e endpoints k = if text_eq key k then e else endpoints k

-- What etcd documents of endpoints: adding one that succeeds sets its key and no other, deleting one
-- that succeeds removes its key and no other, and the other calls of a registration and the closing of
-- the client leave them alone.
pub record EtcdLaws {W : Type 0} (etcd : Etcd W) : Type 0 where
  pub endpoint : W → Endpoints
  pub new_manager_same :
      (name : Text) (w : W) (k : Text) → endpoint (etcd.new_manager name w).1 k ≡ endpoint w k
  pub grant_same :
      (seconds : ℤ) (w : W) (k : Text) → endpoint (etcd.grant seconds w).1 k ≡ endpoint w k
  pub keep_alive_same :
      (lease : ℕ) (w : W) (k : Text) → endpoint (etcd.keep_alive lease w).1 k ≡ endpoint w k
  pub add_ok :
      (name key address : Text) (lease : ℕ) (w : W) (k : Text)
      → is_err (etcd.add_endpoint name key address lease w).0 ≡ false
      → endpoint (etcd.add_endpoint name key address lease w).1 k
        ≡ set_endpoint key (some (address, lease)) (endpoint w) k
  pub delete_ok :
      (name key : Text) (w : W) (k : Text)
      → is_err (etcd.delete_endpoint name key w).0 ≡ false
      → endpoint (etcd.delete_endpoint name key w).1 k ≡ set_endpoint key none (endpoint w) k
  pub close_same : (w : W) (k : Text) → endpoint (etcd.close w).1 k ≡ endpoint w k

-- Etcd reports no error to the calls of a registration.
pub record Answers {W : Type 0} (etcd : Etcd W) : Type 0 where
  pub new_manager_answers : (name : Text) (w : W) → is_err (etcd.new_manager name w).0 ≡ false
  pub grant_answers : (seconds : ℤ) (w : W) → is_err (etcd.grant seconds w).0 ≡ false
  pub keep_alive_answers : (lease : ℕ) (w : W) → is_err (etcd.keep_alive lease w).0 ≡ false
  pub add_answers :
      (name key address : Text) (lease : ℕ) (w : W)
      → is_err (etcd.add_endpoint name key address lease w).0 ≡ false

module _ {W : Type 0} {etcd : Etcd W} (laws : EtcdLaws etcd) (i : ServiceInstance) where
  -- The endpoint of the instance was added, and all others are as they were.
  abbrev pub Adds : W → Result (Unit {0}) × Registry × W → Type 0
  Adds w o =
      (k : Text)
      → laws.endpoint o.2 k
        ≡ set_endpoint (endpoint_key i) (some (i.address, o.1.lease_id)) (laws.endpoint w) k

  Adds-same :
      {w w' : W} (o : Result (Unit {0}) × Registry × W)
      → ((k : Text) → laws.endpoint w' k ≡ laws.endpoint w k)
      → Adds w' o
      → Adds w o
  Adds-same {w} {w'} o same adds k =
      adds k
      ∙ ap (λ e. if text_eq (endpoint_key i) k then some (i.address, o.1.lease_id) else e) (same k)

  kept_alive-Adds :
      (r : Registry) (p : Result (Unit {0}) × W)
      → is_err (kept_alive etcd i r p).0 ≡ false
      → Adds p.1 (kept_alive etcd i r p)
  unfolding kept_alive added
  kept_alive-Adds r (err e, w) h k = absurd (cc h)
  kept_alive-Adds r (ok _, w) h k =
      ground (arith, h, laws.add_ok i.name (endpoint_key i) i.address r.lease_id w k)

  granted-Adds :
      (r : Registry) (p : Result ℕ × W)
      → is_err (granted etcd i r p).0 ≡ false
      → Adds p.1 (granted etcd i r p)
  unfolding granted
  granted-Adds r (err e, w) h = absurd (cc h)
  granted-Adds r (ok lease, w) h =
      Adds-same (granted etcd i r (ok lease, w)) (laws.keep_alive_same lease w)
        (kept_alive-Adds (record r { lease_id = lease }) (etcd.keep_alive lease w) h)

  managed-Adds :
      (r : Registry) (p : Result (Unit {0}) × W)
      → is_err (managed etcd i r p).0 ≡ false
      → Adds p.1 (managed etcd i r p)
  unfolding managed
  managed-Adds r (err e, w) h = absurd (cc h)
  managed-Adds r (ok u, w) h =
      Adds-same (managed etcd i r (ok u, w)) (laws.grant_same _ w)
        (granted-Adds (record r { manager = some i.name }) (etcd.grant _ w) h)

  register_off :
      (r : Registry) (w : W)
      → r.registered ≡ false
      → register etcd i (r, w) ≡ managed etcd i r (etcd.new_manager i.name w)
  unfolding register
  register_off r w off = rw off refl

  -- A registration of a registry that is not registered, and that succeeds, adds the endpoint.
  pub register-Adds :
      (r : Registry) (w : W)
      → r.registered ≡ false
      → is_err (register etcd i (r, w)).0 ≡ false
      → Adds w (register etcd i (r, w))
  register-Adds r w off h =
      let e = register_off r w off in
      Adds-same (register etcd i (r, w)) (laws.new_manager_same i.name w) (
        subst (Adds (etcd.new_manager i.name w).1) (sym e)
          (managed-Adds r (etcd.new_manager i.name w) (subst (λ o. is_err o.0 ≡ false) e h)))

module _ {W : Type 0} (etcd : Etcd W) (answers : Answers etcd) (i : ServiceInstance) where
  kept_alive_answers :
      (r : Registry) (p : Result (Unit {0}) × W)
      → is_err p.0 ≡ false
      → is_err (kept_alive etcd i r p).0 ≡ false
  unfolding kept_alive added
  kept_alive_answers r (err e, w) h = absurd (cc h)
  kept_alive_answers r (ok u, w) h =
      ground (arith, answers.add_answers i.name (endpoint_key i) i.address r.lease_id w)

  granted_answers :
      (r : Registry) (p : Result ℕ × W) → is_err p.0 ≡ false → is_err (granted etcd i r p).0 ≡ false
  unfolding granted
  granted_answers r (err e, w) h = absurd (cc h)
  granted_answers r (ok lease, w) h =
      kept_alive_answers (record r { lease_id = lease }) (etcd.keep_alive lease w)
        (answers.keep_alive_answers lease w)

  managed_answers :
      (r : Registry) (p : Result (Unit {0}) × W)
      → is_err p.0 ≡ false
      → is_err (managed etcd i r p).0 ≡ false
  unfolding managed
  managed_answers r (err e, w) h = absurd (cc h)
  managed_answers r (ok u, w) h =
      granted_answers (record r { manager = some i.name }) (etcd.grant _ w)
        (answers.grant_answers _ w)

  -- Where etcd reports no error, neither does a registration.
  pub register_answers : (r : Registry) (w : W) → is_err (register etcd i (r, w)).0 ≡ false
  unfolding register
  register_answers r w =
      ground (
        arith,
        managed_answers r (etcd.new_manager i.name w) (answers.new_manager_answers i.name w),
      )
