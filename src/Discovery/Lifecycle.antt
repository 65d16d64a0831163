-- ===== src/Discovery/Lifecycle.antt =====
-- Proofs on `Register` and `Deregister` of internal/discovery/etcd/registry.go.
use kim_gate.Prelude.{◌≡◌, ◌⊎◌, inl, inr, refl, subst, ◌∙◌, true, false, none, some, arith}
use kim_gate.Text.{Text}
use kim_gate.Text.Trim.{text_eq_refl}
use kim_gate.Discovery.Endpoints.{
  EtcdLaws, Answers, set_endpoint, Adds, register-Adds, register_answers,
}
use kim_gate.Effect.{Result, ok}
use kim_gate.Cluster.Dispatch.{is_err}
use kim_gate.Discovery.Registry.{
  ServiceInstance, Etcd, Registry, endpoint_key, register, deregister,
}

-- Once registered, registering again touches nothing, whatever the instance.
pub register_again :
    {W : Type 0} (etcd : Etcd W) (i : ServiceInstance) (r : Registry) (w : W)
    → r.registered ≡ true
    → register etcd i (r, w) ≡ (ok tt, r, w)
unfolding register
register_again etcd i r w h = rw h

module _ {W : Type 0} {etcd : Etcd W} (laws : EtcdLaws etcd) (i : ServiceInstance) where
  -- How a registration that is not made yet ended: not made, with an error that etcd reported, or made
  -- for the instance, whose endpoint etcd then has.
  abbrev pub Registers : Registry → W → Result (Unit {0}) × Registry × W → Type 0
  Registers r w o =
      ((is_err o.0 ≡ true)
        × (o.1.registered ≡ false)
        × (o.1.instance_of ≡ r.instance_of)
        × (¬ Answers etcd))
      ⊎ ((o.0 ≡ ok tt)
          × (o.1.registered ≡ true)
          × (o.1.instance_of ≡ i)
          × (o.1.manager ≡ some i.name)
          × Adds laws i w o)

  -- The flag, the instance and the manager alone.
  flags_lem :
      (r : Registry) (w : W)
      → r.registered ≡ false
      → let o = register etcd i (r, w) in
        ((is_err o.0 ≡ true) × (o.1.registered ≡ false) × (o.1.instance_of ≡ r.instance_of))
        ⊎ ((o.0 ≡ ok tt)
            × (o.1.registered ≡ true)
            × (o.1.instance_of ≡ i)
            × (o.1.manager ≡ some i.name))
  unfolding register
  flags_lem r w h = ground arith

  -- With `EtcdLaws`: a registry that is not registered is registered for the instance, and etcd has
  -- its address under its key with the lease of the registry, and all other endpoints as before; or
  -- etcd reported an error to one of the calls, and the registry reports an error and stays not
  -- registered, with the instance that it had.
  pub register_lem :
      (r : Registry) (w : W) → r.registered ≡ false → Registers r w (register etcd i (r, w))
  register_lem r w h = elim (flags_lem r w h) [
    | inl (failed, off, same) ↦
        inl (failed, off, same, λ answers. cc (failed, register_answers etcd answers i r w))
    | inr (done, on, inst, man) ↦
        inr (done, on, inst, man, register-Adds laws i r w h (rw done refl))
  ]

  -- With `EtcdLaws`: after a registration that succeeded, of a registry that was not registered, etcd
  -- has the address of the instance under its key, and a second registration changes nothing. Where
  -- etcd deletes the endpoint, deregistering leaves the registry not registered, and etcd without an
  -- endpoint under that key and with all other endpoints as they were before the registration.
  pub deregister-register :
      (r : Registry) (w : W) (i' : ServiceInstance) {r' : Registry} {w' : W}
      → r.registered ≡ false
      → register etcd i (r, w) ≡ (ok tt, r', w')
      → is_err (etcd.delete_endpoint i.name (endpoint_key i) w').0 ≡ false
      → (laws.endpoint w' (endpoint_key i) ≡ some (i.address, r'.lease_id))
        × (register etcd i' (r', w') ≡ (ok tt, r', w'))
        × ((deregister etcd (r', w')).0 ≡ ok tt)
        × ((deregister etcd (r', w')).1.registered ≡ false)
        × ((k : Text)
            → laws.endpoint (deregister etcd (r', w')).2 k
              ≡ set_endpoint (endpoint_key i) none (laws.endpoint w) k)
  unfolding deregister
  deregister-register r w i' {r'} {w'} h k deletes =
      elim (subst (Registers r w) k (register_lem r w h)) [
        | inl failed ↦ absurd (cc failed.0)
        | inr (_, on, inst, man, adds) ↦ (
          adds (endpoint_key i) ∙ rw (text_eq_refl (endpoint_key i)) refl,
          register_again etcd i' r' w' on,
          ground arith,
          ground arith,
          λ key. ground (
            arith,
            on,
            inst,
            man,
            adds key,
            laws.delete_ok i.name (endpoint_key i) w' key deletes,
          ),
        )
      ]
