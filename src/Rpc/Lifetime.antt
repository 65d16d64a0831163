-- ===== src/Rpc/Lifetime.antt =====
-- The goroutine of `Start` that registers the gate, against `Shutdown`: internal/rpc/server.go. The
-- mutex of the registry makes each of its methods one step, and the two goroutines may take their
-- steps in any order.
use kim_gate.Prelude.{
  ◌≡◌, ◌≢◌, ◌⊎◌, inl, inr, refl, Bool, true, false, none, some, Bool-cases, arith,
}
use kim_gate.Discovery.Registry.{ServiceInstance, Etcd, State, endpoint_key, deregister, close}
use kim_gate.Text.{Text}
use kim_gate.Text.Trim.{text_eq_refl}
use kim_gate.Cluster.Dispatch.{is_err}
use kim_gate.Discovery.Endpoints.{EtcdLaws}
use kim_gate.Discovery.Lifecycle.{register_lem, register_again}
use kim_gate.Rpc.Server.{register_instance}

-- How far `Shutdown` is: not called, past `Deregister`, past the graceful stop, or returned.
pub data Phase : Type 0 where
  serving deregistered drained finished : Phase

-- `attempted` is whether the goroutine has called `Register`.
pub record Life (W : Type 0) : Type 0 where
  pub state : State W
  pub attempted : Bool
  pub phase : Phase

module _ {W : Type 0} (etcd : Etcd W) (i : ServiceInstance) where
  -- The calls of `Shutdown` on the registry, whose errors are only logged.
  unfoldable pub deregister_instance : State W → State W
  deregister_instance state = let (_, r, w) = deregister etcd state in (r, w)

  unfoldable pub close_registry : State W → State W
  close_registry state = let (_, r, w) = close etcd state in (r, w)

  -- One step of either goroutine. A stop that is forced leaves the registry open.
  pub data Step : Life W → Life W → Type 0 where
    registers :
        {s s' : Life W}
        → s.attempted ≡ false
        → s' ≡ record s { state = register_instance etcd i s.state; attempted = true }
        → Step s s'
    deregisters :
        {s s' : Life W}
        → s.phase ≡ serving
        → s' ≡ record s { state = deregister_instance s.state; phase = deregistered }
        → Step s s'
    stops_gracefully :
        {s s' : Life W} → s.phase ≡ deregistered → s' ≡ record s { phase = drained } → Step s s'
    is_forced :
        {s s' : Life W} → s.phase ≡ deregistered → s' ≡ record s { phase = finished } → Step s s'
    closes :
        {s s' : Life W}
        → s.phase ≡ drained
        → s' ≡ record s { state = close_registry s.state; phase = finished }
        → Step s s'

  pub data Steps : Life W → Life W → Type 0 where
    stay : {s : Life W} → Steps s s
    step : {s s' s'' : Life W} → Step s s' → Steps s' s'' → Steps s s''

  -- The state after `Start`, with a registry that was not used before.
  abbrev pub started : State W → Life W
  started state = record { state = state; attempted = false; phase = serving }

  -- Where the stop is forced and the goroutine registers after `Deregister`, the gate is registered
  -- when `Shutdown` has returned.
  late_registration :
      (state : State W)
      → (register_instance etcd i (deregister_instance state)).0.registered ≡ true
      → (s : Life W) × Steps (started state) s
        × (s.phase ≡ finished)
        × (s.state.0.registered ≡ true)
  late_registration state on = (
    record {
      state = register_instance etcd i (deregister_instance state);
      attempted = true;
      phase = finished;
    },
    step (deregisters refl refl) (step (is_forced refl refl) (step (registers refl refl) stay)),
    refl,
    on,
  )

module _ {W : Type 0} {etcd : Etcd W} (laws : EtcdLaws etcd) (i : ServiceInstance) where
  -- A registry that is registered is so for the instance.
  abbrev IsGood : State W → Type 0
  IsGood s = (s.0.registered ≡ false) ⊎ ((s.0.manager ≡ some i.name) × (s.0.instance_of ≡ i))

  registers-IsGood : (s : State W) → IsGood s → IsGood (register_instance etcd i s)
  unfolding register_instance
  registers-IsGood (r, w) m = elim (Bool-cases r.registered) [
    | inl on ↦ ground (arith, m, register_again etcd i r w on)
    | inr off ↦ ground (arith, register_lem laws i r w off)
  ]

  -- `Deregister`, where etcd deletes what it is asked to.
  deregisters_lem :
      (s : State W)
      → IsGood s
      → ((name key : Text) (w : W) → is_err (etcd.delete_endpoint name key w).0 ≡ false)
      → ((deregister_instance etcd i s).0.registered ≡ false)
        × ((s.0.registered ≡ false)
            ⊎ (laws.endpoint (deregister_instance etcd i s).1 (endpoint_key i) ≡ none))
  unfolding deregister_instance deregister
  deregisters_lem s m deletes = ground (
    arith,
    m,
    text_eq_refl (endpoint_key i),
    laws.delete_ok i.name (endpoint_key i) s.1 (endpoint_key i)
        (deletes i.name (endpoint_key i) s.1),
  )

  closes_lem :
      (s : State W)
      → ((close_registry etcd i s).0.registered ≡ s.0.registered)
        × ((close_registry etcd i s).0.manager ≡ s.0.manager)
        × ((close_registry etcd i s).0.instance_of ≡ s.0.instance_of)
        × (laws.endpoint (close_registry etcd i s).1 (endpoint_key i)
            ≡ laws.endpoint s.1 (endpoint_key i))
  unfolding close_registry close
  closes_lem s = (refl, refl, refl, laws.close_same s.1 (endpoint_key i))

  module _
      (deletes : (name key : Text) (w : W)
        → is_err (etcd.delete_endpoint name key w).0 ≡ false) where
    Step-IsGood : {s s' : Life W} → IsGood s.state → Step etcd i s s' → IsGood s'.state
    Step-IsGood {s} {s'} m (registers a e) = ground (arith, m, e, registers-IsGood s.state m)
    Step-IsGood {s} {s'} m (deregisters a e) =
        ground (arith, m, e, deregisters_lem s.state m deletes)
    Step-IsGood {s} {s'} m (stops_gracefully a e) = ground (arith, m, e)
    Step-IsGood {s} {s'} m (is_forced a e) = ground (arith, m, e)
    Step-IsGood {s} {s'} m (closes a e) = ground (arith, m, e, closes_lem s.state)

    Steps-IsGood : {s s' : Life W} → IsGood s.state → Steps etcd i s s' → IsGood s'.state
    Steps-IsGood m stay = m
    Steps-IsGood m (step one rest) = Steps-IsGood (Step-IsGood m one) rest

    -- The registration was tried, with the given flag, and `Deregister` was not called, or nothing is
    -- registered.
    abbrev IsGone : Bool → Life W → Type 0
    IsGone b s =
        (s.attempted ≡ true)
        × IsGood s.state
        × (((s.phase ≡ serving) × (s.state.0.registered ≡ b))
            ⊎ ((s.phase ≢ serving)
                × (s.state.0.registered ≡ false)
                × ((b ≡ false) ⊎ (laws.endpoint s.state.1 (endpoint_key i) ≡ none))))

    Step-IsGone : {b : Bool} {s s' : Life W} → IsGone b s → Step etcd i s s' → IsGone b s'
    Step-IsGone {b} {s} {s'} g (registers a e) = absurd (cc (g.0, a))
    Step-IsGone {b} {s} {s'} g (deregisters a e) =
        ground (arith, g, e, deregisters_lem s.state (g.1) deletes)
    Step-IsGone {b} {s} {s'} g (stops_gracefully a e) = ground (arith, g, e)
    Step-IsGone {b} {s} {s'} g (is_forced a e) = ground (arith, g, e)
    Step-IsGone {b} {s} {s'} g (closes a e) = ground (arith, g, e, closes_lem s.state)

    Steps-IsGone : {b : Bool} {s s' : Life W} → IsGone b s → Steps etcd i s s' → IsGone b s'
    Steps-IsGone g stay = g
    Steps-IsGone g (step one rest) = Steps-IsGone (Step-IsGone g one) rest

    -- With `EtcdLaws`, and where etcd deletes the endpoints that it is asked to; from a registry that is
    -- not registered: if the goroutine of `Start` calls `Register` before `Shutdown` calls `Deregister`,
    -- then the registry is not registered after that call, and if the registration succeeded, etcd has
    -- no endpoint under the key of the gate, whatever steps the two take besides, the stop being
    -- graceful or forced.
    pub deregistered_for_good :
        (state : State W) {s s' : Life W}
        → state.0.registered ≡ false
        → Steps etcd i (started etcd i state) s
        → s.attempted ≡ true
        → s.phase ≡ serving
        → Steps etcd i s s'
        → s'.phase ≢ serving
        → (s'.state.0.registered ≡ false)
          × ((s.state.0.registered ≡ false) ⊎ (laws.endpoint s'.state.1 (endpoint_key i) ≡ none))
    deregistered_for_good state {s} {s'} fresh before made serves after ends =
        let m : IsGood s.state = Steps-IsGood (inl fresh) before in
        let g : IsGone s.state.0.registered s' = Steps-IsGone (made, m, inl (serves, refl)) after in
        ground (arith, g, ends)
