-- ===== src/Wiring/Entry.antt =====
-- `main` of main.go: the order of its calls and its exit code. Log lines, the deadline of the shutdown
-- and the pause before the end are left out.
use kim_gate.Prelude.{ℕ, Option, none, some, List, [], ◌∷◌}
use kim_gate.Effect.{Result, ok, err, Error, Run, returned, panicked}
use kim_gate.Config.{Config}

-- What the `select` receives: a signal, or what the application sends on its channel.
pub data Ending : Type 0 where
  signalled : Ending
  stopped : Option Error → Ending

-- The exit code after `Shutdown`, by the errors that it joined; it returned nil if there are none.
unfoldable pub exit_code : Ending → List Error → ℕ
exit_code ending (e ∷ es) = 1
exit_code signalled [] = 0
exit_code (stopped none) [] = 0
exit_code (stopped (some e)) [] = 1

-- `if err != nil { os.Exit(1) }` after a call.
unfoldable pub or_exit : {W A : Type 0} → Run (Result A) × W → (A → W → Run ℕ × W) → Run ℕ × W
or_exit (panicked e, w) next = (panicked e, w)
or_exit (returned (err e), w) next = (returned 1, w)
or_exit (returned (ok a), w) next = next a w

-- The calls of `main`: `wait` is its `select`.
pub record Program (W A : Type 0) : Type 0 where
  pub load : Run (Result Config)
  pub initialize : Config → W → Run (Result A) × W
  pub start : A → W → Run (Result (Unit {0})) × W
  pub wait : A → W → Ending × W
  pub shutdown : A → W → List Error × W

unfoldable pub main : {W A : Type 0} → Program W A → W → Run ℕ × W
unfolding or_exit exit_code
main p w =
    or_exit (p.load, w)
      λ cfg w. or_exit (p.initialize cfg w) λ app w. or_exit (p.start app w) λ _ w.
        let (ending, w1) = p.wait app w in
        let (errors, w2) = p.shutdown app w1 in (returned (exit_code ending errors), w2)
