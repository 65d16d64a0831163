-- ===== src/Wiring/Exit.antt =====
-- Proofs on a process of main.go: its exit code, and what it leaves behind.
use kim_gate.Prelude.{◌≡◌, ◌↔◌, none, ◌++◌}
use kim_gate.Effect.{Result, ok}
use kim_gate.Config.{Config}
use kim_gate.Discovery.Registry.{Registry}
use kim_gate.App.Done.{Goroutine}
use kim_gate.App.Shutdown
use kim_gate.App.Shutdown.{errors_of}
use kim_gate.Wiring.{Libraries, App}
use kim_gate.Wiring.Entry.{exit_code}
use kim_gate.Wiring.Process.{Ended, signal_came, sends, ending_of, Servers, Cells, parts_of, waited}

-- A signal came, or the HTTP server ended without an error.
abbrev pub IsCalm : Ended → Type 0
IsCalm signal_came = Unit
IsCalm (sends x r m e) = (x ≡ Goroutine.http) × (r ≡ none)

abbrev Stopped : Result (Unit {0}) → Result (Unit {0}) → Result (Unit {0}) → Type 0
Stopped http grpc data_result = (http ≡ ok tt) × (grpc ≡ ok tt) × (data_result ≡ ok tt)

abbrev Code : Ended → Result (Unit {0}) → Result (Unit {0}) → Result (Unit {0}) → Type 0
Code ended http grpc data_result =
    (exit_code (ending_of ended) (errors_of http ++ (errors_of grpc ++ errors_of data_result)) ≡ 0)
    ↔ (IsCalm ended × Stopped http grpc data_result)

module _ {W M H G L O R : Type 0} (lib : Libraries W M H G L O R) (servers : Servers W M G L R)
    (app : App W M G L R) where
  -- The three stops of `Shutdown`, after the background was cancelled.
  abbrev pub AllStop : Cells W → Type 0
  AllStop c =
      let parts = parts_of lib servers app in
      let (http, c1) = parts.shutdown_http (parts.stop_background c) in
      let (grpc, c2) = parts.shutdown_grpc c1 in Stopped http grpc (parts.close_data c2).0

-- The state of the process when `main` has stopped waiting.
abbrev pub when_stopped :
    {W M H G L O R : Type 0}
    → Libraries W M H G L O R
    → Servers W M G L R
    → App W M G L R
    → Cells W
    → W
    → Cells W
when_stopped lib servers app c w =
    waited lib servers app (servers.wait app w)
      (record c { registry = app.grpc.registry; world = w })
