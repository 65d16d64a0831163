-- ===== src/App/Shutdown.antt =====
-- `Shutdown` of internal/app/app.go and of internal/rpc/server.go. The servers are parameters, as
-- actions on the state `W`.
use kim_gate.Prelude.{Bool, true, false, Option, none, some, List, [], ◌∷◌, ◌++◌}
use kim_gate.Effect.{Result, ok, err, Error, Action}

-- What a shutdown stops, in the order of the calls.
pub record Parts (W : Type 0) : Type 0 where
  pub stop_background : W → W
  pub shutdown_http : Action W (Unit {0})
  pub shutdown_grpc : Action W (Unit {0})
  pub close_data : Action W (Unit {0})

-- `errors.Join`, by the list of the errors that are not nil.
abbrev pub errors_of : Result (Unit {0}) → List Error
errors_of (ok _) = []
errors_of (err e) = e ∷ []

-- The state of `once`, and the world; the result is the joined errors.
unfoldable pub shutdown : {W : Type 0} → Parts W → Bool × W → List Error × Bool × W
shutdown parts (true, w) = ([], true, w)
shutdown parts (false, w) =
    let (http, w1) = parts.shutdown_http (parts.stop_background w) in
    let (grpc, w2) = parts.shutdown_grpc w1 in
    let (data_result, w3) = parts.close_data w2 in
    (errors_of http ++ (errors_of grpc ++ errors_of data_result), true, w3)

-- A gRPC server: its registry, if it has one, and how stopping goes. `graceful` is the graceful stop,
-- with `none` if it ended in time, or the error of the context and the state after the forced stop.
pub record Server (W : Type 0) : Type 0 where
  pub deregister : Option (W → W)
  pub close_registry : Option (W → W)
  pub graceful : W → Option Error × W

abbrev pub apply : {W : Type 0} → Option (W → W) → W → W
apply none w = w
apply (some f) w = f w

abbrev pub stopped : {W : Type 0} → Option (W → W) → Option Error × W → Result (Unit {0}) × W
stopped close (none, w) = (ok tt, apply close w)
stopped close (some e, w) = (err e, w)

-- Errors of the registry are only logged; after a forced stop the registry is not closed.
unfoldable pub shutdown_server : {W : Type 0} → Option (Server W) → Action W (Unit {0})
shutdown_server none w = (ok tt, w)
shutdown_server (some s) w = stopped s.close_registry (s.graceful (apply s.deregister w))
