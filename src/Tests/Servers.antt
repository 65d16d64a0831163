-- ===== src/Tests/Servers.antt =====
-- The gRPC server of the gate of `Tests.Wiring`, and the goroutines around it.
use kim_gate.Prelude.{◌≡◌, refl, true, false, some, Option, List, [], ◌∷◌}
use kim_gate.Effect.{ok, Error, foreign}
use kim_gate.Text.{Text}
use kim_gate.Rpc.Server.{GrpcLibrary, Server}
use kim_gate.App.Done.{
  push, poller, serve, http, grpc, Present, Background, Steps, stay, step, start, ends, sent, send,
}
use kim_gate.App.Room.{send_lem}

-- A server is the list of its services, and a service is its name.
abbrev servers : GrpcLibrary (List Text) Text
servers = record {
  new_grpc_server = [];
  register_gateway = λ service server. service ∷ server;
  register_health = λ names server. server;
}

-- A gate without a registry.
abbrev gate : Present
gate = record { push = true; user_routes = true; registry = false }

abbrev at_first : Background
at_first = record { running = push ∷ poller ∷ serve ∷ http ∷ grpc ∷ []; done = [] }

-- The HTTP server has ended, and the main goroutine has not received its error.
abbrev after_http : Background
after_http = record { running = push ∷ poller ∷ serve ∷ grpc ∷ []; done = some (foreign 0) ∷ [] }

started : start (some gate) ≡ ok at_first
unfolding start
started = refl

ended : Steps at_first after_http
unfolding sent
ended =
    step
      (ends (push ∷ poller ∷ serve ∷ []) (grpc ∷ []) http (some (foreign 0)) (some (foreign 0) ∷ [])
        refl refl refl)
      stay

send_lem_example :
    (buffer : List (Option Error)) × (send (sent grpc (some (foreign 1))) after_http.done
      ≡ some buffer)
send_lem_example =
    send_lem gate (push ∷ poller ∷ serve ∷ []) [] grpc (some (foreign 1)) started ended refl
