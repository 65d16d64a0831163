-- ===== src/Gateway/Server.antt =====
-- The constructors of internal/gateway/gateway.go: the id of a gate, its websocket handler and its HTTP
-- server. `signalg` is the parameter `Signalg`; the library of the HTTP server keeps its routes.
use kim_gate.Prelude.{ℕ, Option, none, some, List, [], ◌∷◌}
use kim_gate.Prelude.Int.{ℤ}
use kim_gate.Effect.{Action, pure, ◌>>=◌}
use kim_gate.Text.{Text, codes}
use kim_gate.Config.{Config}
use kim_gate.Auth.{Request}
use kim_gate.Cluster.Subscriber.{SignalSender}
use kim_gate.Rpc.Queries.{Handler}
use kim_gate.Gateway.Hub.{Connection, UserRouteRegistrar, Hub}

-- `signalg.Config`, less its logger; the serialization is protobuf.
pub record SignalgConfig (W : Type 0) : Type 0 where
  pub path : Text
  pub user_provider : Option Request → Action W Text
  pub ping_interval : ℤ
  pub ping_timeout : ℤ

-- `M` is the type of managed handlers, `H` that of the handlers of `SignalGHandler()`; a nil handler is
-- `none`. `hub` is the factory's hub for a connection, asked for when the connection comes.
pub record Signalg (W M H : Type 0) : Type 0 where
  pub new_handler : SignalgConfig W → Action W M
  pub handler_of : M → Option H
  pub add_to_group : Option H → Connection → Text → Action W (Unit {0})
  pub counts : H → Handler W
  pub sender : H → SignalSender W

-- A managed handler with the hub that its factory makes.
pub record ManagedHandler (W M : Type 0) : Type 0 where
  pub managed : M
  pub hub : Hub W

-- `gonanoid.New` is the argument.
unfoldable pub new_server_id : {W : Type 0} → Action W Text → Action W Text
new_server_id nanoid = nanoid >>= λ id. pure id

unfoldable pub server_id_string : Text → Text
server_id_string id = id

-- The routes of the HTTP server.
pub data Route (W M : Type 0) : Type 0 where
  healthz : (W → Text × Text × ℕ) → Route W M
  websocket : ManagedHandler W M → Route W M

pub record Hertz (W M : Type 0) : Type 0 where
  pub addr : Text
  pub routes : List (Text × Route W M)
  pub on_shutdown : List (ManagedHandler W M)

-- The hub of the first websocket route, if there is one.
abbrev pub websocket_hub : {W M : Type 0} → List (Text × Route W M) → Option (Hub W)
websocket_hub [] = none
websocket_hub ((path, healthz reply) ∷ routes) = websocket_hub routes
websocket_hub ((path, websocket handler) ∷ routes) = some handler.hub

module _ {W M H : Type 0} (lib : Signalg W M H) where
  -- The hub that the factory makes where the variable `groupHandler` has the given value. The interface
  -- that holds it is not nil, even where the handler is.
  unfoldable pub hub_with : UserRouteRegistrar W → Text → Option H → Hub W
  hub_with user_routes server_id group_handler = record {
    server_id = server_id;
    user_routes = some user_routes;
    group_joiner = some (record { add_to_group = lib.add_to_group group_handler });
  }

  -- The variable is set before a connection comes.
  unfoldable pub new_signal_g_handler :
      Config
      → (Option Request → Action W Text)
      → UserRouteRegistrar W
      → Text
      → Action W (ManagedHandler W M)
  unfolding hub_with
  new_signal_g_handler cfg user_provider user_routes server_id =
      lib.new_handler (record {
        path = cfg.web_socket_path;
        user_provider = user_provider;
        ping_interval = cfg.ping_interval;
        ping_timeout = cfg.ping_timeout;
      })
      >>= λ managed. pure (record {
        managed = managed;
        hub = hub_with user_routes server_id (lib.handler_of managed);
      })

  unfoldable pub signal_g_handler : Option (ManagedHandler W M) → Option H
  signal_g_handler none = none
  signal_g_handler (some handler) = lib.handler_of handler.managed

  -- `wsHandler.SignalGHandler().Online()`, if there is a handler.
  unfoldable pub online_of : Option H → W → ℕ
  online_of none w = 0
  online_of (some h) w = (lib.counts h).online w

  -- The reply of `/healthz`: the status, the path and how many are online.
  unfoldable pub health : Config → Option (ManagedHandler W M) → W → Text × Text × ℕ
  unfolding online_of signal_g_handler
  health cfg handler w = (codes "ok", cfg.web_socket_path, online_of (signal_g_handler handler) w)

  unfoldable pub new_hertz_server : Config → Option (ManagedHandler W M) → Hertz W M
  unfolding health
  new_hertz_server cfg none = record {
    addr = cfg.http_addr;
    routes = (codes "/healthz", healthz (health cfg none)) ∷ [];
    on_shutdown = [];
  }
  new_hertz_server cfg (some handler) = record {
    addr = cfg.http_addr;
    routes =
        (codes "/healthz", healthz (health cfg (some handler)))
        ∷ (cfg.web_socket_path, websocket handler)
        ∷ [];
    on_shutdown = handler ∷ [];
  }
