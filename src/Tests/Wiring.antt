-- ===== src/Tests/Wiring.antt =====
-- A gate that is made over the Redis of `Tests.Redis`, with libraries that do what they are asked.
use kim_gate.Prelude.{ℕ, ◌≡◌, ◌↔◌, true, false, some, arith, ◌*◌, refl, none, List, [], ◌∷◌, length}
use kim_gate.Prelude.Int.{pos, ◌≤ℤ◌}
use kim_gate.Effect.{ok, err, foreign, returned}
use kim_gate.Text.{Text, codes, trim_space, contains, is_empty}
use kim_gate.Text.HostPort.{split_host_port, split_plain, cut_last}
use kim_gate.Time.{second, whole_seconds}
use kim_gate.Config.{Config, defaults}
use kim_gate.Data.Client.{new_data, redis_options_from_dsn}
use kim_gate.Data.UserRoute.{new_user_route_store, new_user_route_store_with_redis}
use kim_gate.Cluster.Channels.{new_push_channels, normalize_push_channels}
use kim_gate.Cluster.Publisher.{new_publisher, new_publisher_with_redis}
use kim_gate.Cluster.Subscriber.{new_subscriber, new_subscriber_with_redis}
use kim_gate.Gateway.Server.{
  new_server_id, server_id_string, new_signal_g_handler, signal_g_handler, websocket_hub,
  new_hertz_server, hub_with,
}
use kim_gate.Gateway.Hub.{Hub}
use kim_gate.Discovery.Registry.{new_registry}
use kim_gate.Rpc.Server.{new_server, listened, server_at, etcd_internal_addr}
use kim_gate.Rpc.Queries.{GatewayService, new_gateway_service, get_user_connections}
use kim_gate.Wiring.{Libraries, App, initialize, serve_with, and_then, and_run}
use kim_gate.Wiring.Gates.{gate_of, wholes, presence_of_initialize}
use kim_gate.Proto.{UserConnection}
use kim_gate.Sessions.{has_connection, registrar}
use kim_gate.Presence.{nobody, record_events, happen_all}
use kim_gate.Tests.Presence.{events, empty, empty-Agrees}
use kim_gate.Tests.Wire.{codec}
use kim_gate.Tests.Redis.{World, redis, hash_laws, keyspace_laws}

-- Handlers are numbers, a listener is its address, and a gRPC server its services.
abbrev pub lib : Libraries World Text Text (List (GatewayService World)) Text Text Text
lib = record {
  redis = record {
    parse_url = λ url. ok url;
    new_client = λ url w. (url, w);
    ping = λ client w. (ok tt, w);
    close = λ client w. (ok tt, w);
  };
  commands = λ client. redis;
  push_redis = λ client. record {
    publish = λ channel payload w. (ok 0, w);
    subscribe = λ channels w. (record { received = []; close = λ v. (ok tt, v) }, w);
  };
  nanoid = λ w. (ok (codes "gate-a"), w);
  signalg = record {
    new_handler = λ cfg w. (ok cfg.path, w);
    handler_of = λ path. some path;
    add_to_group = λ h conn group w. (ok tt, w);
    counts = λ h. record { user_online = λ _ _. 0; group_online = λ _ _. 0; online = λ _. 0 };
    sender = λ h. record {
      send_users_raw = λ _ _ _ w. (record { error = none }, w);
      send_connections_raw = λ _ _ _ w. (record { error = none }, w);
      close_users = λ _ w. (record { error = none }, w);
      close_connections = λ _ w. (record { error = none }, w);
      send_group_raw = λ _ _ _ w. (record { error = none }, w);
      send_all_raw = λ _ _ w. (record { error = none }, w);
    };
  };
  network = record {
    listen = λ addr w. (ok addr, w);
    listening_addr = λ addr. addr;
    get_internal_ip = λ w. (ok (codes "10.0.0.7"), w);
  };
  grpc = record {
    new_grpc_server = [];
    register_gateway = λ service server. service ∷ server;
    register_health = λ names server. server;
  };
  new_etcd_client = λ endpoints username password w. (ok tt, w);
  jwt = record {
    now = λ w. second;
    numeric_date = λ t. t;
    signed_string = λ claims secret. err (foreign 0);
    parse_with_claims = λ token key w. err (foreign 0);
  };
  codec = codec;
  now = λ w. second;
  sum64 = length;
}

abbrev pub cfg : Config
cfg = record defaults {
  grpc_addr = codes ":9090";
  redis_dsn = codes "redis://r";
  redis_route_ttl = pos (60 * second);
  redis_push_users_channel = codes "push:users";
  redis_push_group_channel = codes "push:group";
  redis_push_broadcast_channel = codes "push:all";
}

pub made :
    (app : App World Text (List (GatewayService World)) Text Text) × (w : World) × (initialize lib
        cfg empty
      ≡ (returned (ok app), w))
unfolding initialize serve_with and_then and_run new_data redis_options_from_dsn trim_space
    new_server_id server_id_string new_user_route_store new_user_route_store_with_redis
    new_signal_g_handler signal_g_handler new_publisher new_publisher_with_redis new_push_channels
    normalize_push_channels new_gateway_service new_registry new_server listened server_at
    etcd_internal_addr split_host_port split_plain cut_last contains new_subscriber
    new_subscriber_with_redis
made = (_, _, refl)

-- The gates of the events of `Tests.Presence` are all made alike.
abbrev all_made :
    (g : ℕ) → (w : World) × (w' : World) × (initialize lib cfg w ≡ (returned (ok made.0), w'))
all_made g = (empty, made.1, made.2)

made_lives : pos 1 ≤ℤ whole_seconds made.0.cfg.redis_route_ttl
unfolding made whole_seconds
made_lives = omega arith

abbrev made_hub : Hub World
made_hub = record {
  server_id = codes "gate-a";
  user_routes = some (registrar lib.sum64 made.0.user_routes);
  group_joiner = some (record { add_to_group = λ conn group w. (ok tt, w) });
}

routed : websocket_hub made.0.http.routes ≡ some made_hub
unfolding made new_hertz_server hub_with
routed = refl

user_there : is_empty (trim_space (codes " shop:ann")) ≡ false
unfolding trim_space
user_there = refl

presence_of_initialize_example :
    (connections : List UserConnection) × ((get_user_connections
        (wholes lib hash_laws (λ g. cfg) (λ g. made.0) all_made 1).service.connection_store
        (some (record { user_id = codes " shop:ann" }))
        (happen_all lib.sum64 redis (λ n. gate_of lib hash_laws made.0 made_hub) events empty)).0
      ≡ ok connections)
    × ((c s : Text)
        → (has_connection c s connections ≡ true) ↔ (
            record_events
              (λ n. made.0.user_routes.server_id)
              events
              nobody
              (trim_space (codes " shop:ann"))
              c
            ≡ some s))
presence_of_initialize_example =
    presence_of_initialize lib hash_laws keyspace_laws (λ g. cfg) (λ g. made.0) all_made
      (λ n. made_hub) events empty 1 (codes " shop:ann") (λ n. routed) (λ h conn group key v. refl)
      (λ n. refl) (λ n. made_lives) empty-Agrees user_there
