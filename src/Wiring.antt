-- ===== src/Wiring.antt =====
-- wire_gen.go: how a gate is made of its parts; main.go is in Entry. All libraries are the parameter
-- `Libraries`.
pub mod Calls
pub mod Parts
pub mod Gates
pub mod Entry
pub mod Process
pub mod Exit
use kim_gate.Prelude.{
  ℕ, ◌+◌, ◌/◌, ◌%◌, ltb, Bool, true, false, Option, none, some, List, [], ◌∷◌, ◌++◌, if◌then◌else◌,
}
use kim_gate.Effect.{Result, ok, err, Error, Action, Run, returned, panicked}
use kim_gate.Text.{Text}
use kim_gate.Time.{Time}
use kim_gate.Config.{Config}
use kim_gate.Auth.{TokenResolver, Request, get_user_id}
use kim_gate.Auth.Jwt.{Jwt, JwtResolver, new_jwt_resolver, resolve_token}
use kim_gate.Data.Client.{RedisLibrary, new_data}
use kim_gate.Data.Commands.{RedisCommands}
use kim_gate.Data.UserRoute.{UserRouteStore, new_user_route_store}
use kim_gate.Sessions.{registrar, connection_store}
use kim_gate.Gateway.Server.{
  Signalg, ManagedHandler, Hertz, new_server_id, server_id_string, new_signal_g_handler,
  signal_g_handler, new_hertz_server,
}
use kim_gate.Cluster.Publisher.{Codec, RedisPubSub, redis_push_client, Publisher, new_publisher}
use kim_gate.Cluster.Subscriber.{Subscriber, SignalSender, new_subscriber}
use kim_gate.Rpc.Delivery.{push_publisher}
use kim_gate.Rpc.Queries.{Handler, GatewayService, new_gateway_service}
use kim_gate.Rpc.Server.{Network, GrpcLibrary, Server, new_server}
use kim_gate.Discovery.Registry.{EtcdConfig, Registry, new_registry}

-- `M` and `H` are the handlers of signalg, `G` a gRPC server, `L` a listener, `O` and `R` the options
-- and the clients of Redis.
pub record Libraries (W M H G L O R : Type 0) : Type 0 where
  pub redis : RedisLibrary W O R
  pub commands : R → RedisCommands W
  pub push_redis : R → RedisPubSub W
  pub nanoid : Action W Text
  pub signalg : Signalg W M H
  pub network : Network W L
  pub grpc : GrpcLibrary G (GatewayService W)
  pub new_etcd_client : List Text → Text → Text → Action W (Unit {0})
  pub jwt : Jwt W
  pub codec : Codec
  pub now : W → Time
  pub sum64 : Text → ℕ

-- `App`
pub record App (W M G L R : Type 0) : Type 0 where
  pub cfg : Config
  pub http : Hertz W M
  pub grpc : Server G L
  pub redis : R
  pub push : Subscriber W
  pub user_routes : UserRouteStore W

-- `New` of internal/app/app.go; the channel that it makes is in App/Done.
abbrev pub new_app :
    {W M G L R : Type 0}
    → Config
    → Hertz W M
    → Server G L
    → R
    → Subscriber W
    → UserRouteStore W
    → App W M G L R
new_app cfg http grpc redis push user_routes = record {
  cfg = cfg;
  http = http;
  grpc = grpc;
  redis = redis;
  push = push;
  user_routes = user_routes;
}

-- `if err != nil { return nil, err }` after a call.
unfoldable pub and_then :
    {W A B : Type 0} → Result A × W → (A → W → Run (Result B) × W) → Run (Result B) × W
and_then (err e, w) next = (returned (err e), w)
and_then (ok a, w) next = next a w

unfoldable pub and_run :
    {W A B : Type 0} → Run (Result A) × W → (A → W → Run (Result B) × W) → Run (Result B) × W
unfolding and_then
and_run (panicked e, w) next = (panicked e, w)
and_run (returned r, w) next = and_then (r, w) next

-- `ProvideJWTResolver`
unfoldable pub provide_jwt_resolver : Config → JwtResolver
unfolding new_jwt_resolver
provide_jwt_resolver cfg = new_jwt_resolver cfg.jwt_secret cfg.jwt_expiration

unfoldable pub provide_etcd_config : Config → EtcdConfig
provide_etcd_config cfg = record {
  endpoints = cfg.etcd_endpoints;
  service_name = cfg.etcd_service_name;
  username = cfg.etcd_username;
  password = cfg.etcd_password;
  ttl = cfg.etcd_ttl;
}

-- A handler that may be nil, as the interface that a constructor takes.
abbrev pub over {ℓ} : {A B : Type ℓ} → (A → B) → Option A → Option B
over f none = none
over f (some a) = some (f a)

module _ {W M H G L O R : Type 0} (lib : Libraries W M H G L O R) where
  -- `NewUserProvider` over the resolver.
  unfoldable pub user_provider : JwtResolver → Option Request → Action W Text
  user_provider resolver =
      get_user_id
        (some (record { resolve_token = λ token w. (resolve_token lib.jwt resolver token w, w) }))

  -- `Initialize` after the websocket handler was made.
  unfoldable pub serve_with :
      Config
      → R
      → Text
      → UserRouteStore W
      → ManagedHandler W M
      → W
      → Run (Result (App W M G L R)) × W
  unfolding provide_jwt_resolver provide_etcd_config
  serve_with cfg client id routes managed w =
      let handler = signal_g_handler lib.signalg (some managed) in
      and_then (new_publisher cfg (some (redis_push_client (lib.push_redis client))), w)
        λ publisher w.
          and_then
            (
              new_gateway_service (over lib.signalg.counts handler)
                  (some (connection_store lib.sum64 routes))
                  (some (push_publisher lib.codec publisher)) (some (provide_jwt_resolver cfg)),
              w,
            )
            λ service w.
              and_then (new_registry lib.new_etcd_client (provide_etcd_config cfg) w) λ registry w.
                and_run (new_server lib.network lib.grpc cfg service (some registry) id w)
                  λ server w.
                    and_then
                      (
                        new_subscriber cfg (some (redis_push_client (lib.push_redis client)))
                            (over lib.signalg.sender handler),
                        w,
                      )
                      λ subscriber w. (
                        returned (
                            ok (
                              new_app cfg (new_hertz_server lib.signalg cfg (some managed)) server
                                client subscriber routes)),
                        w,
                      )

  unfoldable pub initialize : Config → W → Run (Result (App W M G L R)) × W
  unfolding user_provider serve_with provide_jwt_resolver
  initialize cfg w = and_then (new_data lib.redis cfg w) λ client w.
      and_then (new_server_id lib.nanoid w) λ id w.
        and_then
          (new_user_route_store lib.now cfg (some (lib.commands client)) (server_id_string id), w)
          λ routes w.
            and_then
              (new_signal_g_handler lib.signalg cfg (user_provider (provide_jwt_resolver cfg))
                (registrar lib.sum64 routes) id w)
              λ managed w. serve_with cfg client (server_id_string id) routes managed w
