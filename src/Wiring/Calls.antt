-- ===== src/Wiring/Calls.antt =====
-- Proofs on the single calls of `Initialize` of wire_gen.go.
use kim_gate.Prelude.{◌≡◌, refl, Option, none, some, List, false, arith}
use kim_gate.Effect.{Result, ok, err, Action, Run, returned, panicked}
use kim_gate.Text.{Text, trim_space}
use kim_gate.Text.Trim.{trim_space_idem}
use kim_gate.Text.Compact.{IsClean}
use kim_gate.Time.{Time}
use kim_gate.Config.{Config}
use kim_gate.Auth.{Request}
use kim_gate.Auth.Jwt.{JwtResolver}
use kim_gate.Data.Commands.{RedisCommands}
use kim_gate.Data.UserRoute.{UserRouteStore, redis_user_route_client, new_user_route_store}
use kim_gate.Gateway.Hub.{UserRouteRegistrar}
use kim_gate.Gateway.Server.{Signalg, ManagedHandler, hub_with, new_signal_g_handler}
use kim_gate.Cluster.Publisher.{PushRedis}
use kim_gate.Cluster.Subscriber.{
  Subscriber, SignalSender, new_subscriber, new_subscriber_with_redis,
}
use kim_gate.Rpc.Service.{PushPublisher}
use kim_gate.Rpc.Queries.{Handler, UserConnectionStore, GatewayService, new_gateway_service}
use kim_gate.Rpc.Server.{
  Network, GrpcLibrary, Server, grpc_server, server_at, etcd_internal_addr, listened, new_server,
}
use kim_gate.Discovery.Registry.{EtcdConfig, Registry, new_registry}
use kim_gate.Wiring.{and_then, and_run}

-- A chain that ended well went through its first call.
pub and_then-ok :
    {W A B : Type 0} (r : Result A × W) (next : A → W → Run (Result B) × W) {b : B} {w' : W}
    → and_then r next ≡ (returned (ok b), w')
    → (a : A) × (r.0 ≡ ok a) × (next a r.1 ≡ (returned (ok b), w'))
unfolding and_then
and_then-ok (ok a, w) next h = (a, refl, h)
and_then-ok (err e, w) next h = absurd (cc h)

pub and_run-ok :
    {W A B : Type 0} (r : Run (Result A) × W) (next : A → W → Run (Result B) × W) {b : B} {w' : W}
    → and_run r next ≡ (returned (ok b), w')
    → (a : A) × (r.0 ≡ returned (ok a)) × (next a r.1 ≡ (returned (ok b), w'))
unfolding and_run and_then
and_run-ok (returned (ok a), w) next h = (a, refl, h)
and_run-ok (returned (err e), w) next h = absurd (cc h)
and_run-ok (panicked e, w) next h = absurd (cc h)

pub store_lem :
    {W : Type 0} (now : W → Time) (cfg : Config) (redis : RedisCommands W) (id : Text)
    {s : UserRouteStore W}
    → new_user_route_store now cfg (some redis) id ≡ ok s
    → (s.redis ≡ redis_user_route_client redis)
      × (s.server_id ≡ trim_space id)
      × IsClean s.server_id
      × (s.route_ttl ≡ cfg.redis_route_ttl)
unfolding new_user_route_store
store_lem now cfg redis id h = ground (arith, trim_space_idem id)

pub managed_lem :
    {W M H : Type 0} (lib : Signalg W M H) (cfg : Config)
    (provider : Option Request → Action W Text) (routes : UserRouteRegistrar W) (id : Text) (w : W)
    {m : ManagedHandler W M}
    → (new_signal_g_handler lib cfg provider routes id w).0 ≡ ok m
    → m.hub ≡ hub_with lib routes id (lib.handler_of m.managed)
unfolding new_signal_g_handler
managed_lem lib cfg provider routes id w h = ground arith

pub service_lem :
    {W : Type 0} (h : Option (Handler W)) (s : UserConnectionStore W) (p : PushPublisher W)
    (r : JwtResolver) {service : GatewayService W}
    → new_gateway_service h (some s) (some p) (some r) ≡ ok service
    → (service.connection_store ≡ s) × (service.publisher ≡ p) × (service.jwt_resolver ≡ r)
unfolding new_gateway_service
service_lem none s p r e = absurd (cc e)
service_lem (some h) s p r e = ground arith

module _ {W G L Service : Type 0} (net : Network W L) (grpc : GrpcLibrary G Service) (cfg : Config)
    (service : Service) (registry : Option Registry) (id : Text) where
  server_at_lem :
      (listener : L) (r : Run Text × W) {server : Server G L}
      → (server_at net grpc cfg service registry id listener r).0 ≡ returned (ok server)
      → (server.server ≡ grpc_server net grpc service)
        × (server.registered_as.id ≡ id)
        × (server.registry ≡ registry)
  unfolding server_at
  server_at_lem listener (panicked e, w) h = absurd (cc h)
  server_at_lem listener (returned address, w) h = ground arith

  listened_lem :
      (r : Result L × W) {server : Server G L}
      → (listened net grpc cfg service registry id r).0 ≡ returned (ok server)
      → (server.server ≡ grpc_server net grpc service)
        × (server.registered_as.id ≡ id)
        × (server.registry ≡ registry)
  unfolding listened
  listened_lem (err e, w) h = absurd (cc h)
  listened_lem (ok listener, w) h = server_at_lem listener (etcd_internal_addr net grpc cfg w) h

  pub server_lem :
      (w : W) {server : Server G L}
      → (new_server net grpc cfg service registry id w).0 ≡ returned (ok server)
      → (server.server ≡ grpc_server net grpc service)
        × (server.registered_as.id ≡ id)
        × (server.registry ≡ registry)
  unfolding new_server
  server_lem w h = listened_lem (net.listen cfg.grpc_addr w) h

pub subscriber_lem :
    {W : Type 0} (cfg : Config) (redis : PushRedis W) (sender : Option (SignalSender W))
    {s : Subscriber W}
    → new_subscriber cfg (some redis) sender ≡ ok s
    → sender ≡ some s.sender
unfolding new_subscriber new_subscriber_with_redis
subscriber_lem cfg redis none h = ground arith
subscriber_lem cfg redis (some x) h = ground arith

-- The registry that `New` makes is not registered.
pub registry_lem :
    {W : Type 0} (new_client : List Text → Text → Text → Action W (Unit {0})) (cfg : EtcdConfig)
    (w : W) {r : Registry}
    → (new_registry new_client cfg w).0 ≡ ok r
    → r.registered ≡ false
unfolding new_registry
registry_lem new_client cfg w h = ground arith
