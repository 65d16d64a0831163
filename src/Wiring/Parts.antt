-- ===== src/Wiring/Parts.antt =====
-- Proofs on `Initialize` of wire_gen.go: how the parts of a gate belong together.
use kim_gate.Prelude.{◌≡◌, refl, sym, ap, subst, ◌∙◌, Option, none, some, true, false}
use kim_gate.Effect.{Result, ok, Run, returned}
use kim_gate.Text.{Text, elem, trim_space}
use kim_gate.Text.Compact.{IsClean}
use kim_gate.Proto.{PushTarget}
use kim_gate.Config.{Config}
use kim_gate.Data.UserRoute.{UserRouteStore, redis_user_route_client}
use kim_gate.Sessions.{registrar, connection_store}
use kim_gate.Gateway.Server.{
  ManagedHandler, hub_with, server_id_string, signal_g_handler, new_hertz_server,
}
use kim_gate.Cluster.Channels.{channel_for_target}
use kim_gate.Cluster.Publisher.{redis_push_client, Publisher}
use kim_gate.Cluster.Subscriber.{new_subscriber, channels}
use kim_gate.Cluster.Routing.{published_is_subscribed}
use kim_gate.Rpc.Delivery.{push_publisher}
use kim_gate.Rpc.Queries.{GatewayService}
use kim_gate.Rpc.Server.{grpc_server}
use kim_gate.Discovery.Registry.{Registry}
use kim_gate.Wiring.{Libraries, App, over, provide_etcd_config, serve_with, initialize}
use kim_gate.Wiring.Calls.{
  and_then-ok, and_run-ok, store_lem, managed_lem, service_lem, server_lem, subscriber_lem,
  registry_lem,
}

-- The parts of a gate that belong together: the hub and the gRPC service use the store that the poller
-- polls, the hub of the handler that the HTTP server routes to adds connections to the groups of that
-- handler, the gate is registered under the id of its hub, which is that of its routes when trimmed, the
-- subscriber sends through the websocket handler of the HTTP server, it listens on every channel that
-- the service publishes on, and the registry is not registered yet.
pub record IsWhole {W M H G L O R : Type 0} (lib : Libraries W M H G L O R) (app : App W M G L R)
    : Type 0 where
  pub managed : ManagedHandler W M
  pub service : GatewayService W
  pub publisher : Publisher W
  pub handler : H
  pub http : app.http ≡ new_hertz_server lib.signalg app.cfg (some managed)
  pub hub : managed.hub ≡ record {
    server_id = app.grpc.registered_as.id;
    user_routes = some (registrar lib.sum64 app.user_routes);
    group_joiner = some (record { add_to_group = lib.signalg.add_to_group (some handler) });
  }
  pub handler_lem : lib.signalg.handler_of managed.managed ≡ some handler
  pub sender : app.push.sender ≡ lib.signalg.sender handler
  pub server_id : app.user_routes.server_id ≡ trim_space app.grpc.registered_as.id
  pub clean : IsClean app.user_routes.server_id
  pub ttl : app.user_routes.route_ttl ≡ app.cfg.redis_route_ttl
  pub routes : app.user_routes.redis ≡ redis_user_route_client (lib.commands app.redis)
  pub server : app.grpc.server ≡ grpc_server lib.network lib.grpc service
  pub store : service.connection_store ≡ connection_store lib.sum64 app.user_routes
  pub published : service.publisher ≡ push_publisher lib.codec publisher
  pub subscribed :
      (target : PushTarget) (channel : Text)
      → channel_for_target publisher.channels target ≡ ok channel
      → elem channel (channels (some app.push)) ≡ true
  pub registry : (r : Registry) × (app.grpc.registry ≡ some r) × (r.registered ≡ false)

made_equal :
    {W A : Type 0} {a b : A} {v w : W}
    → ◌≡◌ {A = Run (Result A) × W} (returned (ok a), v) (returned (ok b), w)
    → a ≡ b
made_equal h = cc h

over-some :
    {A B : Type 0} (f : A → B) (o : Option A) {b : B}
    → over f o ≡ some b
    → (a : A) × (o ≡ some a) × (b ≡ f a)
over-some f none h = absurd (cc h)
over-some f (some a) h = (a, refl, cc h)

module _ {W M H G L O R : Type 0} (lib : Libraries W M H G L O R) (cfg : Config) where
  serve_with-IsWhole :
      (client : R) (id : Text) (routes : UserRouteStore W) (managed : ManagedHandler W M) (w : W)
      {app : App W M G L R} {w' : W}
      → managed.hub
        ≡ hub_with lib.signalg
            (registrar lib.sum64 routes)
            id
            (lib.signalg.handler_of managed.managed)
      → routes.server_id ≡ trim_space id
      → IsClean routes.server_id
      → routes.route_ttl ≡ cfg.redis_route_ttl
      → routes.redis ≡ redis_user_route_client (lib.commands client)
      → serve_with lib cfg client id routes managed w ≡ (returned (ok app), w')
      → IsWhole lib app
  unfolding serve_with signal_g_handler hub_with
  serve_with-IsWhole client id routes managed w {app} {w'} hub server_id clean ttl redis h =
      let (publisher, p, h1) = and_then-ok _ _ h in
      let (service, s, h2) = and_then-ok _ _ h1 in
      let (registry, r, h3) = and_then-ok _ _ h2 in
      let (server, v, h4) = and_run-ok _ _ h3 in
      let (subscriber, u, h5) = and_then-ok _ _ h4 in
      let (same_server, same_id, same_registry) =
        server_lem lib.network lib.grpc cfg service (some registry) id _ v in
      let chosen = subscriber_lem cfg (redis_push_client (lib.push_redis client)) _ u in
      let (handler, found, sends) = over-some lib.signalg.sender _ chosen in
      let back = sym same_id in
      let (stored, pushed, _) = service_lem _ _ _ _ s in
      subst (IsWhole lib) (made_equal h5) (record {
        managed = managed;
        service = service;
        publisher = publisher;
        handler = handler;
        http = refl;
        hub = hub ∙ (λ i. hub_with lib.signalg (registrar lib.sum64 routes) (back i) (found i));
        handler_lem = found;
        sender = sends;
        server_id = server_id ∙ ap trim_space (sym same_id);
        clean = clean;
        ttl = ttl;
        routes = redis;
        server = same_server;
        store = stored;
        published = pushed;
        subscribed = λ target channel c.
            published_is_subscribed cfg (redis_push_client (lib.push_redis client))
              (redis_push_client (lib.push_redis client)) _ target p
              (subst
                (λ o.
                  new_subscriber cfg (some (redis_push_client (lib.push_redis client))) o
                  ≡ ok subscriber)
                chosen u)
              c;
        registry = (
          registry,
          same_registry,
          registry_lem lib.new_etcd_client (provide_etcd_config cfg) _ r,
        );
      })

  pub initialize-IsWhole :
      (w : W) {app : App W M G L R} {w' : W}
      → initialize lib cfg w ≡ (returned (ok app), w')
      → IsWhole lib app
  unfolding initialize server_id_string
  initialize-IsWhole w {app} {w'} h =
      let (client, c, h1) = and_then-ok _ _ h in
      let (id, n, h2) = and_then-ok _ _ h1 in
      let (routes, r, h3) = and_then-ok _ _ h2 in
      let (managed, m, h4) = and_then-ok _ _ h3 in
      let (redis, trimmed, clean, ttl) =
        store_lem lib.now cfg (lib.commands client) (server_id_string id) r in
      serve_with-IsWhole client (server_id_string id) routes managed _
        (managed_lem lib.signalg cfg _ _ id _ m) trimmed clean ttl redis h4
