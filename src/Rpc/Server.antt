-- ===== src/Rpc/Server.antt =====
-- internal/rpc/server.go: `NewServer`, `Start` and the helpers of the instance that is registered. The
-- network and the gRPC library are the parameters `Network` and `GrpcLibrary`.
use kim_gate.Prelude.{◌++◌, Option, none, some, List, [], ◌∷◌, if◌then◌else◌}
use kim_gate.Effect.{
  Result, ok, err, Error, wrap_named, is, server_stopped, Action, Run, returned, panicked,
}
use kim_gate.Text.{Text, codes, is_empty}
use kim_gate.Text.HostPort.{split_host_port, join_host_port}
use kim_gate.Config.{Config}
use kim_gate.Discovery.Registry.{ServiceInstance, Registry, Etcd, State, register}

-- `net.Listen` on tcp, `Addr().String()`, and `ipx.GetInternalIp`.
pub record Network (W Listener : Type 0) : Type 0 where
  pub listen : Text → Action W Listener
  pub listening_addr : Listener → Text
  pub get_internal_ip : Action W Text

-- A gRPC server with its services; health is registered with the names that it reports as serving.
pub record GrpcLibrary (G Service : Type 0) : Type 0 where
  pub new_grpc_server : G
  pub register_gateway : Service → G → G
  pub register_health : List Text → G → G

pub record Server (G Listener : Type 0) : Type 0 where
  pub server : G
  pub listener : Listener
  pub addr : Text
  pub registry : Option Registry
  pub registered_as : ServiceInstance

-- `GatewayService_ServiceDesc.ServiceName`
abbrev pub gateway_service_name : Text
gateway_service_name = codes "kimgate.v1.GatewayService"

unfoldable pub etcd_service_name : Config → Text
etcd_service_name cfg =
    if is_empty cfg.env
    then cfg.etcd_service_name
    else cfg.etcd_service_name ++ (codes "-" ++ cfg.env)

-- The end of `etcdInternalAddr`: the internal address takes the place of the host.
abbrev pub with_internal_ip : {W : Type 0} → Text → Result Text × W → Run Text × W
with_internal_ip port (err e, w) = (panicked e, w)
with_internal_ip port (ok ip, w) = (returned (join_host_port ip port), w)

module _ {W G Listener Service : Type 0} (net : Network W Listener)
    (grpc : GrpcLibrary G Service) where
  unfoldable pub etcd_internal_addr : Config → W → Run Text × W
  etcd_internal_addr cfg w = elim (split_host_port cfg.grpc_addr) [
    | err e ↦ (panicked e, w)
    | ok (_, port) ↦ with_internal_ip port (net.get_internal_ip w)
  ]

  unfoldable pub grpc_server : Service → G
  grpc_server service =
      grpc.register_health ([] ∷ gateway_service_name ∷ [])
        (grpc.register_gateway service grpc.new_grpc_server)

  unfoldable pub server_at :
      Config
      → Service
      → Option Registry
      → Text
      → Listener
      → Run Text × W
      → Run (Result (Server G Listener)) × W
  unfolding grpc_server etcd_service_name
  server_at cfg service registry instance_id listener (panicked e, w) = (panicked e, w)
  server_at cfg service registry instance_id listener (returned address, w) = (
    returned (
        ok (record {
          server = grpc_server service;
          listener = listener;
          addr = net.listening_addr listener;
          registry = registry;
          registered_as = record {
            id = instance_id;
            name = etcd_service_name cfg;
            address = address;
          };
        })),
    w,
  )

  unfoldable pub listened :
      Config
      → Service
      → Option Registry
      → Text
      → Result Listener × W
      → Run (Result (Server G Listener)) × W
  unfolding etcd_internal_addr server_at
  listened cfg service registry instance_id (err e, w) =
      (returned (err (wrap_named "listen grpc tcp" cfg.grpc_addr e)), w)
  listened cfg service registry instance_id (ok listener, w) =
      server_at cfg service registry instance_id listener (etcd_internal_addr cfg w)

  unfoldable pub new_server :
      Config → Service → Option Registry → Text → W → Run (Result (Server G Listener)) × W
  unfolding listened
  new_server cfg service registry instance_id w =
      listened cfg service registry instance_id (net.listen cfg.grpc_addr w)

-- What the serving goroutine of `Start` sends on `done`, for what `Serve` returned.
unfoldable pub serve_result : Option Error → Option Error
serve_result none = none
serve_result (some e) = if is e server_stopped then none else some e

-- The registering goroutine of `Start`; an error is only logged.
unfoldable pub register_instance : {W : Type 0} → Etcd W → ServiceInstance → State W → State W
register_instance etcd i state = let (_, r, w) = register etcd i state in (r, w)
