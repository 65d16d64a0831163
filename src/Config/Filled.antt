-- ===== src/Config/Filled.antt =====
-- How `Load` of internal/config/config.go may end: what of `ReadInConfig` ends it, and which key each
-- field of the configuration is filled from.
use kim_gate.Prelude.{◌≡◌, ◌⊎◌, true, false, Option, none, some}
use kim_gate.Prelude.Int.{ℤ}
use kim_gate.Effect.{Error}
use kim_gate.Text.{Text, codes, is_empty}
use kim_gate.Config.{Config}
use kim_gate.Config.Library.{ReadError, not_found, failed}

-- What `ReadInConfig` returned is an error that ends `Load`: not that there is no file, unless a file
-- was named.
abbrev pub IsRefused : Text → Error → Option ReadError → Type 0
IsRefused path e r = (r ≡ some (failed e)) ⊎ ((r ≡ some (not_found e)) × (is_empty path ≡ false))

-- It is no error, or that there is no file, while none was named.
abbrev pub IsTolerated : Text → Option ReadError → Type 0
IsTolerated path r = (r ≡ none) ⊎ ((e : Error) × (r ≡ some (not_found e)) × (is_empty path ≡ true))

-- Each field has the text or the duration of its key.
pub record IsFilled (text : Text → Text) (time : Text → ℤ) (c : Config) : Type 0 where
  pub http_addr : c.http_addr ≡ text (codes "http.addr")
  pub web_socket_path : c.web_socket_path ≡ text (codes "websocket.path")
  pub grpc_addr : c.grpc_addr ≡ text (codes "grpc.addr")
  pub etcd_endpoints_str : c.etcd_endpoints_str ≡ text (codes "etcd.endpoints")
  pub etcd_service_name : c.etcd_service_name ≡ text (codes "etcd.service")
  pub etcd_username : c.etcd_username ≡ text (codes "etcd.username")
  pub etcd_password : c.etcd_password ≡ text (codes "etcd.password")
  pub etcd_ttl : c.etcd_ttl ≡ time (codes "etcd.ttl")
  pub env : c.env ≡ text (codes "env")
  pub shutdown_timeout : c.shutdown_timeout ≡ time (codes "shutdown.timeout")
  pub ping_interval : c.ping_interval ≡ time (codes "signalg.ping_interval")
  pub ping_timeout : c.ping_timeout ≡ time (codes "signalg.ping_timeout")
  pub redis_dsn : c.redis_dsn ≡ text (codes "redis.dsn")
  pub redis_route_ttl : c.redis_route_ttl ≡ time (codes "redis.route_ttl")
  pub redis_push_channel : c.redis_push_channel ≡ text (codes "redis.push_channel")
  pub redis_push_users_channel :
      c.redis_push_users_channel ≡ text (codes "redis.push_users_channel")
  pub redis_push_group_channel :
      c.redis_push_group_channel ≡ text (codes "redis.push_group_channel")
  pub redis_push_broadcast_channel :
      c.redis_push_broadcast_channel ≡ text (codes "redis.push_broadcast_channel")
  pub jwt_secret : c.jwt_secret ≡ text (codes "jwt.secret")
  pub jwt_expiration : c.jwt_expiration ≡ time (codes "jwt.expiration")
