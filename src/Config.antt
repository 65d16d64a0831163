-- ===== src/Config.antt =====
-- internal/config/config.go: the configuration record, its constants and its defaults. A
-- `time.Duration` is an integer number of nanoseconds.
pub mod Normalize
pub mod Validate
pub mod Paths
pub mod Laws
pub mod Library
pub mod Tables
pub mod Load
pub mod Bindings
pub mod Sources
pub mod Filled
pub mod Settings
pub mod Loaded
use kim_gate.Prelude.{◌*◌, ◌++◌, List, []}
use kim_gate.Prelude.Int.{ℤ, pos}
use kim_gate.Text.{Text, codes}
use kim_gate.Time.{second}

pub record Config : Type 0 where
  pub http_addr : Text
  pub web_socket_path : Text
  pub grpc_addr : Text
  pub etcd_endpoints_str : Text
  pub etcd_endpoints : List Text
  pub etcd_service_name : Text
  pub etcd_username : Text
  pub etcd_password : Text
  pub etcd_ttl : ℤ
  pub env : Text
  pub shutdown_timeout : ℤ
  pub ping_interval : ℤ
  pub ping_timeout : ℤ
  pub redis_dsn : Text
  pub redis_route_ttl : ℤ
  pub redis_push_channel : Text
  pub redis_push_users_channel : Text
  pub redis_push_group_channel : Text
  pub redis_push_broadcast_channel : Text
  pub jwt_secret : Text
  pub jwt_expiration : ℤ

abbrev pub default_http_addr : Text
default_http_addr = codes ":8888"

abbrev pub default_grpc_addr : Text
default_grpc_addr = codes ":9090"

abbrev pub default_etcd_endpoints : Text
default_etcd_endpoints = codes "localhost:2379"

abbrev pub default_etcd_service_name : Text
default_etcd_service_name = codes "kim-gate"

abbrev pub default_etcd_ttl : ℤ
default_etcd_ttl = pos (15 * second)

abbrev pub default_etcd_username : Text
default_etcd_username = []

abbrev pub default_etcd_password : Text
default_etcd_password = []

abbrev pub default_env : Text
default_env = []

abbrev pub default_shutdown_timeout : ℤ
default_shutdown_timeout = pos (10 * second)

abbrev pub default_ping_interval : ℤ
default_ping_interval = pos (30 * second)

abbrev pub default_ping_timeout : ℤ
default_ping_timeout = pos (60 * second)

abbrev pub default_redis_dsn : Text
default_redis_dsn = codes "redis://localhost:6379/0"

abbrev pub default_redis_route_ttl : ℤ
default_redis_route_ttl = pos (60 * second)

abbrev pub default_web_socket_path : Text
default_web_socket_path = codes "/hub"

abbrev pub default_redis_push_channel : Text
default_redis_push_channel = codes "kim:gateway:push"

abbrev pub push_users_suffix : Text
push_users_suffix = codes ":users"

abbrev pub push_group_suffix : Text
push_group_suffix = codes ":group"

abbrev pub push_broadcast_suffix : Text
push_broadcast_suffix = codes ":broadcast"

unfoldable pub defaults : Config
defaults = record {
  http_addr = default_http_addr;
  web_socket_path = default_web_socket_path;
  grpc_addr = default_grpc_addr;
  etcd_endpoints_str = default_etcd_endpoints;
  etcd_endpoints = [];
  etcd_service_name = default_etcd_service_name;
  etcd_username = default_etcd_username;
  etcd_password = default_etcd_password;
  etcd_ttl = default_etcd_ttl;
  env = default_env;
  shutdown_timeout = default_shutdown_timeout;
  ping_interval = default_ping_interval;
  ping_timeout = default_ping_timeout;
  redis_dsn = default_redis_dsn;
  redis_route_ttl = default_redis_route_ttl;
  redis_push_channel = default_redis_push_channel;
  redis_push_users_channel = default_redis_push_channel ++ push_users_suffix;
  redis_push_group_channel = default_redis_push_channel ++ push_group_suffix;
  redis_push_broadcast_channel = default_redis_push_channel ++ push_broadcast_suffix;
  jwt_secret = [];
  jwt_expiration = pos (3600 * 24 * 180 * second);
}
