-- ===== src/Config/Tables.antt =====
-- The tables of internal/config/config.go: the flags that `Load` declares, the defaults of
-- `setDefaults`, the environment variables of `bindEnv` and the flags of `bindFlags`, by key.
use kim_gate.Prelude.{List, [], ◌∷◌}
use kim_gate.Text.{Text, codes}
use kim_gate.Time.Format.{duration_string}
use kim_gate.Config.{defaults}
use kim_gate.Config.Library.{FlagKind, string, duration}

abbrev pub declared_flags : List (FlagKind × Text)
declared_flags =
    (string, codes "config")
    ∷ (string, codes "http-addr")
    ∷ (string, codes "ws-path")
    ∷ (string, codes "grpc-addr")
    ∷ (duration, codes "shutdown-timeout")
    ∷ (duration, codes "ping-interval")
    ∷ (duration, codes "ping-timeout")
    ∷ (string, codes "redis-dsn")
    ∷ (duration, codes "redis-route-ttl")
    ∷ (string, codes "redis-push-channel")
    ∷ (string, codes "redis-push-users-channel")
    ∷ (string, codes "redis-push-group-channel")
    ∷ (string, codes "redis-push-broadcast-channel")
    ∷ (string, codes "jwt-secret")
    ∷ (duration, codes "jwt-expiration")
    ∷ (string, codes "etcd-endpoints")
    ∷ (string, codes "etcd-service")
    ∷ (duration, codes "etcd-ttl")
    ∷ (string, codes "etcd-username")
    ∷ (string, codes "etcd-password")
    ∷ (string, codes "env")
    ∷ []

abbrev pub default_values : List (Text × Text)
default_values =
    (codes "http.addr", defaults.http_addr)
    ∷ (codes "websocket.path", defaults.web_socket_path)
    ∷ (codes "grpc.addr", defaults.grpc_addr)
    ∷ (codes "etcd.endpoints", defaults.etcd_endpoints_str)
    ∷ (codes "etcd.service", defaults.etcd_service_name)
    ∷ (codes "etcd.ttl", duration_string defaults.etcd_ttl)
    ∷ (codes "etcd.username", defaults.etcd_username)
    ∷ (codes "etcd.password", defaults.etcd_password)
    ∷ (codes "env", defaults.env)
    ∷ (codes "shutdown.timeout", duration_string defaults.shutdown_timeout)
    ∷ (codes "signalg.ping_interval", duration_string defaults.ping_interval)
    ∷ (codes "signalg.ping_timeout", duration_string defaults.ping_timeout)
    ∷ (codes "redis.dsn", defaults.redis_dsn)
    ∷ (codes "redis.route_ttl", duration_string defaults.redis_route_ttl)
    ∷ (codes "redis.push_channel", defaults.redis_push_channel)
    ∷ (codes "redis.push_users_channel", defaults.redis_push_users_channel)
    ∷ (codes "redis.push_group_channel", defaults.redis_push_group_channel)
    ∷ (codes "redis.push_broadcast_channel", defaults.redis_push_broadcast_channel)
    ∷ (codes "jwt.secret", defaults.jwt_secret)
    ∷ (codes "jwt.expiration", duration_string defaults.jwt_expiration)
    ∷ []

-- Each key with the variables that it is bound to.
abbrev pub env_names : List (Text × List Text)
env_names =
    (codes "http.addr", codes "KIM_GATE_HTTP_ADDR" ∷ [])
    ∷ (codes "websocket.path", codes "KIM_GATE_WS_PATH" ∷ codes "KIM_GATE_WEBSOCKET_PATH" ∷ [])
    ∷ (codes "grpc.addr", codes "KIM_GATE_GRPC_ADDR" ∷ [])
    ∷ (codes "etcd.endpoints", codes "KIM_GATE_ETCD_ENDPOINTS" ∷ [])
    ∷ (codes "etcd.service", codes "KIM_GATE_ETCD_SERVICE" ∷ [])
    ∷ (codes "etcd.ttl", codes "KIM_GATE_ETCD_TTL" ∷ [])
    ∷ (codes "etcd.username", codes "KIM_GATE_ETCD_USERNAME" ∷ [])
    ∷ (codes "etcd.password", codes "KIM_GATE_ETCD_PASSWORD" ∷ [])
    ∷ (codes "env", codes "KIM_GATE_ENV" ∷ [])
    ∷ (codes "shutdown.timeout", codes "KIM_GATE_SHUTDOWN_TIMEOUT" ∷ [])
    ∷ (codes "signalg.ping_interval", codes "KIM_GATE_PING_INTERVAL" ∷ [])
    ∷ (codes "signalg.ping_timeout", codes "KIM_GATE_PING_TIMEOUT" ∷ [])
    ∷ (codes "redis.dsn", codes "KIM_GATE_REDIS_DSN" ∷ [])
    ∷ (codes "redis.route_ttl", codes "KIM_GATE_REDIS_ROUTE_TTL" ∷ [])
    ∷ (codes "redis.push_channel", codes "KIM_GATE_REDIS_PUSH_CHANNEL" ∷ [])
    ∷ (codes "redis.push_users_channel", codes "KIM_GATE_REDIS_PUSH_USERS_CHANNEL" ∷ [])
    ∷ (codes "redis.push_group_channel", codes "KIM_GATE_REDIS_PUSH_GROUP_CHANNEL" ∷ [])
    ∷ (codes "redis.push_broadcast_channel", codes "KIM_GATE_REDIS_PUSH_BROADCAST_CHANNEL" ∷ [])
    ∷ (codes "jwt.secret", codes "KIM_GATE_JWT_SECRET" ∷ [])
    ∷ (codes "jwt.expiration", codes "KIM_GATE_JWT_EXPIRATION" ∷ [])
    ∷ []

-- The map `bindings`, in the order of the source; Go iterates it in any order.
abbrev pub bindings : List (Text × Text)
bindings =
    (codes "http.addr", codes "http-addr")
    ∷ (codes "websocket.path", codes "ws-path")
    ∷ (codes "grpc.addr", codes "grpc-addr")
    ∷ (codes "etcd.endpoints", codes "etcd-endpoints")
    ∷ (codes "etcd.service", codes "etcd-service")
    ∷ (codes "etcd.ttl", codes "etcd-ttl")
    ∷ (codes "etcd.username", codes "etcd-username")
    ∷ (codes "etcd.password", codes "etcd-password")
    ∷ (codes "env", codes "env")
    ∷ (codes "shutdown.timeout", codes "shutdown-timeout")
    ∷ (codes "signalg.ping_interval", codes "ping-interval")
    ∷ (codes "signalg.ping_timeout", codes "ping-timeout")
    ∷ (codes "redis.dsn", codes "redis-dsn")
    ∷ (codes "redis.route_ttl", codes "redis-route-ttl")
    ∷ (codes "redis.push_channel", codes "redis-push-channel")
    ∷ (codes "redis.push_users_channel", codes "redis-push-users-channel")
    ∷ (codes "redis.push_group_channel", codes "redis-push-group-channel")
    ∷ (codes "redis.push_broadcast_channel", codes "redis-push-broadcast-channel")
    ∷ (codes "jwt.secret", codes "jwt-secret")
    ∷ (codes "jwt.expiration", codes "jwt-expiration")
    ∷ []
