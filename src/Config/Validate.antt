-- ===== src/Config/Validate.antt =====
-- `Validate`: the first field that is missing or out of range is reported.
use kim_gate.Prelude.{if◌then◌else◌}
use kim_gate.Prelude.Int.{pos, leb_ℤ, ltb_ℤ}
use kim_gate.Text.{is_empty}
use kim_gate.Effect.{Result, ok, err, new}
use kim_gate.Config.{Config}

unfoldable pub validate : Config → Result (Unit {0})
validate c =
    if is_empty c.http_addr
    then err (new "http addr is required")
    else if is_empty c.web_socket_path
    then err (new "websocket path is required")
    else if is_empty c.grpc_addr
    then err (new "grpc listen address is required")
    else if leb_ℤ c.shutdown_timeout (pos 0)
    then err (new "shutdown timeout must be positive")
    else if ltb_ℤ c.ping_interval (pos 0)
    then err (new "ping interval cannot be negative")
    else if ltb_ℤ c.ping_timeout (pos 0)
    then err (new "ping timeout cannot be negative")
    else if is_empty c.redis_dsn
    then err (new "redis dsn is required")
    else if leb_ℤ c.redis_route_ttl (pos 0)
    then err (new "redis route ttl must be positive")
    else if is_empty c.redis_push_channel
    then err (new "redis push channel is required")
    else if is_empty c.redis_push_users_channel
    then err (new "redis users push channel is required")
    else if is_empty c.redis_push_group_channel
    then err (new "redis group push channel is required")
    else if is_empty c.redis_push_broadcast_channel
    then err (new "redis broadcast push channel is required")
    else ok tt
