-- ===== src/Config/Normalize.antt =====
-- `normalize` and its helpers: every text of the configuration is trimmed, the endpoint list is cut
-- out of its text, and a path or channel that is missing gets its default.
use kim_gate.Prelude.{not, ◌&&◌, List, ◌++◌, map, ltb, if◌then◌else◌}
use kim_gate.Text.{Text, codes, is_empty, trim_space, compact_strings, has_prefix, split, byte_len}
use kim_gate.Config.{
  Config, default_web_socket_path, default_redis_push_channel, push_users_suffix, push_group_suffix,
  push_broadcast_suffix,
}

unfoldable pub normalize_path : Text → Text
normalize_path p =
    let path = trim_space p in
    if is_empty path
    then default_web_socket_path
    else if not (has_prefix path (codes "/"))
    then codes "/" ++ path
    else path

-- `if s == "" { s = d }`
abbrev pub or_default : Text → Text → Text
or_default s d = if is_empty s then d else s

unfoldable pub normalize_push_channels : Config → Config
normalize_push_channels c =
    let base = or_default (trim_space c.redis_push_channel) default_redis_push_channel in
    record c {
      redis_push_channel =
          if is_empty (trim_space c.redis_push_channel) then base else c.redis_push_channel;
      redis_push_users_channel = or_default c.redis_push_users_channel (base ++ push_users_suffix);
      redis_push_group_channel = or_default c.redis_push_group_channel (base ++ push_group_suffix);
      redis_push_broadcast_channel =
          or_default c.redis_push_broadcast_channel (base ++ push_broadcast_suffix);
    }

-- The endpoints are assigned anew only if their text is not empty.
unfoldable pub split_endpoints : Text → List Text → List Text
split_endpoints text old = if is_empty text then old else compact_strings (split text b',')

unfoldable pub normalize : Config → Config
unfolding normalize_push_channels
normalize c = normalize_push_channels (record c {
  jwt_secret = trim_space c.jwt_secret;
  http_addr = trim_space c.http_addr;
  web_socket_path = normalize_path c.web_socket_path;
  grpc_addr = trim_space c.grpc_addr;
  etcd_endpoints_str = trim_space c.etcd_endpoints_str;
  etcd_endpoints = split_endpoints (trim_space c.etcd_endpoints_str) c.etcd_endpoints;
  etcd_username = trim_space c.etcd_username;
  etcd_password = trim_space c.etcd_password;
  env = trim_space c.env;
  redis_dsn = trim_space c.redis_dsn;
  redis_push_channel = trim_space c.redis_push_channel;
  redis_push_users_channel = trim_space c.redis_push_users_channel;
  redis_push_group_channel = trim_space c.redis_push_group_channel;
  redis_push_broadcast_channel = trim_space c.redis_push_broadcast_channel;
})

-- A long flag written with one dash gets a second one; a short flag and anything else is kept.
unfoldable pub normalize_flag_arg : Text → Text
normalize_flag_arg arg =
    if has_prefix arg (codes "-") && not (has_prefix arg (codes "--")) && ltb 2 (byte_len arg)
    then codes "-" ++ arg
    else arg

unfoldable pub normalize_flag_args : List Text → List Text
unfolding normalize_flag_arg
normalize_flag_args = map normalize_flag_arg
