-- ===== src/Config/Laws.antt =====
-- Proofs on `normalize` and `Validate` of internal/config/config.go.
use kim_gate.Prelude.{◌≡◌, ◌↔◌, refl, true, false, ◌∷◌, ◌++◌, arith, List}
use kim_gate.Prelude.Int.{pos, ◌≤ℤ◌}
use kim_gate.Text.{Text, codes, is_empty, trim_space, has_prefix}
use kim_gate.Text.Trim.{trim_space_idem}
use kim_gate.Text.Compact.{IsClean}
use kim_gate.Text.Join.{join-IsClean}
use kim_gate.Effect.{ok}
use kim_gate.Config.{Config, default_redis_push_channel}
use kim_gate.Config.Normalize.{or_default, split_endpoints, normalize}
use kim_gate.Config.Paths.{normalize_path_lem, normalize_path_of_IsClean, or_default-IsClean}
use kim_gate.Config.Validate.{validate}

-- The shape of a normalized configuration: every text is trimmed, the path is one, the endpoints are
-- those of their text, and the four push channels are there.
pub record IsNormal (c : Config) : Type 0 where
  pub jwt_secret : trim_space c.jwt_secret ≡ c.jwt_secret
  pub http_addr : trim_space c.http_addr ≡ c.http_addr
  pub path : IsClean c.web_socket_path × (has_prefix c.web_socket_path (codes "/") ≡ true)
  pub grpc_addr : trim_space c.grpc_addr ≡ c.grpc_addr
  pub endpoints_str : trim_space c.etcd_endpoints_str ≡ c.etcd_endpoints_str
  pub endpoints : split_endpoints c.etcd_endpoints_str c.etcd_endpoints ≡ c.etcd_endpoints
  pub username : trim_space c.etcd_username ≡ c.etcd_username
  pub password : trim_space c.etcd_password ≡ c.etcd_password
  pub env : trim_space c.env ≡ c.env
  pub redis_dsn : trim_space c.redis_dsn ≡ c.redis_dsn
  pub channel : IsClean c.redis_push_channel
  pub users_channel : IsClean c.redis_push_users_channel
  pub group_channel : IsClean c.redis_push_group_channel
  pub broadcast_channel : IsClean c.redis_push_broadcast_channel

default_channel-IsClean : IsClean default_redis_push_channel
unfolding trim_space
default_channel-IsClean = (refl, refl)

suffixes-IsClean : IsClean (codes "users") × IsClean (codes "group") × IsClean (codes "broadcast")
unfolding trim_space
suffixes-IsClean = ((refl, refl), (refl, refl), (refl, refl))

-- The prefix of the three channels: what the configuration says, or the default.
abbrev base : Config → Text
base c = or_default (trim_space c.redis_push_channel) default_redis_push_channel

base-IsClean : (c : Config) → IsClean (base c)
base-IsClean c = or_default-IsClean c.redis_push_channel _ default_channel-IsClean

split_endpoints_idem :
    (text : Text) (old : List Text)
    → split_endpoints text (split_endpoints text old) ≡ split_endpoints text old
unfolding split_endpoints
split_endpoints_idem text old = ground arith

normalize-channel : (c : Config) → (normalize c).redis_push_channel ≡ base c
unfolding normalize
normalize-channel c = ground (arith, trim_space_idem c.redis_push_channel)

module _ (c : Config) where
  channel_with :
      (field : Text) (suffix : Text)
      → IsClean suffix
      → IsClean (or_default (trim_space field) (base c ++ b':' ∷ suffix))
  channel_with field suffix h =
      or_default-IsClean field _ (join-IsClean (base c) b':' suffix (base-IsClean c) h)

-- `normalize` makes a normalized configuration of any configuration.
pub normalize-IsNormal : (c : Config) → IsNormal (normalize c)
unfolding normalize
normalize-IsNormal c = record {
  jwt_secret = trim_space_idem c.jwt_secret;
  http_addr = trim_space_idem c.http_addr;
  path = normalize_path_lem c.web_socket_path;
  grpc_addr = trim_space_idem c.grpc_addr;
  endpoints_str = trim_space_idem c.etcd_endpoints_str;
  endpoints = split_endpoints_idem (trim_space c.etcd_endpoints_str) c.etcd_endpoints;
  username = trim_space_idem c.etcd_username;
  password = trim_space_idem c.etcd_password;
  env = trim_space_idem c.env;
  redis_dsn = trim_space_idem c.redis_dsn;
  channel = rw (normalize-channel c) (base-IsClean c);
  users_channel =
      rw (trim_space_idem c.redis_push_channel)
        (channel_with c c.redis_push_users_channel (codes "users") suffixes-IsClean.0);
  group_channel =
      rw (trim_space_idem c.redis_push_channel)
        (channel_with c c.redis_push_group_channel (codes "group") suffixes-IsClean.1);
  broadcast_channel =
      rw (trim_space_idem c.redis_push_channel)
        (channel_with c c.redis_push_broadcast_channel (codes "broadcast") suffixes-IsClean.2);
}

-- A normalized configuration is kept as it is.
normalize_of_IsNormal : (c : Config) → IsNormal c → normalize c ≡ c
unfolding normalize
normalize_of_IsNormal c h = ground (arith, normalize_path_of_IsClean c.web_socket_path)

-- Normalizing a configuration a second time changes nothing.
normalize_idem : (c : Config) → normalize (normalize c) ≡ normalize c
normalize_idem c = normalize_of_IsNormal (normalize c) (normalize-IsNormal c)

-- What a configuration must have for the gate to run.
pub record IsUsable (c : Config) : Type 0 where
  pub http_addr : is_empty c.http_addr ≡ false
  pub grpc_addr : is_empty c.grpc_addr ≡ false
  pub redis_dsn : is_empty c.redis_dsn ≡ false
  pub shutdown_timeout : pos 1 ≤ℤ c.shutdown_timeout
  pub ping_interval : pos 0 ≤ℤ c.ping_interval
  pub ping_timeout : pos 0 ≤ℤ c.ping_timeout
  pub redis_route_ttl : pos 1 ≤ℤ c.redis_route_ttl

-- Of a normalized configuration `Validate` refuses exactly those that lack an address or the DSN, or
-- have a duration out of range: its tests of the path and of the channels never fail.
module _ (c : Config) (normal : IsNormal c) where
  pub validate_sound : validate c ≡ ok tt → IsUsable c
  unfolding validate
  validate_sound h = ground arith

  validate_complete : IsUsable c → validate c ≡ ok tt
  unfolding validate
  validate_complete h = ground arith

-- A configuration, once normalized, passes `Validate` exactly if its addresses and its DSN are there
-- and its durations are in range: the path and the push channels are never at fault.
pub validate-normalize : (c : Config) → (validate (normalize c) ≡ ok tt) ↔ IsUsable (normalize c)
validate-normalize c = (
  validate_sound (normalize c) (normalize-IsNormal c),
  validate_complete (normalize c) (normalize-IsNormal c),
)
