-- ===== src/Data/UserRoute.antt =====
-- `UserRouteStore`: the connections of each user, kept in a Redis hash, and the users whose routes may
-- have expired, kept in one of 16 sorted sets. The hash function `sum64` (xxhash) is a parameter.
use kim_gate.Prelude.{ℕ, Bool, ◌%◌, ◌||◌, ◌++◌, Option, none, some, List, [], ◌∷◌, if◌then◌else◌}
use kim_gate.Prelude.Int.{ℤ, pos, pos_part, leb_ℤ, ltb_ℤ}
use kim_gate.Effect.{Result, ok, err, new, wrap, about, Action, map_err, resume}
use kim_gate.Text.{
  Text, codes, is_empty, trim_space, compact_strings, elem, text_ltb, sort_slice, decimal,
  signed_decimal,
}
use kim_gate.Time.{Time, add, is_zero, unix_milli, whole_seconds}
use kim_gate.Config.{Config}
use kim_gate.Data.Commands.{
  RedisCommands, RegisterArgs, register_connection_script, poll_expired_users_script,
}

abbrev pub user_route_bucket_count : ℕ
user_route_bucket_count = 16

-- `userRouteRedis`; the one script that is run is `registerConnectionScript`.
pub record UserRouteRedis (W : Type 0) : Type 0 where
  pub run_script : RegisterArgs → Action W (Unit {0})
  pub hgetall : Text → Action W (List (Text × Text))
  pub hdel : Text → Text → Action W (Unit {0})
  pub poll_expired_users : Text → ℤ → ℤ → Action W (List Text)

-- `redisUserRouteClient`
unfoldable pub redis_user_route_client : {W : Type 0} → RedisCommands W → UserRouteRedis W
redis_user_route_client redis = record {
  run_script = register_connection_script redis;
  hgetall = redis.hgetall;
  hdel = redis.hdel;
  poll_expired_users = λ key max limit. poll_expired_users_script redis key limit max;
}

-- `now` reads the clock, which is part of `W`.
pub record UserRouteStore (W : Type 0) : Type 0 where
  pub redis : UserRouteRedis W
  pub route_ttl : ℤ
  pub server_id : Text
  pub now : W → Time

unfoldable pub new_user_route_store_with_redis :
    {W : Type 0} → (W → Time) → Option (UserRouteRedis W) → ℤ → Text → Result (UserRouteStore W)
new_user_route_store_with_redis now none route_ttl server_id =
    err (new "user route redis client is required")
new_user_route_store_with_redis now (some client) route_ttl server_id =
    if leb_ℤ route_ttl (pos 0)
    then err (new "route ttl must be positive")
    else if is_empty (trim_space server_id)
    then err (new "server id is required")
    else ok (record {
      redis = client;
      route_ttl = route_ttl;
      server_id = trim_space server_id;
      now = now;
    })

unfoldable pub new_user_route_store :
    {W : Type 0} → (W → Time) → Config → Option (RedisCommands W) → Text → Result (UserRouteStore W)
unfolding new_user_route_store_with_redis redis_user_route_client
new_user_route_store now cfg none server_id = err (new "redis client is required")
new_user_route_store now cfg (some redis) server_id =
    new_user_route_store_with_redis now (some (redis_user_route_client redis)) cfg.redis_route_ttl
      server_id

abbrev pub user_route_key_prefix : Text
user_route_key_prefix = codes "kim:gateway:user_route"

abbrev pub user_expire_key_prefix : Text
user_expire_key_prefix = codes "kim:gateway:user_expire"

unfoldable pub user_route_key : ℕ → Text → Text
user_route_key bucket user_id =
    user_route_key_prefix ++ (codes ":{" ++ (decimal bucket ++ (codes "}:" ++ user_id)))

unfoldable pub user_expire_key : ℕ → Text
user_expire_key bucket = user_expire_key_prefix ++ (codes ":{" ++ (decimal bucket ++ codes "}"))

pub record UserConnectionRoute : Type 0 where
  pub connection_id : Text
  pub server_id : Text

-- The loop of `ListUserServerIDs` over the values of the hash.
unfoldable pub collect_server_ids : List Text → List (Text × Text) → List Text
collect_server_ids seen [] = []
collect_server_ids seen ((connection_id, server_id) ∷ values) =
    let id = trim_space server_id in
    let skipped = collect_server_ids seen values in
    let kept = id ∷ collect_server_ids (id ∷ seen) values in
    if is_empty id then skipped else if elem id seen then skipped else kept

-- The loop of `ListUserConnections`.
unfoldable pub collect_connections : List (Text × Text) → List UserConnectionRoute
collect_connections [] = []
collect_connections ((field, value) ∷ values) =
    let connection_id = trim_space field in
    let server_id = trim_space value in
    let rest = collect_connections values in
    if is_empty connection_id || is_empty server_id
    then rest
    else record { connection_id = connection_id; server_id = server_id } ∷ rest

abbrev pub connection_less : UserConnectionRoute → UserConnectionRoute → Bool
connection_less a b = text_ltb a.connection_id b.connection_id

abbrev pub callback :
    {W : Type 0} → (List Text → Action W (Unit {0})) → List Text → Action W (Unit {0})
callback fn filtered w = if is_empty filtered then (ok tt, w) else fn filtered w

module _ (sum64 : Text → ℕ) where
  unfoldable pub bucket_of : Text → ℕ
  bucket_of user_id = sum64 (trim_space user_id) % user_route_bucket_count

  module _ {W : Type 0} (s : UserRouteStore W) where
    unfoldable pub register_script_args : Text → Text → W → RegisterArgs
    register_script_args user_id connection_id w =
        let bucket = bucket_of user_id in
        record {
          route_key = user_route_key bucket user_id;
          expire_key = user_expire_key bucket;
          connection_id = connection_id;
          server_id = s.server_id;
          ttl_seconds = whole_seconds s.route_ttl;
          expire_score = unix_milli (add (s.now w) s.route_ttl);
          user_id = user_id;
        }

    -- `refreshConnection`
    unfoldable pub refresh_connection : Text → Text → Action W (Unit {0})
    unfolding register_script_args
    refresh_connection user_id connection_id w =
        let user = trim_space user_id in
        let connection = trim_space connection_id in
        if is_empty user
        then (err (new "user id is required"), w)
        else if is_empty connection
        then (err (new "connection id is required"), w)
        else map_err (wrap "refresh user route")
            (s.redis.run_script (register_script_args user connection w)) w

    -- `RegisterConnection`, and `RefreshConnection` as well.
    abbrev pub register_connection : Text → Text → Action W (Unit {0})
    register_connection user_id connection_id = refresh_connection user_id connection_id

    unfoldable pub remove_connection : Text → Text → Action W (Unit {0})
    remove_connection user_id connection_id w =
        let user = trim_space user_id in
        let connection = trim_space connection_id in
        if is_empty user
        then (err (new "user id is required"), w)
        else if is_empty connection
        then (err (new "connection id is required"), w)
        else map_err (wrap "remove user route")
            (s.redis.hdel (user_route_key (bucket_of user) user) connection) w

    -- What both listings read.
    abbrev pub load_route : Text → Action W (List (Text × Text))
    load_route user =
        map_err (wrap "load user route") (s.redis.hgetall (user_route_key (bucket_of user) user))

    unfoldable pub list_user_server_ids : Text → Action W (List Text)
    unfolding collect_server_ids sort_slice
    list_user_server_ids user_id w =
        if is_empty (trim_space user_id)
        then (ok [], w)
        else resume (load_route (trim_space user_id) w).0
            (λ values w'. (ok (sort_slice text_ltb (collect_server_ids [] values)), w'))
            (load_route (trim_space user_id) w).1

    unfoldable pub list_user_connections : Text → Action W (List UserConnectionRoute)
    unfolding collect_connections sort_slice
    list_user_connections user_id w =
        if is_empty (trim_space user_id)
        then (ok [], w)
        else resume (load_route (trim_space user_id) w).0
            (λ values w'. (ok (sort_slice connection_less (collect_connections values)), w'))
            (load_route (trim_space user_id) w).1

    -- The callback is `none` where it is nil; a zero `now` stands for the store's clock.
    unfoldable pub poll_expired_users :
        ℤ → ℤ → Time → Option (List Text → Action W (Unit {0})) → Action W (Unit {0})
    poll_expired_users bucket limit now none w = (err (new "callback is required"), w)
    poll_expired_users bucket limit now (some fn) w =
        let at = if is_zero now then s.now w else now in
        let loaded =
          map_err (wrap "load expired users")
            (s.redis.poll_expired_users (user_expire_key (pos_part bucket)) (unix_milli at) limit)
            w in
        if ltb_ℤ bucket (pos 0) || leb_ℤ (pos user_route_bucket_count) bucket
        then (err (about "bucket out of range" (signed_decimal bucket)), w)
        else resume loaded.0 (λ user_ids. callback fn (compact_strings user_ids)) loaded.1
