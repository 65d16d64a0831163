-- ===== src/Data/Commands.antt =====
-- The Redis commands that the store sends, and its two Lua scripts. Redis is the parameter
-- `RedisCommands`; `RankingLaws` and `HashLaws` state what Redis documents of a server that answers.
use kim_gate.Prelude.{ℕ, ◌-◌, Option, none, some, List, ltb, if◌then◌else◌, length}
use kim_gate.Prelude.Int.{ℤ, pos, pos_part, ltb_ℤ}
use kim_gate.Effect.{ok, Action, pure, ◌>>=◌, ◌>>◌}
use kim_gate.Text.{Text}

pub record RedisCommands (W : Type 0) : Type 0 where
  -- HSETEX key EX seconds FIELDS 1 field value
  pub hsetex : Text → ℤ → Text → Text → Action W (Unit {0})
  -- ZADD key score member
  pub zadd : Text → ℤ → Text → Action W (Unit {0})
  -- ZRANGE key -inf max BYSCORE, with LIMIT 0 n for `some n`
  pub zrange_by_score : Text → ℤ → Option ℕ → Action W (List Text)
  -- ZREMRANGEBYRANK key start stop
  pub zrem_range_by_rank : Text → ℕ → ℕ → Action W (Unit {0})
  -- HGETALL key; the order of the fields is not specified
  pub hgetall : Text → Action W (List (Text × Text))
  -- HDEL key field
  pub hdel : Text → Text → Action W (Unit {0})

-- The keys and arguments of `registerConnectionScript`.
pub record RegisterArgs : Type 0 where
  pub route_key : Text
  pub expire_key : Text
  pub connection_id : Text
  pub server_id : Text
  pub ttl_seconds : ℤ
  pub expire_score : ℤ
  pub user_id : Text

-- The limit as the script reads it: what is not positive is no limit.
abbrev pub limit_of : ℤ → Option ℕ
limit_of limit = if ltb_ℤ (pos 0) limit then some (pos_part limit) else none

module _ {W : Type 0} (redis : RedisCommands W) where
  unfoldable pub register_connection_script : RegisterArgs → Action W (Unit {0})
  register_connection_script a = do
    redis.hsetex a.route_key a.ttl_seconds a.connection_id a.server_id
    redis.zadd a.expire_key a.expire_score a.user_id

  -- The end of the script: what was read is removed, by rank.
  abbrev pub remove_first : Text → List Text → Action W (List Text)
  remove_first key user_ids w =
      let count = length user_ids in
      if ltb 0 count
      then (redis.zrem_range_by_rank key 0 (count - 1) >> pure user_ids) w
      else (ok user_ids, w)

  unfoldable pub poll_expired_users_script : Text → ℤ → ℤ → Action W (List Text)
  poll_expired_users_script key limit max_score = do
    user_ids ← redis.zrange_by_score key max_score (limit_of limit)
    remove_first key user_ids
