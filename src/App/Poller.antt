-- ===== src/App/Poller.antt =====
-- `userRoutePollInterval` and `pollExpiredUserRoutesOnce`. The callback of a poll only logs.
use kim_gate.Prelude.{ℕ, zero, suc, ◌+◌, ◌/◌, Option, none, some, if◌then◌else◌}
use kim_gate.Prelude.Int.{ℤ, pos, negsuc, sub_ℕ, ltb_ℤ}
use kim_gate.Effect.{ok}
use kim_gate.Text.{Text}
use kim_gate.Time.{Time, second}
use kim_gate.Config.{Config}
use kim_gate.Data.UserRoute.{UserRouteStore, user_route_bucket_count, poll_expired_users}

abbrev pub user_route_poll_limit : ℤ
user_route_poll_limit = pos 128

abbrev pub min_user_route_poll_interval : ℤ
min_user_route_poll_interval = pos second

-- A signed integer over 2, rounded towards zero.
abbrev half : ℤ → ℤ
half (pos n) = pos (n / 2)
half (negsuc n) = sub_ℕ 0 ((n + 1) / 2)

-- The app is `none` where it is nil.
unfoldable pub user_route_poll_interval : Option Config → ℤ
user_route_poll_interval none = min_user_route_poll_interval
user_route_poll_interval (some cfg) =
    let interval = half cfg.redis_route_ttl in
    if ltb_ℤ interval min_user_route_poll_interval then min_user_route_poll_interval else interval

module _ (sum64 : Text → ℕ) {W : Type 0} (s : UserRouteStore W) (now : Time) where
  -- One poll; errors are only logged.
  unfoldable pub poll_bucket : ℕ → W → W
  poll_bucket bucket w =
      (poll_expired_users sum64 s (pos bucket) user_route_poll_limit now
        (some (λ ids w'. (ok tt, w'))) w).1

  -- The loop from `bucket` on, over the buckets that are left.
  unfoldable pub poll_from : (left bucket : ℕ) → W → W
  unfolding poll_bucket
  poll_from zero bucket w = w
  poll_from (suc left) bucket w = poll_from left (bucket + 1) (poll_bucket bucket w)

  unfoldable pub poll_expired_user_routes_once : W → W
  unfolding poll_from
  poll_expired_user_routes_once w = poll_from user_route_bucket_count 0 w
