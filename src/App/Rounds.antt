-- ===== src/App/Rounds.antt =====
-- `userRoutePollInterval` and a whole round of `pollExpiredUserRoutesOnce` over the 16 sorted sets.
use kim_gate.Prelude.{
  ℕ, zero, suc, ◌+◌, ◌*◌, ◌≤◌, ◌<◌, ◌≡◌, ◌≢◌, refl, sym, subst, ◌∙◌, some, List, arith,
  if◌then◌else◌,
}
use native.Mathlib.Decide.{ℕ_discrete}
use kim_gate.Prelude.Int.{ℤ, pos, pos_part, ◌≤ℤ◌}
use kim_gate.Text.{Text}
use kim_gate.Time.{Time, second, is_zero, unix_milli}
use kim_gate.Config.{Config}
use kim_gate.Data.Commands.{RedisCommands, poll_expired_users_script}
use kim_gate.Data.UserRoute.{
  UserRouteStore, redis_user_route_client, user_route_bucket_count, user_expire_key, bucket_of,
  poll_expired_users,
}
use kim_gate.Data.Keys.{bucket_of_lem, user_expire_key-injective}
use kim_gate.Data.Expiry.{
  Ranking, RankingLaws, Polled, poll_expired_users_script_lem, poll_expired_users_script_other,
}
use kim_gate.App.Poller.{
  user_route_poll_limit, user_route_poll_interval, poll_bucket, poll_from,
  poll_expired_user_routes_once,
}

-- Where routes live for two seconds or longer, the poller waits a second at least and half their life
-- at most.
pub user_route_poll_interval_bounds :
    (cfg : Config)
    → pos (2 * second) ≤ℤ cfg.redis_route_ttl
    → (pos second ≤ℤ user_route_poll_interval (some cfg))
      × (2 * pos_part (user_route_poll_interval (some cfg)) ≤ pos_part cfg.redis_route_ttl)
unfolding user_route_poll_interval
user_route_poll_interval_bounds cfg h = ground arith

-- The time up to which a poll from `w` takes users.
abbrev pub deadline : {W : Type 0} → UserRouteStore W → Time → W → ℤ
deadline s now w = unix_milli (if is_zero now then s.now w else now)

module _ (sum64 : Text → ℕ) {W : Type 0} (redis : RedisCommands W) (s : UserRouteStore W)
    (client : s.redis ≡ redis_user_route_client redis) (now : Time) where
  pub poll_bucket-script :
      (bucket : ℕ) (w : W)
      → bucket < user_route_bucket_count
      → poll_bucket sum64 s now bucket w
        ≡ (poll_expired_users_script redis
            (user_expire_key bucket)
            user_route_poll_limit
            (deadline s now w)
            w).1
  unfolding poll_bucket poll_expired_users redis_user_route_client
  poll_bucket-script bucket w h = rw client (ground arith)

module _ (sum64 : Text → ℕ) {W : Type 0} {redis : RedisCommands W} (laws : RankingLaws redis)
    (s : UserRouteStore W) (client : s.redis ≡ redis_user_route_client redis) (now : Time) where
  -- The script was run on the set once, from some state of the round.
  pub record IsPolled (before after : Ranking) : Type 0 where
    pub from : W
    pub users : List Text
    pub polled : Polled user_route_poll_limit (deadline s now from) before after users

  poll_bucket_self :
      (bucket : ℕ) (w : W)
      → bucket < user_route_bucket_count
      → IsPolled
          (laws.ranking w (user_expire_key bucket))
          (laws.ranking (poll_bucket sum64 s now bucket w) (user_expire_key bucket))
  poll_bucket_self bucket w h =
      let (users, _, polled) =
        poll_expired_users_script_lem laws (user_expire_key bucket) user_route_poll_limit
          (deadline s now w) w in
      rw (poll_bucket-script sum64 redis s client now bucket w h)
        (record { from = w; users = users; polled = polled })

  poll_bucket_other :
      (bucket b : ℕ) (w : W)
      → bucket < user_route_bucket_count
      → bucket ≢ b
      → laws.ranking (poll_bucket sum64 s now bucket w) (user_expire_key b)
        ≡ laws.ranking w (user_expire_key b)
  poll_bucket_other bucket b w h other =
      rw (poll_bucket-script sum64 redis s client now bucket w h) (
        poll_expired_users_script_other laws (user_expire_key bucket) user_route_poll_limit
          (deadline s now w) w (user_expire_key b)
          (λ e. other (user_expire_key-injective bucket b e)))

  poll_from_other :
      (left bucket b : ℕ) (w : W)
      → bucket + left ≤ user_route_bucket_count
      → b < bucket
      → laws.ranking (poll_from sum64 s now left bucket w) (user_expire_key b)
        ≡ laws.ranking w (user_expire_key b)
  unfolding poll_from
  poll_from_other zero bucket b w h k = refl
  poll_from_other (suc left) bucket b w h k =
      poll_from_other left (bucket + 1) b (poll_bucket sum64 s now bucket w) (omega arith)
        (omega arith)
      ∙ poll_bucket_other bucket b w (omega arith) (omega arith)

  poll_from_reached :
      (left bucket b : ℕ) (w : W)
      → bucket + left ≤ user_route_bucket_count
      → bucket ≤ b
      → b < bucket + left
      → IsPolled
          (laws.ranking w (user_expire_key b))
          (laws.ranking (poll_from sum64 s now left bucket w) (user_expire_key b))
  unfolding poll_from
  poll_from_reached zero bucket b w h k l = absurd (omega arith)
  poll_from_reached (suc left) bucket b w h k l =
      let w' = poll_bucket sum64 s now bucket w in
      elim (ℕ_discrete bucket b) [
        | yes same ↦
            subst (λ r. IsPolled (laws.ranking w (user_expire_key b)) r)
              (sym (poll_from_other left (bucket + 1) b w' (omega arith) (omega arith)))
              (subst
                (λ c.
                  IsPolled (laws.ranking w (user_expire_key c))
                    (laws.ranking w' (user_expire_key c)))
                same (poll_bucket_self bucket w (omega arith)))
        | no other ↦
            subst
              (λ r.
                IsPolled r
                  (laws.ranking (poll_from sum64 s now left (bucket + 1) w') (user_expire_key b)))
              (poll_bucket_other bucket b w (omega arith) other)
              (poll_from_reached left (bucket + 1) b w' (omega arith) (omega arith) (omega arith))
      ]

  pub round_polls_user :
      (user_id : Text) (w : W)
      → IsPolled (laws.ranking w (user_expire_key (bucket_of sum64 user_id))) (
          laws.ranking
            (poll_expired_user_routes_once sum64 s now w)
            (user_expire_key (bucket_of sum64 user_id)))
  unfolding poll_expired_user_routes_once
  round_polls_user user_id w =
      poll_from_reached user_route_bucket_count 0 (bucket_of sum64 user_id) w (omega arith)
        (omega arith) (omega (arith, (bucket_of_lem sum64 user_id).0))
