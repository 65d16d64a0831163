-- ===== src/Data/Registration.antt =====
-- What Redis documents of hashes, what the registering script does to one, and what a listing shows of
-- it.
use kim_gate.Prelude.{
  ◌≡◌, refl, Bool, true, false, ◌&&◌, ◌||◌, none, some, List, [], ◌∷◌, arith, All, if◌then◌else◌,
}
use kim_gate.Prelude.Int.{ℤ, pos, ◌≤ℤ◌}
use kim_gate.Effect.{ok}
use kim_gate.Text.{lookup, Text, trim_space, text_eq, sort_slice, insert}
use kim_gate.Text.Trim.{text_eq_iff, text_eq_refl}
use kim_gate.Text.Compact.{IsClean}
use kim_gate.Data.Commands.{RedisCommands, RegisterArgs, register_connection_script}
use kim_gate.Data.UserRoute.{UserConnectionRoute, collect_connections, connection_less}

-- What Redis documents of the commands on a hash, for a server that answers: HGETALL reads it, HSETEX
-- with a positive time sets one field, HDEL deletes one field, and ZADD leaves hashes alone.
pub record HashLaws {W : Type 0} (redis : RedisCommands W) : Type 0 where
  pub hash : W → Text → List (Text × Text)
  pub hgetall : (key : Text) (w : W) → redis.hgetall key w ≡ (ok (hash w key), w)
  pub hsetex_result :
      (key : Text) (ttl : ℤ) (f v : Text) (w : W)
      → pos 1 ≤ℤ ttl
      → (redis.hsetex key ttl f v w).0 ≡ ok tt
  pub hsetex :
      (key : Text) (ttl : ℤ) (f v g : Text) (w : W)
      → pos 1 ≤ℤ ttl
      → lookup g (hash (redis.hsetex key ttl f v w).1 key)
        ≡ (if text_eq f g then some v else lookup g (hash w key))
  pub zadd_result :
      (key : Text) (score : ℤ) (m : Text) (w : W) → (redis.zadd key score m w).0 ≡ ok tt
  pub zadd :
      (key : Text) (score : ℤ) (m k : Text) (w : W) → hash (redis.zadd key score m w).1 k ≡ hash w k
  pub hdel_result : (key f : Text) (w : W) → (redis.hdel key f w).0 ≡ ok tt
  pub hdel :
      (key f g : Text) (w : W)
      → lookup g (hash (redis.hdel key f w).1 key)
        ≡ (if text_eq f g then none else lookup g (hash w key))

-- A connection at a server is among the routes.
abbrev pub has_route : Text → Text → List UserConnectionRoute → Bool
has_route c s [] = false
has_route c s (r ∷ routes) =
    (text_eq r.connection_id c && text_eq r.server_id s) || has_route c s routes

has_route-insert :
    (c s : Text) (r : UserConnectionRoute) (routes : List UserConnectionRoute)
    → has_route c s (insert connection_less r routes) ≡ has_route c s (r ∷ routes)
unfolding insert
has_route-insert c s r [] = refl
has_route-insert c s r (q ∷ routes) = ground (arith, has_route-insert c s r routes)

pub has_route-sort_slice :
    (c s : Text) (routes : List UserConnectionRoute)
    → has_route c s (sort_slice connection_less routes) ≡ has_route c s routes
unfolding sort_slice
has_route-sort_slice c s [] = refl
has_route-sort_slice c s (r ∷ routes) = ground (
  arith,
  has_route-insert c s r (sort_slice connection_less routes),
  has_route-sort_slice c s routes,
)

-- A field that is in the hash, with a clean name and value, is listed.
pub has_route-collect_connections :
    (c s : Text) (values : List (Text × Text))
    → IsClean c
    → IsClean s
    → lookup c values ≡ some s
    → has_route c s (collect_connections values) ≡ true
unfolding collect_connections
has_route-collect_connections c s [] hc hs e = cc
has_route-collect_connections c s ((f, v) ∷ values) hc hs e = ground (
  arith,
  has_route-collect_connections c s values,
  text_eq_iff f c,
  text_eq_refl c,
  text_eq_refl s,
)

-- The fields of a hash are trimmed, as those that the store writes are.
abbrev pub IsTidy : List (Text × Text) → Type 0
IsTidy = All (λ (p : Text × Text). trim_space p.0 ≡ p.0)

pub no_route-collect_connections :
    (c s : Text) (values : List (Text × Text))
    → IsTidy values
    → lookup c values ≡ none
    → has_route c s (collect_connections values) ≡ false
unfolding collect_connections
no_route-collect_connections c s [] h e = refl
no_route-collect_connections c s ((f, v) ∷ values) (hf, h) e =
    ground (arith, no_route-collect_connections c s values)

module _ {W : Type 0} {redis : RedisCommands W} (laws : HashLaws redis) where
  pub script_result :
      (a : RegisterArgs) (w : W)
      → pos 1 ≤ℤ a.ttl_seconds
      → (register_connection_script redis a w).0 ≡ ok tt
  unfolding register_connection_script
  script_result a w h =
      rw (laws.hsetex_result a.route_key a.ttl_seconds a.connection_id a.server_id w h)
        (laws.zadd_result a.expire_key a.expire_score a.user_id _)

  pub script_lookup :
      (a : RegisterArgs) (g : Text) (w : W)
      → pos 1 ≤ℤ a.ttl_seconds
      → lookup g (laws.hash (register_connection_script redis a w).1 a.route_key) ≡ (
          if text_eq a.connection_id g
          then some a.server_id
          else lookup g (laws.hash w a.route_key))
  unfolding register_connection_script
  script_lookup a g w h =
      rw
        (
          laws.hsetex_result a.route_key a.ttl_seconds a.connection_id a.server_id w h,
          laws.zadd a.expire_key a.expire_score a.user_id a.route_key _,
        )
        (laws.hsetex a.route_key a.ttl_seconds a.connection_id a.server_id g w h)
