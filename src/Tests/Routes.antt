-- ===== src/Tests/Routes.antt =====
-- Routes in the Redis of `Tests.Redis`: two gates that hold connections, and three users in each
-- sorted set.
use kim_gate.Prelude.{ℕ, ◌*◌, ◌≡◌, ◌<◌, ◌≤◌, refl, true, false, List, [], ◌∷◌, arith, length, some}
use kim_gate.Prelude.Int.{pos, pos_part, ◌≤ℤ◌}
use kim_gate.Effect.{ok}
use kim_gate.Text.{Text, text_eq, codes, elem, trim_space, is_empty, compact_strings}
use kim_gate.Text.Order.{ascending}
use kim_gate.Time.{second, whole_seconds}
use kim_gate.Config.{defaults}
use kim_gate.Data.Commands.{poll_expired_users_script}
use kim_gate.Data.UserRoute.{
  UserRouteStore, UserConnectionRoute, redis_user_route_client, user_route_bucket_count,
  user_route_key, bucket_of, refresh_connection, list_user_server_ids, list_user_connections,
}
use kim_gate.Data.Keys.{bucket_of_lem, user_route_key-injective}
use kim_gate.Data.Listing.{server_ids, Loads, list_user_server_ids_lem, list_user_server_ids_order}
use kim_gate.Data.Registration.{has_route}
use kim_gate.Data.Routes.{list-refresh_connection}
use kim_gate.App.Poller.{user_route_poll_interval}
use kim_gate.App.Rounds.{user_route_poll_interval_bounds}
use kim_gate.Tests.Redis.{World, redis, hash_laws}

abbrev values : List (Text × Text)
values =
    (codes "c1", codes " gate-b ")
    ∷ (codes "c2", codes "gate-a")
    ∷ (codes "c3", [])
    ∷ (codes "c4", codes "gate-b")
    ∷ []

abbrev reordered : List (Text × Text)
reordered = (codes "c2", codes "gate-b") ∷ (codes "c1", codes "gate-a") ∷ []

abbrev pub tidy : List (Text × Text)
tidy = (codes "c1", codes "gate-b") ∷ (codes "c2", codes "gate-a") ∷ []

abbrev pub world : List (Text × Text) → World
world fields = record {
  hashes = λ key. fields;
  sets = λ key. codes "u1" ∷ codes "u2" ∷ codes "u3" ∷ [];
}

abbrev pub store : UserRouteStore World
store = record {
  redis = redis_user_route_client redis;
  route_ttl = pos (60 * second);
  server_id = codes "gate-a";
  now = λ w. second;
}

abbrev pub sum64 : Text → ℕ
sum64 = length

-- The limit leaves the third user behind.
two_polled :
    (poll_expired_users_script redis (codes "k") (pos 2) (pos 5) (world values)).0
    ≡ ok (codes "u1" ∷ codes "u2" ∷ [])
unfolding poll_expired_users_script
two_polled = refl

loads : Loads sum64 store (codes "u") (world values) values (world values)
unfolding trim_space redis_user_route_client text_eq
loads = (refl, refl)

Loads-reordered : Loads sum64 store (codes "u") (world reordered) reordered (world reordered)
unfolding trim_space redis_user_route_client text_eq
Loads-reordered = (refl, refl)

list_user_server_ids_lem_example :
    (ids : List Text) × (list_user_server_ids sum64 store (codes "u") (world values)
      ≡ (ok ids, world values))
    × (ascending ids ≡ true)
    × ((t : Text) → elem t ids ≡ elem t (server_ids values))
list_user_server_ids_lem_example =
    list_user_server_ids_lem sum64 store (codes "u") (world values) (world values) values loads

same_servers : (t : Text) → elem t (server_ids values) ≡ elem t (server_ids reordered)
unfolding trim_space compact_strings
same_servers t = ground arith

list_user_server_ids_order_example :
    (list_user_server_ids sum64 store (codes "u") (world values)).0
    ≡ (list_user_server_ids sum64 store (codes "u") (world reordered)).0
list_user_server_ids_order_example =
    list_user_server_ids_order sum64 store (codes "u") (world values) (world values)
      (world reordered) (world reordered) values reordered loads Loads-reordered same_servers

there : is_empty (trim_space (codes " u ")) ≡ false
unfolding trim_space
there = refl

abbrev refreshed : World
refreshed = (refresh_connection sum64 store (codes " u ") (codes " u ") (world values)).1

list-refresh_connection_example :
    (routes : List UserConnectionRoute) × ((refresh_connection sum64 store
        (codes " u ")
        (codes " u ")
        (world values)).0
      ≡ ok tt)
    × ((list_user_connections sum64 store (codes " u ") refreshed).0 ≡ ok routes)
    × (has_route (trim_space (codes " u ")) (codes "gate-a") routes ≡ true)
unfolding trim_space whole_seconds
list-refresh_connection_example =
    list-refresh_connection sum64 hash_laws store refl (codes " u ") (codes " u ") (world values)
      there there (refl, refl) (omega arith)

same_key :
    user_route_key (bucket_of sum64 (codes " u ")) (codes "u")
    ≡ user_route_key (bucket_of sum64 (codes "u")) (codes "u")
unfolding trim_space bucket_of
same_key = refl

user_route_key-injective_example :
    (bucket_of sum64 (codes " u ") ≡ bucket_of sum64 (codes "u")) × (codes "u" ≡ codes "u")
user_route_key-injective_example =
    user_route_key-injective (bucket_of sum64 (codes " u ")) (bucket_of sum64 (codes "u"))
      (codes "u") (codes "u") same_key

bucket_of_lem_example :
    (bucket_of sum64 (codes " u ") < user_route_bucket_count)
    × (bucket_of sum64 (trim_space (codes " u ")) ≡ bucket_of sum64 (codes " u "))
bucket_of_lem_example = bucket_of_lem sum64 (codes " u ")

long_enough : pos (2 * second) ≤ℤ defaults.redis_route_ttl
unfolding defaults
long_enough = omega arith

user_route_poll_interval_bounds_example :
    (pos second ≤ℤ user_route_poll_interval (some defaults))
    × (2 * pos_part (user_route_poll_interval (some defaults)) ≤ pos_part defaults.redis_route_ttl)
user_route_poll_interval_bounds_example = user_route_poll_interval_bounds defaults long_enough
