-- ===== src/Tests/Sessions.antt =====
-- A connection that comes and goes, over the Redis of `Tests.Redis`.
use kim_gate.Prelude.{ℕ, ◌≡◌, ◌*◌, refl, true, false, none, some, List, [], ◌∷◌, length, arith}
use kim_gate.Prelude.Int.{pos}
use kim_gate.Effect.{ok}
use kim_gate.Text.{Text, codes, text_eq, is_empty, trim_space, cut, contains, decimal}
use kim_gate.Text.Compact.{IsClean}
use kim_gate.Time.{second, whole_seconds}
use kim_gate.Proto.{UserConnection}
use kim_gate.Data.UserRoute.{
  UserRouteStore, redis_user_route_client, remove_connection, user_route_key, bucket_of,
}
use kim_gate.Data.Registration.{IsTidy}
use kim_gate.Data.Routes.{route_key}
use kim_gate.Gateway.AppGroup.{parse_app_group, format_app_group}
use kim_gate.Gateway.Groups.{group_of}
use kim_gate.Gateway.Hub.{Connection, Hub, joined, on_connected, on_disconnected}
use kim_gate.Rpc.Queries.{get_user_connections}
use kim_gate.Sessions.{
  has_connection, registrar, connection_store, connected_is_listed, disconnected_is_not_listed,
}
use kim_gate.Tests.Redis.{World, redis, hash_laws}

abbrev sum64 : Text → ℕ
sum64 = length

abbrev world : World
world = record {
  hashes = λ key. (codes "c1", codes "gate-b") ∷ (codes "c2", codes "gate-a") ∷ [];
  sets = λ key. [];
}

abbrev store : UserRouteStore World
store = record {
  redis = redis_user_route_client redis;
  route_ttl = pos (60 * second);
  server_id = codes "gate-a";
  now = λ w. second;
}

abbrev hub : Hub World
hub = record {
  server_id = codes "gate-a";
  user_routes = some (registrar sum64 store);
  group_joiner = none;
}

abbrev connection : Connection
connection = record { id = codes "c1"; user_id = codes " shop:ann" }

parsed : parse_app_group connection.user_id ≡ ok (group_of (codes "shop"))
unfolding parse_app_group format_app_group trim_space contains cut
parsed = refl

server_id-IsClean : IsClean store.server_id
unfolding trim_space
server_id-IsClean = (refl, refl)

ids_there :
    (is_empty (trim_space connection.user_id) ≡ false)
    × (is_empty (trim_space connection.id) ≡ false)
unfolding trim_space
ids_there = (refl, refl)

left_alone :
    (group key : Text) (v : World)
    → hash_laws.hash (joined hub.group_joiner connection group v).1 key ≡ hash_laws.hash v key
unfolding joined
left_alone group key v = refl

removed-IsTidy :
    IsTidy
      (hash_laws.hash (on_disconnected hub connection world) (route_key sum64 connection.user_id))
unfolding trim_space on_disconnected remove_connection redis_user_route_client user_route_key
    bucket_of decimal text_eq hash_laws
removed-IsTidy = (refl, tt)

connected_is_listed_example :
    (connections : List UserConnection) × ((get_user_connections
        (connection_store sum64 store)
        (some (record { user_id = codes " shop:ann" }))
        (on_connected hub connection world).1).0
      ≡ ok connections)
    × (has_connection (trim_space (codes "c1")) (codes "gate-a") connections ≡ true)
unfolding whole_seconds
connected_is_listed_example =
    connected_is_listed sum64 hash_laws store refl hub connection world refl left_alone parsed
      ids_there.1 server_id-IsClean (omega arith)

disconnected_is_not_listed_example :
    (connections : List UserConnection) × ((get_user_connections
        (connection_store sum64 store)
        (some (record { user_id = codes " shop:ann" }))
        (on_disconnected hub connection world)).0
      ≡ ok connections)
    × (has_connection (trim_space (codes "c1")) (codes "gate-b") connections ≡ false)
disconnected_is_not_listed_example =
    disconnected_is_not_listed sum64 hash_laws store refl hub connection (codes "gate-b") world refl
      ids_there.0 ids_there.1 removed-IsTidy
