-- ===== src/Tests/Ordering.antt =====
-- Reads of one hash in two orders.
use kim_gate.Prelude.{◌≡◌, refl, true, not, ◌&&◌, List, [], ◌∷◌, arith}
use kim_gate.Effect.{ok}
use kim_gate.Text.{Text, codes, is_empty, trim_space, text_eq}
use kim_gate.Text.Order.{ascending}
use kim_gate.Data.UserRoute.{
  UserConnectionRoute, redis_user_route_client, collect_connections, list_user_connections,
}
use kim_gate.Data.Listing.{Loads}
use kim_gate.Data.Registration.{has_route}
use kim_gate.Data.Ordering.{
  has_pair, HasDistinctIds, list_user_connections_lem, list_user_connections_order,
}
use kim_gate.Data.SortedRoutes.{connection_ids}
use kim_gate.Tests.Routes.{store, sum64, world}

abbrev values : List (Text × Text)
values = (codes "c2", codes " a ") ∷ (codes "c1", codes "b") ∷ (codes "c3", []) ∷ []

abbrev reordered : List (Text × Text)
reordered = (codes "c3", []) ∷ (codes " c1", codes "b") ∷ (codes "c2", codes "a") ∷ []

values-Loads : Loads sum64 store (codes "u") (world values) values (world values)
unfolding trim_space redis_user_route_client text_eq
values-Loads = (refl, refl)

reordered-Loads : Loads sum64 store (codes "u") (world reordered) reordered (world reordered)
unfolding trim_space redis_user_route_client text_eq
reordered-Loads = (refl, refl)

values-HasDistinctIds : HasDistinctIds values
unfolding collect_connections trim_space text_eq
values-HasDistinctIds = (refl, (refl, tt))

reordered-HasDistinctIds : HasDistinctIds reordered
unfolding collect_connections trim_space text_eq
reordered-HasDistinctIds = (refl, (refl, tt))

same_pairs : (c server : Text) → has_pair c server values ≡ has_pair c server reordered
unfolding trim_space
same_pairs c server = ground arith

list_user_connections_lem_example :
    (routes : List UserConnectionRoute) × (list_user_connections sum64 store
        (codes "u")
        (world values)
      ≡ (ok routes, world values))
    × (ascending (connection_ids routes) ≡ true)
    × ((c server : Text)
        → has_route c server routes
          ≡ (has_pair c server values && (not (is_empty c) && not (is_empty server))))
list_user_connections_lem_example =
    list_user_connections_lem sum64 store (codes "u") (world values) (world values) values
      values-Loads values-HasDistinctIds

list_user_connections_order_example :
    (list_user_connections sum64 store (codes "u") (world values)).0
    ≡ (list_user_connections sum64 store (codes "u") (world reordered)).0
list_user_connections_order_example =
    list_user_connections_order sum64 store (codes "u") (world values) (world values)
      (world reordered) (world reordered) values reordered values-Loads reordered-Loads
      values-HasDistinctIds reordered-HasDistinctIds same_pairs
