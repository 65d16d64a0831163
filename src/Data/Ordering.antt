-- ===== src/Data/Ordering.antt =====
-- Proofs on the order of `ListUserConnections` of internal/data/user_route.go.
use kim_gate.Prelude.{
  ℕ, ◌≡◌, refl, sym, ap, ◌∙◌, true, false, not, Bool, ◌&&◌, ◌||◌, List, [], ◌∷◌, arith,
}
use kim_gate.Effect.{ok}
use kim_gate.Text.{Text, is_empty, trim_space, text_eq, IsDistinct, sort_slice}
use kim_gate.Text.Trim.{text_eq_iff}
use kim_gate.Text.Order.{ascending, sort_slice-ascending, ascending_unique}
use kim_gate.Data.UserRoute.{
  UserRouteStore, UserConnectionRoute, collect_connections, connection_less, list_user_connections,
}
use kim_gate.Data.Registration.{has_route, has_route-sort_slice}
use kim_gate.Data.Listing.{Loads}
use kim_gate.Data.SortedRoutes.{
  connection_ids, connection_ids-sort_slice, IsAlike, iff_equal, elem-IsAlike, routes_unique,
}

-- A field of the hash is the connection when trimmed, and its value the server.
abbrev pub has_pair : Text → Text → List (Text × Text) → Bool
has_pair c s [] = false
has_pair c s ((f, v) ∷ values) =
    (text_eq (trim_space f) c && text_eq (trim_space v) s) || has_pair c s values

has_route-collect :
    (c s : Text) (values : List (Text × Text))
    → has_route c s (collect_connections values)
      ≡ (has_pair c s values && (not (is_empty c) && not (is_empty s)))
unfolding collect_connections
has_route-collect c s [] = refl
has_route-collect c s ((f, v) ∷ values) = ground (
  arith,
  has_route-collect c s values,
  text_eq_iff (trim_space f) c,
  text_eq_iff (trim_space v) s,
)

-- The listing of a hash.
abbrev routes_of : List (Text × Text) → List UserConnectionRoute
routes_of values = sort_slice connection_less (collect_connections values)

-- No two fields of the hash are one connection id when trimmed, of those that are listed.
abbrev pub HasDistinctIds : List (Text × Text) → Type 0
HasDistinctIds values = IsDistinct (connection_ids (collect_connections values))

routes_of-ascending :
    (values : List (Text × Text))
    → HasDistinctIds values
    → ascending (connection_ids (routes_of values)) ≡ true
routes_of-ascending values d =
    rw (connection_ids-sort_slice (collect_connections values))
      (sort_slice-ascending (connection_ids (collect_connections values)) d)

has_route-routes_of :
    (c s : Text) (values : List (Text × Text))
    → has_route c s (routes_of values)
      ≡ (has_pair c s values && (not (is_empty c) && not (is_empty s)))
has_route-routes_of c s values =
    has_route-sort_slice c s (collect_connections values) ∙ has_route-collect c s values

routes_of_unique :
    (values values' : List (Text × Text))
    → HasDistinctIds values
    → HasDistinctIds values'
    → ((c s : Text) → has_pair c s values ≡ has_pair c s values')
    → routes_of values ≡ routes_of values'
routes_of_unique values values' d d' same =
    let alike : IsAlike (routes_of values) (routes_of values') = λ c s.
      has_route-routes_of c s values
      ∙ ap (λ b. b && (not (is_empty c) && not (is_empty s))) (same c s)
      ∙ sym (has_route-routes_of c s values') in
    let ids =
      ascending_unique _ _ (routes_of-ascending values d) (routes_of-ascending values' d') (λ c.
        iff_equal _ _ (elem-IsAlike (routes_of values) (routes_of values') c alike)
          (elem-IsAlike (routes_of values') (routes_of values) c (λ c' s. sym (alike c' s)))) in
    routes_unique (routes_of values) (routes_of values') ids (routes_of-ascending values d) alike

module _ (sum64 : Text → ℕ) {W : Type 0} (s : UserRouteStore W) (user_id : Text) where
  list_user_connections-routes_of :
      (w w' : W) (values : List (Text × Text))
      → Loads sum64 s user_id w values w'
      → list_user_connections sum64 s user_id w ≡ (ok (routes_of values), w')
  unfolding list_user_connections
  list_user_connections-routes_of w w' values h = rw (h.0, h.1)

  -- Where no two fields of the user's hash are one connection id when trimmed, of those with a server,
  -- `ListUserConnections` returns a list that ascends strictly by connection id and holds exactly
  -- the fields with their values, trimmed, except where either is blank.
  pub list_user_connections_lem :
      (w w' : W) (values : List (Text × Text))
      → Loads sum64 s user_id w values w'
      → HasDistinctIds values
      → (routes : List UserConnectionRoute) × (list_user_connections sum64 s user_id w
          ≡ (ok routes, w'))
        × (ascending (connection_ids routes) ≡ true)
        × ((c server : Text)
            → has_route c server routes
              ≡ (has_pair c server values && (not (is_empty c) && not (is_empty server))))
  list_user_connections_lem w w' values h d = (
    routes_of values,
    list_user_connections-routes_of w w' values h,
    routes_of-ascending values d,
    λ c server. has_route-routes_of c server values,
  )

  -- Two reads whose hashes hold the same trimmed fields with the same trimmed values, in whatever
  -- order, return the same list, where in neither two fields with a server are one id when trimmed.
  pub list_user_connections_order :
      (v v' w w' : W) (values values' : List (Text × Text))
      → Loads sum64 s user_id v values v'
      → Loads sum64 s user_id w values' w'
      → HasDistinctIds values
      → HasDistinctIds values'
      → ((c server : Text) → has_pair c server values ≡ has_pair c server values')
      → (list_user_connections sum64 s user_id v).0 ≡ (list_user_connections sum64 s user_id w).0
  list_user_connections_order v v' w w' values values' h k d d' same = rw (
    list_user_connections-routes_of v v' values h,
    list_user_connections-routes_of w w' values' k,
    routes_of_unique values values' d d' same,
  )
