-- ===== src/Data/Listing.antt =====
-- Proofs on `ListUserServerIDs` of internal/data/user_route.go.
use kim_gate.Prelude.{ℕ, ◌≡◌, refl, sym, ◌∙◌, true, false, not, ◌&&◌, List, [], ◌∷◌, arith, map}
use kim_gate.Effect.{ok}
use kim_gate.Text.{
  Text, is_empty, trim_space, compact_strings, elem, IsDistinct, text_ltb, sort_slice,
}
use kim_gate.Text.Trim.{text_eq_iff, text_eq_refl}
use kim_gate.Text.Order.{ascending, elem-sort_slice, sort_slice-ascending, ascending_unique}
use kim_gate.Data.UserRoute.{
  UserRouteStore, user_route_key, collect_server_ids, bucket_of, list_user_server_ids,
}

-- The server ids in a hash, trimmed, without the blank ones.
abbrev pub server_ids : List (Text × Text) → List Text
server_ids values = compact_strings (map (λ (p : Text × Text). p.1) values)

elem-collect_server_ids :
    (t : Text) (seen : List Text) (values : List (Text × Text))
    → elem t (collect_server_ids seen values) ≡ (elem t (server_ids values) && not (elem t seen))
unfolding collect_server_ids compact_strings
elem-collect_server_ids t seen [] = refl
elem-collect_server_ids t seen ((c, s) ∷ values) = ground (
  arith,
  text_eq_iff t (trim_space s),
  elem-collect_server_ids t seen values,
  elem-collect_server_ids t (trim_space s ∷ seen) values,
)

collect_server_ids-IsDistinct :
    (seen : List Text) (values : List (Text × Text)) → IsDistinct (collect_server_ids seen values)
unfolding collect_server_ids
collect_server_ids-IsDistinct seen [] = tt
collect_server_ids-IsDistinct seen ((c, s) ∷ values) = ground (
  arith,
  collect_server_ids-IsDistinct seen values,
  collect_server_ids-IsDistinct (trim_space s ∷ seen) values,
  text_eq_refl (trim_space s),
  elem-collect_server_ids (trim_space s) (trim_space s ∷ seen) values,
)

-- The list that is returned for a hash.
abbrev pub listed : List (Text × Text) → List Text
listed values = sort_slice text_ltb (collect_server_ids [] values)

listed-ascending : (values : List (Text × Text)) → ascending (listed values) ≡ true
listed-ascending values = sort_slice-ascending _ (collect_server_ids-IsDistinct [] values)

elem-listed :
    (t : Text) (values : List (Text × Text)) → elem t (listed values) ≡ elem t (server_ids values)
elem-listed t values =
    ground
      (arith, elem-sort_slice t (collect_server_ids [] values), elem-collect_server_ids t [] values)

module _ (sum64 : Text → ℕ) {W : Type 0} (s : UserRouteStore W) (user_id : Text) where
  -- The hash of the user, as it is read.
  abbrev pub Loads : W → List (Text × Text) → W → Type 0
  Loads w values w' =
      (is_empty (trim_space user_id) ≡ false)
      × (s.redis.hgetall
            (user_route_key (bucket_of sum64 (trim_space user_id)) (trim_space user_id)) w
          ≡ (ok values, w'))

  list_user_server_ids-listed :
      (w w' : W) (values : List (Text × Text))
      → Loads w values w'
      → list_user_server_ids sum64 s user_id w ≡ (ok (listed values), w')
  unfolding list_user_server_ids
  list_user_server_ids-listed w w' values h = rw (h.0, h.1)

  -- The listing ascends strictly, so it has each server once, and it has exactly the server ids in
  -- the user's hash, trimmed, except blank ones.
  pub list_user_server_ids_lem :
      (w w' : W) (values : List (Text × Text))
      → Loads w values w'
      → (ids : List Text) × (list_user_server_ids sum64 s user_id w ≡ (ok ids, w'))
        × (ascending ids ≡ true)
        × ((t : Text) → elem t ids ≡ elem t (server_ids values))
  list_user_server_ids_lem w w' values h = (
    listed values,
    list_user_server_ids-listed w w' values h,
    listed-ascending values,
    λ t. elem-listed t values,
  )

  -- Two reads whose hashes name the same servers, in whatever order and however often, return the
  -- same list: the result does not depend on the order in which a map is iterated.
  pub list_user_server_ids_order :
      (v v' w w' : W) (values values' : List (Text × Text))
      → Loads v values v'
      → Loads w values' w'
      → ((t : Text) → elem t (server_ids values) ≡ elem t (server_ids values'))
      → (list_user_server_ids sum64 s user_id v).0 ≡ (list_user_server_ids sum64 s user_id w).0
  list_user_server_ids_order v v' w w' values values' h k same =
      let one : listed values ≡ listed values' =
        ascending_unique _ _ (listed-ascending values) (listed-ascending values')
          (λ t. elem-listed t values ∙ (same t ∙ sym (elem-listed t values'))) in
      rw
        (list_user_server_ids-listed v v' values h, list_user_server_ids-listed w w' values' k, one)
