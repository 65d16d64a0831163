-- ===== src/Data/SortedRoutes.antt =====
-- Proofs on lists of routes that are sorted by their connection ids.
use kim_gate.Prelude.{
  ◌≡◌, refl, sym, ap, ap₂, subst, ◌∙◌, true, false, Bool, List, [], ◌∷◌, arith, Bool-cases, inl,
  inr,
}
use kim_gate.Text.{Text, text_eq, text_ltb, elem, insert, sort_slice}
use kim_gate.Text.Trim.{text_eq_iff, text_eq_refl}
use kim_gate.Text.Order.{ascending, all_above, all_above-elem, text_ltb_irrefl}
use kim_gate.Data.UserRoute.{UserConnectionRoute, connection_less}
use kim_gate.Data.Registration.{has_route}

abbrev pub connection_ids : List UserConnectionRoute → List Text
connection_ids [] = []
connection_ids (r ∷ routes) = r.connection_id ∷ connection_ids routes

-- Sorting routes sorts their connection ids.
connection_ids-insert :
    (r : UserConnectionRoute) (routes : List UserConnectionRoute)
    → connection_ids (insert connection_less r routes)
      ≡ insert text_ltb r.connection_id (connection_ids routes)
unfolding insert
connection_ids-insert r [] = refl
connection_ids-insert r (q ∷ routes) = ground (arith, connection_ids-insert r routes)

pub connection_ids-sort_slice :
    (routes : List UserConnectionRoute)
    → connection_ids (sort_slice connection_less routes)
      ≡ sort_slice text_ltb (connection_ids routes)
unfolding sort_slice
connection_ids-sort_slice [] = refl
connection_ids-sort_slice (r ∷ routes) =
    connection_ids-insert r (sort_slice connection_less routes)
    ∙ ap (insert text_ltb r.connection_id) (connection_ids-sort_slice routes)

has_route-elem :
    (c s : Text) (routes : List UserConnectionRoute)
    → has_route c s routes ≡ true
    → elem c (connection_ids routes) ≡ true
has_route-elem c s [] h = cc
has_route-elem c s (r ∷ routes) h =
    ground (arith, has_route-elem c s routes, text_eq_iff r.connection_id c, text_eq_refl c)

elem-has_route :
    (c : Text) (routes : List UserConnectionRoute)
    → elem c (connection_ids routes) ≡ true
    → (s : Text) × (has_route c s routes ≡ true)
elem-has_route c [] h = absurd (cc h)
elem-has_route c (r ∷ routes) h = elim (Bool-cases (text_eq c r.connection_id)) [
  | inl here ↦ (
    r.server_id,
    ground (
      arith,
      here,
      text_eq_iff c r.connection_id,
      text_eq_refl r.server_id,
      text_eq_refl r.connection_id,
    ),
  )
  | inr away ↦
      let (s, there) = elem-has_route c routes (ground (arith, h, away)) in
      (s, ground (arith, there))
]

-- The two lists hold the same routes.
abbrev pub IsAlike : List UserConnectionRoute → List UserConnectionRoute → Type 0
IsAlike rs qs = (c s : Text) → has_route c s rs ≡ has_route c s qs

pub iff_equal : (a b : Bool) → (a ≡ true → b ≡ true) → (b ≡ true → a ≡ true) → a ≡ b
iff_equal true b h k = sym (h refl)
iff_equal false true h k = k refl
iff_equal false false h k = refl

pub elem-IsAlike :
    (rs qs : List UserConnectionRoute) (c : Text)
    → IsAlike rs qs
    → elem c (connection_ids rs) ≡ true
    → elem c (connection_ids qs) ≡ true
elem-IsAlike rs qs c same h =
    let (s, there) = elem-has_route c rs h in has_route-elem c s qs (sym (same c s) ∙ there)

-- An id below all ids is not among them.
has_route-all_above :
    (c s : Text) (routes : List UserConnectionRoute)
    → all_above c (connection_ids routes) ≡ true
    → has_route c s routes ≡ false
has_route-all_above c s routes h = ground (
  arith,
  has_route-elem c s routes,
  all_above-elem c c (connection_ids routes) h,
  text_ltb_irrefl c,
)

servers_equal :
    (r q : UserConnectionRoute) (rs qs : List UserConnectionRoute)
    → r.connection_id ≡ q.connection_id
    → all_above q.connection_id (connection_ids qs) ≡ true
    → IsAlike (r ∷ rs) (q ∷ qs)
    → r.server_id ≡ q.server_id
servers_equal r q rs qs e h same = ground (
  arith,
  e,
  same r.connection_id r.server_id,
  text_eq_refl r.connection_id,
  text_eq_refl r.server_id,
  text_eq_iff q.server_id r.server_id,
  has_route-all_above q.connection_id r.server_id qs h,
  has_route-all_above r.connection_id r.server_id qs,
)

tails-IsAlike :
    (r : UserConnectionRoute) (rs qs : List UserConnectionRoute)
    → all_above r.connection_id (connection_ids rs) ≡ true
    → all_above r.connection_id (connection_ids qs) ≡ true
    → IsAlike (r ∷ rs) (r ∷ qs)
    → IsAlike rs qs
tails-IsAlike r rs qs h k same c s = elim (Bool-cases (text_eq r.connection_id c)) [
  | inl here ↦
      let e = (text_eq_iff r.connection_id c).0 here in
      subst (λ d. has_route d s rs ≡ has_route d s qs) e
        (has_route-all_above r.connection_id s rs h
          ∙ sym (has_route-all_above r.connection_id s qs k))
  | inr away ↦ rw away at (same c s)
]

-- Where the ids are the same and ascend, the routes are the same.
pub routes_unique :
    (rs qs : List UserConnectionRoute)
    → connection_ids rs ≡ connection_ids qs
    → ascending (connection_ids rs) ≡ true
    → IsAlike rs qs
    → rs ≡ qs
routes_unique [] [] e h same = refl
routes_unique [] (q ∷ qs) e h same = absurd (cc e)
routes_unique (r ∷ rs) [] e h same = absurd (cc e)
routes_unique (r ∷ rs) (q ∷ qs) e h same =
    let ids : r.connection_id ≡ q.connection_id = cc e in
    let rest : connection_ids rs ≡ connection_ids qs = cc e in
    let above : all_above r.connection_id (connection_ids rs) ≡ true = ground (arith, h) in
    let above' : all_above q.connection_id (connection_ids qs) ≡ true =
      subst (λ ts. all_above q.connection_id ts ≡ true) rest
        (subst (λ t. all_above t (connection_ids rs) ≡ true) ids above) in
    let servers = servers_equal r q rs qs ids above' same in
    let one : r ≡ q = λ i. record { connection_id = ids i; server_id = servers i } in
    let same' = subst (λ (q' : UserConnectionRoute). IsAlike (r ∷ rs) (q' ∷ qs)) (sym one) same in
    let above'' = subst (λ t. all_above t (connection_ids qs) ≡ true) (sym ids) above' in
    ap₂ ◌∷◌ one
      (routes_unique rs qs rest (ground (arith, h)) (tails-IsAlike r rs qs above above'' same'))
