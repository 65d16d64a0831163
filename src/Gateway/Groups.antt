-- ===== src/Gateway/Groups.antt =====
-- Proofs on `ParseAppGroup` of internal/gateway/app_group.go.
use kim_gate.Prelude.{ℕ, ◌≡◌, refl, true, false, none, some, [], ◌∷◌, ◌++◌, arith, Option}
use kim_gate.Effect.{ok, err, Error, is, Sentinel}
use kim_gate.Text.{Text, codes, is_empty, trim_space, cut, contains}
use kim_gate.Text.Cut.{cut_sound, cut_complete}
use kim_gate.Gateway.AppGroup.{AppGroup, colon, format_app_group, parse_parts, parse_app_group}

-- The trimmed user id is an app part and a user part around its only colon, and neither part is blank.
pub record Names (user_id app_part user_part : Text) : Type 0 where
  pub parts : trim_space user_id ≡ app_part ++ colon ∷ user_part
  pub one_colon : (contains app_part colon ≡ false) × (contains user_part colon ≡ false)
  pub has_app : is_empty (trim_space app_part) ≡ false
  pub has_user : is_empty (trim_space user_part) ≡ false

abbrev pub group_of : Text → AppGroup
group_of app_part = record {
  group = codes "app:" ++ trim_space app_part;
  app_id = trim_space app_part;
}

parse_parts_sound :
    (user_id x y : Text) {g : AppGroup}
    → cut (trim_space user_id) colon ≡ some (x, y)
    → parse_parts x y ≡ ok g
    → Names user_id x y × (g ≡ group_of x)
unfolding parse_parts format_app_group
parse_parts_sound user_id x y h k = ground (arith, cut_sound colon (trim_space user_id) x y)

is_empty-append : (x y : Text) (c : ℕ) → is_empty (x ++ c ∷ y) ≡ false
is_empty-append [] y c = refl
is_empty-append (a ∷ x) y c = refl

-- A user id is accepted only if it names an app and a user, and then its group is the app's.
pub parse_app_group_sound :
    (user_id : Text) {g : AppGroup}
    → parse_app_group user_id ≡ ok g
    → (x : Text) × (y : Text) × Names user_id x y × (g ≡ group_of x)
unfolding parse_app_group
parse_app_group_sound user_id {g} h = go (cut (trim_space user_id) colon) refl
  where
    go :
        (r : Option (Text × Text))
        → cut (trim_space user_id) colon ≡ r
        → (x : Text) × (y : Text) × Names user_id x y × (g ≡ group_of x)
    go none e = absurd (ground arith)
    go (some (x, y)) e = let (n, p) = parse_parts_sound user_id x y e (ground arith) in (x, y, n, p)

-- A user id that names an app and a user is accepted, with the app's group.
pub parse_app_group_complete :
    (user_id x y : Text) → Names user_id x y → parse_app_group user_id ≡ ok (group_of x)
unfolding parse_app_group format_app_group
parse_app_group_complete user_id x y n =
    ground (arith, cut_complete colon x y, is_empty-append x y colon)

-- Every refusal is the error that callers recognise as an invalid user id.
pub parse_app_group-err :
    (user_id : Text) {e : Error}
    → parse_app_group user_id ≡ err e
    → is e Sentinel.invalid_user_id ≡ true
unfolding parse_app_group
parse_app_group-err user_id h = ground arith
