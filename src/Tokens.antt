-- ===== src/Tokens.antt =====
-- Proofs across `GetToken` of internal/rpc, the resolver of internal/auth and the app groups of
-- internal/gateway.
use kim_gate.Prelude.{
  ℕ, ◌+◌, ◌*◌, ◌≤◌, ◌<◌, ◌≡◌, ◌⊎◌, inl, inr, refl, sym, ap, ◌∙◌, true, false, some, [], ◌∷◌, ◌++◌,
  arith, append_assoc, ◌==◌, if◌then◌else◌,
}
use kim_gate.Prelude.Int.{pos}
use kim_gate.Effect.{Result, ok, err}
use kim_gate.Text.{Text, codes, trim_space, contains}
use kim_gate.Text.Trim.{trim_space_idem}
use kim_gate.Text.Compact.{IsClean}
use kim_gate.Text.Join.{trim_space_join}
use kim_gate.Time.{second, add, max_duration}
use kim_gate.Proto.{GetTokenRequest}
use kim_gate.Auth.Jwt.{Jwt, JwtResolver, Token, generate_token, resolve_token}
use kim_gate.Auth.RoundTrip.{JwtLaws, resolve_token-generate_token}
use kim_gate.Cluster.Dispatch.{is_err}
use kim_gate.Gateway.AppGroup.{AppGroup, colon, parse_app_group}
use kim_gate.Gateway.Groups.{group_of, parse_app_group_sound, parse_app_group_complete}
use kim_gate.Rpc.Queries.{get_token}

-- How often the colon occurs.
colons : Text → ℕ
colons [] = 0
colons (c ∷ s) = if c == colon then 1 + colons s else colons s

colons-append : (s t : Text) → colons (s ++ t) ≡ colons s + colons t
unfolding colons
colons-append [] t = omega arith
colons-append (c ∷ s) t = ground (arith, colons-append s t)

colons-join : (s t : Text) → colons (s ++ colon ∷ t) ≡ colons s + colons t + 1
unfolding colons
colons-join s t = omega (arith, colons-append s (colon ∷ t))

colons_of_contains : (s : Text) → contains s colon ≡ true → 1 ≤ colons s
unfolding colons contains
colons_of_contains [] h = cc
colons_of_contains (c ∷ s) h = ground (arith, colons_of_contains s)

no_colons : (s : Text) → contains s colon ≡ false → colons s ≡ 0
unfolding colons contains
no_colons [] h = refl
no_colons (c ∷ s) h = ground (arith, no_colons s)

-- The user id that a token names.
abbrev pub named : Text → Text → Text
named app_id user_id = app_id ++ codes ":" ++ user_id

module _ (app_id user_id : Text) (app_clean : IsClean app_id) (user_clean : IsClean user_id) where
  named_trimmed : trim_space (named app_id user_id) ≡ app_id ++ colon ∷ user_id
  named_trimmed =
      ap trim_space (append_assoc app_id (codes ":") user_id)
      ∙ trim_space_join app_id colon user_id app_clean user_clean

  parse_app_group-named :
      contains app_id colon ≡ false
      → contains user_id colon ≡ false
      → parse_app_group (named app_id user_id) ≡ ok (group_of app_id)
  parse_app_group-named ha hu =
      parse_app_group_complete (named app_id user_id) app_id user_id (record {
        parts = named_trimmed;
        one_colon = (ha, hu);
        has_app = rw app_clean.0 app_clean.1;
        has_user = rw user_clean.0 user_clean.1;
      })

  parse_app_group-colon :
      {g : AppGroup}
      → (contains app_id colon ≡ true) ⊎ (contains user_id colon ≡ true)
      → parse_app_group (named app_id user_id) ≡ ok g
      → ⊥
  parse_app_group-colon h k =
      let (x, y, n, _) = parse_app_group_sound (named app_id user_id) k in
      let both = ap colons (sym named_trimmed ∙ n.parts) in
      let some_colon : 1 ≤ colons app_id + colons user_id = elim h [
        | inl a ↦ omega (arith, colons_of_contains app_id a)
        | inr u ↦ omega (arith, colons_of_contains user_id u)
      ] in
      omega (
        arith,
        both,
        some_colon,
        colons-join app_id user_id,
        colons-join x y,
        no_colons x n.one_colon.0,
        no_colons y n.one_colon.1,
      )

  is_err-colon :
      (contains app_id colon ≡ true) ⊎ (contains user_id colon ≡ true)
      → is_err (parse_app_group (named app_id user_id)) ≡ true
  is_err-colon h = go (parse_app_group (named app_id user_id)) refl
    where
      go :
          (p : Result AppGroup)
          → parse_app_group (named app_id user_id) ≡ p
          → is_err (parse_app_group (named app_id user_id)) ≡ true
      go (ok g) k = absurd (parse_app_group-colon h k)
      go (err e) k = ap is_err k

get_token_sound :
    {W : Type 0} (jwt : Jwt W) (r : JwtResolver) (req : GetTokenRequest) (w : W) {token : Token}
    → get_token jwt r (some req) w ≡ ok token
    → IsClean (trim_space req.app_id)
      × IsClean (trim_space req.user_id)
      × (generate_token jwt r (trim_space req.app_id) (trim_space req.user_id) req.platform req.br w
          ≡ ok token)
unfolding get_token
get_token_sound jwt r req w h =
    ground (arith, trim_space_idem req.app_id, trim_space_idem req.user_id)

module _ {W : Type 0} (jwt : Jwt W) (r : JwtResolver) (laws : JwtLaws jwt) (req : GetTokenRequest)
    (n : ℕ) (w w' : W) {token : Token} (whole : r.expiration ≡ pos (n * second))
    (fits : n * second ≤ max_duration) (made : get_token jwt r (some req) w ≡ ok token)
    (early : jwt.now w' < jwt.numeric_date (add (jwt.now w) r.expiration)) where
  resolved :
      resolve_token jwt r token.signed w'
      ≡ ok (named (trim_space req.app_id) (trim_space req.user_id))
  resolved =
      let (_, _, signed) = get_token_sound jwt r req w made in
      resolve_token-generate_token jwt r laws _ _ req.platform req.br n w w' whole fits signed early

  -- With `JwtLaws`: a token that the service hands out for an app and a user without a colon resolves,
  -- until it expires, to a user id that the hub accepts, in the group of that app, if the resolver's
  -- lifetime is a whole number of seconds that a duration can hold.
  pub token_joins :
      contains (trim_space req.app_id) colon ≡ false
      → contains (trim_space req.user_id) colon ≡ false
      → (user_id : Text) × (resolve_token jwt r token.signed w' ≡ ok user_id)
        × (parse_app_group user_id ≡ ok (group_of (trim_space req.app_id)))
  token_joins ha hu =
      let (clean_app, clean_user, _) = get_token_sound jwt r req w made in
      (named _ _, resolved, parse_app_group-named _ _ clean_app clean_user ha hu)

  -- With `JwtLaws`: a token that the service hands out for an app or a user with a colon resolves,
  -- until it expires, to a user id that the hub refuses, if the resolver's lifetime is a whole number
  -- of seconds that a duration can hold.
  pub token_with_colon :
      (contains (trim_space req.app_id) colon ≡ true)
        ⊎ (contains (trim_space req.user_id) colon ≡ true)
      → (user_id : Text) × (resolve_token jwt r token.signed w' ≡ ok user_id)
        × (is_err (parse_app_group user_id) ≡ true)
  token_with_colon h =
      let (clean_app, clean_user, _) = get_token_sound jwt r req w made in
      (named _ _, resolved, is_err-colon _ _ clean_app clean_user h)
