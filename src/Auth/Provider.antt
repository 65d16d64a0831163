-- ===== src/Auth/Provider.antt =====
-- Proofs on `ExtractToken` and `GetUserID` of internal/auth/auth.go.
use kim_gate.Prelude.{
  ◌≡◌, ◌↔◌, refl, subst, true, false, Option, none, some, [], ◌∷◌, ◌++◌, drop, length, arith,
  ==_iff,
}
use kim_gate.Effect.{Result, ok, err}
use kim_gate.Text.{Text, codes, is_empty, trim_space, has_prefix}
use kim_gate.Text.Trim.{trim_space_idem}
use kim_gate.Text.Compact.{IsClean}
use kim_gate.Auth.{TokenResolver, Request, extract_token, get_user_id}

has_prefix-append : (s t : Text) → has_prefix s t ≡ true → s ≡ t ++ drop (length t) s
unfolding has_prefix
has_prefix-append s [] h = refl
has_prefix-append [] (c ∷ t) h = cc
has_prefix-append (a ∷ s) (c ∷ t) h = ground (arith, has_prefix-append s t, ==_iff a c)

-- A trimmed text that begins with `Bearer ` goes on behind the blank.
bearer_goes_on :
    (s : Text)
    → trim_space s ≡ s
    → has_prefix s (codes "Bearer ") ≡ true
    → is_empty (drop 7 s) ≡ false
unfolding trim_space
bearer_goes_on s h p = go (drop 7 s) (has_prefix-append s (codes "Bearer ") p)
  where
    go : (rest : Text) → s ≡ codes "Bearer " ++ rest → is_empty rest ≡ false
    go [] e = cc (subst (λ t. trim_space t ≡ t) e h)
    go (c ∷ rest) e = refl

-- The request has no token exactly if all three places for it are blank.
extract_token-nil :
    (r : Request)
    → (is_empty (extract_token (some r)) ≡ true) ↔ (
        (is_empty (trim_space r.authorization) ≡ true)
        × (is_empty (trim_space r.x_token) ≡ true)
        × (is_empty (trim_space r.access_token) ≡ true))
unfolding extract_token
extract_token-nil r =
    let goes_on = bearer_goes_on (trim_space r.authorization) (trim_space_idem r.authorization) in
    (λ h. ground (arith, goes_on), λ h. ground arith)

-- A user id is let in only if a token came and a resolver accepted it, and it is trimmed and not empty.
pub get_user_id_sound :
    {W : Type 0} (provider : Option (TokenResolver W)) (r : Option Request) (w : W) {user : Text}
    → (get_user_id provider r w).0 ≡ ok user
    → IsClean user
      × (is_empty (extract_token r) ≡ false)
      × ((resolver : TokenResolver W) × (provider ≡ some resolver)
          × (raw : Text) × ((resolver.resolve_token (extract_token r) w).0 ≡ ok raw)
          × (user ≡ trim_space raw))
unfolding get_user_id
get_user_id_sound none r w h = absurd (ground arith)
get_user_id_sound {W} (some resolver) r w {user} h =
    go (resolver.resolve_token (extract_token r) w).0 refl
  where
    go :
        (p : Result Text)
        → (resolver.resolve_token (extract_token r) w).0 ≡ p
        → IsClean user
          × (is_empty (extract_token r) ≡ false)
          × ((resolver' : TokenResolver W) × (some resolver ≡ some resolver')
              × (raw : Text) × ((resolver'.resolve_token (extract_token r) w).0 ≡ ok raw)
              × (user ≡ trim_space raw))
    go (err e) q = absurd (ground arith)
    go (ok raw) q =
        (ground (arith, trim_space_idem raw), ground arith, (resolver, refl, raw, q, ground arith))
