-- ===== src/Auth/RoundTrip.antt =====
-- Proofs on internal/auth/jwt.go: `GenerateToken` and `ResolveToken` under the laws of the JWT library.
use kim_gate.Prelude.{
  ℕ, ◌-◌, ◌*◌, ◌%◌, ◌≤◌, ◌<◌, ◌≡◌, ◌⊎◌, inl, inr, Bool-cases, refl, Bool, true, false, ◌++◌, Option,
  none, some, arith,
}
use kim_gate.Prelude.Int.{ℤ, pos, ltb_ℤ}
use kim_gate.Effect.{Result, ok, err}
use kim_gate.Text.{Text, codes, is_empty}
use kim_gate.Proto.{Bytes}
use kim_gate.Time.{Time, second, add, sub, max_duration}
use kim_gate.Auth.Jwt.{
  KimClaims, Jwt, JwtResolver, Token, new_claims, generate_token, key_of, too_long, resolve_token,
}

-- What the JWT library documents: a numeric date is the time without its fraction of a second, and a
-- token that it signed is parsed, before it expires and with the key that it was signed with, to the
-- claims that were signed.
pub record JwtLaws {W : Type 0} (jwt : Jwt W) : Type 0 where
  pub numeric : (t : Time) → jwt.numeric_date t ≡ t - t % second
  pub parse_signed :
      (claims : KimClaims) (secret : Bytes) (token : Text) (key : Bool → Result Bytes)
      (expires : Time) (w : W)
      → jwt.signed_string claims secret ≡ ok token
      → key true ≡ ok secret
      → claims.expires_at ≡ some expires
      → jwt.now w < expires
      → jwt.parse_with_claims token key w ≡ ok (claims, true)

-- The two dates of the claims, with the lifetime that they leave.
pub record LivesAtMost (d : ℤ) (claims : KimClaims) : Type 0 where
  pub issued : Time
  pub expires : Time
  pub has_issued : claims.issued_at ≡ some issued
  pub has_expires : claims.expires_at ≡ some expires
  pub within : ltb_ℤ d (sub expires issued) ≡ false

too_long_sound :
    (r : JwtResolver) (claims : KimClaims)
    → too_long r claims ≡ false
    → LivesAtMost r.expiration claims
unfolding too_long
too_long_sound r claims h = go claims.issued_at claims.expires_at refl refl
  where
    go :
        (i e : Option Time)
        → claims.issued_at ≡ i
        → claims.expires_at ≡ e
        → LivesAtMost r.expiration claims
    go none e p q = absurd (ground arith)
    go (some i) none p q = absurd (ground arith)
    go (some i) (some e) p q = record {
      issued = i;
      expires = e;
      has_issued = p;
      has_expires = q;
      within = ground arith;
    }

-- What a resolved token says.
pub record Resolved {W : Type 0} (jwt : Jwt W) (r : JwtResolver) (token user : Text) (w : W)
    : Type 0 where
  pub claims : KimClaims
  pub parsed : jwt.parse_with_claims token (key_of r) w ≡ ok (claims, true)
  pub named : user ≡ claims.app_id ++ codes ":" ++ claims.user_id
  pub has_app : is_empty claims.app_id ≡ false
  pub has_user : is_empty claims.user_id ≡ false
  pub lifetime : (ltb_ℤ (pos 0) r.expiration ≡ false) ⊎ LivesAtMost r.expiration claims

module _ {W : Type 0} (jwt : Jwt W) (r : JwtResolver) where
  -- A token is resolved only if the library accepts it under the resolver's secret, which is not
  -- empty; the user is then the app and the user of its claims, neither of them empty, and its
  -- lifetime is within the resolver's, where that is positive.
  pub resolve_token_sound :
      (token : Text) (w : W) {user : Text}
      → resolve_token jwt r token w ≡ ok user
      → (is_empty r.secret ≡ false) × Resolved jwt r token user w
  unfolding resolve_token
  resolve_token_sound token w {user} h = go (jwt.parse_with_claims token (key_of r) w) refl
    where
      go :
          (p : Result (KimClaims × Bool))
          → jwt.parse_with_claims token (key_of r) w ≡ p
          → (is_empty r.secret ≡ false) × Resolved jwt r token user w
      go (err e) q = absurd (ground arith)
      go (ok (claims, false)) q = absurd (ground arith)
      go (ok (claims, true)) q = (
        ground arith,
        record {
          claims = claims;
          parsed = q;
          named = ground arith;
          has_app = ground arith;
          has_user = ground arith;
          lifetime = elim (Bool-cases (ltb_ℤ (pos 0) r.expiration)) [
            | inl limited ↦ inr (too_long_sound r claims (ground arith))
            | inr unlimited ↦ inl unlimited
          ];
        },
      )

  -- For a lifetime of whole seconds, the dates of new claims are exactly that far apart.
  new_claims-not_too_long :
      (laws : JwtLaws jwt) (app_id user_id platform br : Text) (n : ℕ) (w : W)
      → r.expiration ≡ pos (n * second)
      → n * second ≤ max_duration
      → too_long r (new_claims jwt r app_id user_id platform br w) ≡ false
  unfolding too_long new_claims sub
  new_claims-not_too_long laws app_id user_id platform br n w h fits =
      ground (arith, laws.numeric (jwt.now w), laws.numeric (add (jwt.now w) r.expiration))

  generate_token_signed :
      (app_id user_id platform br : Text) (w : W) {token : Token}
      → generate_token jwt r app_id user_id platform br w ≡ ok token
      → (is_empty r.secret ≡ false)
        × (is_empty app_id ≡ false)
        × (is_empty user_id ≡ false)
        × (jwt.signed_string (new_claims jwt r app_id user_id platform br w) r.secret
            ≡ ok token.signed)
  unfolding generate_token
  generate_token_signed app_id user_id platform br w h = ground arith

  -- With `JwtLaws`: a token that was generated resolves, at any time before it expires, to the app and
  -- the user that it was generated for, if the resolver's lifetime is a whole number of seconds that
  -- a duration can hold.
  pub resolve_token-generate_token :
      (laws : JwtLaws jwt) (app_id user_id platform br : Text) (n : ℕ) (w w' : W) {token : Token}
      → r.expiration ≡ pos (n * second)
      → n * second ≤ max_duration
      → generate_token jwt r app_id user_id platform br w ≡ ok token
      → jwt.now w' < jwt.numeric_date (add (jwt.now w) r.expiration)
      → resolve_token jwt r token.signed w' ≡ ok (app_id ++ codes ":" ++ user_id)
  unfolding resolve_token new_claims
  resolve_token-generate_token laws app_id user_id platform br n w w' {token} h fits made early =
      let claims = new_claims jwt r app_id user_id platform br w in
      let expires = jwt.numeric_date (add (jwt.now w) r.expiration) in
      let signed = generate_token_signed app_id user_id platform br w made in
      let parsed =
        laws.parse_signed claims r.secret token.signed (key_of r) expires w' signed.3 refl refl
          early in
      rw (signed.0, parsed, new_claims-not_too_long laws app_id user_id platform br n w h fits)
        (ground (arith, signed))
