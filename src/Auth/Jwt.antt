-- ===== src/Auth/Jwt.antt =====
-- internal/auth/jwt.go: `JWTResolver`. The JWT library is the parameter `Jwt`, over the state `W` that
-- has the clock.
use kim_gate.Prelude.{
  ℕ, ◌+◌, ◌/◌, ◌%◌, ltb, [], ◌∷◌, Bool, true, not, ◌&&◌, ◌||◌, ◌++◌, Option, none, some,
  if◌then◌else◌,
}
use kim_gate.Prelude.Int.{ℤ, pos, ltb_ℤ}
use kim_gate.Effect.{Result, ok, err, new, wrap}
use kim_gate.Text.{Text, codes, is_empty}
use kim_gate.Proto.{Bytes}
use kim_gate.Time.{Time, add, sub, unix}
use kim_gate.Auth.{err_unauthenticated}

pub record KimClaims : Type 0 where
  pub issued_at : Option Time
  pub expires_at : Option Time
  pub user_id : Text
  pub app_id : Text
  pub platform : Text
  pub br : Text

-- `now` is `time.Now`, `numeric_date` is `jwt.NewNumericDate`, `signed_string` signs claims by HS256,
-- and `parse_with_claims` returns the claims and `parsed.Valid`; its key function is told whether the
-- token's signing method is an HMAC method.
pub record Jwt (W : Type 0) : Type 0 where
  pub now : W → Time
  pub numeric_date : Time → Time
  pub signed_string : KimClaims → Bytes → Result Text
  pub parse_with_claims : Text → (Bool → Result Bytes) → W → Result (KimClaims × Bool)

pub record JwtResolver : Type 0 where
  pub secret : Bytes
  pub expiration : ℤ

-- The bytes of a character, and `[]byte(s)`.
abbrev utf8 : ℕ → Bytes
utf8 c =
    if ltb c 0x80
    then c ∷ []
    else if ltb c 0x800
    then (0xc0 + c / 64) ∷ (0x80 + c % 64) ∷ []
    else if ltb c 0x10000
    then (0xe0 + c / 4096) ∷ (0x80 + (c / 64) % 64) ∷ (0x80 + c % 64) ∷ []
    else (0xf0 + c / 262144)
      ∷ (0x80 + (c / 4096) % 64)
      ∷ (0x80 + (c / 64) % 64)
      ∷ (0x80 + c % 64)
      ∷ []

unfoldable bytes_of : Text → Bytes
bytes_of [] = []
bytes_of (c ∷ s) = utf8 c ++ bytes_of s

unfoldable pub new_jwt_resolver : Text → ℤ → JwtResolver
unfolding bytes_of
new_jwt_resolver secret expiration = record { secret = bytes_of secret; expiration = expiration }

pub record Token : Type 0 where
  pub signed : Text
  pub expires : ℤ

-- The claims that `GenerateToken` signs.
unfoldable pub new_claims :
    {W : Type 0} → Jwt W → JwtResolver → Text → Text → Text → Text → W → KimClaims
new_claims jwt r app_id user_id platform br w = record {
  issued_at = some (jwt.numeric_date (jwt.now w));
  expires_at = some (jwt.numeric_date (add (jwt.now w) r.expiration));
  user_id = user_id;
  app_id = app_id;
  platform = platform;
  br = br;
}

unfoldable pub generate_token :
    {W : Type 0} → Jwt W → JwtResolver → Text → Text → Text → Text → W → Result Token
unfolding new_claims
generate_token jwt r app_id user_id platform br w =
    if is_empty r.secret
    then err err_unauthenticated
    else if is_empty app_id || is_empty user_id
    then err (new "app_id and user_id are required")
    else (elim (jwt.signed_string (new_claims jwt r app_id user_id platform br w) r.secret) [
      | err e ↦ err (wrap "sign token" e)
      | ok signed ↦ ok (record { signed = signed; expires = unix (add (jwt.now w) r.expiration) })
    ])

-- The key function of `ResolveToken`.
abbrev pub key_of : JwtResolver → Bool → Result Bytes
key_of r hmac = if not hmac then err (new "unexpected signing method") else ok r.secret

-- The lifetime check, which is made where the resolver has a positive expiration.
unfoldable pub too_long : JwtResolver → KimClaims → Bool
too_long r claims = elim claims.issued_at [
  | none ↦ true
  | some issued ↦ elim claims.expires_at [
    | none ↦ true
    | some expires ↦ ltb_ℤ r.expiration (sub expires issued)
  ]
]

unfoldable pub accept : JwtResolver → KimClaims → Result Text
unfolding too_long
accept r claims =
    if ltb_ℤ (pos 0) r.expiration && too_long r claims
    then err err_unauthenticated
    else if is_empty claims.user_id || is_empty claims.app_id
    then err err_unauthenticated
    else ok (claims.app_id ++ codes ":" ++ claims.user_id)

unfoldable pub resolve_token : {W : Type 0} → Jwt W → JwtResolver → Text → W → Result Text
unfolding accept
resolve_token jwt r token w =
    if is_empty r.secret
    then err err_unauthenticated
    else (elim (jwt.parse_with_claims token (key_of r) w) [
      | err e ↦ err err_unauthenticated
      | ok (claims, valid) ↦ if not valid then err err_unauthenticated else accept r claims
    ])
