-- ===== src/Auth.antt =====
-- internal/auth/auth.go: the token of an HTTP request and the user that it stands for.
pub mod Jwt
pub mod Provider
pub mod RoundTrip
use kim_gate.Prelude.{
  ℕ, [], drop, ◌+◌, ◌-◌, ◌%◌, ◌^◌, ◌++◌, not, ltb, Option, none, some, if◌then◌else◌,
}
use kim_gate.Prelude.Int.{to_int64}
use kim_gate.Effect.{Result, ok, err, Error, sentinel, Sentinel, Action, ◌>>=◌}
use kim_gate.Text.{Text, codes, is_empty, trim_space, has_prefix, signed_decimal}

-- `ErrUnauthenticated`
abbrev pub err_unauthenticated : Error
err_unauthenticated = sentinel Sentinel.unauthenticated

pub record TokenResolver (W : Type 0) : Type 0 where
  pub resolve_token : Text → Action W Text

-- What the calls of `r.Header.Get` and `r.URL.Query().Get` return.
pub record Request : Type 0 where
  pub authorization : Text
  pub x_token : Text
  pub access_token : Text

unfoldable pub extract_token : Option Request → Text
extract_token none = []
extract_token (some r) =
    let token = trim_space r.authorization in
    let x_token = trim_space r.x_token in
    if not (is_empty token)
    then (if has_prefix token (codes "Bearer ") then drop 7 token else token)
    else if not (is_empty x_token)
    then x_token
    else trim_space r.access_token

-- The end of `GetUserID`.
abbrev pub known_user : Text → Result Text
known_user user_id =
    if is_empty (trim_space user_id) then err err_unauthenticated else ok (trim_space user_id)

-- The resolver is `none` where the provider or its resolver is nil.
unfoldable pub get_user_id :
    {W : Type 0} → Option (TokenResolver W) → Option Request → Action W Text
unfolding extract_token
get_user_id provider r w =
    if is_empty (extract_token r) then (err err_unauthenticated, w) else (elim provider [
      | none ↦ (err err_unauthenticated, w)
      | some resolver ↦
          (resolver.resolve_token (extract_token r) >>= λ user_id w'. (known_user user_id, w')) w
    ])

-- `RejectResolver.ResolveToken`: the state is the counter `userId`, as a 64-bit pattern.
unfoldable pub reject_resolve_token : Text → Action ℕ Text
unfolding to_int64
reject_resolve_token token n =
    let uid = (n + 1) % 2 ^ 64 in (ok (codes "test:" ++ signed_decimal (to_int64 uid)), uid)
