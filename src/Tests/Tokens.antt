-- ===== src/Tests/Tokens.antt =====
-- A token library whose state is the clock, and which signs the claims of users and apps of one
-- character each; tokens through the service, the resolver and the hub.
use kim_gate.Prelude.{
  ℕ, ◌≡◌, ◌<◌, ◌-◌, ◌*◌, ◌%◌, inr, refl, Bool, true, false, Option, some, [], ◌∷◌, ◌++◌, arith, ltb,
  ◌&&◌, if◌then◌else◌,
}
use kim_gate.Prelude.Int.{pos}
use kim_gate.Effect.{Result, ok, err, foreign}
use kim_gate.Text.{Text, codes, text_eq, is_empty, trim_space, contains}
use kim_gate.Text.Trim.{text_eq_refl}
use kim_gate.Text.Compact.{IsClean}
use kim_gate.Proto.{Bytes, GetTokenRequest}
use kim_gate.Time.{Time, second, unix, sub}
use kim_gate.Auth.{TokenResolver, extract_token, get_user_id}
use kim_gate.Auth
use kim_gate.Auth.Jwt.{KimClaims, Jwt, JwtResolver, Token, generate_token, resolve_token}
use kim_gate.Auth.Provider.{get_user_id_sound}
use kim_gate.Auth.RoundTrip.{JwtLaws, Resolved, resolve_token_sound, resolve_token-generate_token}
use kim_gate.Cluster.Dispatch.{is_err}
use kim_gate.Gateway.AppGroup.{colon, parse_app_group}
use kim_gate.Gateway.Groups.{group_of}
use kim_gate.Rpc.Queries.{get_token}
use kim_gate.Tokens.{token_joins, token_with_colon}

abbrev claims_of : Time → Time → ℕ → ℕ → KimClaims
claims_of issued expires user app = record {
  issued_at = some issued;
  expires_at = some expires;
  user_id = user ∷ [];
  app_id = app ∷ [];
  platform = [];
  br = [];
}

abbrev sign : Option Time → Option Time → Text → Text → Text → Text → Bytes → Result Text
sign (some issued) (some expires) (user ∷ []) (app ∷ []) [] [] secret =
    ok (issued ∷ expires ∷ user ∷ app ∷ secret)
sign _ _ _ _ _ _ _ = err (foreign 0)

abbrev checked : KimClaims → Bytes → Result Bytes → Bool → Result (KimClaims × Bool)
checked claims secret (err e) early = err e
checked claims secret (ok key) early =
    if text_eq key secret && early then ok (claims, true) else err (foreign 1)

abbrev parse : Text → Result Bytes → Time → Result (KimClaims × Bool)
parse (issued ∷ expires ∷ user ∷ app ∷ secret) key now =
    checked (claims_of issued expires user app) secret key (ltb now expires)
parse _ key now = err (foreign 2)

abbrev jwt : Jwt Time
jwt = record {
  now = λ w. w;
  numeric_date = λ t. t - t % second;
  signed_string =
      λ c secret. sign c.issued_at c.expires_at c.user_id c.app_id c.platform c.br secret;
  parse_with_claims = λ token key w. parse token (key true) w;
}

parse-sign :
    (i e : Option Time) (user app platform br : Text) (secret : Bytes) (token : Text)
    (key : Result Bytes) (expires : Time) (w : Time)
    → sign i e user app platform br secret ≡ ok token
    → key ≡ ok secret
    → e ≡ some expires
    → w < expires
    → parse token key w
      ≡ ok (
        record {
          issued_at = i;
          expires_at = e;
          user_id = user;
          app_id = app;
          platform = platform;
          br = br;
        },
        true,
      )
parse-sign (some i) (some e) (u ∷ []) (a ∷ []) [] [] secret token key expires w h k x early =
    ground (arith, text_eq_refl secret)
parse-sign _ _ _ _ _ _ secret token key expires w h k x early = absurd cc

jwt_laws : JwtLaws jwt
jwt_laws = record {
  numeric = λ t. refl;
  parse_signed = λ c secret token key expires w h k.
      parse-sign c.issued_at c.expires_at c.user_id c.app_id c.platform c.br secret token (key true)
        expires w h k;
}

abbrev resolver : JwtResolver
resolver = record { secret = codes "key"; expiration = pos (60 * second) }

abbrev ask : Text → GetTokenRequest
ask user_id = record { app_id = codes " a "; user_id = user_id; platform = []; br = [] }

abbrev token : ℕ → Token
token user = record {
  signed = 0 ∷ (60 * second) ∷ user ∷ b'a' ∷ codes "key";
  expires = unix (60 * second);
}

made : get_token jwt resolver (some (ask (codes "u "))) 0 ≡ ok (token b'u')
unfolding get_token generate_token trim_space
made = refl

made_with_colon : get_token jwt resolver (some (ask (codes ":"))) 0 ≡ ok (token b':')
unfolding get_token generate_token trim_space
made_with_colon = refl

no_colon :
    (contains (trim_space (codes " a ")) colon ≡ false)
    × (contains (trim_space (codes "u ")) colon ≡ false)
    × (contains (trim_space (codes ":")) colon ≡ true)
unfolding trim_space contains
no_colon = (refl, refl, refl)

token_joins_example :
    (user_id : Text) × (resolve_token jwt resolver (token b'u').signed 5 ≡ ok user_id)
    × (parse_app_group user_id ≡ ok (group_of (trim_space (codes " a "))))
token_joins_example =
    token_joins jwt resolver jwt_laws (ask (codes "u ")) 60 0 5 refl (omega arith) made
      (omega arith) no_colon.0 no_colon.1

token_with_colon_example :
    (user_id : Text) × (resolve_token jwt resolver (token b':').signed 5 ≡ ok user_id)
    × (is_err (parse_app_group user_id) ≡ true)
token_with_colon_example =
    token_with_colon jwt resolver jwt_laws (ask (codes ":")) 60 0 5 refl (omega arith)
      made_with_colon (omega arith) (inr no_colon.2)

generated : generate_token jwt resolver (codes "a") (codes "u") [] [] 0 ≡ ok (token b'u')
unfolding generate_token
generated = refl

resolve_token-generate_token_example :
    resolve_token jwt resolver (token b'u').signed 5 ≡ ok (codes "a" ++ codes ":" ++ codes "u")
resolve_token-generate_token_example =
    resolve_token-generate_token jwt resolver jwt_laws (codes "a") (codes "u") [] [] 60 0 5 refl
      (omega arith) generated (omega arith)

accepted :
    resolve_token jwt resolver (token b'u').signed 5 ≡ ok (codes "a" ++ codes ":" ++ codes "u")
unfolding resolve_token text_eq sub
accepted = refl

resolve_token_sound_example :
    (is_empty resolver.secret ≡ false)
    × Resolved jwt resolver (token b'u').signed (codes "a" ++ codes ":" ++ codes "u") 5
resolve_token_sound_example = resolve_token_sound jwt resolver (token b'u').signed 5 accepted

-- A provider whose resolver is the one above.
abbrev provider : TokenResolver Time
provider = record { resolve_token = λ t w. (resolve_token jwt resolver t w, w) }

abbrev http_request : Auth.Request
http_request = record {
  authorization = codes " ";
  x_token = (token b'u').signed;
  access_token = [];
}

let_in : (get_user_id (some provider) (some http_request) 5).0 ≡ ok (codes "a:u")
unfolding get_user_id resolve_token trim_space text_eq sub
let_in = refl

get_user_id_sound_example :
    IsClean (codes "a:u")
    × (is_empty (extract_token (some http_request)) ≡ false)
    × ((found : TokenResolver Time) × (some provider ≡ some found)
        × (raw : Text) × ((found.resolve_token (extract_token (some http_request)) 5).0 ≡ ok raw)
        × (codes "a:u" ≡ trim_space raw))
get_user_id_sound_example = get_user_id_sound (some provider) (some http_request) 5 let_in
