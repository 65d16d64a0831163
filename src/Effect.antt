-- ===== src/Effect.antt =====
-- Go errors as values, and actions on a state `W` that the program does not own (Redis, the local
-- connections, the clock): an action returns a result or an error, and the state after it.
use kim_gate.Prelude.{ℕ, Bool, true, false, Option, none, some, String}
use kim_gate.Text.{Text}

-- The error values that the program compares with `errors.Is`.
pub data Sentinel : Type 0 where
  unauthenticated invalid_user_id canceled deadline_exceeded redis_closed server_stopped : Sentinel

-- The gRPC status codes that the service returns.
pub data Code : Type 0 where
  invalid_argument internal unauthenticated : Code

-- `new` is `errors.New`, `wrap t e` is `fmt.Errorf(t + ": %w", e)`,
-- `wrap_named t v e` is `fmt.Errorf(t + " %s: %w", v, e)`, `detail e t` is
-- `fmt.Errorf("%w: " + t, e)`, `about t v` prints a value behind a text, `status c e` is a gRPC status
-- whose message is the text of `e`, and `foreign` is an error made outside the repository.
pub data Error : Type 0 where
  new : String → Error
  sentinel : Sentinel → Error
  wrap : String → Error → Error
  wrap_named : String → Text → Error → Error
  detail : Error → String → Error
  about : String → Text → Error
  status : Code → Error → Error
  foreign : ℕ → Error

pub data Result {ℓ} (A : Type ℓ) : Type ℓ where
  ok : A → Result A
  err : Error → Result A

abbrev same : Sentinel → Sentinel → Bool
same Sentinel.unauthenticated Sentinel.unauthenticated = true
same invalid_user_id invalid_user_id = true
same canceled canceled = true
same deadline_exceeded deadline_exceeded = true
same redis_closed redis_closed = true
same server_stopped server_stopped = true
same _ _ = false

-- `errors.Is`: the chain of wrapped errors holds the sentinel. A status wraps nothing.
abbrev pub is : Error → Sentinel → Bool
is (sentinel s) t = same s t
is (wrap _ e) t = is e t
is (wrap_named _ _ e) t = is e t
is (detail e _) t = is e t
is _ t = false

-- A function that returns `error` alone.
abbrev pub of_err : Option Error → Result (Unit {0})
of_err none = ok tt
of_err (some e) = err e

abbrev pub Action {ℓ} : Type 0 → Type ℓ → Type ℓ
Action W A = W → Result A × W

abbrev pub pure {ℓ} : {W : Type 0} {A : Type ℓ} → A → Action W A
pure a w = (ok a, w)

abbrev pub fail {ℓ} : {W : Type 0} {A : Type ℓ} → Error → Action W A
fail e w = (err e, w)

abbrev pub lift {ℓ} : {W : Type 0} {A : Type ℓ} → Result A → Action W A
lift r w = (r, w)

abbrev pub resume {ℓ κ} :
    {W : Type 0} {A : Type ℓ} {B : Type κ} → Result A → (A → Action W B) → Action W B
resume (ok a) f w = f a w
resume (err e) f w = (err e, w)

infixl 5 ◌>>=◌ ◌>>◌
abbrev pub ◌>>=◌ {ℓ κ} :
    {W : Type 0} {A : Type ℓ} {B : Type κ} → Action W A → (A → Action W B) → Action W B
◌>>=◌ m f w = resume (m w).0 f (m w).1

abbrev pub ◌>>◌ {ℓ} : {W : Type 0} {B : Type ℓ} → Action W (Unit {0}) → Action W B → Action W B
m >> k = m >>= λ _. k

abbrev pub rewrap : (Error → Error) → {A : Type 0} → Result A → Result A
rewrap f (ok a) = ok a
rewrap f (err e) = err (f e)

-- `if err := m; err != nil { return f(err) }`
abbrev pub map_err : (Error → Error) → {W A : Type 0} → Action W A → Action W A
map_err f m w = (rewrap f (m w).0, (m w).1)

-- How a call ends: it returns, or it panics.
pub data Run {ℓ} (A : Type ℓ) : Type ℓ where
  returned : A → Run A
  panicked : Error → Run A

abbrev pub then_run {ℓ κ} : {A : Type ℓ} {B : Type κ} → Run A → (A → Run B) → Run B
then_run (returned a) f = f a
then_run (panicked e) f = panicked e
