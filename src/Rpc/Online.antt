-- ===== src/Rpc/Online.antt =====
-- Proofs on `GetOnline` of internal/rpc/service.go.
use kim_gate.Prelude.{ℕ, ◌<◌, ◌^◌, ◌≡◌, ◌↔◌, refl, Bool, true, false, Option, none, some, arith}
use kim_gate.Prelude.Int.{ℤ, pos, to_int32}
use kim_gate.Effect.{Result, ok, err}
use kim_gate.Text.{Text, is_empty, trim_space}
use kim_gate.Proto.{GetOnlineRequest}
use kim_gate.Rpc.Service.{invalid}
use kim_gate.Rpc.Queries.{Handler, get_online}

-- Whom a request asks about.
pub data Scope : Type 0 where
  user group : Text → Scope
  everyone : Scope

-- By the trimmed user and group, and whether each is blank; both together are none.
abbrev scope : Text → Text → (no_user no_group : Bool) → Option Scope
scope u g false false = none
scope u g false true = some (user u)
scope u g true false = some (group g)
scope u g true true = some everyone

abbrev pub scope_of : GetOnlineRequest → Option Scope
scope_of req =
    let u = trim_space req.user_id in
    let g = trim_space req.group in scope u g (is_empty u) (is_empty g)

abbrev pub count : {W : Type 0} → Handler W → Scope → W → ℕ
count h (user u) w = h.user_online u w
count h (group g) w = h.group_online g w
count h everyone w = h.online w

abbrev pub Counts : {W : Type 0} → Handler W → Option Scope → W → Result ℤ → Type 0
Counts h none w r = r ≡ err (invalid "user_id and group cannot both be set")
Counts h (some s) w r = (z : ℤ) × (r ≡ ok z) × ((z ≡ pos (count h s w)) ↔ (count h s w < 2 ^ 31))

to_int32-eq-pos : (n : ℕ) → (to_int32 n ≡ pos n) ↔ (n < 2 ^ 31)
unfolding to_int32
to_int32-eq-pos n = ground arith

get_online-Counts :
    {W : Type 0} (h : Handler W) (req : GetOnlineRequest) (w : W) (a b : Bool)
    → is_empty (trim_space req.user_id) ≡ a
    → is_empty (trim_space req.group) ≡ b
    → Counts h
        (scope (trim_space req.user_id) (trim_space req.group) a b)
        w
        (get_online h (some req) w)
unfolding get_online
get_online-Counts h req w false false e f = rw (e, f)
get_online-Counts h req w false true e f = (_, rw (e, f), to_int32-eq-pos _)
get_online-Counts h req w true false e f = (_, rw (e, f), to_int32-eq-pos _)
get_online-Counts h req w true true e f = (_, rw (e, f), to_int32-eq-pos _)

-- `GetOnline` refuses a request with a user and a group that are both not blank. To any other it replies
-- with a number, which is the count of the trimmed user, of the trimmed group, or of everyone where
-- both are blank, exactly if that count is below 2^31.
pub get_online_lem :
    {W : Type 0} (h : Handler W) (req : GetOnlineRequest) (w : W)
    → Counts h (scope_of req) w (get_online h (some req) w)
get_online_lem h req w =
    get_online-Counts h req w (is_empty (trim_space req.user_id)) (is_empty (trim_space req.group))
      refl refl
