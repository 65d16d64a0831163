-- ===== src/Cluster/Dispatch.antt =====
-- Proofs on `dispatch` of internal/cluster/push.go, against the calls of the local sender.
use kim_gate.Prelude.{
  ◌≡◌, ◌⊎◌, inl, inr, refl, Bool, true, false, not, ◌&&◌, if◌then◌else◌, Option, none, some, List,
  arith, All,
}
use kim_gate.Text.{Text, is_empty, trim_space, compact_strings}
use kim_gate.Text.Trim.{trim_space_idem}
use kim_gate.Text.Compact.{IsClean, compact_strings-IsClean}
use kim_gate.Effect.{Result, ok, err, Action}
use kim_gate.Proto.{Bytes, PushTarget, PushEvent}
use kim_gate.Cluster.Subscriber.{SignalSender, returned, dispatch_target, dispatch}

-- A call of the local sender.
pub data Call : Type 0 where
  send_users send_connections : List Text → Text → Bytes → Call
  close_users close_connections : List Text → Call
  send_group : Text → Text → Bytes → Call
  send_all : Text → Bytes → Call

unfoldable pub perform : {W : Type 0} → SignalSender W → Call → Action W (Unit {0})
perform s (send_users ids method payload) w = returned (s.send_users_raw ids method payload w)
perform s (send_connections ids method payload) w =
    returned (s.send_connections_raw ids method payload w)
perform s (close_users ids) w = returned (s.close_users ids w)
perform s (close_connections ids) w = returned (s.close_connections ids w)
perform s (send_group group method payload) w = returned (s.send_group_raw group method payload w)
perform s (send_all method payload) w = returned (s.send_all_raw method payload w)

-- The call that an event asks for, before any check.
abbrev pub asked : PushTarget → PushEvent → Option Call
asked PushTarget.users e =
    some (send_users (compact_strings e.user_ids) (trim_space e.method) e.payload)
asked PushTarget.connections e =
    some (send_connections (compact_strings e.connection_ids) (trim_space e.method) e.payload)
asked PushTarget.close_users e = some (close_users (compact_strings e.user_ids))
asked PushTarget.close_connections e = some (close_connections (compact_strings e.connection_ids))
asked PushTarget.group e = some (send_group (trim_space e.group) (trim_space e.method) e.payload)
asked PushTarget.broadcast e = some (send_all (trim_space e.method) e.payload)
asked _ e = none

-- The method, the group and the list of receivers of a call are there.
abbrev pub is_complete : Call → Bool
is_complete (send_users ids method _) = not (is_empty method) && not (is_empty ids)
is_complete (send_connections ids method _) = not (is_empty method) && not (is_empty ids)
is_complete (close_users ids) = not (is_empty ids)
is_complete (close_connections ids) = not (is_empty ids)
is_complete (send_group group method _) = not (is_empty method) && not (is_empty group)
is_complete (send_all method _) = not (is_empty method)

abbrev pub if_complete : Option Call → Option Call
if_complete none = none
if_complete (some call) = if is_complete call then some call else none

-- The call that an event leads to, if any.
abbrev pub call_of : PushEvent → Option Call
call_of e = if_complete (asked e.target e)

-- Every identifier of a call is trimmed and not empty, and so are its method and group.
abbrev pub IsCleanCall : Call → Type 0
IsCleanCall (send_users ids method _) = (is_empty ids ≡ false) × All IsClean ids × IsClean method
IsCleanCall (send_connections ids method _) =
    (is_empty ids ≡ false) × All IsClean ids × IsClean method
IsCleanCall (close_users ids) = (is_empty ids ≡ false) × All IsClean ids
IsCleanCall (close_connections ids) = (is_empty ids ≡ false) × All IsClean ids
IsCleanCall (send_group group method _) = IsClean group × IsClean method
IsCleanCall (send_all method _) = IsClean method

abbrev pub AllCalls : (Call → Type 0) → Option Call → Type 0
AllCalls P none = Unit
AllCalls P (some call) = P call

asked-IsCleanCall :
    (target : PushTarget) (e : PushEvent) → AllCalls IsCleanCall (if_complete (asked target e))
asked-IsCleanCall PushTarget.unspecified e = tt
asked-IsCleanCall PushTarget.users e =
    ground (arith, compact_strings-IsClean e.user_ids, trim_space_idem e.method)
asked-IsCleanCall PushTarget.connections e =
    ground (arith, compact_strings-IsClean e.connection_ids, trim_space_idem e.method)
asked-IsCleanCall PushTarget.close_users e = ground (arith, compact_strings-IsClean e.user_ids)
asked-IsCleanCall PushTarget.close_connections e =
    ground (arith, compact_strings-IsClean e.connection_ids)
asked-IsCleanCall PushTarget.group e =
    ground (arith, trim_space_idem e.group, trim_space_idem e.method)
asked-IsCleanCall PushTarget.broadcast e = ground (arith, trim_space_idem e.method)
asked-IsCleanCall (PushTarget.other n) e = tt

abbrev pub is_err {ℓ} : {A : Type ℓ} → Result A → Bool
is_err (ok _) = false
is_err (err _) = true

-- From `w`, an operation ended in `r`: a call was made, or nothing happened and there is an error.
abbrev pub Follows :
    {W : Type 0} → SignalSender W → Option Call → W → Result (Unit {0}) × W → Type 0
Follows sender none w r = (r.1 ≡ w) × (is_err r.0 ≡ true)
Follows sender (some call) w r = r ≡ perform sender call w

dispatch_target-Follows :
    {W : Type 0} (sender : SignalSender W) (target : PushTarget) (e : PushEvent) (w : W)
    → Follows sender (if_complete (asked target e)) w (dispatch_target sender target e w)
unfolding dispatch_target perform
dispatch_target-Follows sender PushTarget.unspecified e w = (refl, refl)
dispatch_target-Follows sender PushTarget.users e w = ground arith
dispatch_target-Follows sender _ e w = ground arith

-- The dispatch of an event is exactly the call that the event leads to; where it leads to none,
-- nothing happens and an error is returned.
pub dispatch-Follows :
    {W : Type 0} (sender : SignalSender W) (e : PushEvent) (w : W)
    → Follows sender (call_of e) w (dispatch sender (some e) w)
unfolding dispatch
dispatch-Follows sender e = dispatch_target-Follows sender e.target e

-- Every call that an event leads to is clean.
call_of-IsCleanCall : (e : PushEvent) → AllCalls IsCleanCall (call_of e)
call_of-IsCleanCall e = asked-IsCleanCall e.target e

-- The dispatch of an event fails with nothing done, or it is one call of the sender, whose ids,
-- group and method are all trimmed and not empty, with at least one id where the call takes ids.
pub dispatch-clean :
    {W : Type 0} (sender : SignalSender W) (e : PushEvent) (w : W)
    → (((dispatch sender (some e) w).1 ≡ w) × (is_err (dispatch sender (some e) w).0 ≡ true))
      ⊎ ((call : Call) × IsCleanCall call × (dispatch sender (some e) w ≡ perform sender call w))
dispatch-clean sender e w = go (call_of e) (call_of-IsCleanCall e) (dispatch-Follows sender e w)
  where
    go :
        (o : Option Call)
        → AllCalls IsCleanCall o
        → Follows sender o w (dispatch sender (some e) w)
        → (((dispatch sender (some e) w).1 ≡ w) × (is_err (dispatch sender (some e) w).0 ≡ true))
          ⊎ ((call : Call) × IsCleanCall call
              × (dispatch sender (some e) w ≡ perform sender call w))
    go none clean f = inl f
    go (some call) clean f = inr (call, clean, f)
