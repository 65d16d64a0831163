-- ===== src/Rpc/Requests.antt =====
-- What a pushing request asks for, and what the service publishes for it.
use kim_gate.Prelude.{◌≡◌, Bool, true, false, Option, none, some, [], arith}
use kim_gate.Text.{trim_space, compact_strings}
use kim_gate.Text.Trim.{trim_space_idem}
use kim_gate.Text.Compact.{compact_strings_idem}
use kim_gate.Effect.{Result, err, Error, status, invalid_argument, Action, map_err}
use kim_gate.Proto.{
  PushTarget, PushEvent, SendToUsersRequest, SendToConnectionsRequest, SendToGroupRequest,
  BroadcastRequest, CloseUsersRequest, CloseConnectionsRequest,
}
use kim_gate.Cluster.Dispatch.{
  Call, send_users, send_connections, close_users, close_connections, send_group, send_all,
  if_complete, call_of,
}
use kim_gate.Rpc.Service
use kim_gate.Rpc.Service.{PushPublisher, invalid, internal_error, validate_method}

-- The requests of the six pushing methods.
pub data Request : Type 0 where
  to_users : SendToUsersRequest → Request
  to_connections : SendToConnectionsRequest → Request
  to_group : SendToGroupRequest → Request
  to_all : BroadcastRequest → Request
  closing_users : CloseUsersRequest → Request
  closing_connections : CloseConnectionsRequest → Request

-- The method of the service for a request.
abbrev pub serve : {W : Type 0} → PushPublisher W → Request → Action W (Unit {0})
serve p (to_users req) = Service.send_to_users p (some req)
serve p (to_connections req) = Service.send_to_connections p (some req)
serve p (to_group req) = Service.send_to_group p (some req)
serve p (to_all req) = Service.broadcast p (some req)
serve p (closing_users req) = Service.close_users p (some req)
serve p (closing_connections req) = Service.close_connections p (some req)

-- The call of the local sender that a request asks for, complete or not.
abbrev pub wanted : Request → Call
wanted (to_users r) = send_users (compact_strings r.user_ids) (trim_space r.method) r.payload
wanted (to_connections r) =
    send_connections (compact_strings r.connection_ids) (trim_space r.method) r.payload
wanted (to_group r) = send_group (trim_space r.group) (trim_space r.method) r.payload
wanted (to_all r) = send_all (trim_space r.method) r.payload
wanted (closing_users r) = close_users (compact_strings r.user_ids)
wanted (closing_connections r) = close_connections (compact_strings r.connection_ids)

-- The event that carries a call, and the text of an error of its publication.
abbrev pub event_for : Call → PushEvent
event_for (send_users ids method payload) = record {
  target = PushTarget.users;
  user_ids = ids;
  group = [];
  method = method;
  payload = payload;
  connection_ids = [];
}
event_for (send_connections ids method payload) = record {
  target = PushTarget.connections;
  user_ids = [];
  group = [];
  method = method;
  payload = payload;
  connection_ids = ids;
}
event_for (close_users ids) = record {
  target = PushTarget.close_users;
  user_ids = ids;
  group = [];
  method = [];
  payload = [];
  connection_ids = [];
}
event_for (close_connections ids) = record {
  target = PushTarget.close_connections;
  user_ids = [];
  group = [];
  method = [];
  payload = [];
  connection_ids = ids;
}
event_for (send_group group method payload) = record {
  target = PushTarget.group;
  user_ids = [];
  group = group;
  method = method;
  payload = payload;
  connection_ids = [];
}
event_for (send_all method payload) = record {
  target = PushTarget.broadcast;
  user_ids = [];
  group = [];
  method = method;
  payload = payload;
  connection_ids = [];
}

abbrev pub failure : Call → Error → Error
failure (close_users _) = internal_error "publish close event"
failure (close_connections _) = internal_error "publish close event"
failure _ = internal_error "publish push event"

abbrev pub is_refusal : Result (Unit {0}) → Bool
is_refusal (err (status invalid_argument _)) = true
is_refusal _ = false

-- From `w`, a request for `o` ended in `r`: one event was published for the call, or nothing was and
-- the request is refused as an invalid argument.
abbrev pub Serves :
    {W : Type 0} → PushPublisher W → Option Call → W → Result (Unit {0}) × W → Type 0
Serves p none w r = (r.1 ≡ w) × (is_refusal r.0 ≡ true)
Serves p (some call) w r = r ≡ map_err (failure call) (p.publish (event_for call)) w

-- A request whose call is complete publishes exactly one event, the one that carries the call; any
-- other is refused as an invalid argument, and nothing is published.
pub serve_lem :
    {W : Type 0} (p : PushPublisher W) (req : Request) (w : W)
    → Serves p (if_complete (some (wanted req))) w (serve p req w)
unfolding Service.send_to_users Service.send_to_connections Service.send_to_group Service.broadcast
    Service.close_users Service.close_connections
serve_lem p (to_users req) w = ground arith
serve_lem p _ w = ground arith

-- The event that carries a complete call of a request leads every gate to that very call: compacting
-- and trimming it a second time changes nothing.
pub call_of-event_for :
    (req : Request) → call_of (event_for (wanted req)) ≡ if_complete (some (wanted req))
call_of-event_for (to_users r) = simp (compact_strings_idem, trim_space_idem)
call_of-event_for (to_connections r) = simp (compact_strings_idem, trim_space_idem)
call_of-event_for (to_group r) = simp trim_space_idem
call_of-event_for (to_all r) = simp trim_space_idem
call_of-event_for (closing_users r) = simp compact_strings_idem
call_of-event_for (closing_connections r) = simp compact_strings_idem
