-- ===== src/Proto.antt =====
-- proto/kimgate/v1/gateway.pb.go: the messages of the gateway's gRPC service and of its push channels.
-- The cached wire fields of a message are not modelled. A `[]byte` is a list of numbers.
use kim_gate.Prelude.{ℕ, List}
use kim_gate.Prelude.Int.{ℤ}
use kim_gate.Text.{Text}

abbrev pub Bytes : Type 0
Bytes = List ℕ

-- An open enum: `other n` is a number that the schema does not list.
pub data PushTarget : Type 0 where
  unspecified users group broadcast connections close_users close_connections : PushTarget
  other : ℤ → PushTarget

pub record PushEvent : Type 0 where
  pub target : PushTarget
  pub user_ids : List Text
  pub group : Text
  pub method : Text
  pub payload : Bytes
  pub connection_ids : List Text

pub record SendToUsersRequest : Type 0 where
  pub user_ids : List Text
  pub method : Text
  pub payload : Bytes

pub record SendToConnectionsRequest : Type 0 where
  pub connection_ids : List Text
  pub method : Text
  pub payload : Bytes

pub record SendToGroupRequest : Type 0 where
  pub group : Text
  pub method : Text
  pub payload : Bytes

pub record BroadcastRequest : Type 0 where
  pub method : Text
  pub payload : Bytes

pub record CloseUsersRequest : Type 0 where
  pub user_ids : List Text

pub record CloseConnectionsRequest : Type 0 where
  pub connection_ids : List Text

pub record GetOnlineRequest : Type 0 where
  pub user_id : Text
  pub group : Text

pub record GetUserConnectionsRequest : Type 0 where
  pub user_id : Text

pub record UserConnection : Type 0 where
  pub connection_id : Text
  pub server_id : Text

pub record GetTokenRequest : Type 0 where
  pub app_id : Text
  pub user_id : Text
  pub platform : Text
  pub br : Text
