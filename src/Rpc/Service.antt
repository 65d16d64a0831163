-- ===== src/Rpc/Service.antt =====
-- internal/rpc/service.go: the six pushing methods of `GatewayService`. A nil request is `none`. The
-- replies of these methods carry nothing.
use kim_gate.Prelude.{String, Option, none, some, List, [], if◌then◌else◌}
use kim_gate.Effect.{
  Result, ok, err, Error, new, wrap, status, Code, invalid_argument, Action, fail, lift, map_err,
  ◌>>◌,
}
use kim_gate.Text.{Text, is_empty, trim_space, compact_strings}
use kim_gate.Proto.{
  PushTarget, PushEvent, SendToUsersRequest, SendToConnectionsRequest, SendToGroupRequest,
  BroadcastRequest, CloseUsersRequest, CloseConnectionsRequest,
}

-- `PushPublisher`
pub record PushPublisher (W : Type 0) : Type 0 where
  pub publish : PushEvent → Action W (Unit {0})

-- `status.Error(codes.InvalidArgument, text)`
abbrev pub invalid : String → Error
invalid text = status invalid_argument (new text)

-- The status of an error of the publisher.
abbrev pub internal_error : String → Error → Error
internal_error text e = status Code.internal (wrap text e)

unfoldable pub validate_method : Text → Result (Unit {0})
validate_method method =
    if is_empty (trim_space method) then err (invalid "method is required") else ok tt

-- `if s == "" { return error }`, of a text or a list
abbrev pub required {ℓ} : {A : Type ℓ} → List A → String → Result (Unit {0})
required s text = if is_empty s then err (invalid text) else ok tt

module _ {W : Type 0} (publisher : PushPublisher W) where
  unfoldable pub send_to_users : Option SendToUsersRequest → Action W (Unit {0})
  unfolding validate_method
  send_to_users none = fail (invalid "request is required")
  send_to_users (some req) = do
    lift (validate_method req.method)
    let user_ids = compact_strings req.user_ids
    lift (required user_ids "user_ids is required")
    map_err (internal_error "publish push event") (
        publisher.publish (record {
          target = PushTarget.users;
          user_ids = user_ids;
          group = [];
          method = trim_space req.method;
          payload = req.payload;
          connection_ids = [];
        }))

  unfoldable pub send_to_connections : Option SendToConnectionsRequest → Action W (Unit {0})
  unfolding validate_method
  send_to_connections none = fail (invalid "request is required")
  send_to_connections (some req) = do
    lift (validate_method req.method)
    let connection_ids = compact_strings req.connection_ids
    lift (required connection_ids "connection_ids is required")
    map_err (internal_error "publish push event") (
        publisher.publish (record {
          target = PushTarget.connections;
          user_ids = [];
          group = [];
          method = trim_space req.method;
          payload = req.payload;
          connection_ids = connection_ids;
        }))

  unfoldable pub send_to_group : Option SendToGroupRequest → Action W (Unit {0})
  unfolding validate_method
  send_to_group none = fail (invalid "request is required")
  send_to_group (some req) = do
    lift (validate_method req.method)
    let group = trim_space req.group
    lift (required group "group is required")
    map_err (internal_error "publish push event") (
        publisher.publish (record {
          target = PushTarget.group;
          user_ids = [];
          group = group;
          method = trim_space req.method;
          payload = req.payload;
          connection_ids = [];
        }))

  unfoldable pub broadcast : Option BroadcastRequest → Action W (Unit {0})
  unfolding validate_method
  broadcast none = fail (invalid "request is required")
  broadcast (some req) = do
    lift (validate_method req.method)
    map_err (internal_error "publish push event") (
        publisher.publish (record {
          target = PushTarget.broadcast;
          user_ids = [];
          group = [];
          method = trim_space req.method;
          payload = req.payload;
          connection_ids = [];
        }))

  unfoldable pub close_users : Option CloseUsersRequest → Action W (Unit {0})
  close_users none = fail (invalid "request is required")
  close_users (some req) = do
    let user_ids = compact_strings req.user_ids
    lift (required user_ids "user_ids is required")
    map_err (internal_error "publish close event") (
        publisher.publish (record {
          target = PushTarget.close_users;
          user_ids = user_ids;
          group = [];
          method = [];
          payload = [];
          connection_ids = [];
        }))

  unfoldable pub close_connections : Option CloseConnectionsRequest → Action W (Unit {0})
  close_connections none = fail (invalid "request is required")
  close_connections (some req) = do
    let connection_ids = compact_strings req.connection_ids
    lift (required connection_ids "connection_ids is required")
    map_err (internal_error "publish close event") (
        publisher.publish (record {
          target = PushTarget.close_connections;
          user_ids = [];
          group = [];
          method = [];
          payload = [];
          connection_ids = connection_ids;
        }))
