-- ===== src/Cluster/Subscriber.antt =====
-- `Subscriber`: its constructors, the dispatch of one event and the receive loop. The local
-- connections are a parameter, `SignalSender`. Log lines are not modelled.
use kim_gate.Prelude.{Bool, ◌||◌, Option, none, some, List, [], ◌∷◌, if◌then◌else◌}
use kim_gate.Effect.{
  Result, ok, err, Error, new, about, is, canceled, deadline_exceeded, redis_closed, Action, fail,
  of_err,
}
use kim_gate.Text.{Text, is_empty, trim_space, compact_strings}
use kim_gate.Config.{Config}
use kim_gate.Proto.{Bytes, PushTarget, PushEvent}
use kim_gate.Cluster.Channels.{
  PushChannels, normalize_push_channels, new_push_channels, unique_list, target_string,
}
use kim_gate.Cluster.Publisher.{Codec, Message, PushRedis, PushSubscription}

-- `signalg.SendResult` and `signalg.CloseResult`, as far as the dispatch reads them.
pub record SendResult : Type 0 where
  pub error : Option Error

pub record SignalSender (W : Type 0) : Type 0 where
  pub send_users_raw : List Text → Text → Bytes → W → SendResult × W
  pub send_connections_raw : List Text → Text → Bytes → W → SendResult × W
  pub close_users : List Text → W → SendResult × W
  pub close_connections : List Text → W → SendResult × W
  pub send_group_raw : Text → Text → Bytes → W → SendResult × W
  pub send_all_raw : Text → Bytes → W → SendResult × W

pub record Subscriber (W : Type 0) : Type 0 where
  pub redis : PushRedis W
  pub channels : PushChannels
  pub sender : SignalSender W

unfoldable pub new_subscriber_with_redis :
    {W : Type 0}
    → Option (PushRedis W)
    → PushChannels
    → Option (SignalSender W)
    → Result (Subscriber W)
new_subscriber_with_redis none channels sender = err (new "push redis client is required")
new_subscriber_with_redis (some redis) channels sender = elim (normalize_push_channels channels) [
  | err e ↦ err e
  | ok normalized ↦ elim sender [
    | none ↦ err (new "local sender is required")
    | some s ↦ ok (record { redis = redis; channels = normalized; sender = s })
  ]
]

unfoldable pub new_subscriber :
    {W : Type 0} → Config → Option (PushRedis W) → Option (SignalSender W) → Result (Subscriber W)
unfolding new_subscriber_with_redis
new_subscriber cfg none sender = err (new "redis client is required")
new_subscriber cfg (some redis) sender = elim (new_push_channels cfg) [
  | err e ↦ err e
  | ok channels ↦ new_subscriber_with_redis (some redis) channels sender
]

-- `return result.Err`
abbrev pub returned : {W : Type 0} → SendResult × W → Result (Unit {0}) × W
returned (result, w) = (of_err result.error, w)

unfoldable pub dispatch_target :
    {W : Type 0} → SignalSender W → PushTarget → PushEvent → Action W (Unit {0})
dispatch_target sender PushTarget.users event w =
    let method = trim_space event.method in
    let user_ids = compact_strings event.user_ids in
    if is_empty method
    then fail (new "method is required") w
    else if is_empty user_ids
    then fail (new "user_ids is required") w
    else returned (sender.send_users_raw user_ids method event.payload w)
dispatch_target sender PushTarget.connections event w =
    let method = trim_space event.method in
    let connection_ids = compact_strings event.connection_ids in
    if is_empty method
    then fail (new "method is required") w
    else if is_empty connection_ids
    then fail (new "connection_ids is required") w
    else returned (sender.send_connections_raw connection_ids method event.payload w)
dispatch_target sender PushTarget.close_users event w =
    let user_ids = compact_strings event.user_ids in
    if is_empty user_ids
    then fail (new "user_ids is required") w
    else returned (sender.close_users user_ids w)
dispatch_target sender PushTarget.close_connections event w =
    let connection_ids = compact_strings event.connection_ids in
    if is_empty connection_ids
    then fail (new "connection_ids is required") w
    else returned (sender.close_connections connection_ids w)
dispatch_target sender PushTarget.group event w =
    let method = trim_space event.method in
    let group = trim_space event.group in
    if is_empty method
    then fail (new "method is required") w
    else if is_empty group
    then fail (new "group is required") w
    else returned (sender.send_group_raw group method event.payload w)
dispatch_target sender PushTarget.broadcast event w =
    let method = trim_space event.method in
    if is_empty method
    then fail (new "method is required") w
    else returned (sender.send_all_raw method event.payload w)
dispatch_target sender target event w = fail (about "unknown push target" (target_string target)) w

unfoldable pub dispatch : {W : Type 0} → SignalSender W → Option PushEvent → Action W (Unit {0})
unfolding dispatch_target
dispatch sender none = fail (new "push event is required")
dispatch sender (some event) = dispatch_target sender event.target event

unfoldable pub channels : {W : Type 0} → Option (Subscriber W) → List Text
channels none = []
channels (some s) = unique_list s.channels

-- The errors of `ReceiveMessage` that end the loop.
abbrev pub is_final : Error → Bool
is_final e = is e canceled || is e deadline_exceeded || is e redis_closed

-- `stopped e` is a return of `e`; `waiting` is a call of `ReceiveMessage` that has not returned.
pub data Outcome : Type 0 where
  stopped : Error → Outcome
  waiting : Outcome

module _ {W : Type 0} (codec : Codec) (sender : SignalSender W) where
  -- One round of the loop after a `ReceiveMessage` without an error; errors are only logged.
  unfoldable pub consume : Option Message → W → W
  consume none w = w
  consume (some msg) w = if is_empty msg.payload then w else (elim (codec.unmarshal msg.payload) [
    | err e ↦ w
    | ok event ↦ (dispatch sender (some event) w).1
  ])

  unfoldable pub receive_loop : List (Result (Option Message)) → W → Outcome × W
  unfolding consume
  receive_loop [] w = (waiting, w)
  receive_loop (err e ∷ received) w =
      let rest = receive_loop received w in if is_final e then (stopped e, w) else rest
  receive_loop (ok msg ∷ received) w = receive_loop received (consume msg w)

-- The deferred `Close`, whose error is only logged.
abbrev pub closing : {W : Type 0} → PushSubscription W → Outcome × W → Outcome × W
closing subscription (stopped e, w) = (stopped e, (subscription.close w).1)
closing subscription (waiting, w) = (waiting, w)

unfoldable pub start : {W : Type 0} → Codec → Option (Subscriber W) → W → Outcome × W
unfolding receive_loop channels
start codec none w = (stopped (new "subscriber is nil"), w)
start codec (some s) w =
    let (subscription, w') = s.redis.subscribe (channels (some s)) w in
    closing subscription (receive_loop codec s.sender subscription.received w')
