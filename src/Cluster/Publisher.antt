-- ===== src/Cluster/Publisher.antt =====
-- `Publisher`. Redis and the protobuf codec are parameters: `PushRedis` and `Codec`.
use kim_gate.Prelude.{ℕ, Option, none, some, List}
use kim_gate.Effect.{Result, ok, err, new, wrap, Action, pure, fail, lift, map_err, rewrap, ◌>>=◌}
use kim_gate.Text.{Text}
use kim_gate.Config.{Config}
use kim_gate.Proto.{Bytes, PushEvent}
use kim_gate.Cluster.Channels.{
  PushChannels, normalize_push_channels, new_push_channels, channel_for_target,
}

-- `proto.Marshal` and `proto.Unmarshal` at `PushEvent`.
pub record Codec : Type 0 where
  pub marshal : PushEvent → Result Bytes
  pub unmarshal : Bytes → Result PushEvent

pub record Message : Type 0 where
  pub channel : Text
  pub payload : Bytes

-- What one subscription's `ReceiveMessage` returns, call by call, and its `Close`.
pub record PushSubscription (W : Type 0) : Type 0 where
  pub received : List (Result (Option Message))
  pub close : Action W (Unit {0})

-- `pushRedis`, `W` being all state outside the program.
pub record PushRedis (W : Type 0) : Type 0 where
  pub publish : Text → Bytes → Action W (Unit {0})
  pub subscribe : List Text → W → PushSubscription W × W

-- The client of the Redis library; publishing returns how many received the message.
pub record RedisPubSub (W : Type 0) : Type 0 where
  pub publish : Text → Bytes → Action W ℕ
  pub subscribe : List Text → W → PushSubscription W × W

-- `redisPushClient`
unfoldable pub redis_push_client : {W : Type 0} → RedisPubSub W → PushRedis W
redis_push_client client = record {
  publish = λ channel payload. client.publish channel payload >>= λ _. pure tt;
  subscribe = client.subscribe;
}

pub record Publisher (W : Type 0) : Type 0 where
  pub redis : PushRedis W
  pub channels : PushChannels

unfoldable pub new_publisher_with_redis :
    {W : Type 0} → Option (PushRedis W) → PushChannels → Result (Publisher W)
new_publisher_with_redis none channels = err (new "push redis client is required")
new_publisher_with_redis (some redis) channels = elim (normalize_push_channels channels) [
  | err e ↦ err e
  | ok normalized ↦ ok (record { redis = redis; channels = normalized })
]

-- The client is `none` where `data` or `data.Redis` is nil.
unfoldable pub new_publisher : {W : Type 0} → Config → Option (PushRedis W) → Result (Publisher W)
unfolding new_publisher_with_redis
new_publisher cfg none = err (new "redis client is required")
new_publisher cfg (some redis) = elim (new_push_channels cfg) [
  | err e ↦ err e
  | ok channels ↦ new_publisher_with_redis (some redis) channels
]

unfoldable pub publish :
    {W : Type 0} → Codec → Option (Publisher W) → Option PushEvent → Action W (Unit {0})
publish codec none event = fail (new "publisher is nil")
publish codec (some p) none = fail (new "push event is required")
publish codec (some p) (some event) = do
  channel ← lift (channel_for_target p.channels event.target)
  payload ← lift (rewrap (wrap "marshal push event") (codec.marshal event))
  map_err (wrap "publish push event") (p.redis.publish channel payload)
