-- ===== src/Cluster/Startup.antt =====
-- `NewPublisher` and `NewSubscriber` on a configuration that was normalized.
use kim_gate.Prelude.{◌≡◌, some}
use kim_gate.Effect.{ok}
use kim_gate.Config.{Config}
use kim_gate.Config.Normalize.{normalize}
use kim_gate.Config.Laws.{IsNormal, normalize-IsNormal}
use kim_gate.Cluster.Channels.{PushChannels, normalize_push_channels, new_push_channels}
use kim_gate.Cluster.Publisher.{PushRedis, new_publisher, new_publisher_with_redis}
use kim_gate.Cluster.Subscriber.{SignalSender, new_subscriber, new_subscriber_with_redis}
use kim_gate.Cluster.Routing.{IsNormalized, normalize_push_channels_of_IsNormalized}

-- The three channels that a configuration names.
abbrev pub channels_of : Config → PushChannels
channels_of c = record {
  users = c.redis_push_users_channel;
  group = c.redis_push_group_channel;
  broadcast = c.redis_push_broadcast_channel;
}

module _ (c : Config) (normal : IsNormal c) where
  channels_of-IsNormalized : IsNormalized (channels_of c)
  channels_of-IsNormalized = record {
    users = normal.users_channel;
    group = normal.group_channel;
    broadcast = normal.broadcast_channel;
  }

  kept : normalize_push_channels (channels_of c) ≡ ok (channels_of c)
  kept = normalize_push_channels_of_IsNormalized (channels_of c) channels_of-IsNormalized

  new_push_channels_of_IsNormal : new_push_channels c ≡ ok (channels_of c)
  unfolding new_push_channels
  new_push_channels_of_IsNormal =
      rw (normal.users_channel.0, normal.group_channel.0, normal.broadcast_channel.0) kept

-- Whatever the configuration was, once it is normalized a publisher and a subscriber can be made from
-- it, on exactly the three channels that it names.
startup :
    {V W : Type 0} (c : Config) (redis : PushRedis V) (redis' : PushRedis W)
    (sender : SignalSender W)
    → (new_publisher (normalize c) (some redis)
        ≡ ok (record { redis = redis; channels = channels_of (normalize c) }))
      × (new_subscriber (normalize c) (some redis') (some sender)
          ≡ ok (record { redis = redis'; channels = channels_of (normalize c); sender = sender }))
unfolding new_publisher new_subscriber
startup c redis redis' sender =
    let normal = normalize-IsNormal c in
    let made = new_push_channels_of_IsNormal (normalize c) normal in
    let same = kept (normalize c) normal in
    (
      rw (made, same, new_publisher, new_publisher_with_redis),
      rw (made, same, new_subscriber, new_subscriber_with_redis),
    )
