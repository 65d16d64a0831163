-- ===== src/Cluster/Routing.antt =====
-- Proofs on the channels of internal/cluster/push.go, at the publisher and at the subscriber.
use kim_gate.Prelude.{◌≡◌, refl, true, not, ◌&&◌, Option, some, List, [], ◌∷◌, arith}
use kim_gate.Text.{Text, elem, IsDistinct}
use kim_gate.Text.Trim.{text_eq_iff, text_eq_refl, trim_space_idem}
use kim_gate.Text.Compact.{IsClean, compact_strings_of_IsClean}
use kim_gate.Effect.{ok}
use kim_gate.Config.{Config}
use kim_gate.Proto.{PushTarget}
use kim_gate.Cluster.Channels.{
  PushChannels, normalize_push_channels, new_push_channels, unique_from, list, unique_list,
  channel_for_target,
}
use kim_gate.Cluster.Publisher.{PushRedis, Publisher, new_publisher}
use kim_gate.Cluster.Subscriber.{SignalSender, Subscriber, new_subscriber, channels}

pub record IsNormalized (c : PushChannels) : Type 0 where
  pub users : IsClean c.users
  pub group : IsClean c.group
  pub broadcast : IsClean c.broadcast

pub normalize_push_channels-IsNormalized :
    (c : PushChannels) {d : PushChannels} → normalize_push_channels c ≡ ok d → IsNormalized d
unfolding normalize_push_channels
normalize_push_channels-IsNormalized c h =
    ground (arith, trim_space_idem c.users, trim_space_idem c.group, trim_space_idem c.broadcast)

pub normalize_push_channels_of_IsNormalized :
    (c : PushChannels) → IsNormalized c → normalize_push_channels c ≡ ok c
unfolding normalize_push_channels
normalize_push_channels_of_IsNormalized c h = ground arith

pub elem-unique_from :
    (t : Text) (seen cs : List Text)
    → elem t (unique_from seen cs) ≡ (elem t cs && not (elem t seen))
unfolding unique_from
elem-unique_from t seen [] = refl
elem-unique_from t seen (c ∷ cs) =
    ground (arith, text_eq_iff t c, elem-unique_from t seen cs, elem-unique_from t (c ∷ seen) cs)

pub unique_from-IsDistinct : (seen cs : List Text) → IsDistinct (unique_from seen cs)
unfolding unique_from
unique_from-IsDistinct seen [] = tt
unique_from-IsDistinct seen (c ∷ cs) = ground (
  arith,
  unique_from-IsDistinct seen cs,
  unique_from-IsDistinct (c ∷ seen) cs,
  elem-unique_from c (c ∷ seen) cs,
  text_eq_refl c,
)

list_of_IsNormalized :
    (c : PushChannels) → IsNormalized c → list c ≡ c.users ∷ c.group ∷ c.broadcast ∷ []
unfolding list
list_of_IsNormalized c h = compact_strings_of_IsClean _ (h.users, (h.group, (h.broadcast, tt)))

unique_list_of_IsNormalized :
    (c : PushChannels)
    → IsNormalized c
    → unique_list c ≡ unique_from [] (c.users ∷ c.group ∷ c.broadcast ∷ [])
unfolding unique_list
unique_list_of_IsNormalized c h = rw (list_of_IsNormalized c h)

-- Of normalized channels, `uniqueList` has no channel twice, and has exactly the three channels of
-- the configuration.
unique_list_lem :
    (c : PushChannels)
    → IsNormalized c
    → IsDistinct (unique_list c)
      × ((t : Text) → elem t (unique_list c) ≡ elem t (c.users ∷ c.group ∷ c.broadcast ∷ []))
unique_list_lem c h = rw (unique_list_of_IsNormalized c h) (
  unique_from-IsDistinct [] _,
  λ t. ground (arith, elem-unique_from t [] (c.users ∷ c.group ∷ c.broadcast ∷ [])),
)

channel_for_target-elem :
    (c : PushChannels) (target : PushTarget) {channel : Text}
    → channel_for_target c target ≡ ok channel
    → elem channel (c.users ∷ c.group ∷ c.broadcast ∷ []) ≡ true
unfolding channel_for_target
channel_for_target-elem c PushTarget.unspecified h = cc
channel_for_target-elem c PushTarget.group {channel} h =
    ground (arith, text_eq_iff channel c.group, text_eq_iff channel c.users)
channel_for_target-elem c PushTarget.broadcast {channel} h = ground (
  arith,
  text_eq_iff channel c.broadcast,
  text_eq_iff channel c.group,
  text_eq_iff channel c.users,
)
channel_for_target-elem c (PushTarget.other n) h = cc
channel_for_target-elem c _ {channel} h = ground (arith, text_eq_iff channel c.users)

-- A configuration's channels are normalized already, so the constructors keep them as they are.
module _ (cfg : Config) {d : PushChannels} (made : new_push_channels cfg ≡ ok d) where
  new_push_channels-IsNormalized : IsNormalized d
  unfolding new_push_channels
  new_push_channels-IsNormalized = normalize_push_channels-IsNormalized _ made

  new_push_channels_stable : normalize_push_channels d ≡ ok d
  new_push_channels_stable =
      normalize_push_channels_of_IsNormalized d new_push_channels-IsNormalized

module _ {W : Type 0} (cfg : Config) (redis : PushRedis W) where
  new_publisher-channels :
      {p : Publisher W}
      → new_publisher cfg (some redis) ≡ ok p
      → new_push_channels cfg ≡ ok p.channels
  unfolding new_publisher
  new_publisher-channels {p} h = grind (arith, new_push_channels_stable cfg)

  new_subscriber-channels :
      (sender : Option (SignalSender W)) {s : Subscriber W}
      → new_subscriber cfg (some redis) sender ≡ ok s
      → new_push_channels cfg ≡ ok s.channels
  unfolding new_subscriber
  new_subscriber-channels sender h = grind (arith, new_push_channels_stable cfg)

-- A publisher and a subscriber that are made from one configuration agree on the channels: whatever
-- channel an event is published to, by its target, is among those that the subscriber listens on.
pub published_is_subscribed :
    {V W : Type 0} (cfg : Config) (redis : PushRedis V) (redis' : PushRedis W)
    (sender : SignalSender W) (target : PushTarget) {p : Publisher V} {s : Subscriber W}
    {channel : Text}
    → new_publisher cfg (some redis) ≡ ok p
    → new_subscriber cfg (some redis') (some sender) ≡ ok s
    → channel_for_target p.channels target ≡ ok channel
    → elem channel (channels (some s)) ≡ true
unfolding channels
published_is_subscribed cfg redis redis' sender target {p} {s} {channel} hp hs hc =
    let made = new_subscriber-channels cfg redis' (some sender) hs in
    let listed = unique_list_lem s.channels (new_push_channels-IsNormalized cfg made) in
    ground (
      arith,
      listed.1 channel,
      new_publisher-channels cfg redis hp,
      made,
      channel_for_target-elem p.channels target hc,
    )
