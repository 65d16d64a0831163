-- ===== src/Tests/Fanout.antt =====
-- Pushes among gates of the default configuration, over a Redis that holds what waits for each gate.
use kim_gate.Prelude.{
  ℕ, ◌≡◌, ◌≢◌, refl, arith, some, List, [], ◌∷◌, ◌++◌, map, length, if◌then◌else◌, ◌==◌,
}
use kim_gate.Text.{trim_space}
use kim_gate.Effect.{ok}
use kim_gate.Config.{defaults}
use kim_gate.Cluster.Channels.{new_push_channels}
use kim_gate.Cluster.Publisher.{PushRedis, Publisher, Message, new_publisher}
use kim_gate.Cluster.Subscriber.{channels, receive_loop, waiting}
use kim_gate.Cluster.Dispatch.{Call}
use kim_gate.Rpc.Delivery.{push_publisher}
use kim_gate.Fanout.{Bus, sent_to, Event, served, received, System, happen, Promised}
use kim_gate.Fanout.Steps.{perform_all, delivered}
use kim_gate.Fanout.Delivery.{fanout}
use kim_gate.Tests.Wire.{codec, codec_laws, Calls, sender, client}
use kim_gate.Tests.Pushes.{request, default_channels, subscriber, default_subscriber}

abbrev pub Inboxes : Type 0
Inboxes = ℕ → List Message

abbrev redis : PushRedis Inboxes
redis = record {
  publish = λ channel b w. (ok tt, λ g. w g ++ sent_to (channels (some (subscriber []))) channel b);
  subscribe = λ channels w. (record { received = []; close = λ v. (ok tt, v) }, w);
}

abbrev pub rest : List Message → List Message
rest [] = []
rest (m ∷ ms) = ms

abbrev pub drop_first : ℕ → Inboxes → Inboxes
drop_first g w h = if h == g then rest (w h) else w h

drop_first_self :
    (g : ℕ) (w : Inboxes) (m : Message) (ms : List Message) → w g ≡ m ∷ ms → drop_first g w g ≡ ms
drop_first_self g w m ms h = ground arith

drop_first_other : (g h : ℕ) (w : Inboxes) → g ≢ h → drop_first g w h ≡ w h
drop_first_other g h w apart = ground arith

bus : Bus redis (λ _. channels (some (subscriber [])))
bus = record {
  inbox = λ g w. w g;
  receive = drop_first;
  publish_ok = λ channel b w g h. refl;
  publish_err = λ channel b w g h. absurd cc;
  receive_self = drop_first_self;
  receive_other = drop_first_other;
}

abbrev publisher : Publisher Inboxes
publisher = record { redis = redis; channels = default_channels }

default_publisher : new_publisher defaults (some redis) ≡ ok publisher
unfolding new_publisher new_push_channels defaults trim_space
default_publisher = refl

abbrev pub events : List Event
events = served request ∷ received 0 ∷ served request ∷ received 1 ∷ []

abbrev nowhere : System Inboxes
nowhere = record { redis = λ g. []; taken = λ g. [] }

fanout_example :
    (calls done todo : List Call) × Promised
      (happen bus (push_publisher codec publisher) events nowhere).0
      calls
    × (done ++ todo ≡ calls)
    × ((v : Calls)
        → receive_loop codec sender
            (map delivered ((happen bus (push_publisher codec publisher) events nowhere).1.taken 0))
            v
          ≡ (waiting, perform_all sender done v))
    × ((v : Calls)
        → receive_loop codec sender
            (map delivered
              (bus.inbox 0 (happen bus (push_publisher codec publisher) events nowhere).1.redis))
            v
          ≡ (waiting, perform_all sender todo v))
    × (length todo
        ≡ length (bus.inbox 0 (happen bus (push_publisher codec publisher) events nowhere).1.redis))
unfolding bus
fanout_example =
    fanout codec_laws defaults redis (λ _. client []) (λ _. sender) default_publisher
      (λ _. default_subscriber) bus 0 events nowhere refl refl
