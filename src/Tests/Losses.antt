-- ===== src/Tests/Losses.antt =====
-- A Redis that sends nothing to gate 1 and everything twice to the others, and whose client fails where
-- nothing waits.
use mathlib.Core.List.Sublistᴰ as Sublist
use kim_gate.Prelude.{
  ℕ, ◌≡◌, refl, sym, subst, arith, Bool-cases, inl, inr, Option, some, List, [], ◌∷◌, ◌++◌,
  if◌then◌else◌, ◌==◌, Sublistᴰ,
}
use kim_gate.Text.{Text, trim_space}
use kim_gate.Effect.{Result, ok, err, foreign}
use kim_gate.Config.{defaults}
use kim_gate.Proto.{Bytes}
use kim_gate.Cluster.Channels.{new_push_channels}
use kim_gate.Cluster.Publisher.{PushRedis, Publisher, Message, new_publisher}
use kim_gate.Cluster.Subscriber.{channels, receive_loop}
use kim_gate.Cluster.Dispatch.{Call}
use kim_gate.Rpc.Delivery.{push_publisher}
use kim_gate.Fanout.{sent_to}
use kim_gate.Fanout.Steps.{perform_all}
use kim_gate.Fanout.Bags.{IsPart, copies, part_refl, part_weaken, part_of_sublist}
use kim_gate.Fanout.Losses.{Lossy, System, asked, happen}
use kim_gate.Fanout.Retries.{at_most_tries}
use kim_gate.Tests.Wire.{codec, codec_laws, Calls, sender, client}
use kim_gate.Tests.Pushes.{default_channels, subscriber, default_subscriber}
use kim_gate.Tests.Fanout.{Inboxes, rest, drop_first, events}

abbrev redis : PushRedis Inboxes
redis = record {
  publish = λ channel b w. (
    ok tt,
    λ g.
        if g == 1
        then w g
        else w g ++ copies 2 (sent_to (channels (some (subscriber []))) channel b),
  );
  subscribe = λ channels w. (record { received = []; close = λ v. (ok tt, v) }, w);
}

abbrev first : List Message → Result (Option Message)
first [] = err (foreign 0)
first (m ∷ ms) = ok (some m)

rest_sublist : (ms : List Message) → Sublistᴰ (rest ms) ms
rest_sublist [] = Sublistᴰ.slnil
rest_sublist (m ∷ ms) = Sublistᴰ.cons (Sublist.refl ms)

first_sublist :
    (ms : List Message) (m : Message) → first ms ≡ ok (some m) → Sublistᴰ (m ∷ rest ms) ms
first_sublist [] m h = absurd (cc h)
first_sublist (n ∷ ms) m h = Sublistᴰ.cons-cons (cc h) (Sublist.refl ms)

publish_part :
    (channel : Text) (b : Bytes) (w : Inboxes) (g : ℕ)
    → IsPart
        ((redis.publish channel b w).1 g)
        (w g ++ copies 2 (sent_to (channels (some (subscriber []))) channel b))
publish_part channel b w g = elim (Bool-cases (g == 1)) [
  | inl lost ↦ rw lost (part_weaken (w g) (w g) _ (part_refl (w g)))
  | inr there ↦ rw there (part_refl _)
]

drop_first_part : (g h : ℕ) (w : Inboxes) → IsPart (drop_first g w h) (w h)
drop_first_part g h w = elim (Bool-cases (h == g)) [
  | inl here ↦ rw here (part_of_sublist (rest (w h)) (w h) (rest_sublist (w h)))
  | inr there ↦ rw there (part_refl (w h))
]

receive_part :
    (g : ℕ) (w : Inboxes) (m : Message)
    → first (w g) ≡ ok (some m)
    → IsPart (m ∷ drop_first g w g) (w g)
receive_part g w m h =
    let e : drop_first g w g ≡ rest (w g) = ground arith in
    subst (λ ms. IsPart (m ∷ ms) (w g)) (sym e)
      (part_of_sublist (m ∷ rest (w g)) (w g) (first_sublist (w g) m h))

bus : Lossy redis (λ _. channels (some (subscriber []))) 2
bus = record {
  due = λ g w. w g;
  receive = λ g w. (first (w g), drop_first g w);
  publish_lossy = publish_part;
  receive_message = receive_part;
  receive_lossy = drop_first_part;
}

abbrev publisher : Publisher Inboxes
publisher = record { redis = redis; channels = default_channels }

default_publisher : new_publisher defaults (some redis) ≡ ok publisher
unfolding new_publisher new_push_channels defaults trim_space
default_publisher = refl

abbrev nowhere : System Inboxes
nowhere = record { redis = λ g. []; taken = λ g. [] }

at_most_tries_example :
    (done : List Call) × IsPart done (asked 2 events)
    × ((v : Calls)
        → (receive_loop codec sender
            ((happen bus (push_publisher codec publisher) events nowhere).taken 0)
            v).1
          ≡ perform_all sender done v)
unfolding bus
at_most_tries_example =
    at_most_tries codec_laws defaults redis (λ _. client []) (λ _. sender) default_publisher
      (λ _. default_subscriber) bus 0 events nowhere refl refl
