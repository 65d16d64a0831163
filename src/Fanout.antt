-- ===== src/Fanout.antt =====
-- Pushes among several gates: the pushing methods of internal/rpc/service.go and the publisher and the
-- receive loops of internal/cluster/push.go, over one Redis, in any order of their steps.
pub mod Steps
pub mod Served
pub mod Arrivals
pub mod Delivery
pub mod Losses
pub mod Bags
pub mod Retries
use kim_gate.Prelude.{
  ℕ, ◌≡◌, ◌≢◌, ◌⊎◌, Bool, true, false, List, [], ◌∷◌, ◌++◌, Option, some, if◌then◌else◌, ◌==◌,
}
use kim_gate.Effect.{Result, ok, err, Error}
use kim_gate.Text.{Text, elem}
use kim_gate.Proto.{Bytes}
use kim_gate.Cluster.Publisher.{PushRedis, Message}
use kim_gate.Cluster.Dispatch.{Call, is_complete, is_err}
use kim_gate.Rpc.Service.{PushPublisher}
use kim_gate.Rpc.Requests.{Request, serve, wanted}

-- The message on a channel, for a subscription to the given channels.
abbrev pub sent_to : List Text → Text → Bytes → List Message
sent_to listening channel payload =
    if elem channel listening then record { channel = channel; payload = payload } ∷ [] else []

-- What Redis documents of its channels while no connection breaks: `inbox` is what was sent to the
-- subscription of a gate and was not received. A publication that succeeds sends the message to every
-- subscription to its channel, behind what is there; one that reports an error may have done so or not.
-- `receive` takes the first message out of the inbox of a gate.
pub record Bus {W : Type 0} (redis : PushRedis W) (listening : ℕ → List Text) : Type 0 where
  pub inbox : ℕ → W → List Message
  pub receive : ℕ → W → W
  pub publish_ok :
      (channel : Text) (payload : Bytes) (w : W) (g : ℕ)
      → (redis.publish channel payload w).0 ≡ ok tt
      → inbox g (redis.publish channel payload w).1
        ≡ inbox g w ++ sent_to (listening g) channel payload
  pub publish_err :
      (channel : Text) (payload : Bytes) (w : W) (g : ℕ)
      → is_err (redis.publish channel payload w).0 ≡ true
      → (inbox g (redis.publish channel payload w).1 ≡ inbox g w)
        ⊎ (inbox g (redis.publish channel payload w).1
            ≡ inbox g w ++ sent_to (listening g) channel payload)
  pub receive_self :
      (g : ℕ) (w : W) (m : Message) (rest : List Message)
      → inbox g w ≡ m ∷ rest
      → inbox g (receive g w) ≡ rest
  pub receive_other : (g h : ℕ) (w : W) → g ≢ h → inbox h (receive g w) ≡ inbox h w

-- A backend's request is served by some gate, or `ReceiveMessage` returns at a gate, if there is a
-- message for it.
pub data Event : Type 0 where
  served : Request → Event
  received : ℕ → Event

-- All gates: the state of Redis, and the messages that the loop of each gate has received.
pub record System (W : Type 0) : Type 0 where
  pub redis : W
  pub taken : ℕ → List Message

-- The replies to requests, in order.
abbrev pub Replies : Type 0
Replies = List (Request × Result (Unit {0}))

module _ {W : Type 0} {redis : PushRedis W} {listening : ℕ → List Text}
    (bus : Bus redis listening) where
  abbrev pub took : ℕ → List Message → System W → System W
  took g [] s = s
  took g (m ∷ rest) s = record {
    redis = bus.receive g s.redis;
    taken = λ h. if h == g then s.taken h ++ m ∷ [] else s.taken h;
  }

  unfoldable pub happen : PushPublisher W → List Event → System W → Replies × System W
  happen p [] s = ([], s)
  happen p (served req ∷ es) s =
      let (reply, w) = serve p req s.redis in
      let (replies, s') = happen p es (record s { redis = w }) in ((req, reply) ∷ replies, s')
  happen p (received g ∷ es) s = happen p es (took g (bus.inbox g s.redis) s)

-- What the reply to a request promises: a request that was accepted, exactly its call; one that got an
-- error, nothing, or its call where that is complete.
pub data Answer (req : Request) (reply : Result (Unit {0})) : List Call → Type 0 where
  accepted : reply ≡ ok tt → Answer req reply (wanted req ∷ [])
  refused : is_err reply ≡ true → Answer req reply []
  uncertain :
      is_err reply ≡ true → is_complete (wanted req) ≡ true → Answer req reply (wanted req ∷ [])

-- The calls that replies promise together, in their order.
pub data Promised : Replies → List Call → Type 0 where
  nothing : Promised [] []
  answered :
      {replies : Replies} {now later : List Call} {req : Request} {reply : Result (Unit {0})}
      → Answer req reply now
      → Promised replies later
      → Promised ((req, reply) ∷ replies) (now ++ later)
