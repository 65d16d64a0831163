-- ===== src/Fanout/Losses.antt =====
-- Pushes among several gates over a Redis whose connections break: a publication may reach some gates
-- only, or more than once where the client tries again, and messages may be lost at any time.
use mathlib.Core.List.Sublistᴰ as Sublist
use kim_gate.Prelude.{
  ℕ, ◌≡◌, refl, ap, ◌∙◌, Bool-cases, inl, inr, List, [], ◌∷◌, ◌++◌, Option, none, some,
  if◌then◌else◌, ◌==◌, Sublistᴰ,
}
use kim_gate.Effect.{Result, ok, err}
use kim_gate.Text.{Text}
use kim_gate.Proto.{Bytes}
use kim_gate.Cluster.Publisher.{Codec, PushRedis, Message}
use kim_gate.Cluster.Subscriber.{SignalSender, is_final, receive_loop}
use kim_gate.Cluster.Dispatch.{Call, perform, is_complete}
use kim_gate.Rpc.Service.{PushPublisher}
use kim_gate.Rpc.Requests.{Request, serve, wanted}
use kim_gate.Fanout.{sent_to, Event, served, received}
use kim_gate.Fanout.Bags.{IsPart, copies}
use kim_gate.Fanout.Steps.{perform_all, Carries, AllCarry}

-- What Redis and its client keep to even so. `due` is what may still come to the subscription of a
-- gate, what is under way included. `Publish` sends its message to the subscriptions to its channel, and
-- after a broken connection or a timeout sends it again, up to `tries` times in all; nothing else adds
-- to what is due. A call of `ReceiveMessage` takes the message that it returns from it, or returns an
-- error or no message, and any messages may be lost. Nothing is said of the order.
pub record Lossy {W : Type 0} (redis : PushRedis W) (listening : ℕ → List Text) (tries : ℕ)
    : Type 0 where
  pub due : ℕ → W → List Message
  pub receive : ℕ → W → Result (Option Message) × W
  pub publish_lossy :
      (channel : Text) (payload : Bytes) (w : W) (g : ℕ)
      → IsPart
          (due g (redis.publish channel payload w).1)
          (due g w ++ copies tries (sent_to (listening g) channel payload))
  pub receive_message :
      (g : ℕ) (w : W) (m : Message)
      → (receive g w).0 ≡ ok (some m)
      → IsPart (m ∷ due g (receive g w).1) (due g w)
  pub receive_lossy : (g h : ℕ) (w : W) → IsPart (due h (receive g w).1) (due h w)

-- All gates: the state of Redis, and what the calls of `ReceiveMessage` returned to each gate.
pub record System (W : Type 0) : Type 0 where
  pub redis : W
  pub taken : ℕ → List (Result (Option Message))

-- The complete calls that requests ask for, each as often as it is tried, whatever the replies are.
abbrev pub asked_of : ℕ → Request → List Call
asked_of tries req = if is_complete (wanted req) then copies tries (wanted req ∷ []) else []

abbrev pub asked : ℕ → List Event → List Call
asked tries [] = []
asked tries (served req ∷ es) = asked_of tries req ++ asked tries es
asked tries (received g ∷ es) = asked tries es

module _ {W : Type 0} {redis : PushRedis W} {listening : ℕ → List Text} {tries : ℕ}
    (bus : Lossy redis listening tries) where
  abbrev pub took : ℕ → Result (Option Message) × W → System W → System W
  took g (r, w) s = record {
    redis = w;
    taken = λ h. if h == g then s.taken h ++ r ∷ [] else s.taken h;
  }

  unfoldable pub happen : PushPublisher W → List Event → System W → System W
  happen p [] s = s
  happen p (served req ∷ es) s = happen p es (record s { redis = (serve p req s.redis).1 })
  happen p (received g ∷ es) s = happen p es (took g (bus.receive g s.redis) s)

module _ (codec : Codec) {V : Type 0} (sender : SignalSender V) where
  -- What is received, one after the other, carries the calls.
  abbrev pub Does : List (Result (Option Message)) → List Call → Type 0
  Does [] [] = Unit
  Does [] (c ∷ cs) = ⊥
  Does (ok (some m) ∷ rs) [] = ⊥
  Does (ok (some m) ∷ rs) (c ∷ cs) = Carries codec sender m c × Does rs cs
  Does (ok none ∷ rs) cs = Does rs cs
  Does (err e ∷ rs) cs = Does rs cs

  pub Does-append :
      (rs qs : List (Result (Option Message))) (cs ds : List Call)
      → Does rs cs
      → Does qs ds
      → Does (rs ++ qs) (cs ++ ds)
  Does-append [] qs [] ds h k = k
  Does-append [] qs (c ∷ cs) ds h k = absurd h
  Does-append (ok (some m) ∷ rs) qs [] ds h k = absurd h
  Does-append (ok (some m) ∷ rs) qs (c ∷ cs) ds (h, hs) k = (h, Does-append rs qs cs ds hs k)
  Does-append (ok none ∷ rs) qs cs ds h k = Does-append rs qs cs ds h k
  Does-append (err e ∷ rs) qs cs ds h k = Does-append rs qs cs ds h k

  -- The loop makes the calls in order, up to a final error.
  pub receive_loop-Does :
      (rs : List (Result (Option Message))) (cs : List Call)
      → Does rs cs
      → (done : List Call) × Sublistᴰ done cs
        × ((v : V) → (receive_loop codec sender rs v).1 ≡ perform_all sender done v)
  unfolding receive_loop
  receive_loop-Does [] [] h = ([], Sublistᴰ.slnil, λ v. refl)
  receive_loop-Does [] (c ∷ cs) h = absurd h
  receive_loop-Does (ok (some m) ∷ rs) [] h = absurd h
  receive_loop-Does (ok (some m) ∷ rs) (c ∷ cs) (h, hs) =
      let (done, s, does) = receive_loop-Does rs cs hs in
      (
        c ∷ done,
        Sublistᴰ.cons-cons refl s,
        λ v. ap (λ u. (receive_loop codec sender rs u).1) (h v) ∙ does (perform sender c v).1,
      )
  receive_loop-Does (ok none ∷ rs) cs h = receive_loop-Does rs cs h
  receive_loop-Does (err e ∷ rs) cs h = elim (Bool-cases (is_final e)) [
    | inl final ↦ ([], Sublist.nil-sublist cs, λ v. rw final)
    | inr other ↦
        let (done, s, does) = receive_loop-Does rs cs h in (done, s, λ v. rw other (does v))
  ]

  pub AllCarry-cons :
      (m : Message) (ms : List Message) (cs : List Call)
      → AllCarry codec sender (m ∷ ms) cs
      → (c : Call) × (ds : List Call) × (cs ≡ c ∷ ds)
        × Carries codec sender m c
        × AllCarry codec sender ms ds
  AllCarry-cons m ms [] h = absurd h
  AllCarry-cons m ms (c ∷ cs) (h, hs) = (c, cs, refl, h, hs)
