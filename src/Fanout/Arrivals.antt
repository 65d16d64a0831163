-- ===== src/Fanout/Arrivals.antt =====
-- Proofs on a request that a gate serves: what arrives at a gate is what the reply promises.
use kim_gate.Prelude.{
  ℕ, ◌≡◌, inl, inr, refl, sym, ap, subst, ◌∙◌, true, List, [], ◌∷◌, ◌++◌, append-nil, some,
}
use kim_gate.Effect.{Result, ok, err, wrap, map_err}
use kim_gate.Text.{Text, elem}
use kim_gate.Config.{Config}
use kim_gate.Proto.{Bytes}
use kim_gate.Cluster.Publisher.{Codec, PushRedis, Publisher, Message, new_publisher}
use kim_gate.Cluster.Subscriber.{SignalSender, Subscriber, new_subscriber, channels}
use kim_gate.Cluster.Dispatch.{Call, is_complete, is_err}
use kim_gate.Rpc.Requests.{Request, serve, wanted, failure}
use kim_gate.Rpc.Delivery.{CodecLaws, push_publisher}
use kim_gate.Fanout.{Bus, Answer, accepted, refused, uncertain}
use kim_gate.Fanout.Served.{served-Sends}
use kim_gate.Fanout.Steps.{Carries, AllCarry}

module _ {codec : Codec} (laws : CodecLaws codec) (cfg : Config) {V W : Type 0}
    (redis : PushRedis W) (client : ℕ → PushRedis V) (sender : ℕ → SignalSender V) {p : Publisher W}
    {subscriber : ℕ → Subscriber V} (published : new_publisher cfg (some redis) ≡ ok p)
    (subscribed : (g : ℕ)
      → new_subscriber cfg (some (client g)) (some (sender g)) ≡ ok (subscriber g))
    (bus : Bus redis (λ g. channels (some (subscriber g)))) (g : ℕ) where
  -- After a request, from `w` to `r`: what arrives at the gate is what the reply promises.
  abbrev pub Arrives : Request → W → Result (Unit {0}) × W → Type 0
  Arrives req w r =
      (calls : List Call) × (ms : List Message) × Answer req r.0 calls
      × AllCarry codec (sender g) ms calls
      × (bus.inbox g r.1 ≡ bus.inbox g w ++ ms)

  Arrives-nothing :
      (req : Request) (w : W) (r : Result (Unit {0}) × W)
      → bus.inbox g r.1 ≡ bus.inbox g w
      → is_err r.0 ≡ true
      → Arrives req w r
  Arrives-nothing req w r h e = ([], [], refused e, tt, h ∙ sym (append-nil (bus.inbox g w)))

  Arrives-message :
      (req : Request) (b : Bytes) (w : W) (r : Result (Unit {0}))
      → is_complete (wanted req) ≡ true
      → (channel : Text) → elem channel (channels (some (subscriber g))) ≡ true
      → Carries codec (sender g) (record { channel = channel; payload = b }) (wanted req)
      → (redis.publish channel b w).0 ≡ r
      → Arrives req w (
          map_err
            (failure (wanted req))
            (map_err (wrap "publish push event") (redis.publish channel b))
            w)
  Arrives-message req b w (ok tt) full channel heard does sent = (
    wanted req ∷ [],
    record { channel = channel; payload = b } ∷ [],
    accepted (rw sent),
    (does, tt),
    rw heard at (bus.publish_ok channel b w g sent),
  )
  Arrives-message req b w (err e) full channel heard does sent =
      let failed : is_err (redis.publish channel b w).0 ≡ true = rw sent in
      elim (bus.publish_err channel b w g failed) [
        | inl same ↦ Arrives-nothing req w _ same (rw sent)
        | inr there ↦ (
          wanted req ∷ [],
          record { channel = channel; payload = b } ∷ [],
          uncertain (rw sent) full,
          (does, tt),
          rw heard at there,
        )
      ]

  -- A request that is served sends to the gate what its reply promises.
  pub served-Arrives :
      (req : Request) (w : W) → Arrives req w (serve (push_publisher codec p) req w)
  served-Arrives req w =
      elim (served-Sends laws cfg redis client sender published subscribed g req w) [
        | inl (same, failed) ↦ Arrives-nothing req w _ (ap (bus.inbox g) same) failed
        | inr (full, channel, b, sent, heard, does) ↦
            subst (Arrives req w) (sym sent)
              (Arrives-message req b w (redis.publish channel b w).0 full channel heard does refl)
      ]
