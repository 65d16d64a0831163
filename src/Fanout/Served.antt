-- ===== src/Fanout/Served.antt =====
-- Proofs on a request that a gate serves: what it publishes, seen from any gate.
use kim_gate.Prelude.{
  ℕ, ◌≡◌, ◌⊎◌, inl, inr, refl, ap, subst, ◌∙◌, true, false, Bool-cases, none, some, arith,
}
use kim_gate.Effect.{Result, ok, err, Error, wrap, map_err, rewrap}
use kim_gate.Text.{Text, elem}
use kim_gate.Config.{Config}
use kim_gate.Proto.{Bytes, PushEvent}
use kim_gate.Cluster.Publisher.{
  Codec, PushRedis, Publisher, new_publisher, new_publisher_with_redis, publish,
}
use kim_gate.Cluster.Subscriber.{SignalSender, Subscriber, new_subscriber, channels}
use kim_gate.Cluster.Dispatch.{Call, is_complete, is_err, if_complete}
use kim_gate.Rpc.Requests.{
  Request, serve, wanted, event_for, failure, Serves, serve_lem, is_refusal,
}
use kim_gate.Rpc.Delivery.{CodecLaws, push_publisher, delivery}
use kim_gate.Fanout.Steps.{Carries}

is_err-refusal : (r : Result (Unit {0})) → is_refusal r ≡ true → is_err r ≡ true
is_err-refusal (ok a) h = cc
is_err-refusal (err e) h = refl

-- A publisher keeps the client that it was made from.
new_publisher-redis :
    {W : Type 0} (cfg : Config) (redis : PushRedis W) {p : Publisher W}
    → new_publisher cfg (some redis) ≡ ok p
    → p.redis ≡ redis
unfolding new_publisher new_publisher_with_redis
new_publisher-redis cfg redis h = ground arith

is_err-rewrap :
    (f : Error → Error) (r : Result (Unit {0})) → is_err r ≡ true → is_err (rewrap f r) ≡ true
is_err-rewrap f (ok a) h = h
is_err-rewrap f (err e) h = refl

-- An event that is not encoded is not published.
publish_unencoded :
    (codec : Codec) {W : Type 0} (p : Publisher W) (event : PushEvent) (e : Error) (w : W)
    → codec.marshal event ≡ err e
    → ((publish codec (some p) (some event) w).1 ≡ w)
      × (is_err (publish codec (some p) (some event) w).0 ≡ true)
unfolding publish
publish_unencoded codec p event e w h = ground arith

if_complete_of : (call : Call) → is_complete call ≡ true → if_complete (some call) ≡ some call
if_complete_of call full = rw full

if_incomplete_of : (call : Call) → is_complete call ≡ false → if_complete (some call) ≡ none
if_incomplete_of call part = rw part

module _ {codec : Codec} (laws : CodecLaws codec) (cfg : Config) {V W : Type 0}
    (redis : PushRedis W) (client : ℕ → PushRedis V) (sender : ℕ → SignalSender V) {p : Publisher W}
    {subscriber : ℕ → Subscriber V} (published : new_publisher cfg (some redis) ≡ ok p)
    (subscribed : (g : ℕ)
      → new_subscriber cfg (some (client g)) (some (sender g)) ≡ ok (subscriber g))
    (g : ℕ) where
  -- After a request, from `w` to `r`: nothing happened and the reply is an error; or the call is
  -- complete, and one message was published that carries it, on a channel that the gate listens on.
  abbrev pub Sends : Request → W → Result (Unit {0}) × W → Type 0
  Sends req w r =
      ((r.1 ≡ w) × (is_err r.0 ≡ true))
      ⊎ ((is_complete (wanted req) ≡ true)
          × (channel : Text) × (b : Bytes) × (r
              ≡ map_err (failure (wanted req))
                  (map_err (wrap "publish push event") (redis.publish channel b)) w)
          × (elem channel (channels (some (subscriber g))) ≡ true)
          × Carries codec (sender g) (record { channel = channel; payload = b }) (wanted req))

  encoded-Sends :
      (req : Request) (w : W) (o : Result Bytes)
      → is_complete (wanted req) ≡ true
      → codec.marshal (event_for (wanted req)) ≡ o
      → Sends req w (serve (push_publisher codec p) req w)
  encoded-Sends req w (ok b) full h =
      let (channel, sent, heard, does) =
        delivery laws cfg redis (client g) (sender g) req b w published (subscribed g) full h in
      let through =
        ap
          (λ (r : PushRedis W).
            map_err (failure (wanted req))
              (map_err (wrap "publish push event") (r.publish channel b)) w)
          (new_publisher-redis cfg redis published) in
      inr (full, channel, b, sent ∙ through, heard, does)
  encoded-Sends req w (err e) full h =
      let q = push_publisher codec p in
      let served =
        subst (λ o. Serves q o w (serve q req w)) (if_complete_of (wanted req) full)
          (serve_lem q req w) in
      let (same, failed) = publish_unencoded codec p (event_for (wanted req)) e w h in
      inl (ap (λ r. r.1) served ∙ same, rw served (is_err-rewrap _ _ failed))

  pub served-Sends : (req : Request) (w : W) → Sends req w (serve (push_publisher codec p) req w)
  served-Sends req w = elim (Bool-cases (is_complete (wanted req))) [
    | inl full ↦ encoded-Sends req w (codec.marshal (event_for (wanted req))) full refl
    | inr part ↦
        let q = push_publisher codec p in
        let (same, failed) =
          subst (λ o. Serves q o w (serve q req w)) (if_incomplete_of (wanted req) part)
            (serve_lem q req w) in
        inl (same, is_err-refusal _ failed)
  ]
