-- ===== src/Rpc/Delivery.antt =====
-- From a gRPC request at one gate to the local connections of every gate: the service, the publisher,
-- the codec and the subscribers together.
use kim_gate.Prelude.{◌≡◌, ◌≢◌, refl, subst, ap, ◌∙◌, true, false, some, [], ◌∷◌, arith}
use kim_gate.Text.{Text, is_empty, elem}
use kim_gate.Effect.{ok, wrap, map_err}
use kim_gate.Config.{Config}
use kim_gate.Proto.{Bytes, PushTarget, PushEvent}
use kim_gate.Cluster.Channels.{PushChannels, channel_for_target}
use kim_gate.Cluster.Publisher.{Codec, PushRedis, Publisher, new_publisher, publish}
use kim_gate.Cluster.Subscriber.{
  SignalSender, Subscriber, new_subscriber, channels, dispatch, consume,
}
use kim_gate.Cluster.Routing.{published_is_subscribed}
use kim_gate.Cluster.Dispatch.{
  Call, send_users, send_group, send_all, perform, is_complete, if_complete, dispatch-Follows,
  Follows,
}
use kim_gate.Rpc.Service.{PushPublisher}
use kim_gate.Rpc.Requests.{
  Request, serve, wanted, event_for, failure, Serves, serve_lem, call_of-event_for,
}

abbrev pub zero_event : PushEvent
zero_event = record {
  target = PushTarget.unspecified;
  user_ids = [];
  group = [];
  method = [];
  payload = [];
  connection_ids = [];
}

-- What protobuf documents: a message that was encoded is decoded to itself, and no bytes are decoded
-- to the message with no field set.
pub record CodecLaws (codec : Codec) : Type 0 where
  pub decodes : (e : PushEvent) (b : Bytes) → codec.marshal e ≡ ok b → codec.unmarshal b ≡ ok e
  pub decodes_nil : codec.unmarshal [] ≡ ok zero_event

-- The cluster's publisher, as the service sees it.
abbrev pub push_publisher : {W : Type 0} → Codec → Publisher W → PushPublisher W
push_publisher codec p = record { publish = λ e. publish codec (some p) (some e) }

-- The channel of a call.
abbrev pub channel_of : PushChannels → Call → Text
channel_of c (send_group _ _ _) = c.group
channel_of c (send_all _ _) = c.broadcast
channel_of c _ = c.users

channel_for_target-event_for :
    (c : PushChannels) (call : Call)
    → channel_for_target c (event_for call).target ≡ ok (channel_of c call)
unfolding channel_for_target
channel_for_target-event_for c (send_users _ _ _) = refl
channel_for_target-event_for c _ = refl

event_for-ne-zero_event : (call : Call) → event_for call ≢ zero_event
event_for-ne-zero_event (send_users _ _ _) = λ h. cc (ap (λ (e : PushEvent). e.target) h)
event_for-ne-zero_event _ = λ h. cc (ap (λ (e : PushEvent). e.target) h)

if_complete_of : (call : Call) → is_complete call ≡ true → if_complete (some call) ≡ some call
if_complete_of call full = rw full

module _ {codec : Codec} (laws : CodecLaws codec) where
  -- An event that carries a call is never encoded by no bytes, which a subscriber would skip.
  marshal-event_for :
      (call : Call) (b : Bytes) → codec.marshal (event_for call) ≡ ok b → is_empty b ≡ false
  marshal-event_for call [] h = absurd (
      event_for-ne-zero_event call
        (ground (arith, laws.decodes (event_for call) [] h, laws.decodes_nil)))
  marshal-event_for call (x ∷ b) h = refl

  dispatch-event_for :
      {W : Type 0} (sender : SignalSender W) (req : Request) (w : W)
      → is_complete (wanted req) ≡ true
      → dispatch sender (some (event_for (wanted req))) w ≡ perform sender (wanted req) w
  dispatch-event_for sender req w full =
      subst (λ o. Follows sender o w (dispatch sender (some (event_for (wanted req))) w))
        (call_of-event_for req ∙ if_complete_of (wanted req) full)
        (dispatch-Follows sender (event_for (wanted req)) w)

  consume-event_for :
      {W : Type 0} (sender : SignalSender W) (req : Request) (channel : Text) (b : Bytes) (w : W)
      → is_complete (wanted req) ≡ true
      → codec.marshal (event_for (wanted req)) ≡ ok b
      → consume codec sender (some (record { channel = channel; payload = b })) w
        ≡ (perform sender (wanted req) w).1
  unfolding consume
  consume-event_for sender req channel b w full h =
      rw (marshal-event_for (wanted req) b h, laws.decodes (event_for (wanted req)) b h)
        (ap (λ r. r.1) (dispatch-event_for sender req w full))

  publish-event_for :
      {W : Type 0} (p : Publisher W) (call : Call) (b : Bytes) (w : W)
      → codec.marshal (event_for call) ≡ ok b
      → publish codec (some p) (some (event_for call)) w
        ≡ map_err (wrap "publish push event") (p.redis.publish (channel_of p.channels call) b) w
  unfolding publish
  publish-event_for p call b w h = rw (channel_for_target-event_for p.channels call, h)

  serve_published :
      {W : Type 0} (p : Publisher W) (req : Request) (b : Bytes) (w : W)
      → is_complete (wanted req) ≡ true
      → codec.marshal (event_for (wanted req)) ≡ ok b
      → serve (push_publisher codec p) req w
        ≡ map_err
            (failure (wanted req))
            (map_err
              (wrap "publish push event")
              (p.redis.publish (channel_of p.channels (wanted req)) b))
            w
  serve_published p req b w full h =
      let q = push_publisher codec p in
      let served =
        subst (λ o. Serves q o w (serve q req w)) (if_complete_of (wanted req) full)
          (serve_lem q req w) in
      rw (publish-event_for p (wanted req) b w h) at served

  -- With `CodecLaws`: a gate serves a request whose call is complete, and the codec encodes the call's
  -- event; publisher and subscriber are made from the same configuration. Then the gate publishes
  -- one message, and does nothing else; the message's channel is one that every subscriber made from
  -- the same configuration listens on; and a gate that receives the message makes exactly the call
  -- that the request asks for, whatever its state is.
  pub delivery :
      {V W : Type 0} (cfg : Config) (redis : PushRedis V) (redis' : PushRedis W)
      (sender : SignalSender W) {p : Publisher V} {s : Subscriber W} (req : Request) (b : Bytes)
      (v : V)
      → new_publisher cfg (some redis) ≡ ok p
      → new_subscriber cfg (some redis') (some sender) ≡ ok s
      → is_complete (wanted req) ≡ true
      → codec.marshal (event_for (wanted req)) ≡ ok b
      → (channel : Text) × (serve (push_publisher codec p) req v
          ≡ map_err
              (failure (wanted req))
              (map_err (wrap "publish push event") (p.redis.publish channel b))
              v)
        × (elem channel (channels (some s)) ≡ true)
        × ((w : W)
            → consume codec sender (some (record { channel = channel; payload = b })) w
              ≡ (perform sender (wanted req) w).1)
  delivery cfg redis redis' sender {p} {s} req b v hp hs full h = (
    channel_of p.channels (wanted req),
    serve_published p req b v full h,
    published_is_subscribed cfg redis redis' sender (event_for (wanted req)).target hp hs
        (channel_for_target-event_for p.channels (wanted req)),
    λ w. consume-event_for sender req (channel_of p.channels (wanted req)) b w full h,
  )
