-- ===== src/Cluster/Loop.antt =====
-- Proofs on the receive loop of `Start` in internal/cluster/push.go.
use kim_gate.Prelude.{
  ◌≡◌, refl, true, false, Option, none, some, List, [], ◌∷◌, ◌++◌, arith, All, if◌then◌else◌, ap,
  ◌∙◌, append-nil, sym,
}
use kim_gate.Text.{is_empty}
use kim_gate.Effect.{Result, ok, err, Error}
use kim_gate.Proto.{PushEvent}
use kim_gate.Cluster.Publisher.{Codec, Message}
use kim_gate.Cluster.Subscriber.{
  SignalSender, Subscriber, dispatch, channels, is_final, stopped, waiting, consume, receive_loop,
  closing, start,
}

-- The loop goes on after what was received.
abbrev pub Goes : Result (Option Message) → Type 0
Goes (ok _) = Unit
Goes (err e) = is_final e ≡ false

module _ (codec : Codec) where
  abbrev decoded : Result PushEvent → List PushEvent
  decoded (ok event) = event ∷ []
  decoded (err _) = []

  -- The event in a message, if there is a message, with a payload that decodes.
  abbrev pub event_of : Result (Option Message) → List PushEvent
  event_of (err _) = []
  event_of (ok none) = []
  event_of (ok (some msg)) =
      if is_empty msg.payload then [] else decoded (codec.unmarshal msg.payload)

  -- The events among what was received, in order.
  abbrev pub events : List (Result (Option Message)) → List PushEvent
  events [] = []
  events (m ∷ received) = event_of m ++ events received

-- The state after the dispatch of each event in turn, whether a dispatch fails or not.
abbrev pub dispatch_all : {W : Type 0} → SignalSender W → List PushEvent → W → W
dispatch_all sender [] w = w
dispatch_all sender (e ∷ es) w = dispatch_all sender es (dispatch sender (some e) w).1

module _ {W : Type 0} (codec : Codec) (sender : SignalSender W) where
  dispatch_all-consume :
      (msg : Option Message) (es : List PushEvent) (w : W)
      → dispatch_all sender (event_of codec (ok msg) ++ es) w
        ≡ dispatch_all sender es (consume codec sender msg w)
  unfolding consume
  dispatch_all-consume none es w = refl
  dispatch_all-consume (some msg) es w = ground arith

  -- Up to the first final error the loop has dispatched the events received, and nothing else.
  pub receive_loop-append :
      (before after : List (Result (Option Message))) (w : W)
      → All Goes before
      → receive_loop codec sender (before ++ after) w
        ≡ receive_loop codec sender after (dispatch_all sender (events codec before) w)
  unfolding receive_loop
  receive_loop-append [] after w g = refl
  receive_loop-append (err e ∷ before) after w (g, gs) =
      rw g (receive_loop-append before after w gs)
  receive_loop-append (ok msg ∷ before) after w (g, gs) =
      receive_loop-append before after (consume codec sender msg w) gs
      ∙ ap (receive_loop codec sender after)
          (sym (dispatch_all-consume msg (events codec before) w))

  receive_loop_final :
      (received before after : List (Result (Option Message))) (e : Error) (w : W)
      → received ≡ before ++ err e ∷ after
      → All Goes before
      → is_final e ≡ true
      → receive_loop codec sender received w
        ≡ (stopped e, dispatch_all sender (events codec before) w)
  unfolding receive_loop
  receive_loop_final received before after e w h g final =
      rw h (receive_loop-append before (err e ∷ after) w g ∙ rw final)

  receive_loop_waiting :
      (received : List (Result (Option Message))) (w : W)
      → All Goes received
      → receive_loop codec sender received w
        ≡ (waiting, dispatch_all sender (events codec received) w)
  unfolding receive_loop
  receive_loop_waiting received w g = rw append-nil at (receive_loop-append received [] w g)

module _ {W : Type 0} (codec : Codec) (s : Subscriber W) (w : W) where
  abbrev opened : List (Result (Option Message))
  opened = (s.redis.subscribe (channels (some s)) w).0.received

  abbrev subscribed : W
  subscribed = (s.redis.subscribe (channels (some s)) w).1

  -- `Start` returns the first final error, after it has dispatched every event received before it,
  -- in order, and has closed the subscription; what would come later is not touched.
  pub start_final :
      (before after : List (Result (Option Message))) (e : Error)
      → opened ≡ before ++ err e ∷ after
      → All Goes before
      → is_final e ≡ true
      → start codec (some s) w ≡ (
        stopped e,
        ((s.redis.subscribe (channels (some s)) w).0.close
            (dispatch_all s.sender (events codec before) subscribed)).1,
      )
  unfolding start
  start_final before after e h g final =
      ap (closing (s.redis.subscribe (channels (some s)) w).0)
        (receive_loop_final codec s.sender opened before after e subscribed h g final)

  -- Without a final error among what is received, `Start` does not return, and has dispatched every
  -- event received, in order.
  start_waiting :
      All Goes opened
      → start codec (some s) w ≡ (waiting, dispatch_all s.sender (events codec opened) subscribed)
  unfolding start
  start_waiting g =
      ap (closing (s.redis.subscribe (channels (some s)) w).0)
        (receive_loop_waiting codec s.sender opened subscribed g)
