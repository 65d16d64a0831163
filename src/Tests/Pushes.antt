-- ===== src/Tests/Pushes.antt =====
-- A push to one user: the request, the publisher and the subscriber of the default configuration.
use kim_gate.Prelude.{◌≡◌, ◌⊎◌, refl, true, Option, some, List, [], ◌∷◌, ◌++◌}
use kim_gate.Text.{Text, codes, elem, trim_space, compact_strings}
use kim_gate.Effect.{Result, ok, err, wrap, sentinel, Sentinel, map_err}
use kim_gate.Config.{defaults}
use kim_gate.Proto.{Bytes}
use kim_gate.Cluster.Channels.{PushChannels, new_push_channels}
use kim_gate.Cluster.Publisher.{Publisher, Message, new_publisher}
use kim_gate.Cluster.Subscriber.{
  Subscriber, new_subscriber, channels, consume, dispatch, start, stopped,
}
use kim_gate.Cluster.Dispatch.{
  Follows, dispatch-Follows, call_of, perform, if_complete, Call, IsCleanCall, is_err,
  dispatch-clean, is_complete, send_users,
}
use kim_gate.Cluster.Loop.{start_final, dispatch_all, events}
use kim_gate.Rpc.Requests.{Request, to_users, serve, wanted, event_for, failure, Serves, serve_lem}
use kim_gate.Rpc.Delivery.{push_publisher, delivery}
use kim_gate.Tests.Wire.{one_user, codec, codec_laws, Calls, sender, messages, client}

abbrev pub request : Request
request =
    to_users
      (record { user_ids = codes " a " ∷ [] ∷ codes " " ∷ []; method = codes "m "; payload = [] })

abbrev pub bytes : Bytes
bytes = b'a' ∷ codes "m"

abbrev pub default_channels : PushChannels
default_channels = record {
  users = codes "kim:gateway:push:users";
  group = codes "kim:gateway:push:group";
  broadcast = codes "kim:gateway:push:broadcast";
}

abbrev publisher : Publisher Calls
publisher = record { redis = client []; channels = default_channels }

abbrev pub subscriber : List (Result (Option Message)) → Subscriber Calls
subscriber received = record {
  redis = client received;
  channels = default_channels;
  sender = sender;
}

default_publisher : new_publisher defaults (some (client [])) ≡ ok publisher
unfolding new_publisher new_push_channels defaults trim_space
default_publisher = refl

pub default_subscriber :
    new_subscriber defaults (some (client [])) (some sender) ≡ ok (subscriber [])
unfolding new_subscriber new_push_channels defaults trim_space
default_subscriber = refl

request-is_complete : is_complete (wanted request) ≡ true
unfolding trim_space compact_strings
request-is_complete = refl

marshal-request : codec.marshal (event_for (wanted request)) ≡ ok bytes
unfolding trim_space compact_strings
marshal-request = refl

delivery_example :
    (channel : Text) × (serve (push_publisher codec publisher) request []
      ≡ map_err
          (failure (wanted request))
          (map_err (wrap "publish push event") ((client []).publish channel bytes))
          [])
    × (elem channel (channels (some (subscriber []))) ≡ true)
    × ((w : Calls)
        → consume codec sender (some (record { channel = channel; payload = bytes })) w
          ≡ (perform sender (wanted request) w).1)
delivery_example =
    delivery codec_laws defaults (client []) (client []) sender request bytes [] default_publisher
      default_subscriber request-is_complete marshal-request

serve_lem_example :
    Serves
      (push_publisher codec publisher)
      (if_complete (some (wanted request)))
      []
      (serve (push_publisher codec publisher) request [])
serve_lem_example = serve_lem (push_publisher codec publisher) request []

abbrev ended : List (Result (Option Message))
ended = messages ++ err (sentinel Sentinel.redis_closed) ∷ messages

start_final_example :
    start codec (some (subscriber ended)) []
    ≡ (stopped (sentinel Sentinel.redis_closed), dispatch_all sender (events codec messages) [])
start_final_example =
    start_final codec (subscriber ended) [] messages messages (sentinel Sentinel.redis_closed) refl
      (tt, (refl, (tt, (tt, tt)))) refl

-- Only two of the messages lead to a call, and the second one's method is trimmed.
two_calls :
    dispatch_all sender (events codec messages) []
    ≡ send_users (codes "b" ∷ []) (codes "m") [] ∷ send_users (codes "a" ∷ []) (codes "m") [] ∷ []
unfolding dispatch trim_space compact_strings
two_calls = refl

dispatch-Follows_example :
    Follows sender
      (call_of (one_user b'a' (codes "m")))
      []
      (dispatch sender (some (one_user b'a' (codes "m"))) [])
dispatch-Follows_example = dispatch-Follows sender (one_user b'a' (codes "m")) []

dispatch-clean_example :
    (((dispatch sender (some (one_user b'a' (codes " m"))) []).1 ≡ [])
      × (is_err (dispatch sender (some (one_user b'a' (codes " m"))) []).0 ≡ true))
    ⊎ ((call : Call) × IsCleanCall call
        × (dispatch sender (some (one_user b'a' (codes " m"))) [] ≡ perform sender call []))
dispatch-clean_example = dispatch-clean sender (one_user b'a' (codes " m")) []
