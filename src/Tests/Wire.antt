-- ===== src/Tests/Wire.antt =====
-- A codec, a sender and a push client: the codec encodes the events for one user whose id is one
-- character, with no payload; the sender and the client log what they are asked for.
use kim_gate.Prelude.{ℕ, ◌≡◌, refl, List, [], ◌∷◌, Option, some, none}
use kim_gate.Text.{Text, codes}
use kim_gate.Effect.{Result, ok, err, foreign}
use kim_gate.Proto.{Bytes, PushTarget, PushEvent}
use kim_gate.Cluster.Publisher.{Codec, Message, PushRedis}
use kim_gate.Cluster.Subscriber.{SignalSender}
use kim_gate.Cluster.Dispatch.{
  Call, send_users, send_connections, close_users, close_connections, send_group, send_all,
}
use kim_gate.Rpc.Delivery.{CodecLaws, zero_event}

abbrev pub one_user : ℕ → Text → PushEvent
one_user c method = record {
  target = PushTarget.users;
  user_ids = (c ∷ []) ∷ [];
  group = [];
  method = method;
  payload = [];
  connection_ids = [];
}

abbrev encode : PushTarget → List Text → Text → Bytes → Text → List Text → Result Bytes
encode PushTarget.users ((c ∷ []) ∷ []) method [] [] [] = ok (c ∷ method)
encode _ _ _ _ _ _ = err (foreign 0)

abbrev decode : Bytes → Result PushEvent
decode [] = ok zero_event
decode (c ∷ method) = ok (one_user c method)

abbrev pub codec : Codec
codec = record {
  marshal = λ e. encode e.target e.user_ids e.method e.payload e.group e.connection_ids;
  unmarshal = decode;
}

decode-encode :
    (target : PushTarget) (ids : List Text) (method : Text) (payload : Bytes) (group : Text)
    (connection_ids : List Text) (b : Bytes)
    → encode target ids method payload group connection_ids ≡ ok b
    → decode b
      ≡ ok (record {
        target = target;
        user_ids = ids;
        group = group;
        method = method;
        payload = payload;
        connection_ids = connection_ids;
      })
decode-encode PushTarget.users ((c ∷ []) ∷ []) method [] [] [] b h = cc
decode-encode _ _ _ _ _ _ b h = absurd cc

pub codec_laws : CodecLaws codec
codec_laws = record {
  decodes = λ e. decode-encode e.target e.user_ids e.method e.payload e.group e.connection_ids;
  decodes_nil = refl;
}

-- The calls that were made, the latest first.
abbrev pub Calls : Type 0
Calls = List Call

abbrev pub sender : SignalSender Calls
sender = record {
  send_users_raw = λ ids method b w. (record { error = none }, send_users ids method b ∷ w);
  send_connections_raw =
      λ ids method b w. (record { error = none }, send_connections ids method b ∷ w);
  close_users = λ ids w. (record { error = none }, close_users ids ∷ w);
  close_connections = λ ids w. (record { error = none }, close_connections ids ∷ w);
  send_group_raw = λ group method b w. (record { error = none }, send_group group method b ∷ w);
  send_all_raw = λ method b w. (record { error = none }, send_all method b ∷ w);
}

-- Two messages, between them an error that is not final and an empty payload; then `end`.
abbrev pub messages : List (Result (Option Message))
messages =
    ok (some (record { channel = codes "c"; payload = b'a' ∷ codes "m" }))
    ∷ err (foreign 1)
    ∷ ok (some (record { channel = codes "c"; payload = [] }))
    ∷ ok (some (record { channel = codes "c"; payload = b'b' ∷ codes " m " }))
    ∷ []

-- A client whose publications are logged as calls to all, and whose subscription ends as `received`.
abbrev pub client : List (Result (Option Message)) → PushRedis Calls
client received = record {
  publish = λ channel b w. (ok tt, send_all channel b ∷ w);
  subscribe = λ channels w. (record { received = received; close = λ v. (ok tt, v) }, w);
}
