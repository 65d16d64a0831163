-- ===== src/Cluster/Channels.antt =====
-- The three push channels: `pushChannels` with its constructors and methods.
use kim_gate.Prelude.{List, [], ◌∷◌, leb, if◌then◌else◌, length}
use kim_gate.Text.{Text, codes, is_empty, trim_space, compact_strings, signed_decimal, elem}
use kim_gate.Effect.{Result, ok, err, new, about}
use kim_gate.Config.{Config}
use kim_gate.Proto.{PushTarget}

pub record PushChannels : Type 0 where
  pub users : Text
  pub group : Text
  pub broadcast : Text

unfoldable pub normalize_push_channels : PushChannels → Result PushChannels
normalize_push_channels c =
    let users = trim_space c.users in
    let group = trim_space c.group in
    let broadcast = trim_space c.broadcast in
    if is_empty users
    then err (new "users push channel is required")
    else if is_empty group
    then err (new "group push channel is required")
    else if is_empty broadcast
    then err (new "broadcast push channel is required")
    else ok (record { users = users; group = group; broadcast = broadcast })

unfoldable pub new_push_channels : Config → Result PushChannels
unfolding normalize_push_channels
new_push_channels cfg = normalize_push_channels (record {
  users = trim_space cfg.redis_push_users_channel;
  group = trim_space cfg.redis_push_group_channel;
  broadcast = trim_space cfg.redis_push_broadcast_channel;
})

-- The loop of `uniqueList`.
unfoldable pub unique_from : List Text → List Text → List Text
unique_from seen [] = []
unique_from seen (c ∷ channels) =
    let skipped = unique_from seen channels in
    let kept = c ∷ unique_from (c ∷ seen) channels in if elem c seen then skipped else kept

unfoldable pub list : PushChannels → List Text
list c = compact_strings (c.users ∷ c.group ∷ c.broadcast ∷ [])

unfoldable pub unique_list : PushChannels → List Text
unfolding unique_from list
unique_list c = if leb (length (list c)) 1 then list c else unique_from [] (list c)

-- `PushTarget.String`
abbrev pub target_string : PushTarget → Text
target_string PushTarget.unspecified = codes "PUSH_TARGET_UNSPECIFIED"
target_string PushTarget.users = codes "PUSH_TARGET_USERS"
target_string PushTarget.group = codes "PUSH_TARGET_GROUP"
target_string PushTarget.broadcast = codes "PUSH_TARGET_BROADCAST"
target_string PushTarget.connections = codes "PUSH_TARGET_CONNECTIONS"
target_string PushTarget.close_users = codes "PUSH_TARGET_CLOSE_USERS"
target_string PushTarget.close_connections = codes "PUSH_TARGET_CLOSE_CONNECTIONS"
target_string (PushTarget.other n) = signed_decimal n

unfoldable pub channel_for_target : PushChannels → PushTarget → Result Text
channel_for_target c PushTarget.users = ok c.users
channel_for_target c PushTarget.connections = ok c.users
channel_for_target c PushTarget.close_users = ok c.users
channel_for_target c PushTarget.close_connections = ok c.users
channel_for_target c PushTarget.group = ok c.group
channel_for_target c PushTarget.broadcast = ok c.broadcast
channel_for_target c target = err (about "unknown push target" (target_string target))
