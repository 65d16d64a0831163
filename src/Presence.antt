-- ===== src/Presence.antt =====
-- Who is connected where: what the handlers of all gates, their pollers and the expiry of routes do to
-- the routes in Redis (internal/gateway, internal/app and internal/data), beside a table that says it.
pub mod Simulation
pub mod Listing
use kim_gate.Prelude.{ℕ, ◌≡◌, not, ◌&&◌, Option, none, some, List, [], ◌∷◌, if◌then◌else◌}
use kim_gate.Prelude.Int.{pos, ◌≤ℤ◌}
use kim_gate.Text.{Text, is_empty, trim_space, text_eq}
use kim_gate.Text.Compact.{IsClean}
use kim_gate.Time.{Time, whole_seconds}
use kim_gate.Data.Commands.{RedisCommands}
use kim_gate.Data.UserRoute.{UserRouteStore, redis_user_route_client}
use kim_gate.Data.Registration.{HashLaws}
use kim_gate.Data.Keyspace.{set_route, key_of}
use kim_gate.Cluster.Dispatch.{is_err}
use kim_gate.Gateway.AppGroup.{parse_app_group}
use kim_gate.Gateway.Hub.{
  Connection, GroupJoiner, Hub, joined, on_connected, on_disconnected, on_ping,
}
use kim_gate.App.Poller.{poll_expired_user_routes_once}
use kim_gate.Sessions.{registrar}

-- A connection opens at a gate, answers a ping or closes; the poller of a gate makes a round at some
-- time; the time of a user's field is over, and Redis drops it.
pub data Event : Type 0 where
  opened pinged closed : ℕ → Connection → Event
  polled : ℕ → Time → Event
  lapsed : (user connection : Text) → Event

-- A gate: the store that its poller and its service use, and the hub of its connections.
pub record Gate (W : Type 0) : Type 0 where
  pub store : UserRouteStore W
  pub hub : Hub W

-- A gate over the shared Redis, with a clean id and routes that live for a second or longer, whose hub
-- registers with the store of the gate, and where joining a group leaves the hashes alone.
pub record IsGate {W : Type 0} {redis : RedisCommands W} (sum64 : Text → ℕ) (laws : HashLaws redis)
    (g : Gate W) : Type 0 where
  pub client : g.store.redis ≡ redis_user_route_client redis
  pub clean : IsClean g.store.server_id
  pub lives : pos 1 ≤ℤ whole_seconds g.store.route_ttl
  pub registers : g.hub.user_routes ≡ some (registrar sum64 g.store)
  pub apart :
      (conn : Connection) (group key : Text) (w : W)
      → laws.hash (joined g.hub.group_joiner conn group w).1 key ≡ laws.hash w key

-- The table: the gate at which a connection of a user is, by trimmed ids.
abbrev pub Table : Type 0
Table = Text → Text → Option Text

abbrev pub nobody : Table
nobody user connection = none

-- What an event does to the table. A blank id changes nothing; a connection that is refused for its
-- user id is not entered.
abbrev pub record_event : (ℕ → Text) → Event → Table → Table
record_event ids (opened g conn) t =
    if is_err (parse_app_group conn.user_id)
    then t
    else set_route conn.user_id conn.id (some (ids g)) t
record_event ids (pinged g conn) t = set_route conn.user_id conn.id (some (ids g)) t
record_event ids (closed g conn) t = set_route conn.user_id conn.id none t
record_event ids (polled g now) t = t
record_event ids (lapsed user connection) t =
    λ u c. if text_eq user u && text_eq connection c then none else t u c

abbrev pub record_events : (ℕ → Text) → List Event → Table → Table
record_events ids [] t = t
record_events ids (e ∷ es) t = record_events ids es (record_event ids e t)

module _ (sum64 : Text → ℕ) {W : Type 0} (redis : RedisCommands W) (gates : ℕ → Gate W) where
  -- What an event does, by the code.
  abbrev pub happen : Event → W → W
  happen (opened g conn) w = (on_connected (gates g).hub conn w).1
  happen (pinged g conn) w = on_ping (gates g).hub conn w
  happen (closed g conn) w = on_disconnected (gates g).hub conn w
  happen (polled g now) w = poll_expired_user_routes_once sum64 (gates g).store now w
  happen (lapsed user connection) w = (redis.hdel (key_of sum64 user) connection w).1

  abbrev pub happen_all : List Event → W → W
  happen_all [] w = w
  happen_all (e ∷ es) w = happen_all es (happen e w)
