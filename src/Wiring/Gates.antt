-- ===== src/Wiring/Gates.antt =====
-- Proofs on several gates that `Initialize` of wire_gen.go made over one Redis.
use kim_gate.Prelude.{ℕ, ◌≡◌, ◌↔◌, ◌∙◌, sym, subst, ap, false, true, some, List, Option}
use kim_gate.Prelude.Int.{pos, ◌≤ℤ◌}
use kim_gate.Effect.{ok, returned}
use kim_gate.Text.{Text, is_empty, trim_space}
use kim_gate.Time.{whole_seconds}
use kim_gate.Config.{Config}
use kim_gate.Proto.{UserConnection}
use kim_gate.Data.Commands.{RedisCommands}
use kim_gate.Data.UserRoute.{redis_user_route_client}
use kim_gate.Data.Registration.{HashLaws}
use kim_gate.Data.Keyspace.{KeyspaceLaws}
use kim_gate.Gateway.Hub.{Connection, Hub, joined}
use kim_gate.Gateway.Server.{websocket_hub, new_hertz_server}
use kim_gate.Rpc.Queries.{get_user_connections}
use kim_gate.Sessions.{has_connection}
use kim_gate.Presence.{Event, Gate, IsGate, nobody, record_events, happen_all}
use kim_gate.Presence.Simulation.{Agrees}
use kim_gate.Presence.Listing.{presence}
use kim_gate.Wiring.{Libraries, App, initialize}
use kim_gate.Wiring.Parts.{IsWhole, initialize-IsWhole}

module _ {W M H G L O R : Type 0} (lib : Libraries W M H G L O R) {redis : RedisCommands W}
    (laws : HashLaws redis) where
  -- The store of an application, and a hub.
  abbrev pub gate_of : App W M G L R → Hub W → Gate W
  gate_of app hub = record { store = app.user_routes; hub = hub }

  -- The hub that the HTTP server of a gate routes to is the one of its parts.
  websocket_hub-hub :
      (app : App W M G L R) (whole : IsWhole lib app) {hub : Hub W}
      → websocket_hub app.http.routes ≡ some hub
      → hub ≡ whole.managed.hub
  unfolding new_hertz_server
  websocket_hub-hub app whole {hub} h =
      let e : websocket_hub app.http.routes ≡ some whole.managed.hub =
        ap (λ http. websocket_hub http.routes) whole.http in
      cc (h, e)

  gate_of-IsGate :
      (app : App W M G L R) (whole : IsWhole lib app) (hub : Hub W)
      → hub ≡ whole.managed.hub
      → ((h : Option H) (conn : Connection) (group key : Text) (w : W)
          → laws.hash (lib.signalg.add_to_group h conn group w).1 key ≡ laws.hash w key)
      → lib.commands app.redis ≡ redis
      → pos 1 ≤ℤ whole_seconds app.cfg.redis_route_ttl
      → IsGate lib.sum64 laws (gate_of app hub)
  unfolding joined
  gate_of-IsGate app whole hub same apart shared lives = record {
    client = whole.routes ∙ ap redis_user_route_client shared;
    clean = whole.clean;
    lives = subst (λ d. pos 1 ≤ℤ whole_seconds d) (sym whole.ttl) lives;
    registers = ap (λ (k : Hub W). k.user_routes) (same ∙ whole.hub);
    apart = λ conn group key w.
        ap (λ (k : Hub W). laws.hash (joined k.group_joiner conn group w).1 key) (same ∙ whole.hub)
        ∙ apart (some whole.handler) conn group key w;
  }

  -- The parts of each of the applications that were made.
  abbrev pub wholes :
      (cfgs : ℕ → Config) (apps : ℕ → App W M G L R)
      → ((g : ℕ) → (w : W) × (w' : W) × (initialize lib (cfgs g) w ≡ (returned (ok (apps g)), w')))
      → (g : ℕ) → IsWhole lib (apps g)
  wholes cfgs apps made g = initialize-IsWhole lib (cfgs g) (made g).0 (made g).2

  -- `Initialize` made each of any number of gates, with routes that live for a second or longer, over
  -- one Redis with HashLaws and KeyspaceLaws, where joining a group leaves the hashes alone and there
  -- are no routes at first; the hub of a gate is that of the websocket route of its HTTP server. Whatever
  -- these hubs, their pollers and the expiry of routes then do, in
  -- whatever order, the gRPC service of any gate replies to GetUserConnections, for a user id that is
  -- not blank, with exactly the connections that the table of these events has for the user.
  pub presence_of_initialize :
      (space : KeyspaceLaws laws) (cfgs : ℕ → Config) (apps : ℕ → App W M G L R)
      (made : (g : ℕ)
        → (w : W) × (w' : W) × (initialize lib (cfgs g) w ≡ (returned (ok (apps g)), w')))
      (hubs : ℕ → Hub W) (es : List Event) (w : W) (g : ℕ) (user_id : Text)
      → ((n : ℕ) → websocket_hub (apps n).http.routes ≡ some (hubs n))
      → ((h : Option H) (conn : Connection) (group key : Text) (v : W)
          → laws.hash (lib.signalg.add_to_group h conn group v).1 key ≡ laws.hash v key)
      → ((n : ℕ) → lib.commands (apps n).redis ≡ redis)
      → ((n : ℕ) → pos 1 ≤ℤ whole_seconds (apps n).cfg.redis_route_ttl)
      → Agrees lib.sum64 space w nobody
      → is_empty (trim_space user_id) ≡ false
      → let gates = λ (n : ℕ). gate_of (apps n) (hubs n) in
        (connections : List UserConnection) × ((get_user_connections
            (wholes cfgs apps made g).service.connection_store
            (some (record { user_id = user_id }))
            (happen_all lib.sum64 redis gates es w)).0
          ≡ ok connections)
        × ((c s : Text)
            → (has_connection c s connections ≡ true) ↔ (
                record_events (λ n. (apps n).user_routes.server_id) es nobody (trim_space user_id) c
                ≡ some s))
  presence_of_initialize space cfgs apps made hubs es w g user_id routed apart shared lives start
        there =
      let whole = wholes cfgs apps made in
      let gates = λ (n : ℕ). gate_of (apps n) (hubs n) in
      let all_gates = λ (n : ℕ).
        gate_of-IsGate (apps n) (whole n) (hubs n) (websocket_hub-hub (apps n) (whole n) (routed n))
          apart (shared n) (lives n) in
      let (connections, replied, listed) =
        presence lib.sum64 space gates all_gates es w g user_id start there in
      (
        connections,
        subst
            (λ store.
              (get_user_connections store (some (record { user_id = user_id }))
                (happen_all lib.sum64 redis gates es w)).0
              ≡ ok connections)
            (sym (whole g).store) replied,
        listed,
      )
