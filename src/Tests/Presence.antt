-- ===== src/Tests/Presence.antt =====
-- Two gates over the Redis of `Tests.Redis`: a user on both, a connection that moves, one that closes
-- and one whose route lapses.
use kim_gate.Prelude.{
  ℕ, zero, suc, ◌*◌, ◌≡◌, ◌↔◌, refl, true, false, none, some, List, [], ◌∷◌, length, arith,
}
use kim_gate.Prelude.Int.{pos, ◌≤ℤ◌}
use kim_gate.Effect.{ok}
use kim_gate.Text.{Text, codes, is_empty, trim_space}
use kim_gate.Text.Compact.{IsClean}
use kim_gate.Time.{second, whole_seconds}
use kim_gate.Proto.{UserConnection}
use kim_gate.Data.UserRoute.{redis_user_route_client}
use kim_gate.Gateway.Hub.{Connection, joined}
use kim_gate.Rpc.Queries.{get_user_connections}
use kim_gate.Sessions.{has_connection, connection_store, registrar}
use kim_gate.Presence.{
  Event, opened, pinged, closed, polled, lapsed, Gate, IsGate, nobody, record_events, happen_all,
}
use kim_gate.Presence.Simulation.{Agrees}
use kim_gate.Presence.Listing.{presence}
use kim_gate.Tests.Redis.{World, redis, hash_laws, keyspace_laws}

abbrev pub sum64 : Text → ℕ
sum64 = length

abbrev gate_id : ℕ → Text
gate_id zero = codes "gate-a"
gate_id (suc g) = codes "gate-b"

abbrev gates : ℕ → Gate World
gates g = record {
  store = record {
    redis = redis_user_route_client redis;
    route_ttl = pos (60 * second);
    server_id = gate_id g;
    now = λ w. second;
  };
  hub = record {
    server_id = gate_id g;
    user_routes = some (
        registrar sum64 (record {
          redis = redis_user_route_client redis;
          route_ttl = pos (60 * second);
          server_id = gate_id g;
          now = λ w. second;
        }));
    group_joiner = none;
  };
}

gate_id-IsClean : (g : ℕ) → IsClean (gate_id g)
unfolding trim_space
gate_id-IsClean zero = (refl, refl)
gate_id-IsClean (suc g) = (refl, refl)

lives : pos 1 ≤ℤ whole_seconds (pos (60 * second))
unfolding whole_seconds
lives = omega arith

gates-IsGate : (g : ℕ) → IsGate sum64 hash_laws (gates g)
unfolding joined
gates-IsGate g = record {
  client = refl;
  clean = gate_id-IsClean g;
  lives = lives;
  registers = refl;
  apart = λ conn group key w. refl;
}

abbrev pub empty : World
empty = record { hashes = λ key. []; sets = λ key. [] }

pub empty-Agrees : Agrees sum64 keyspace_laws empty nobody
unfolding hash_laws
empty-Agrees u c = refl

abbrev pub at : Text → Connection
at id = record { id = id; user_id = codes " shop:ann" }

abbrev pub events : List Event
events =
    opened 0 (at (codes "c1 "))
    ∷ opened 1 (at (codes "c2"))
    ∷ opened 1 (at (codes "c3"))
    ∷ polled 0 0
    ∷ closed 0 (at (codes "c1"))
    ∷ pinged 1 (at (codes "c2"))
    ∷ lapsed (codes "shop:ann") (codes "c3")
    ∷ opened 0 (record { id = codes "c4"; user_id = codes "ann" })
    ∷ []

there : is_empty (trim_space (codes "shop:ann ")) ≡ false
unfolding trim_space
there = refl

presence_example :
    (connections : List UserConnection) × ((get_user_connections
        (connection_store sum64 (gates 0).store)
        (some (record { user_id = codes "shop:ann " }))
        (happen_all sum64 redis gates events empty)).0
      ≡ ok connections)
    × ((c s : Text)
        → (has_connection c s connections ≡ true)
          ↔ (record_events gate_id events nobody (trim_space (codes "shop:ann ")) c ≡ some s))
presence_example =
    presence sum64 keyspace_laws gates gates-IsGate events empty 0 (codes "shop:ann ") empty-Agrees
      there
