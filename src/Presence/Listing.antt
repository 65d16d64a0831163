-- ===== src/Presence/Listing.antt =====
-- Proofs that `GetUserConnections` replies with the table of `Presence`.
use kim_gate.Prelude.{
  ℕ, Bool, ◌≡◌, ◌↔◌, refl, sym, ap, ◌∙◌, true, false, Option, none, some, List, [], ◌∷◌, arith,
  if◌then◌else◌, map,
}
use kim_gate.Effect.{ok}
use kim_gate.Text.Assoc.{elem-keys}
use kim_gate.Text.{lookup, keys, Text, is_empty, trim_space, elem, IsDistinct, sort_slice}
use kim_gate.Text.Trim.{text_eq_iff, text_eq_refl, trim_space_idem}
use kim_gate.Text.Compact.{IsClean}
use kim_gate.Proto.{UserConnection}
use kim_gate.Data.Commands.{RedisCommands}
use kim_gate.Data.UserRoute.{collect_connections, connection_less}
use kim_gate.Data.Registration.{HashLaws, has_route, has_route-sort_slice}
use kim_gate.Data.Routes.{list_user_connections-hash}
use kim_gate.Data.Keyspace.{KeyspaceLaws, set_route, key_of}
use kim_gate.Rpc.Queries.{user_connection, get_user_connections}
use kim_gate.Sessions.{
  has_connection, has_connection-map, connection_store, get_user_connections-list,
}
use kim_gate.Presence.{
  Event, opened, pinged, closed, polled, lapsed, Gate, IsGate, Table, nobody, record_event,
  record_events, happen_all,
}
use kim_gate.Presence.Simulation.{Agrees, happen_all-Agrees}
use kim_gate.Cluster.Dispatch.{is_err}
use kim_gate.Gateway.AppGroup.{parse_app_group}

-- The hash holds clean ids only.
abbrev Clean : List (Text × Text) → Type 0
Clean values = (f v : Text) → lookup f values ≡ some v → IsClean f × IsClean v

Clean-tail :
    (f v : Text) (values : List (Text × Text))
    → elem f (keys values) ≡ false
    → Clean ((f, v) ∷ values)
    → Clean values
Clean-tail f v values new clean g v' h =
    clean g v' (ground (arith, elem-keys g v' values, text_eq_iff f g))

-- Of a hash of clean ids, the listing has exactly the fields with their values.
has_route-lookup :
    (c s : Text) (values : List (Text × Text))
    → IsDistinct (keys values)
    → Clean values
    → (has_route c s (collect_connections values) ≡ true) ↔ (lookup c values ≡ some s)
unfolding collect_connections
has_route-lookup c s [] d clean = (λ h. cc, λ h. cc)
has_route-lookup c s ((f, v) ∷ values) (new, d) clean =
    let ih = has_route-lookup c s values d (Clean-tail f v values new clean) in
    let here = clean f v (rw (text_eq_refl f) refl) in
    ground (arith, ih, here, elem-keys c s values, text_eq_iff f c, text_eq_iff v s)

-- The table holds clean connection ids and clean gates only.
abbrev IsCleanTable : Table → Type 0
IsCleanTable t = (u c s : Text) → t u c ≡ some s → IsClean c × IsClean s

set_route-IsCleanTable :
    (user_id connection_id : Text) (v : Option Text) (t : Table)
    → ((s : Text) → v ≡ some s → IsClean s)
    → IsCleanTable t
    → IsCleanTable (set_route user_id connection_id v t)
set_route-IsCleanTable user_id connection_id v t hv ht u c s h =
    ground (
      arith,
      hv s,
      ht u c s,
      trim_space_idem connection_id,
      text_eq_iff (trim_space connection_id) c,
    )

if-IsCleanTable :
    (b : Bool) (t t' : Table)
    → IsCleanTable t
    → IsCleanTable t'
    → IsCleanTable (if b then t else t')
if-IsCleanTable true t t' h h' = h
if-IsCleanTable false t t' h h' = h'

some-IsClean : (id : Text) → IsClean id → (s : Text) → some id ≡ some s → IsClean s
some-IsClean id h s e = ground arith

none-IsClean : (s : Text) → none ≡ some s → IsClean s
none-IsClean s e = cc

record_event-IsCleanTable :
    (ids : ℕ → Text)
    → ((g : ℕ) → IsClean (ids g))
    → (e : Event) (t : Table) → IsCleanTable t
    → IsCleanTable (record_event ids e t)
record_event-IsCleanTable ids clean (opened g conn) t h =
    if-IsCleanTable (is_err (parse_app_group conn.user_id)) t _ h (
      set_route-IsCleanTable conn.user_id conn.id (some (ids g)) t (some-IsClean (ids g) (clean g))
        h)
record_event-IsCleanTable ids clean (pinged g conn) t h =
    set_route-IsCleanTable conn.user_id conn.id (some (ids g)) t (some-IsClean (ids g) (clean g)) h
record_event-IsCleanTable ids clean (closed g conn) t h =
    set_route-IsCleanTable conn.user_id conn.id none t none-IsClean h
record_event-IsCleanTable ids clean (polled g now) t h = h
record_event-IsCleanTable ids clean (lapsed user connection) t h =
    λ u c s e. ground (arith, h u c s)

record_events-IsCleanTable :
    (ids : ℕ → Text)
    → ((g : ℕ) → IsClean (ids g))
    → (es : List Event) (t : Table) → IsCleanTable t
    → IsCleanTable (record_events ids es t)
record_events-IsCleanTable ids clean [] t h = h
record_events-IsCleanTable ids clean (e ∷ es) t h =
    record_events-IsCleanTable ids clean es (record_event ids e t)
      (record_event-IsCleanTable ids clean e t h)

module _ (sum64 : Text → ℕ) {W : Type 0} {redis : RedisCommands W} {laws : HashLaws redis}
    (space : KeyspaceLaws laws) (gates : ℕ → Gate W)
    (all_gates : (g : ℕ) → IsGate sum64 laws (gates g)) where
  -- Any number of gates, each with `IsGate`, share a Redis with `HashLaws` and `KeyspaceLaws` that has
  -- no routes at first: the routes of each live for a second or longer, its server id has no space
  -- around it and is not empty, its hub registers with its store, and joining a group leaves the
  -- hashes alone. Whatever their hubs, their pollers and the expiry of routes then do, in whatever order,
  -- `GetUserConnections` at any gate replies, for a user id that is not blank, with exactly the
  -- connections that the table of these events has for the user, each at its gate.
  pub presence :
      (es : List Event) (w : W) (g : ℕ) (user_id : Text)
      → Agrees sum64 space w nobody
      → is_empty (trim_space user_id) ≡ false
      → (connections : List UserConnection) × ((get_user_connections
            (connection_store sum64 (gates g).store)
            (some (record { user_id = user_id }))
            (happen_all sum64 redis gates es w)).0
          ≡ ok connections)
        × ((c s : Text)
            → (has_connection c s connections ≡ true) ↔ (
                record_events (λ g'. (gates g').store.server_id) es nobody (trim_space user_id) c
                ≡ some s))
  presence es w g user_id start there =
      let ids = λ (g' : ℕ). (gates g').store.server_id in
      let w' = happen_all sum64 redis gates es w in
      let user = trim_space user_id in
      let values = laws.hash w' (key_of sum64 user) in
      let agrees = happen_all-Agrees sum64 space gates all_gates es w nobody start in
      let clean =
        record_events-IsCleanTable ids (λ g'. (all_gates g').clean) es nobody (λ u c s h. cc) in
      let routes = sort_slice connection_less (collect_connections values) in
      (
        map user_connection routes,
        get_user_connections-list sum64 laws (gates g).store (all_gates g).client user_id w' w'
            there refl
            (ap (λ r. r.0)
              (list_user_connections-hash sum64 laws (gates g).store (all_gates g).client user_id w'
                there)),
        λ c s.
            let found =
              has_route-lookup c s values (space.distinct (key_of sum64 user) w')
                (λ f v h. clean user f v (sym (agrees user f) ∙ h)) in
            ground (
              arith,
              has_connection-map c s routes,
              has_route-sort_slice c s (collect_connections values),
              found,
              agrees user c,
            ),
      )
