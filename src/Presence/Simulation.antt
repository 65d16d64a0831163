-- ===== src/Presence/Simulation.antt =====
-- Proofs that the routes in Redis follow the table of `Presence`.
use kim_gate.Prelude.{
  ℕ, zero, suc, ◌+◌, ◌≤◌, ◌≡◌, refl, ap, ◌∙◌, Option, none, some, List, [], ◌∷◌, arith,
}
use kim_gate.Effect.{Result, ok, err, Error}
use kim_gate.Text.{lookup, Text}
use kim_gate.Time.{Time}
use kim_gate.Data.Commands.{RedisCommands}
use kim_gate.Data.UserRoute.{user_route_bucket_count, user_expire_key, refresh_connection}
use kim_gate.Data.Registration.{HashLaws}
use kim_gate.Data.Keyspace.{
  KeyspaceLaws, present, set_route, key_of, hash-poll, present-refresh_connection,
  present-remove_connection, present-hdel,
}
use kim_gate.Gateway.AppGroup.{AppGroup, parse_app_group}
use kim_gate.Gateway.Hub.{
  Connection, UserRouteRegistrar, Hub, on_connected, on_ping, on_disconnected,
}
use kim_gate.App.Poller.{
  user_route_poll_limit, poll_bucket, poll_from, poll_expired_user_routes_once,
}
use kim_gate.App.Rounds.{poll_bucket-script, deadline}
use kim_gate.Sessions.{on_connected-joined}
use kim_gate.Presence.{
  Event, opened, pinged, closed, polled, lapsed, Gate, IsGate, Table, record_event, record_events,
  happen, happen_all,
}

set_route_cong :
    (user_id connection_id : Text) (v : Option Text) (t t' : Table) (u c : Text)
    → t u c ≡ t' u c
    → set_route user_id connection_id v t u c ≡ set_route user_id connection_id v t' u c
set_route_cong user_id connection_id v t t' u c h = rw h refl

on_connected-refused :
    {W : Type 0} (hub : Hub W) (conn : Connection) (w : W) {e : Error}
    → parse_app_group conn.user_id ≡ err e
    → on_connected hub conn w ≡ (err e, w)
unfolding on_connected
on_connected-refused hub conn w h = rw (h, on_connected)

on_ping-registers :
    {W : Type 0} (hub : Hub W) (routes : UserRouteRegistrar W) (conn : Connection) (w : W)
    → hub.user_routes ≡ some routes
    → on_ping hub conn w ≡ (routes.refresh_connection conn.user_id conn.id w).1
unfolding on_ping
on_ping-registers hub routes conn w h = rw h refl

on_disconnected-registers :
    {W : Type 0} (hub : Hub W) (routes : UserRouteRegistrar W) (conn : Connection) (w : W)
    → hub.user_routes ≡ some routes
    → on_disconnected hub conn w ≡ (routes.remove_connection conn.user_id conn.id w).1
unfolding on_disconnected
on_disconnected-registers hub routes conn w h = rw h refl

module _ (sum64 : Text → ℕ) {W : Type 0} {redis : RedisCommands W} {laws : HashLaws redis}
    (space : KeyspaceLaws laws) where
  -- The routes in Redis are those of the table.
  abbrev pub Agrees : W → Table → Type 0
  Agrees w t = (u c : Text) → present sum64 laws w u c ≡ t u c

  module _ (g : Gate W) (is_gate : IsGate sum64 laws g) where
    hash-poll_from :
        (now : Time) (left bucket : ℕ) (key : Text) (w : W)
        → bucket + left ≤ user_route_bucket_count
        → laws.hash (poll_from sum64 g.store now left bucket w) key ≡ laws.hash w key
    unfolding poll_from
    hash-poll_from now zero bucket key w h = refl
    hash-poll_from now (suc left) bucket key w h =
        hash-poll_from now left (bucket + 1) key (poll_bucket sum64 g.store now bucket w)
          (omega arith)
        ∙ rw (poll_bucket-script sum64 redis g.store is_gate.client now bucket w (omega arith)) (
            hash-poll space (user_expire_key bucket) user_route_poll_limit (deadline g.store now w)
              key w)

  module _ (gates : ℕ → Gate W) (all_gates : (g : ℕ) → IsGate sum64 laws (gates g)) where
    abbrev ids : ℕ → Text
    ids g = (gates g).store.server_id

    -- A connection that opens: refused, or registered before its group is joined.
    opened-Agrees :
        (g : ℕ) (conn : Connection) (w : W) (t : Table)
        → Agrees w t
        → Agrees (happen sum64 redis gates (opened g conn) w) (record_event ids (opened g conn) t)
    opened-Agrees g conn w t h u c = go (parse_app_group conn.user_id) refl
      where
        go :
            (p : Result AppGroup)
            → parse_app_group conn.user_id ≡ p
            → present sum64 laws (happen sum64 redis gates (opened g conn) w) u c
              ≡ record_event ids (opened g conn) t u c
        go (err e) q =
            ap (λ (r : Result (Unit {0}) × W). present sum64 laws r.1 u c)
              (on_connected-refused (gates g).hub conn w q)
            ∙ rw q (h u c)
        go (ok app) q =
            let w' = (refresh_connection sum64 (gates g).store conn.user_id conn.id w).1 in
            ap (λ (r : Result (Unit {0}) × W). present sum64 laws r.1 u c)
              (on_connected-joined sum64 laws (gates g).store (all_gates g).client (gates g).hub
                conn w (all_gates g).registers q)
            ∙ (ap (lookup c) ((all_gates g).apart conn app.group (key_of sum64 u) w')
                ∙ (present-refresh_connection sum64 space (gates g).store (all_gates g).client
                      conn.user_id conn.id w u c (all_gates g).lives
                    ∙ rw q (
                        set_route_cong conn.user_id conn.id _ (present sum64 laws w) t u c
                          (h u c))))

    -- Whatever happens, the routes in Redis go on agreeing with the table.
    happen-Agrees :
        (e : Event) (w : W) (t : Table)
        → Agrees w t
        → Agrees (happen sum64 redis gates e w) (record_event ids e t)
    unfolding poll_expired_user_routes_once
    happen-Agrees (opened g conn) w t h u c = opened-Agrees g conn w t h u c
    happen-Agrees (pinged g conn) w t h u c =
        ap (λ v. present sum64 laws v u c)
          (on_ping-registers (gates g).hub _ conn w (all_gates g).registers)
        ∙ (present-refresh_connection sum64 space (gates g).store (all_gates g).client conn.user_id
              conn.id w u c (all_gates g).lives
            ∙ set_route_cong conn.user_id conn.id _ (present sum64 laws w) t u c (h u c))
    happen-Agrees (closed g conn) w t h u c =
        ap (λ v. present sum64 laws v u c)
          (on_disconnected-registers (gates g).hub _ conn w (all_gates g).registers)
        ∙ (present-remove_connection sum64 space (gates g).store (all_gates g).client conn.user_id
              conn.id w u c
            ∙ set_route_cong conn.user_id conn.id none (present sum64 laws w) t u c (h u c))
    happen-Agrees (polled g now) w t h u c =
        rw
          (hash-poll_from (gates g) (all_gates g) now user_route_bucket_count 0 (key_of sum64 u) w
            (omega arith))
          (h u c)
    happen-Agrees (lapsed user connection) w t h u c =
        present-hdel sum64 space user connection w u c ∙ rw (h u c) refl

    pub happen_all-Agrees :
        (es : List Event) (w : W) (t : Table)
        → Agrees w t
        → Agrees (happen_all sum64 redis gates es w) (record_events ids es t)
    happen_all-Agrees [] w t h = h
    happen_all-Agrees (e ∷ es) w t h =
        happen_all-Agrees es (happen sum64 redis gates e w) (record_event ids e t)
          (happen-Agrees e w t h)
