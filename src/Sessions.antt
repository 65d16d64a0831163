-- ===== src/Sessions.antt =====
-- From the hub's handlers of internal/gateway to `GetUserConnections` of internal/rpc, over the routes
-- of internal/data.
use kim_gate.Prelude.{
  ℕ, ◌≡◌, ◌∙◌, refl, Bool, true, false, ◌&&◌, ◌||◌, some, List, [], ◌∷◌, map, arith,
}
use kim_gate.Prelude.Int.{pos, ◌≤ℤ◌}
use kim_gate.Effect.{ok}
use kim_gate.Text.{Text, is_empty, trim_space, text_eq}
use kim_gate.Text.Trim.{trim_space_idem}
use kim_gate.Text.Compact.{IsClean}
use kim_gate.Time.{whole_seconds}
use kim_gate.Proto.{UserConnection}
use kim_gate.Data.Commands.{RedisCommands}
use kim_gate.Data.UserRoute.{
  UserRouteStore, UserConnectionRoute, redis_user_route_client, register_connection,
  refresh_connection, remove_connection, list_user_connections,
}
use kim_gate.Data.Registration.{HashLaws, has_route, IsTidy}
use kim_gate.Data.Routes.{
  route_key, list_user_connections-hash, list-refresh_connection, list-remove_connection,
}
use kim_gate.Gateway.AppGroup.{AppGroup, parse_app_group}
use kim_gate.Gateway.Hub.{
  Connection, UserRouteRegistrar, Hub, joined, registered, on_connected, on_disconnected,
}
use kim_gate.Rpc.Queries.{UserConnectionStore, user_connection, get_user_connections}

-- A connection at a server is among the connections of a reply.
abbrev pub has_connection : Text → Text → List UserConnection → Bool
has_connection c s [] = false
has_connection c s (r ∷ connections) =
    (text_eq r.connection_id c && text_eq r.server_id s) || has_connection c s connections

pub has_connection-map :
    (c s : Text) (routes : List UserConnectionRoute)
    → has_connection c s (map user_connection routes) ≡ has_route c s routes
has_connection-map c s [] = refl
has_connection-map c s (r ∷ routes) = rw (has_connection-map c s routes) refl

named_user :
    (user_id : Text) {app : AppGroup}
    → parse_app_group user_id ≡ ok app
    → is_empty (trim_space user_id) ≡ false
unfolding parse_app_group
named_user user_id h = ground arith

module _ (sum64 : Text → ℕ) {W : Type 0} where
  -- The store as the hub and as the service see it.
  abbrev pub registrar : UserRouteStore W → UserRouteRegistrar W
  registrar s = record {
    register_connection = register_connection sum64 s;
    refresh_connection = refresh_connection sum64 s;
    remove_connection = remove_connection sum64 s;
  }

  abbrev pub connection_store : UserRouteStore W → UserConnectionStore W
  connection_store s = record { list_user_connections = list_user_connections sum64 s }

  module _ {redis : RedisCommands W} (laws : HashLaws redis) (s : UserRouteStore W)
      (client : s.redis ≡ redis_user_route_client redis) where
    -- The reply for a user depends on the user's hash alone.
    pub get_user_connections-list :
        (user_id : Text) (v w : W) {routes : List UserConnectionRoute}
        → is_empty (trim_space user_id) ≡ false
        → laws.hash v (route_key sum64 user_id) ≡ laws.hash w (route_key sum64 user_id)
        → (list_user_connections sum64 s user_id w).0 ≡ ok routes
        → (get_user_connections (connection_store s) (some (record { user_id = user_id })) v).0
          ≡ ok (map user_connection routes)
    unfolding get_user_connections
    get_user_connections-list user_id v w {routes} h same listed =
        let at_v =
          list_user_connections-hash sum64 laws s client (trim_space user_id) v
            (rw trim_space_idem h) in
        let at_w = list_user_connections-hash sum64 laws s client user_id w h in
        ground (arith, trim_space_idem user_id, at_v, at_w)

    pub on_connected-joined :
        (hub : Hub W) (conn : Connection) (w : W) {app : AppGroup}
        → hub.user_routes ≡ some (registrar s)
        → parse_app_group conn.user_id ≡ ok app
        → on_connected hub conn w
          ≡ joined hub.group_joiner conn app.group
              (refresh_connection sum64 s conn.user_id conn.id w).1
    unfolding on_connected registered
    on_connected-joined hub conn w routed parsed = rw (parsed, on_connected, routed, registered)

    -- Over a Redis with `HashLaws`: a connection whose user id the hub accepts, and whose id is not blank, is listed by
    -- `GetUserConnections` for its user, at this gate, if the store's server id is clean, routes live
    -- for a second or longer and joining a group leaves the hashes alone.
    pub connected_is_listed :
        (hub : Hub W) (conn : Connection) (w : W) {app : AppGroup}
        → hub.user_routes ≡ some (registrar s)
        → ((group key : Text) (v : W)
            → laws.hash (joined hub.group_joiner conn group v).1 key ≡ laws.hash v key)
        → parse_app_group conn.user_id ≡ ok app
        → is_empty (trim_space conn.id) ≡ false
        → IsClean s.server_id
        → pos 1 ≤ℤ whole_seconds s.route_ttl
        → let w' = (on_connected hub conn w).1 in
          (connections : List UserConnection) × ((get_user_connections
              (connection_store s)
              (some (record { user_id = conn.user_id }))
              w').0
            ≡ ok connections)
          × (has_connection (trim_space conn.id) s.server_id connections ≡ true)
    connected_is_listed hub conn w {app} routed kept parsed there clean ttl =
        let user = named_user conn.user_id parsed in
        let (routes, _, listed, found) =
          list-refresh_connection sum64 laws s client conn.user_id conn.id w user there clean ttl in
        let w1 = (refresh_connection sum64 s conn.user_id conn.id w).1 in
        rw (on_connected-joined hub conn w routed parsed) (
          map user_connection routes,
          get_user_connections-list conn.user_id _ w1 user
              (kept app.group (route_key sum64 conn.user_id) w1) listed,
          has_connection-map _ _ routes ∙ found,
        )

    -- Over a Redis with `HashLaws`: after the hub's handler of a disconnection, `GetUserConnections` no longer lists the
    -- connection for its user, under whatever gate, if the ids are not blank and the fields left in
    -- the user's hash are trimmed.
    pub disconnected_is_not_listed :
        (hub : Hub W) (conn : Connection) (server_id : Text) (w : W)
        → hub.user_routes ≡ some (registrar s)
        → is_empty (trim_space conn.user_id) ≡ false
        → is_empty (trim_space conn.id) ≡ false
        → IsTidy (laws.hash (on_disconnected hub conn w) (route_key sum64 conn.user_id))
        → let w' = on_disconnected hub conn w in
          (connections : List UserConnection) × ((get_user_connections
              (connection_store s)
              (some (record { user_id = conn.user_id }))
              w').0
            ≡ ok connections)
          × (has_connection (trim_space conn.id) server_id connections ≡ false)
    unfolding on_disconnected
    disconnected_is_not_listed hub conn server_id w routed user there tidy =
        let (routes, _, listed, found) =
          list-remove_connection sum64 laws s client conn.user_id conn.id server_id w user there
            (rw routed at tidy) in
        let w1 = (remove_connection sum64 s conn.user_id conn.id w).1 in
        rw routed (
          map user_connection routes,
          get_user_connections-list conn.user_id w1 w1 user refl listed,
          has_connection-map _ _ routes ∙ found,
        )
