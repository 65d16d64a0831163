-- ===== src/Data/Routes.antt =====
-- Proofs on `RegisterConnection`, `RemoveConnection` and `ListUserConnections` of
-- internal/data/user_route.go, over what Redis documents of hashes.
use kim_gate.Prelude.{ℕ, ◌≡◌, refl, ap, ◌∙◌, true, false, List}
use kim_gate.Prelude.Int.{pos, ◌≤ℤ◌}
use kim_gate.Effect.{ok}
use kim_gate.Text.{Text, is_empty, trim_space, sort_slice}
use kim_gate.Text.Trim.{text_eq_refl, trim_space_idem}
use kim_gate.Text.Compact.{IsClean}
use kim_gate.Time.{whole_seconds}
use kim_gate.Data.Commands.{RedisCommands, register_connection_script}
use kim_gate.Data.UserRoute.{
  redis_user_route_client, UserRouteStore, user_route_key, UserConnectionRoute, collect_connections,
  connection_less, bucket_of, register_script_args, refresh_connection, remove_connection,
  list_user_connections,
}
use kim_gate.Data.Registration.{
  HashLaws, has_route, IsTidy, has_route-sort_slice, has_route-collect_connections,
  no_route-collect_connections, script_result, script_lookup,
}

-- The key of a user's hash, whatever blanks surround the id.
abbrev pub route_key : (Text → ℕ) → Text → Text
route_key sum64 user_id = user_route_key (bucket_of sum64 (trim_space user_id)) (trim_space user_id)

module _ (sum64 : Text → ℕ) {W : Type 0} {redis : RedisCommands W} (laws : HashLaws redis)
    (s : UserRouteStore W) (client : s.redis ≡ redis_user_route_client redis) where
  pub list_user_connections-hash :
      (user_id : Text) (w : W)
      → is_empty (trim_space user_id) ≡ false
      → list_user_connections sum64 s user_id w ≡ (
        ok (
            sort_slice connection_less
              (collect_connections (laws.hash w (route_key sum64 user_id)))),
        w,
      )
  unfolding list_user_connections redis_user_route_client
  list_user_connections-hash user_id w h = rw (h, client, laws.hgetall (route_key sum64 user_id) w)

  pub refresh_connection-script :
      (user_id connection_id : Text) (w : W)
      → is_empty (trim_space user_id) ≡ false
      → is_empty (trim_space connection_id) ≡ false
      → pos 1 ≤ℤ whole_seconds s.route_ttl
      → refresh_connection sum64 s user_id connection_id w ≡ (
        ok tt,
        (register_connection_script redis
            (register_script_args sum64 s (trim_space user_id) (trim_space connection_id) w)
            w).1,
      )
  unfolding refresh_connection redis_user_route_client
  refresh_connection-script user_id connection_id w hu hc ttl = rw (
    hu,
    hc,
    client,
    script_result laws
        (register_script_args sum64 s (trim_space user_id) (trim_space connection_id) w) w ttl,
  )

  pub remove_connection-hdel :
      (user_id connection_id : Text) (w : W)
      → is_empty (trim_space user_id) ≡ false
      → is_empty (trim_space connection_id) ≡ false
      → remove_connection sum64 s user_id connection_id w
        ≡ (ok tt, (redis.hdel (route_key sum64 user_id) (trim_space connection_id) w).1)
  unfolding remove_connection redis_user_route_client
  remove_connection-hdel user_id connection_id w hu hc =
      rw (hu, hc, client, laws.hdel_result (route_key sum64 user_id) (trim_space connection_id) w)

  -- In a store over a Redis with `HashLaws`: a connection that is registered or refreshed is listed
  -- for its user at once, under the server's own id, if the ids are not blank, the server's id is
  -- clean and routes live for a second or longer.
  pub list-refresh_connection :
      (user_id connection_id : Text) (w : W)
      → is_empty (trim_space user_id) ≡ false
      → is_empty (trim_space connection_id) ≡ false
      → IsClean s.server_id
      → pos 1 ≤ℤ whole_seconds s.route_ttl
      → let w' = (refresh_connection sum64 s user_id connection_id w).1 in
        (routes : List UserConnectionRoute) × ((refresh_connection sum64 s user_id connection_id
            w).0
          ≡ ok tt)
        × ((list_user_connections sum64 s user_id w').0 ≡ ok routes)
        × (has_route (trim_space connection_id) s.server_id routes ≡ true)
  unfolding register_script_args
  list-refresh_connection user_id connection_id w hu hc hs ttl =
      let args = register_script_args sum64 s (trim_space user_id) (trim_space connection_id) w in
      let found = script_lookup laws args (trim_space connection_id) w ttl in
      let step = refresh_connection-script user_id connection_id w hu hc ttl in
      rw step (
        sort_slice connection_less (
            collect_connections
              (laws.hash (register_connection_script redis args w).1 (route_key sum64 user_id))),
        refl,
        ap (λ r. r.0) (list_user_connections-hash user_id _ hu),
        has_route-sort_slice _ _ _
            ∙ has_route-collect_connections _ _ _ (trim_space_idem connection_id, hc) hs
                (rw (text_eq_refl (trim_space connection_id)) at found),
      )

  -- In a store over a Redis with `HashLaws`: a connection that is removed is no longer listed for its
  -- user, under whatever server, if the ids are not blank and the fields that are left in the user's
  -- hash are trimmed.
  pub list-remove_connection :
      (user_id connection_id server_id : Text) (w : W)
      → is_empty (trim_space user_id) ≡ false
      → is_empty (trim_space connection_id) ≡ false
      → IsTidy (
          laws.hash (remove_connection sum64 s user_id connection_id w).1 (route_key sum64 user_id))
      → let w' = (remove_connection sum64 s user_id connection_id w).1 in
        (routes : List UserConnectionRoute) × ((remove_connection sum64 s user_id connection_id w).0
          ≡ ok tt)
        × ((list_user_connections sum64 s user_id w').0 ≡ ok routes)
        × (has_route (trim_space connection_id) server_id routes ≡ false)
  list-remove_connection user_id connection_id server_id w hu hc tidy =
      let gone =
        laws.hdel (route_key sum64 user_id) (trim_space connection_id) (trim_space connection_id)
          w in
      let step = remove_connection-hdel user_id connection_id w hu hc in
      rw step (
        sort_slice connection_less (
            collect_connections (
              laws.hash (redis.hdel (route_key sum64 user_id) (trim_space connection_id) w).1
                (route_key sum64 user_id))),
        refl,
        ap (λ r. r.0) (list_user_connections-hash user_id _ hu),
        has_route-sort_slice _ _ _
            ∙ no_route-collect_connections _ _ _ (rw step at tidy)
                (rw (text_eq_refl (trim_space connection_id)) at gone),
      )
