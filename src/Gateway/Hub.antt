-- ===== src/Gateway/Hub.antt =====
-- `Hub`: the handlers of internal/gateway/gateway.go. Errors that a handler only logs are dropped.
use kim_gate.Prelude.{Option, none, some}
use kim_gate.Effect.{ok, err, Action}
use kim_gate.Text.{Text}
use kim_gate.Gateway.AppGroup.{parse_app_group}

-- `signalg.Connection`, as far as the hub reads it.
pub record Connection : Type 0 where
  pub id : Text
  pub user_id : Text

-- `userRouteRegistrar`; `BucketOf`, which is only logged, is left out.
pub record UserRouteRegistrar (W : Type 0) : Type 0 where
  pub register_connection : Text → Text → Action W (Unit {0})
  pub refresh_connection : Text → Text → Action W (Unit {0})
  pub remove_connection : Text → Text → Action W (Unit {0})

pub record GroupJoiner (W : Type 0) : Type 0 where
  pub add_to_group : Connection → Text → Action W (Unit {0})

pub record Hub (W : Type 0) : Type 0 where
  pub server_id : Text
  pub user_routes : Option (UserRouteRegistrar W)
  pub group_joiner : Option (GroupJoiner W)

-- The state after a registration, whose error is only logged.
unfoldable pub registered : {W : Type 0} → Option (UserRouteRegistrar W) → Connection → W → W
registered none conn w = w
registered (some routes) conn w = (routes.register_connection conn.user_id conn.id w).1

unfoldable pub joined :
    {W : Type 0} → Option (GroupJoiner W) → Connection → Text → Action W (Unit {0})
joined none conn group w = (ok tt, w)
joined (some joiner) conn group w = joiner.add_to_group conn group w

unfoldable pub on_connected : {W : Type 0} → Hub W → Connection → Action W (Unit {0})
unfolding registered joined
on_connected hub conn w = elim (parse_app_group conn.user_id) [
  | err e ↦ (err e, w)
  | ok app ↦ joined hub.group_joiner conn app.group (registered hub.user_routes conn w)
]

unfoldable pub on_disconnected : {W : Type 0} → Hub W → Connection → W → W
on_disconnected hub conn w = elim hub.user_routes [
  | none ↦ w
  | some routes ↦ (routes.remove_connection conn.user_id conn.id w).1
]

unfoldable pub on_ping : {W : Type 0} → Hub W → Connection → W → W
on_ping hub conn w = elim hub.user_routes [
  | none ↦ w
  | some routes ↦ (routes.refresh_connection conn.user_id conn.id w).1
]
