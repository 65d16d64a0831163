-- ===== src/App/Background.antt =====
-- `runUserRoutePoller` of internal/app/app.go: the loop that polls and then waits for a tick or for
-- the end of its context. What other goroutines do to the state counts as done while the loop waits.
use kim_gate.Prelude.{ℕ, Option, none, some, List, [], ◌∷◌}
use kim_gate.Text.{Text}
use kim_gate.Data.UserRoute.{UserRouteStore}
use kim_gate.App.Poller.{poll_expired_user_routes_once}

-- What the `select` of the loop receives: a tick, before which others changed the state, or the end.
pub data Wakeup (W : Type 0) : Type 0 where
  tick : (W → W) → Wakeup W
  cancelled : Wakeup W

-- The loop is still waiting, or it has returned; each with the state.
pub data Loop (W : Type 0) : Type 0 where
  waiting returned : W → Loop W

module _ (sum64 : Text → ℕ) {W : Type 0} where
  unfoldable pub poll_loop : UserRouteStore W → List (Wakeup W) → W → Loop W
  poll_loop s [] w = waiting (poll_expired_user_routes_once sum64 s 0 w)
  poll_loop s (tick others ∷ wakeups) w =
      poll_loop s wakeups (others (poll_expired_user_routes_once sum64 s 0 w))
  poll_loop s (cancelled ∷ wakeups) w = returned (poll_expired_user_routes_once sum64 s 0 w)

  -- The store is `none` where the app or its store is nil.
  unfoldable pub run_user_route_poller : Option (UserRouteStore W) → List (Wakeup W) → W → Loop W
  unfolding poll_loop
  run_user_route_poller none wakeups w = returned w
  run_user_route_poller (some s) wakeups w = poll_loop s wakeups w
