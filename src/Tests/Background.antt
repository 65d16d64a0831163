-- ===== src/Tests/Background.antt =====
-- A run of the poller over the Redis of `Tests.Redis`, with one tick.
use kim_gate.Prelude.{◌*◌, ◌≤◌, length, ◌≡◌, refl, [], ◌∷◌, ◌++◌, some, map, arith}
use kim_gate.Prelude.Int.{pos, ◌≤ℤ◌}
use kim_gate.Text.{codes}
use kim_gate.Time.{second, unix_milli}
use kim_gate.Data.UserRoute.{UserRouteStore}
use kim_gate.App.Rounds.{deadline}
use kim_gate.App.Background.{tick, cancelled, returned, run_user_route_poller}
use kim_gate.App.Draining.{overdue, poller_drains}
use kim_gate.Tests.Redis.{World, ranking_laws}
use kim_gate.Tests.Routes.{world, store, sum64, tidy}

-- The year 3100 or so.
abbrev later : UserRouteStore World
later = record store { now = λ _. 100000000000 * second }

passed : (w : World) → pos 5 ≤ℤ deadline later 0 w
unfolding unix_milli
passed w = omega arith

few : length (overdue sum64 ranking_laws later refl (pos 5) (codes "u") (world tidy)) ≤ 128 * 2
unfolding overdue ranking_laws
few = omega arith

poller_drains_example :
    (w' : World) × (run_user_route_poller sum64
        (some later)
        (map tick ((λ (w : World). w) ∷ []) ++ cancelled ∷ [])
        (world tidy)
      ≡ returned w')
    × (overdue sum64 ranking_laws later refl (pos 5) (codes "u") w' ≡ [])
poller_drains_example =
    poller_drains sum64 ranking_laws later refl (pos 5) (codes "u") ((λ (w : World). w) ∷ []) []
      (world tidy) passed ((λ w. omega arith), tt) few
