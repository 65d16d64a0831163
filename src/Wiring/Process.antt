-- ===== src/Wiring/Process.antt =====
-- A process of main.go: `main` with `Initialize` of wire_gen.go, `Start` and `Shutdown` of
-- internal/app/app.go and `Shutdown` of internal/rpc/server.go. The HTTP server, the gRPC server and
-- etcd are parameters, and so is what goes on while `main` waits.
use kim_gate.Prelude.{◌≡◌, Bool, true, false, Option, none, some, if◌then◌else◌}
use kim_gate.Effect.{Result, ok, err, Error, Action, Run, returned}
use kim_gate.Config.{Config}
use kim_gate.Data.Client.{close}
use kim_gate.Gateway.Server.{Hertz}
use kim_gate.Discovery.Registry.{Registry, Etcd, State}
use kim_gate.Rpc.Server.{register_instance}
use kim_gate.Rpc.Lifetime.{deregister_instance, close_registry}
use kim_gate.App.Done.{Goroutine, Present, sent, start}
use kim_gate.App.Shutdown.{Parts, Server, shutdown, shutdown_server}
use kim_gate.Wiring.{Libraries, App, initialize}
use kim_gate.Wiring.Entry.{Ending, signalled, stopped, Program}

-- How the `select` of `main` ends: by a signal, or by what a goroutine of `Start` sends on `done` when
-- the call that it waits for has returned.
pub data Ended : Type 0 where
  signal_came : Ended
  sends : (x : Goroutine) (r : Option Error) (m : Option Error) → sent x r ≡ some m → Ended

abbrev pub ending_of : Ended → Ending
ending_of signal_came = signalled
ending_of (sends x r m e) = stopped m

-- When the goroutine of `Start` calls `Register`: never, while `main` waits, while the HTTP server
-- stops, after `Deregister` while the gRPC server stops, or while the Redis client is closed.
pub data Moment : Type 0 where
  never waiting stopping_http draining closing : Moment

-- What goes on while `main` waits: how its `select` ends, when the goroutine of `Start` calls
-- `Register`, and what all others do to the state while `main` waits, before such a call and after it.
pub record Waiting (W : Type 0) : Type 0 where
  pub ended : Ended
  pub registers : Moment
  pub before : W → W
  pub after : W → W

-- The servers while they run, and etcd. A graceful stop gives `none` if it ended in time, or the error
-- of the context and the state after the forced stop.
pub record Servers (W M G L R : Type 0) : Type 0 where
  pub wait : App W M G L R → W → Waiting W
  pub shutdown_http : Hertz W M → Action W (Unit {0})
  pub graceful_stop : G → W → Option Error × W
  pub etcd : Etcd W

-- The state that `main` shares with its goroutines: the registry, once it is made, when the goroutine
-- of `Start` calls `Register`, whether the context of the background goroutines is cancelled, and all
-- state outside the process.
pub record Cells (W : Type 0) : Type 0 where
  pub registry : Option Registry
  pub registers : Moment
  pub cancelled : Bool
  pub world : W

abbrev pub on_world {ℓ} : {W : Type 0} {A : Type ℓ} → (W → A × W) → Cells W → A × Cells W
on_world m c = let (a, w) = m c.world in (a, record c { world = w })

-- A call of a method of the registry, whose error is only logged.
abbrev pub put : {W : Type 0} → Cells W → State W → Cells W
put c (r, w) = record c { registry = some r; world = w }

abbrev pub on_registry : {W : Type 0} → (State W → State W) → Cells W → Cells W
on_registry f c = elim c.registry [ none ↦ c | some r ↦ put c (f (r, c.world)) ]

abbrev same_moment : Moment → Moment → Bool
same_moment waiting waiting = true
same_moment stopping_http stopping_http = true
same_moment draining draining = true
same_moment closing closing = true
same_moment _ _ = false

abbrev if_some {ℓ} : {A : Type 0} {B : Type ℓ} → Option A → B → Option B
if_some none b = none
if_some (some _) b = some b

abbrev is_some : {A : Type 0} → Option A → Bool
is_some none = false
is_some (some _) = true

module _ {W M H G L O R : Type 0} (lib : Libraries W M H G L O R)
    (servers : Servers W M G L R) where
  -- The call of `Register` in the goroutine, if this is its moment.
  abbrev pub attempted : App W M G L R → Moment → Cells W → Cells W
  attempted app m c =
      if same_moment m c.registers
      then on_registry (register_instance servers.etcd app.grpc.registered_as) c
      else c

  -- A step of `Shutdown`, and then the call of `Register`, if this is its moment.
  abbrev pub meanwhile {ℓ} :
      {A : Type ℓ} → App W M G L R → Moment → (W → A × W) → Cells W → A × Cells W
  meanwhile app m f c = let (a, c') = on_world f c in (a, attempted app m c')

  -- `Shutdown` of the gRPC server takes these, and `Shutdown` of the app the others.
  abbrev pub server_of : App W M G L R → Server (Cells W)
  server_of app = record {
    deregister =
        if_some app.grpc.registry
          (on_registry (deregister_instance servers.etcd app.grpc.registered_as));
    close_registry =
        if_some app.grpc.registry
          (on_registry (close_registry servers.etcd app.grpc.registered_as));
    graceful = meanwhile app draining (servers.graceful_stop app.grpc.server);
  }

  abbrev pub parts_of : App W M G L R → Parts (Cells W)
  parts_of app = record {
    stop_background = λ c. record c { cancelled = true };
    shutdown_http = meanwhile app stopping_http (servers.shutdown_http app.http);
    shutdown_grpc = shutdown_server (some (server_of app));
    close_data = meanwhile app closing (close lib.redis (some app.redis));
  }

  abbrev present : App W M G L R → Present
  present app = record { push = true; user_routes = true; registry = is_some app.grpc.registry }

  abbrev dropped : {A : Type 0} → Result A → Result (Unit {0})
  dropped (ok _) = ok tt
  dropped (err e) = err e

  abbrev initialized :
      Cells W → Run (Result (App W M G L R)) × W → Run (Result (App W M G L R)) × Cells W
  initialized c (returned (ok app), w) =
      (returned (ok app), record c { registry = app.grpc.registry; world = w })
  initialized c (r, w) = (r, record c { world = w })

  abbrev pub waited : App W M G L R → Waiting W → Cells W → Cells W
  waited app w c =
      let c' =
        attempted app waiting (record c { registers = w.registers; world = w.before c.world }) in
      record c' { world = w.after c'.world }

  -- The state is that of the `Once` of the app with the cells.
  unfoldable pub process : Run (Result Config) → Program (Bool × Cells W) (App W M G L R)
  process loaded = record {
    load = loaded;
    initialize =
        λ cfg s. let (r, c) = initialized s.1 (initialize lib cfg s.1.world) in (r, (s.0, c));
    start = λ app s. (returned (dropped (start (some (present app)))), s);
    wait =
        λ app s. let w = servers.wait app s.1.world in (ending_of w.ended, (s.0, waited app w s.1));
    shutdown = λ app s. let (errors, once, c) = shutdown (parts_of app) s in (errors, (once, c));
  }
