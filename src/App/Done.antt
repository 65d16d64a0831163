-- ===== src/App/Done.antt =====
-- `New`, `Start` and `Done` of internal/app/app.go: the goroutines that `Start` starts, with those of
-- `Start` of internal/rpc/server.go, and the channel `done`. A goroutine that has ended sent at most one
-- value; the main goroutine receives.
use kim_gate.Prelude.{
  ℕ, ◌≡◌, inl, inr, Bool-cases, refl, Bool, true, false, ltb, Option, none, some, List, [], ◌∷◌,
  ◌++◌, arith, length, if◌then◌else◌,
}
use kim_gate.Effect.{Result, ok, err, new, Error, is, canceled}

-- The subscriber, the poller, the serving and the registering goroutine of the gRPC server, the HTTP
-- server, and the one that waits for the gRPC server.
pub data Goroutine : Type 0 where
  push poller serve registration http grpc : Goroutine

-- `make(chan error, 3)`
abbrev pub capacity : ℕ
capacity = 3

-- What a goroutine sends on `done`, if anything, when the call that it waits for has returned.
unfoldable pub sent : Goroutine → Option Error → Option (Option Error)
sent push none = none
sent push (some e) = if is e canceled then none else some (some e)
sent http r = some r
sent grpc none = none
sent grpc (some e) = some (some e)
sent poller r = none
sent serve r = none
sent registration r = none

-- Only an HTTP server that ended without an error sends no error.
pub sent-none : (x : Goroutine) (r : Option Error) → sent x r ≡ some none → (x ≡ http) × (r ≡ none)
unfolding sent
sent-none push none h = absurd (cc h)
sent-none push (some e) h = elim (Bool-cases (is e canceled)) [
  | inl quiet ↦ absurd (ground (arith, h, quiet))
  | inr loud ↦ absurd (ground (arith, h, loud))
]
sent-none http none h = (refl, refl)
sent-none http (some e) h = absurd (cc h)
sent-none grpc none h = absurd (cc h)
sent-none grpc (some e) h = absurd (cc h)
sent-none poller r h = absurd (cc h)
sent-none serve r h = absurd (cc h)
sent-none registration r h = absurd (cc h)

-- A send on the channel with the given values in its buffer; `none` is that it blocks.
abbrev pub send : Option (Option Error) → List (Option Error) → Option (List (Option Error))
send none buffer = some buffer
send (some m) buffer = if ltb (length buffer) capacity then some (buffer ++ m ∷ []) else none

-- The goroutines that have not ended, and the values in the channel.
pub record Background : Type 0 where
  pub running : List Goroutine
  pub done : List (Option Error)

-- Which parts of an app are not nil: its subscriber, its store and the registry of its gRPC server.
pub record Present : Type 0 where
  pub push : Bool
  pub user_routes : Bool
  pub registry : Bool

abbrev pub when : Bool → Goroutine → List Goroutine
when true g = g ∷ []
when false g = []

-- The app is `none` where it is nil; the channel was made by `New`.
unfoldable pub start : Option Present → Result Background
start none = err (new "app is nil")
start (some app) = ok (record {
  running =
      when app.push push
      ++ (when app.user_routes poller
          ++ (serve ∷ (when app.registry registration ++ (http ∷ grpc ∷ []))));
  done = [];
})

pub data Step (s s' : Background) : Type 0 where
  ends :
      (before after : List Goroutine) (x : Goroutine) (r : Option Error)
      (buffer : List (Option Error))
      → s.running ≡ before ++ x ∷ after
      → send (sent x r) s.done ≡ some buffer
      → s' ≡ record { running = before ++ after; done = buffer }
      → Step s s'
  receives :
      (m : Option Error) (rest : List (Option Error))
      → s.done ≡ m ∷ rest
      → s' ≡ record { running = s.running; done = rest }
      → Step s s'

pub data Steps : Background → Background → Type 0 where
  stay : {s : Background} → Steps s s
  step : {s s' s'' : Background} → Step s s' → Steps s' s'' → Steps s s''
