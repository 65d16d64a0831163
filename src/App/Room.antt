-- ===== src/App/Room.antt =====
-- Proofs on the channel `done` of internal/app/app.go: it has room for all that is sent on it.
use kim_gate.Prelude.{
  ℕ, ◌+◌, ◌≤◌, ◌<◌, ◌≡◌, ◌⊎◌, inl, inr, Bool-cases, refl, Bool, true, false, Option, none, some,
  List, [], ◌∷◌, ◌++◌, arith, length, length-append,
}
use kim_gate.Effect.{ok, Error, is, canceled}
use kim_gate.App.Done.{
  Goroutine, push, poller, serve, registration, http, grpc, capacity, sent, send, Background,
  Present, when, start, Step, ends, receives, Steps, stay, step,
}

-- How many values a goroutine sends at most, and all of a list.
abbrev share : Goroutine → ℕ
share push = 1
share http = 1
share grpc = 1
share poller = 0
share serve = 0
share registration = 0

abbrev shares : List Goroutine → ℕ
shares [] = 0
shares (x ∷ xs) = share x + shares xs

shares-append : (xs ys : List Goroutine) → shares (xs ++ ys) ≡ shares xs + shares ys
shares-append [] ys = omega arith
shares-append (x ∷ xs) ys = omega (arith, shares-append xs ys)

-- Every goroutine that has not ended has its place in the buffer.
HasRoom : Background → Type 0
HasRoom s = shares s.running + length s.done ≤ capacity

-- A goroutine sends at most its share.
send-share :
    (x : Goroutine) (r : Option Error) (buffer buffer' : List (Option Error))
    → send (sent x r) buffer ≡ some buffer'
    → length buffer' ≤ share x + length buffer
unfolding sent
send-share push none buffer buffer' h = ground arith
send-share push (some e) buffer buffer' h = elim (Bool-cases (is e canceled)) [
  | inl quiet ↦ ground (arith, quiet)
  | inr loud ↦ ground (arith, loud, length-append buffer (some e ∷ []))
]
send-share http r buffer buffer' h = ground (arith, length-append buffer (r ∷ []))
send-share grpc none buffer buffer' h = ground arith
send-share grpc (some e) buffer buffer' h = ground (arith, length-append buffer (some e ∷ []))
send-share poller r buffer buffer' h = ground arith
send-share serve r buffer buffer' h = ground arith
send-share registration r buffer buffer' h = ground arith

Step-HasRoom : {s s' : Background} → HasRoom s → Step s s' → HasRoom s'
unfolding HasRoom
Step-HasRoom {s} {s'} room (ends before after x r buffer e f g) = ground (
  arith,
  room,
  e,
  g,
  shares-append before (x ∷ after),
  shares-append before after,
  send-share x r s.done buffer f,
)
Step-HasRoom {s} {s'} room (receives m rest e g) = ground (arith, room, e, g)

Steps-HasRoom : {s s' : Background} → HasRoom s → Steps s s' → HasRoom s'
Steps-HasRoom room stay = room
Steps-HasRoom room (step one rest) = Steps-HasRoom (Step-HasRoom room one) rest

shares-when : (b : Bool) (g : Goroutine) → shares (when b g) ≤ share g
shares-when true g = omega arith
shares-when false g = omega arith

start-HasRoom : (app : Present) {s : Background} → start (some app) ≡ ok s → HasRoom s
unfolding HasRoom start
start-HasRoom app h =
    let last : List Goroutine = http ∷ grpc ∷ [] in
    let registered = when app.registry registration ++ last in
    let polled = when app.user_routes poller ++ (serve ∷ registered) in
    ground (
      arith,
      h,
      shares-append (when app.push push) polled,
      shares-append (when app.user_routes poller) (serve ∷ registered),
      shares-append (when app.registry registration) last,
      shares-when app.push push,
      shares-when app.user_routes poller,
      shares-when app.registry registration,
    )

-- A goroutine that sends has a share.
share_lem : (x : Goroutine) (r : Option Error) → (sent x r ≡ none) ⊎ (share x ≡ 1)
unfolding sent
share_lem push r = inr refl
share_lem http r = inr refl
share_lem grpc r = inr refl
share_lem poller r = inl refl
share_lem serve r = inl refl
share_lem registration r = inl refl

accepted :
    (m : Option (Option Error)) (buffer : List (Option Error))
    → length buffer < capacity
    → (buffer' : List (Option Error)) × (send m buffer ≡ some buffer')
accepted none buffer h = (buffer, refl)
accepted (some m) buffer h = (buffer ++ m ∷ [], ground (arith, h))

send_room :
    (x : Goroutine) (r : Option Error) (buffer : List (Option Error))
    → share x + length buffer ≤ capacity
    → (buffer' : List (Option Error)) × (send (sent x r) buffer ≡ some buffer')
send_room x r buffer h = elim (share_lem x r) [
  | inl nothing ↦ (buffer, ground (arith, nothing))
  | inr one ↦ accepted (sent x r) buffer (omega (arith, one, h))
]

-- After `Start` of an app that is not nil, in whatever order goroutines end and the main goroutine
-- receives, also if it receives nothing, a goroutine that has not ended can send what it sends on
-- `done` without blocking.
pub send_lem :
    (app : Present) (before after : List Goroutine) (x : Goroutine) (r : Option Error)
    {s s' : Background}
    → start (some app) ≡ ok s
    → Steps s s'
    → s'.running ≡ before ++ x ∷ after
    → (buffer : List (Option Error)) × (send (sent x r) s'.done ≡ some buffer)
unfolding HasRoom
send_lem app before after x r {s} {s'} started steps e =
    let room = Steps-HasRoom (start-HasRoom app started) steps in
    send_room x r s'.done (ground (arith, room, e, shares-append before (x ∷ after)))
