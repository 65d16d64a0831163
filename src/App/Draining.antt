-- ===== src/App/Draining.antt =====
-- Proofs on `runUserRoutePoller` of internal/app/app.go: how many rounds take the users that are due.
use kim_gate.Prelude.{
  ℕ, suc, ◌+◌, ◌*◌, ◌-◌, ◌≤◌, ◌≡◌, ◌⊎◌, inl, inr, refl, subst, some, List, [], ◌∷◌, ◌++◌, arith,
  Bool-cases, All, length, map,
}
use kim_gate.Prelude.Int.{ℤ, ◌≤ℤ◌, leb_ℤ}
use kim_gate.Text.{Text}
use kim_gate.Data.Commands.{RedisCommands}
use kim_gate.Data.UserRoute.{UserRouteStore, redis_user_route_client, user_expire_key, bucket_of}
use kim_gate.Data.Expiry.{
  Ranking, RankingLaws, IsRanked, IsLate, due, Leads-IsLate, due-nil, Polled,
}
use kim_gate.App.Poller.{user_route_poll_limit, poll_expired_user_routes_once}
use kim_gate.App.Rounds.{deadline, round_polls_user}
use kim_gate.App.Background.{Wakeup, tick, cancelled, returned, poll_loop, run_user_route_poller}

All-back {ℓ κ} : {A : Type ℓ} (P : A → Type κ) (xs ys : List A) → All P (xs ++ ys) → All P ys
All-back P [] ys h = h
All-back P (x ∷ xs) ys (hx, h) = All-back P xs ys h

length-nil {ℓ} : {A : Type ℓ} (xs : List A) → length xs ≤ 0 → xs ≡ []
length-nil [] h = refl
length-nil (x ∷ xs) h = absurd (omega (arith, h))

-- In a ranking whose front is taken away, nothing else is due, or the whole front was.
due-front :
    (max : ℤ) (taken after : Ranking)
    → IsRanked (taken ++ after)
    → (due max after ≡ [])
      ⊎ (length (due max (taken ++ after)) ≡ length taken + length (due max after))
due-front max [] after h = inr (omega arith)
due-front max ((x, m) ∷ taken) after (l, h) = elim (Bool-cases (leb_ℤ x max)) [
  | inl now ↦ ground (arith, now, due-front max taken after h)
  | inr later ↦ inl (
      due-nil max after
        (All-back (IsLate max) taken after (Leads-IsLate max x (taken ++ after) later l)))
]

IsLate-earlier : (d max : ℤ) (r : Ranking) → d ≤ℤ max → All (IsLate max) r → All (IsLate d) r
IsLate-earlier d max [] h l = tt
IsLate-earlier d max ((x, m) ∷ r) h (lx, l) = (ground arith, IsLate-earlier d max r h l)

-- A poll takes 128 of the users that were due by an earlier time, or all of them.
due-Polled :
    (d max : ℤ) (before after : Ranking) {users : List Text}
    → d ≤ℤ max
    → IsRanked before
    → Polled user_route_poll_limit max before after users
    → (due d after ≡ []) ⊎ (length (due d before) ≡ 128 + length (due d after))
due-Polled d max before after h ranked p = elim p.exhausted [
  | inl late ↦ inl (due-nil d after (IsLate-earlier d max after h late))
  | inr used ↦ elim (due-front d p.taken after (subst IsRanked p.split ranked)) [
    | inl gone ↦ inl gone
    | inr counted ↦ inr (ground (arith, counted, p.split, used))
  ]
]

module _ (sum64 : Text → ℕ) {W : Type 0} {redis : RedisCommands W} (laws : RankingLaws redis)
    (s : UserRouteStore W) (client : s.redis ≡ redis_user_route_client redis) (d : ℤ)
    (user : Text) where
  -- The users of the sorted set of the given user that were due by `d`.
  unfoldable pub overdue : W → Ranking
  overdue w = due d (laws.ranking w (user_expire_key (bucket_of sum64 user)))

  -- Other goroutines do not add users that were due by `d`.
  abbrev pub IsQuiet : (W → W) → Type 0
  IsQuiet others = (w : W) → length (overdue (others w)) ≤ length (overdue w)

  round-overdue :
      (w : W)
      → ((w' : W) → d ≤ℤ deadline s 0 w')
      → (overdue (poll_expired_user_routes_once sum64 s 0 w) ≡ [])
        ⊎ (length (overdue w) ≡ 128 + length (overdue (poll_expired_user_routes_once sum64 s 0 w)))
  unfolding overdue
  round-overdue w passed =
      let key = user_expire_key (bucket_of sum64 user) in
      let round = round_polls_user sum64 laws s client 0 user w in
      due-Polled d (deadline s 0 round.from) (laws.ranking w key) _ (passed round.from)
        (laws.ranked w key) round.polled

  -- So many are left after a round.
  round-left :
      (w : W)
      → ((w' : W) → d ≤ℤ deadline s 0 w')
      → length (overdue (poll_expired_user_routes_once sum64 s 0 w)) ≤ length (overdue w) - 128
  round-left w passed = elim (round-overdue w passed) [
    | inl gone ↦ rw gone (omega arith)
    | inr counted ↦ omega (arith, counted)
  ]

  loop_drains :
      (ticks : List (W → W)) (rest : List (Wakeup W)) (w : W)
      → ((w' : W) → d ≤ℤ deadline s 0 w')
      → All IsQuiet ticks
      → length (overdue w) ≤ 128 * suc (length ticks)
      → (w' : W) × (poll_loop sum64 s (map tick ticks ++ cancelled ∷ rest) w ≡ returned w')
        × (overdue w' ≡ [])
  unfolding poll_loop
  loop_drains [] rest w passed quiet few =
      let polled = poll_expired_user_routes_once sum64 s 0 w in
      (polled, refl, length-nil (overdue polled) (omega (arith, few, round-left w passed)))
  loop_drains (others ∷ ticks) rest w passed (q, quiet) few =
      let polled = poll_expired_user_routes_once sum64 s 0 w in
      loop_drains ticks rest (others polled) passed quiet
        (omega (arith, few, q polled, round-left w passed))

  -- For a store over a Redis with `RankingLaws` whose clock is past a time: if up to 128 users for each
  -- round in the sorted set of a user were due by that time, and other goroutines add none, then the
  -- poller, cancelled after any number of ticks, returns, and none of them is left.
  pub poller_drains :
      (ticks : List (W → W)) (rest : List (Wakeup W)) (w : W)
      → ((w' : W) → d ≤ℤ deadline s 0 w')
      → All IsQuiet ticks
      → length (overdue w) ≤ 128 * suc (length ticks)
      → (w' : W) × (run_user_route_poller sum64 (some s) (map tick ticks ++ cancelled ∷ rest) w
          ≡ returned w')
        × (overdue w' ≡ [])
  unfolding run_user_route_poller
  poller_drains = loop_drains
