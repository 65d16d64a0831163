-- ===== src/Data/Expiry.antt =====
-- Proofs on `pollExpiredUsersScript` of internal/data/user_route.go, against a sorted set by rank.
use kim_gate.Prelude.{
  ℕ, suc, zero, ◌≡◌, ◌≢◌, refl, ap, true, false, Option, none, some, List, [], ◌∷◌, ◌++◌, arith,
  map, Bool-cases, ◌⊎◌, inl, inr, sym, append-nil, append_assoc, ◌∙◌, subst, length, take, drop,
  All, if◌then◌else◌,
}
use kim_gate.Prelude.Int.{ℤ, ◌≤ℤ◌, leb_ℤ}
use kim_gate.Effect.{ok}
use kim_gate.Text.{Text}
use kim_gate.Data.Commands.{RedisCommands, limit_of, remove_first, poll_expired_users_script}

-- A sorted set: members with their scores, by rank.
abbrev pub Ranking : Type 0
Ranking = List (ℤ × Text)

-- The score is the least.
abbrev Leads : ℤ → Ranking → Type 0
Leads score = All (λ (p : ℤ × Text). score ≤ℤ p.0)

abbrev pub IsRanked : Ranking → Type 0
IsRanked [] = Unit
IsRanked ((score, member) ∷ r) = Leads score r × IsRanked r

abbrev pub members : Ranking → List Text
members = map (λ (p : ℤ × Text). p.1)

-- The members with a score up to `max`, by rank.
abbrev pub due : ℤ → Ranking → Ranking
due max [] = []
due max ((score, member) ∷ r) = if leb_ℤ score max then (score, member) ∷ due max r else due max r

abbrev pub limited {ℓ} : {A : Type ℓ} → Option ℕ → List A → List A
limited none xs = xs
limited (some n) xs = take n xs

-- What Redis documents of the two commands of the script, for a server that answers: `ZRANGE` returns
-- the members with a score up to the bound by rank, at most as many as its limit, and changes nothing;
-- `ZREMRANGEBYRANK key 0 n` removes the first `n + 1` members of that key alone.
pub record RankingLaws {W : Type 0} (redis : RedisCommands W) : Type 0 where
  pub ranking : W → Text → Ranking
  pub ranked : (w : W) (key : Text) → IsRanked (ranking w key)
  pub zrange :
      (key : Text) (max : ℤ) (limit : Option ℕ) (w : W)
      → redis.zrange_by_score key max limit w
        ≡ (ok (members (limited limit (due max (ranking w key)))), w)
  pub zrem_result : (key : Text) (n : ℕ) (w : W) → (redis.zrem_range_by_rank key 0 n w).0 ≡ ok tt
  pub zrem :
      (key : Text) (n : ℕ) (w : W)
      → ranking (redis.zrem_range_by_rank key 0 n w).1 key ≡ drop (suc n) (ranking w key)
  pub zrem_other :
      (key other : Text) (n : ℕ) (w : W)
      → key ≢ other
      → ranking (redis.zrem_range_by_rank key 0 n w).1 other ≡ ranking w other

-- A member that is due, and one that is not yet.
abbrev pub IsDue : ℤ → ℤ × Text → Type 0
IsDue max p = leb_ℤ p.0 max ≡ true

abbrev pub IsLate : ℤ → ℤ × Text → Type 0
IsLate max p = leb_ℤ p.0 max ≡ false

due-IsDue : (max : ℤ) (r : Ranking) → All (IsDue max) (due max r)
due-IsDue max [] = tt
due-IsDue max ((x, m) ∷ r) = ground (arith, due-IsDue max r)

pub Leads-IsLate :
    (max score : ℤ) (r : Ranking) → leb_ℤ score max ≡ false → Leads score r → All (IsLate max) r
Leads-IsLate max score [] h l = tt
Leads-IsLate max score ((x, m) ∷ r) h (lx, l) = (ground arith, Leads-IsLate max score r h l)

pub due-nil : (max : ℤ) (r : Ranking) → All (IsLate max) r → due max r ≡ []
due-nil max [] h = refl
due-nil max ((x, m) ∷ r) (hx, h) = ground (arith, due-nil max r h)

-- In a ranking the members that are due come first.
due_first :
    (max : ℤ) (r : Ranking)
    → IsRanked r
    → (late : Ranking) × (r ≡ due max r ++ late) × All (IsLate max) late
due_first max [] h = ([], refl, tt)
due_first max ((x, m) ∷ r) (l, h) = elim (Bool-cases (leb_ℤ x max)) [
  | inl now ↦ let (late, e, all_late) = due_first max r h in (late, ground arith, all_late)
  | inr later ↦
      let all_late = Leads-IsLate max x r later l in
      ((x, m) ∷ r, ground (arith, due-nil max r all_late), (later, all_late))
]

-- A limit keeps a front part, and leaves something only if it is used up.
limited_front {ℓ} :
    {A : Type ℓ} (limit : Option ℕ) (xs : List A)
    → (over : List A) × (xs ≡ limited limit xs ++ over)
      × ((over ≡ []) ⊎ (limit ≡ some (length (limited limit xs))))
limited_front none xs = ([], sym (append-nil xs), inl refl)
limited_front (some zero) xs = (xs, refl, inr refl)
limited_front (some (suc n)) [] = ([], refl, inl refl)
limited_front (some (suc n)) (x ∷ xs) =
    let (over, e, used) = limited_front (some n) xs in
    (over, ap (◌∷◌ x) e, elim used [ inl none_over ↦ inl none_over | inr all ↦ inr (cc all) ])

drop-length {ℓ} : {A : Type ℓ} (xs ys : List A) → drop (length xs) (xs ++ ys) ≡ ys
drop-length [] ys = refl
drop-length (x ∷ xs) ys = drop-length xs ys

length-members : (r : Ranking) → length (members r) ≡ length r
length-members [] = refl
length-members (p ∷ r) = ap suc (length-members r)

All-front {ℓ κ} : {A : Type ℓ} (P : A → Type κ) (xs ys : List A) → All P (xs ++ ys) → All P xs
All-front P [] ys h = tt
All-front P (x ∷ xs) ys (hx, h) = (hx, All-front P xs ys h)

-- A poll returned `users` and turned the ranking `before` into `after`: the users are those of a front
-- part whose members are all due, that part is gone and nothing else, and what is due is left behind
-- only if the limit is used up.
pub record Polled (limit max : ℤ) (before after : Ranking) (users : List Text) : Type 0 where
  pub taken : Ranking
  pub split : before ≡ taken ++ after
  pub returned : users ≡ members taken
  pub all_due : All (IsDue max) taken
  pub exhausted : All (IsLate max) after ⊎ (limit_of limit ≡ some (length taken))

limited-Polled :
    (limit max : ℤ) (r : Ranking)
    → IsRanked r
    → let users = members (limited (limit_of limit) (due max r)) in
      Polled limit max r (drop (length users) r) users
limited-Polled limit max r h =
    let (late, e, all_late) = due_first max r h in
    let (over, f, used) = limited_front (limit_of limit) (due max r) in
    let taken : Ranking = limited (limit_of limit) (due max r) in
    let whole : r ≡ taken ++ (over ++ late) =
      e ∙ (ap (λ d. d ++ late) f ∙ append_assoc taken over late) in
    let rest : drop (length (members taken)) r ≡ over ++ late =
      ap (λ n. drop n r) (length-members taken)
      ∙ (ap (drop (length taken)) whole ∙ drop-length taken (over ++ late)) in
    record {
      taken = taken;
      split = whole ∙ ap (λ l. taken ++ l) (sym rest);
      returned = refl;
      all_due = All-front (IsDue max) taken over (subst (All (IsDue max)) f (due-IsDue max r));
      exhausted = elim used [
        | inl none_over ↦
            inl (subst (All (IsLate max)) (sym (rest ∙ ap (λ l. l ++ late) none_over)) all_late)
        | inr all ↦ inr all
      ];
    }

module _ {W : Type 0} {redis : RedisCommands W} (laws : RankingLaws redis) (key : Text) where
  remove_first-ranking :
      (users : List Text) (w : W)
      → ((remove_first redis key users w).0 ≡ ok users)
        × (laws.ranking (remove_first redis key users w).1 key
            ≡ drop (length users) (laws.ranking w key))
  remove_first-ranking [] w = (refl, refl)
  remove_first-ranking (u ∷ users) w =
      ground (arith, laws.zrem_result key (length users) w, laws.zrem key (length users) w)

  pub poll_expired_users_script_lem :
      (limit max : ℤ) (w : W)
      → (users : List Text) × ((poll_expired_users_script redis key limit max w).0 ≡ ok users)
        × Polled limit max
            (laws.ranking w key)
            (laws.ranking (poll_expired_users_script redis key limit max w).1 key)
            users
  unfolding poll_expired_users_script
  poll_expired_users_script_lem limit max w =
      let found : List Text = members (limited (limit_of limit) (due max (laws.ranking w key))) in
      let (result, left) = remove_first-ranking found w in
      rw (laws.zrange key max (limit_of limit) w) (
        found,
        result,
        subst (λ after. Polled limit max (laws.ranking w key) after found) (sym left)
            (limited-Polled limit max (laws.ranking w key) (laws.ranked w key)),
      )

  -- It leaves every other sorted set alone.
  pub poll_expired_users_script_other :
      (limit max : ℤ) (w : W) (other : Text)
      → key ≢ other
      → laws.ranking (poll_expired_users_script redis key limit max w).1 other
        ≡ laws.ranking w other
  unfolding poll_expired_users_script
  poll_expired_users_script_other limit max w other h =
      rw (laws.zrange key max (limit_of limit) w)
        (go (members (limited (limit_of limit) (due max (laws.ranking w key)))))
    where
      go :
          (users : List Text)
          → laws.ranking (remove_first redis key users w).1 other ≡ laws.ranking w other
      go [] = refl
      go (u ∷ users) = ground (
        arith,
        laws.zrem_result key (length users) w,
        laws.zrem_other key other (length users) w h,
      )
