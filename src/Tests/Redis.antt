-- ===== src/Tests/Redis.antt =====
-- A Redis that keeps hashes and sorted sets, every score being 0.
use kim_gate.Prelude.{
  ℕ, zero, suc, ◌≡◌, ◌≢◌, false, not, ◌&&◌, some, refl, List, [], ◌∷◌, ◌++◌, none, map, take, drop,
  arith, if◌then◌else◌, All,
}
use kim_gate.Prelude.Int.{ℤ, pos, ◌≤ℤ◌}
use kim_gate.Effect.{ok}
use kim_gate.Text.{lookup, keys, Text, text_eq, elem, IsDistinct}
use kim_gate.Text.Trim.{text_eq_iff, text_eq_refl}
use kim_gate.Data.Commands.{RedisCommands}
use kim_gate.Data.Expiry.{Ranking, RankingLaws, IsRanked, members, due, limited}
use kim_gate.Data.Registration.{HashLaws}
use kim_gate.Data.Keyspace.{KeyspaceLaws}

pub record World : Type 0 where
  pub hashes : Text → List (Text × Text)
  pub sets : Text → List Text

abbrev zeros : List Text → Ranking
zeros = map (λ m. (pos 0, m))

abbrev update {ℓ} : {A : Type ℓ} → Text → (A → A) → (Text → A) → Text → A
update key f m k = if text_eq key k then f (m k) else m k

abbrev without : Text → List (Text × Text) → List (Text × Text)
without f [] = []
without f ((g, v) ∷ values) =
    let rest = without f values in if text_eq f g then rest else (g, v) ∷ rest

-- The first value of each field.
abbrev unique : List (Text × Text) → List (Text × Text)
unique [] = []
unique ((f, v) ∷ values) = (f, v) ∷ without f (unique values)

abbrev pub redis : RedisCommands World
redis = record {
  hsetex = λ key ttl f v w. (ok tt, record w { hashes = update key (λ h. (f, v) ∷ h) w.hashes });
  zadd = λ key score m w. (ok tt, record w { sets = update key (λ s. m ∷ s) w.sets });
  zrange_by_score =
      λ key max limit w. (ok (members (limited limit (due max (zeros (w.sets key))))), w);
  zrem_range_by_rank = λ key start stop w.
      (ok tt, record w { sets = update key (λ s. take start s ++ drop (suc stop) s) w.sets });
  hgetall = λ key w. (ok (unique (w.hashes key)), w);
  hdel = λ key f w. (ok tt, record w { hashes = update key (without f) w.hashes });
}

pub Leads-zeros : (members : List Text) → IsRanked (zeros members)
Leads-zeros [] = tt
Leads-zeros (m ∷ ms) = (go ms, Leads-zeros ms)
  where
    go : (ms : List Text) → All (λ (p : ℤ × Text). pos 0 ≤ℤ p.0) (zeros ms)
    go [] = tt
    go (m ∷ ms) = (omega arith, go ms)

pub drop-zeros : (n : ℕ) (s : List Text) → zeros (drop n s) ≡ drop n (zeros s)
drop-zeros zero s = refl
drop-zeros (suc n) [] = refl
drop-zeros (suc n) (m ∷ s) = drop-zeros n s

pub zrem-other :
    (key other : Text) (n : ℕ) (w : World)
    → key ≢ other
    → zeros ((redis.zrem_range_by_rank key 0 n w).1.sets other) ≡ zeros (w.sets other)
zrem-other key other n w h = ground (arith, text_eq_iff key other)

unfoldable pub ranking_laws : RankingLaws redis
ranking_laws = record {
  ranking = λ w key. zeros (w.sets key);
  ranked = λ w key. Leads-zeros (w.sets key);
  zrange = λ key max limit w. refl;
  zrem_result = λ key n w. refl;
  zrem = λ key n w. rw (text_eq_refl key) (drop-zeros (suc n) (w.sets key));
  zrem_other = zrem-other;
}

pub lookup-without :
    (f g : Text) (values : List (Text × Text))
    → lookup g (without f values) ≡ (if text_eq f g then none else lookup g values)
lookup-without f g [] = ground arith
lookup-without f g ((k, v) ∷ values) =
    ground (arith, lookup-without f g values, text_eq_iff f k, text_eq_iff k g, text_eq_iff f g)

pub lookup-unique :
    (g : Text) (values : List (Text × Text)) → lookup g (unique values) ≡ lookup g values
lookup-unique g [] = refl
lookup-unique g ((f, v) ∷ values) =
    ground (arith, lookup-unique g values, lookup-without f g (unique values), text_eq_iff f g)

elem-without :
    (f g : Text) (values : List (Text × Text))
    → elem g (keys (without f values)) ≡ (elem g (keys values) && not (text_eq f g))
elem-without f g [] = refl
elem-without f g ((k, v) ∷ values) =
    ground (arith, elem-without f g values, text_eq_iff f k, text_eq_iff g k, text_eq_iff f g)

without-IsDistinct :
    (f : Text) (values : List (Text × Text))
    → IsDistinct (keys values)
    → IsDistinct (keys (without f values))
without-IsDistinct f [] h = tt
without-IsDistinct f ((k, v) ∷ values) h =
    ground (arith, without-IsDistinct f values, elem-without f k values)

unique-IsDistinct : (values : List (Text × Text)) → IsDistinct (keys (unique values))
unique-IsDistinct [] = tt
unique-IsDistinct ((f, v) ∷ values) = ground (
  arith,
  unique-IsDistinct values,
  without-IsDistinct f (unique values),
  elem-without f f (unique values),
  text_eq_refl f,
)

pub lookup-deleted :
    (f g : Text) (values : List (Text × Text))
    → lookup g (unique (without f values))
      ≡ (if text_eq f g then none else lookup g (unique values))
lookup-deleted f g values =
    ground
      (arith, lookup-unique g (without f values), lookup-unique g values, lookup-without f g values)

pub lookup-added :
    (f v g : Text) (values : List (Text × Text))
    → lookup g (unique ((f, v) ∷ values))
      ≡ (if text_eq f g then some v else lookup g (unique values))
lookup-added f v g values = ground (arith, lookup-without f g (unique values))

unfoldable pub hash_laws : HashLaws redis
hash_laws = record {
  hash = λ w key. unique (w.hashes key);
  hgetall = λ key w. refl;
  hsetex_result = λ key ttl f v w h. refl;
  hsetex = λ key ttl f v g w h. rw (text_eq_refl key) (lookup-added f v g (w.hashes key));
  zadd_result = λ key score m w. refl;
  zadd = λ key score m k w. refl;
  hdel_result = λ key f w. refl;
  hdel = λ key f g w. rw (text_eq_refl key) (lookup-deleted f g (w.hashes key));
}

text_eq-false : (s t : Text) → s ≢ t → text_eq s t ≡ false
text_eq-false s t h = ground (arith, text_eq_iff s t)

pub keyspace_laws : KeyspaceLaws hash_laws
unfolding hash_laws
keyspace_laws = record {
  distinct = λ key w. unique-IsDistinct (w.hashes key);
  hsetex_other = λ key ttl f v other w h. rw (text_eq-false key other h) refl;
  hdel_other = λ key f other w h. rw (text_eq-false key other h) refl;
  zrange_hash = λ key max limit other w. refl;
  zrem_hash = λ key start stop other w. refl;
}
