-- ===== src/Text/Address.antt =====
-- Proofs on `SplitHostPort` and `JoinHostPort` of Go's package `net`.
use kim_gate.Prelude.{
  ◌≡◌, ◌⊎◌, inl, inr, refl, ℕ, false, ◌||◌, Option, none, some, [], ◌∷◌, ◌++◌, ==_iff, arith,
  Bool-cases,
}
use kim_gate.Effect.{ok}
use kim_gate.Text.{Text, cut, contains}
use kim_gate.Text.Cut.{cut_complete}
use kim_gate.Text.HostPort.{
  drop_one, starts_with, cut_last, split_bracketed, split_plain, split_host_port, join_host_port,
}

module _ (sep : ℕ) where
  pub contains-append : (s t : Text) → contains (s ++ t) sep ≡ (contains s sep || contains t sep)
  unfolding contains
  contains-append [] t = refl
  contains-append (c ∷ s) t = ground (arith, contains-append s t)

  cut_last-none : (s : Text) → contains s sep ≡ false → cut_last s sep ≡ none
  unfolding cut_last contains
  cut_last-none [] h = refl
  cut_last-none (c ∷ s) h = ground (arith, cut_last-none s)

  cut_last_complete :
      (before after : Text)
      → contains after sep ≡ false
      → cut_last (before ++ sep ∷ after) sep ≡ some (before, after)
  unfolding cut_last
  cut_last_complete [] after h = ground (arith, cut_last-none after, ==_iff sep sep)
  cut_last_complete (c ∷ before) after h = ground (arith, cut_last_complete before after)

  not_contains_of_cut_last : (s : Text) → cut_last s sep ≡ none → contains s sep ≡ false
  unfolding cut_last contains
  not_contains_of_cut_last [] h = refl
  not_contains_of_cut_last (c ∷ s) h = ground (arith, not_contains_of_cut_last s)

  cut_last_prefix :
      (s t before after : Text)
      → cut_last t sep ≡ some (before, after)
      → cut_last (s ++ t) sep ≡ some (s ++ before, after)
  unfolding cut_last
  cut_last_prefix [] t before after h = h
  cut_last_prefix (c ∷ s) t before after h = ground (arith, cut_last_prefix s t before after)

  cut_last_after :
      (s before after : Text) → cut_last s sep ≡ some (before, after) → contains after sep ≡ false
  unfolding cut_last
  cut_last_after [] before after h = cc
  cut_last_after (c ∷ s) [] after h = ground (arith, not_contains_of_cut_last s)
  cut_last_after (c ∷ s) (b ∷ before) after h = ground (arith, cut_last_after s before after)

  cut_last_sound :
      (s before after : Text) → cut_last s sep ≡ some (before, after) → s ≡ before ++ sep ∷ after
  unfolding cut_last
  cut_last_sound [] before after h = cc
  cut_last_sound (c ∷ s) [] after h = ground (arith, ==_iff c sep)
  cut_last_sound (c ∷ s) (b ∷ before) after h = ground (arith, cut_last_sound s before after)

-- No character that `SplitHostPort` reads stands in the text.
pub record IsPlain (t : Text) : Type 0 where
  pub opening : contains t b'[' ≡ false
  pub closing : contains t b']' ≡ false

starts_lem :
    (s t : Text)
    → contains s b'[' ≡ false
    → contains t b'[' ≡ false
    → starts_with b'[' (s ++ t) ≡ false
unfolding contains
starts_lem [] [] h k = refl
starts_lem [] (c ∷ t) h k = ground arith
starts_lem (c ∷ s) t h k = ground arith

-- An address and its two parts.
pub split-join :
    (host port : Text)
    → IsPlain host
    → IsPlain port
    → contains port b':' ≡ false
    → split_host_port (join_host_port host port) ≡ ok (host, port)
unfolding split_host_port join_host_port split_bracketed split_plain contains
split-join host port h p colon = elim (Bool-cases (contains host b':')) [
  | inl bracketed ↦ ground (
    arith,
    bracketed,
    cut_last_prefix b':' (b'[' ∷ host) (b']' ∷ b':' ∷ port) (b']' ∷ []) port,
    cut_last_complete b':' (b']' ∷ []) port,
    cut_complete b']' host (b':' ∷ port),
  )
  | inr plain ↦ ground (
    arith,
    plain,
    cut_last_complete b':' host port,
    contains-append b'[' host (b':' ∷ port),
    contains-append b']' host (b':' ∷ port),
    starts_lem host (b':' ∷ port),
  )
]

-- A port that is read out of an address.
pub record IsPort (port : Text) : Type 0 where
  pub plain : IsPlain port
  pub colon : contains port b':' ≡ false

bracketed-IsPort :
    (addr inside rest host port : Text)
    → split_bracketed addr inside rest ≡ ok (host, port)
    → IsPort port
unfolding split_bracketed
bracketed-IsPort addr inside [] host port h = absurd (cc)
bracketed-IsPort addr inside (c ∷ rest) host port h = record {
  plain = record { opening = ground arith; closing = ground arith };
  colon = ground arith;
}

plain-IsPort :
    (addr before after host port : Text)
    → cut_last addr b':' ≡ some (before, after)
    → split_plain addr before after ≡ ok (host, port)
    → IsPort port
unfolding split_plain contains
plain-IsPort addr before after host port e h =
    let sound = cut_last_sound b':' addr before after e in
    record {
      plain = record {
        opening = ground (arith, sound, contains-append b'[' before (b':' ∷ after));
        closing = ground (arith, sound, contains-append b']' before (b':' ∷ after));
      };
      colon = ground (arith, cut_last_after b':' addr before after e);
    }

-- A computed option is there or not.
abbrev seen : {A : Type 0} (o : Option A) → (o ≡ none) ⊎ ((a : A) × (o ≡ some a))
seen none = inl refl
seen (some a) = inr (a, refl)

pub split-IsPort : (addr host port : Text) → split_host_port addr ≡ ok (host, port) → IsPort port
unfolding split_host_port
split-IsPort addr host port h = elim (seen (cut_last addr b':')) [
  | inl e ↦ absurd (ground (arith, e))
  | inr ((before, after), e) ↦ elim (Bool-cases (starts_with b'[' addr)) [
    | inr plain ↦ plain-IsPort addr before after host port e (ground (arith, e, plain))
    | inl bracketed ↦ elim (seen (cut (drop_one addr) b']')) [
      | inl f ↦ absurd (ground (arith, e, f, bracketed))
      | inr ((inside, rest), f) ↦
          bracketed-IsPort addr inside rest host port (ground (arith, e, f, bracketed))
    ]
  ]
]
