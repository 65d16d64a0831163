-- ===== src/Text/Join.antt =====
-- The laws of two texts joined by a separator.
use kim_gate.Prelude.{
  ℕ, ◌≡◌, refl, sym, ap, subst, ◌∙◌, Bool, true, false, not, [], ◌∷◌, ◌++◌, arith,
}
use kim_gate.Text.{Text, is_empty, is_space, trim_left, trim_right, trim_space, contains}
use kim_gate.Text.Trim.{trim_right_idem}
use kim_gate.Text.Compact.{IsClean}

-- The text does not begin with a blank.
begins : Text → Bool
begins [] = true
begins (c ∷ s) = not (is_space c)

begins-trim_left : (s : Text) → begins (trim_left s) ≡ true
unfolding begins trim_left
begins-trim_left [] = refl
begins-trim_left (c ∷ s) = ground (arith, begins-trim_left s)

begins-trim_right : (s : Text) → begins s ≡ true → begins (trim_right s) ≡ true
unfolding begins trim_right
begins-trim_right [] h = refl
begins-trim_right (c ∷ s) h = ground arith

begins_of_trimmed : (s : Text) → trim_space s ≡ s → begins s ≡ true
unfolding trim_space
begins_of_trimmed s h =
    subst (λ t. begins t ≡ true) h (begins-trim_right (trim_left s) (begins-trim_left s))

trim_left_of_begins :
    (s u : Text) → begins s ≡ true → is_empty s ≡ false → trim_left (s ++ u) ≡ s ++ u
unfolding begins trim_left
trim_left_of_begins [] u h k = cc
trim_left_of_begins (c ∷ s) u h k = ground arith

trim_right-append :
    (s u : Text) → is_empty (trim_right u) ≡ false → trim_right (s ++ u) ≡ s ++ trim_right u
unfolding trim_right
trim_right-append [] u h = refl
trim_right-append (c ∷ s) u h = rw (trim_right-append s u h) (ground (arith, is_empty-append s))
  where
    is_empty-append : (t : Text) → is_empty (t ++ trim_right u) ≡ false
    is_empty-append [] = h
    is_empty-append (d ∷ t) = refl

trim_right_of_trimmed : (s : Text) → trim_space s ≡ s → trim_right s ≡ s
unfolding trim_space
trim_right_of_trimmed s h = ap trim_right (sym h) ∙ (trim_right_idem (trim_left s) ∙ h)

trim_right_join : (sep : ℕ) (u : Text) → IsClean u → trim_right (sep ∷ u) ≡ sep ∷ u
unfolding trim_right
trim_right_join sep u h = ground (arith, trim_right_of_trimmed u h.0)

pub trim_space_join :
    (s : Text) (sep : ℕ) (u : Text)
    → IsClean s
    → IsClean u
    → trim_space (s ++ sep ∷ u) ≡ s ++ sep ∷ u
unfolding trim_space
trim_space_join s sep u hs hu =
    let e = trim_right_join sep u hu in
    rw (trim_left_of_begins s (sep ∷ u) (begins_of_trimmed s hs.0) hs.1)
      (trim_right-append s (sep ∷ u) (rw e) ∙ ap (λ t. s ++ t) e)

pub is_empty-join : (s : Text) (sep : ℕ) (u : Text) → is_empty (s ++ sep ∷ u) ≡ false
is_empty-join [] sep u = refl
is_empty-join (c ∷ s) sep u = refl

pub join-IsClean : (s : Text) (sep : ℕ) (u : Text) → IsClean s → IsClean u → IsClean (s ++ sep ∷ u)
join-IsClean s sep u hs hu = (trim_space_join s sep u hs hu, is_empty-join s sep u)

-- The separator occurs in what is joined.
pub contains-join : (s : Text) (sep : ℕ) (u : Text) → contains (s ++ sep ∷ u) sep ≡ true
unfolding contains
contains-join [] sep u = ground arith
contains-join (c ∷ s) sep u = ground (arith, contains-join s sep u)

-- A character that is no blank, put before a clean text.
pub trim_space-cons :
    (c : ℕ) (u : Text) → is_space c ≡ false → IsClean u → trim_space (c ∷ u) ≡ c ∷ u
unfolding trim_space trim_left
trim_space-cons c u h hu = rw h (trim_right_join c u hu)
