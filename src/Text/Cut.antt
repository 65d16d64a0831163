-- ===== src/Text/Cut.antt =====
-- The laws of `cut` and `contains`, and of trimming a text that is cut.
use kim_gate.Prelude.{ℕ, ◌≡◌, refl, false, none, some, [], ◌∷◌, ◌++◌, arith, ==_iff}
use kim_gate.Text.{Text, contains, cut}

module _ (sep : ℕ) where
  -- What is cut holds the separator between its two parts, the first time it occurs.
  pub cut_sound :
      (s before after : Text)
      → cut s sep ≡ some (before, after)
      → (s ≡ before ++ sep ∷ after) × (contains before sep ≡ false)
  unfolding cut contains
  cut_sound [] before after h = cc
  cut_sound (c ∷ s) [] after h = ground (arith, ==_iff c sep)
  cut_sound (c ∷ s) (b ∷ before) after h = ground (arith, ==_iff c sep, cut_sound s before after)

  pub cut_complete :
      (before after : Text)
      → contains before sep ≡ false
      → cut (before ++ sep ∷ after) sep ≡ some (before, after)
  unfolding cut contains
  cut_complete [] after h = ground arith
  cut_complete (c ∷ before) after h = ground (arith, cut_complete before after)

  pub cut-none : (s : Text) → contains s sep ≡ false → cut s sep ≡ none
  unfolding cut contains
  cut-none [] h = refl
  cut-none (c ∷ s) h = ground (arith, cut-none s)
