-- ===== src/Text/Assoc.antt =====
-- The laws of lists of pairs as maps with texts as keys.
use kim_gate.Prelude.{◌≡◌, true, false, none, some, List, [], ◌∷◌, ◌&&◌, Bool, arith}
use kim_gate.Text.{Text, elem, lookup, keys}
use kim_gate.Text.Trim.{text_eq_iff}

module _ {ℓ} {A : Type ℓ} where
  -- A key that is found is among the keys.
  pub elem-keys :
      (k : Text) (a : A) (pairs : List (Text × A))
      → lookup k pairs ≡ some a
      → elem k (keys pairs) ≡ true
  elem-keys k a [] h = cc
  elem-keys k a ((f, b) ∷ pairs) h =
      ground (arith, elem-keys k a pairs, text_eq_iff f k, text_eq_iff k f)

  pub lookup-none :
      (k : Text) (pairs : List (Text × A)) → elem k (keys pairs) ≡ false → lookup k pairs ≡ none
  lookup-none k [] h = ground arith
  lookup-none k ((f, b) ∷ pairs) h =
      ground (arith, lookup-none k pairs, text_eq_iff f k, text_eq_iff k f)

-- Every value is among the names.
abbrev pub all_in : List Text → List (Text × Text) → Bool
all_in names [] = true
all_in names ((k, n) ∷ pairs) = elem n names && all_in names pairs

pub elem-lookup :
    (names : List Text) (k n : Text) (pairs : List (Text × Text))
    → all_in names pairs ≡ true
    → lookup k pairs ≡ some n
    → elem n names ≡ true
elem-lookup names k n [] h e = cc
elem-lookup names k n ((f, m) ∷ pairs) h e = ground (arith, elem-lookup names k n pairs)
