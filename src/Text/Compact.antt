-- ===== src/Text/Compact.antt =====
-- The laws of `compact_strings`.
use kim_gate.Prelude.{◌≡◌, false, refl, List, [], ◌∷◌, arith, All}
use kim_gate.Text.{Text, is_empty, trim_space, compact_strings}
use kim_gate.Text.Trim.{trim_space_idem}

-- A value that the program accepts as an identifier: trimmed, and not empty.
abbrev pub IsClean : Text → Type 0
IsClean s = (trim_space s ≡ s) × (is_empty s ≡ false)

-- Each value that is kept is clean.
pub compact_strings-IsClean : (values : List Text) → All IsClean (compact_strings values)
unfolding compact_strings
compact_strings-IsClean [] = tt
compact_strings-IsClean (v ∷ values) =
    ground (arith, compact_strings-IsClean values, trim_space_idem v)

-- A list of clean values is kept whole and in order.
pub compact_strings_of_IsClean :
    (values : List Text) → All IsClean values → compact_strings values ≡ values
unfolding compact_strings
compact_strings_of_IsClean [] h = refl
compact_strings_of_IsClean (v ∷ values) (hv, hs) =
    ground (arith, compact_strings_of_IsClean values hs)

-- Compacting a second time changes nothing.
pub compact_strings_idem :
    (values : List Text) → compact_strings (compact_strings values) ≡ compact_strings values
compact_strings_idem values =
    compact_strings_of_IsClean (compact_strings values) (compact_strings-IsClean values)
