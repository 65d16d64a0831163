-- ===== src/Config/Bindings.antt =====
-- The tables of internal/config/config.go against each other.
use kim_gate.Prelude.{
  ◌≡◌, refl, true, false, Bool, Option, none, some, List, [], ◌∷◌, map, arith, if◌then◌else◌,
}
use kim_gate.Text.{Text, codes, text_eq, elem, IsDistinct, lookup, keys}
use kim_gate.Text.Assoc.{all_in}
use kim_gate.Config.Library.{FlagKind, or_else}
use kim_gate.Config.Tables.{declared_flags, default_values, env_names, bindings}

-- An order in which the map of the bindings may be iterated.
pub record IsOrder (order : List (Text × Text)) : Type 0 where
  pub distinct : IsDistinct (keys order)
  pub same : (k : Text) → lookup k order ≡ lookup k bindings

unfoldable pub names : List (FlagKind × Text) → List Text
names = map (λ (p : FlagKind × Text). p.1)

pub bindings_declared : all_in (names declared_flags) bindings ≡ true
unfolding names text_eq
bindings_declared = refl

-- What a key that may be bound to a flag gets.
abbrev pub pick : Option Text → (Text → Option Text) → Option Text → Option Text
pick none f old = old
pick (some name) f old = f name

-- The test of `IsDistinct`.
is_distinct : List Text → Bool
is_distinct [] = true
is_distinct (t ∷ ts) = if elem t ts then false else is_distinct ts

is_distinct-IsDistinct : (ts : List Text) → is_distinct ts ≡ true → IsDistinct ts
unfolding is_distinct
is_distinct-IsDistinct [] h = tt
is_distinct-IsDistinct (t ∷ ts) h = (ground arith, is_distinct-IsDistinct ts (ground arith))

pub default_values-IsDistinct : IsDistinct (keys default_values)
unfolding is_distinct text_eq
default_values-IsDistinct = is_distinct-IsDistinct (keys default_values) refl

pub env_names-IsDistinct : IsDistinct (keys env_names)
unfolding is_distinct text_eq
env_names-IsDistinct = is_distinct-IsDistinct (keys env_names) refl

pub bindings-IsDistinct : IsDistinct (keys bindings)
unfolding is_distinct text_eq
bindings-IsDistinct = is_distinct-IsDistinct (keys bindings) refl

pub declared_config : elem (codes "config") (names declared_flags) ≡ true
unfolding names text_eq
declared_config = refl

pub or_else-none : {A : Type 0} (a : Option A) → or_else a none ≡ a
or_else-none none = refl
or_else-none (some a) = refl
