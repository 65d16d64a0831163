-- ===== src/Time/Format.antt =====
-- `Duration.String` of package `time`.
use kim_gate.Prelude.{
  ℕ, zero, suc, ◌+◌, ◌/◌, ◌%◌, ◌^◌, Bool, false, not, ◌||◌, ◌==◌, ltb, ◌∷◌, ◌++◌, if◌then◌else◌,
}
use kim_gate.Prelude.Int.{ℤ, pos, negsuc}
use kim_gate.Text.{Text, codes, decimal}
use kim_gate.Time.{second}

-- The digits of a fraction of `prec` places, without the zeros at its end, before `out`.
unfoldable pub fraction : ℕ → ℕ → Bool → Text → Text
fraction zero v print out = if print then b'.' ∷ out else out
fraction (suc prec) v print out =
    let shown = print || not (v % 10 == 0) in
    fraction prec (v / 10) shown (if shown then (b'0' + v % 10) ∷ out else out)

-- Below a second: `v` in a unit of `10 ^ prec` nanoseconds.
unfoldable pub small_unit : ℕ → Text → ℕ → Text
unfolding fraction
small_unit prec unit v = decimal (v / 10 ^ prec) ++ fraction prec v false unit

-- From a second on: hours and minutes stand before the seconds where there are any.
unfoldable pub clock_units : ℕ → Text → Text
clock_units u seconds =
    let minutes = u / 60 in
    let hours = minutes / 60 in
    if minutes == 0
    then decimal (u % 60) ++ seconds
    else if hours == 0
    then decimal (minutes % 60) ++ b'm' ∷ (decimal (u % 60) ++ seconds)
    else decimal hours ++ b'h' ∷ (decimal (minutes % 60) ++ b'm' ∷ (decimal (u % 60) ++ seconds))

unfoldable pub nanoseconds_string : ℕ → Text
unfolding fraction small_unit clock_units
nanoseconds_string n =
    if n == 0
    then codes "0s"
    else if ltb n 1000
    then small_unit 0 (codes "ns") n
    else if ltb n 1000000
    then small_unit 3 (0xb5 ∷ codes "s") n
    else if ltb n second
    then small_unit 6 (codes "ms") n
    else clock_units (n / second) (fraction 9 n false (codes "s"))

unfoldable pub duration_string : ℤ → Text
unfolding nanoseconds_string
duration_string (pos n) = nanoseconds_string n
duration_string (negsuc n) = b'-' ∷ nanoseconds_string (n + 1)
