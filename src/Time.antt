-- ===== src/Time.antt =====
-- Package `time`, as far as the program calls it. A `time.Time` is the number of nanoseconds since
-- Go's zero time (January 1 of year 1), a `time.Duration` an integer number of nanoseconds.
pub mod Format
use kim_gate.Prelude.{ℕ, ◌+◌, ◌-◌, ◌*◌, ◌/◌, ◌^◌, Bool, ◌==◌, if◌then◌else◌}
use kim_gate.Prelude.Int.{ℤ, pos, negsuc, sub_ℕ, pos_part, neg_part, ltb_ℤ}

abbrev pub Time : Type 0
Time = ℕ

abbrev pub second : ℕ
second = 1000000000

-- `t.IsZero()`
abbrev pub is_zero : Time → Bool
is_zero t = t == 0

-- `t.Add(d)`
abbrev pub add : Time → ℤ → Time
add t d = t + pos_part d - neg_part d

-- The second at which Unix time begins.
abbrev pub epoch : ℕ
epoch = 62135596800

-- `t.UnixMilli()` and `t.Unix()`
unfoldable pub unix_milli : Time → ℤ
unix_milli t = sub_ℕ (t / 1000000) (epoch * 1000)

unfoldable pub unix : Time → ℤ
unix t = sub_ℕ (t / second) epoch

-- `d / time.Second`: the quotient of signed integers, rounded towards zero.
unfoldable pub whole_seconds : ℤ → ℤ
whole_seconds (pos n) = pos (n / second)
whole_seconds (negsuc n) = sub_ℕ 0 ((n + 1) / second)

abbrev pub max_duration : ℕ
max_duration = 2 ^ 63 - 1

-- `t.Sub(u)`, which stays within the range of a `Duration`.
unfoldable pub sub : Time → Time → ℤ
sub t u =
    let d = sub_ℕ t u in
    if ltb_ℤ (pos max_duration) d
    then pos max_duration
    else if ltb_ℤ d (negsuc max_duration)
    then negsuc max_duration
    else d
