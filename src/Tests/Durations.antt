-- ===== src/Tests/Durations.antt =====
-- How durations are printed.
use kim_gate.Prelude.{◌≡◌, ◌*◌, refl}
use kim_gate.Prelude.Int.{pos, negsuc}
use kim_gate.Text.{codes, decimal}
use kim_gate.Time.{second}
use kim_gate.Time.Format.{duration_string}

minute : duration_string (pos (60 * second)) ≡ codes "1m0s"
unfolding duration_string decimal
minute = refl

half_year : duration_string (pos (3600 * 24 * 180 * second)) ≡ codes "4320h0m0s"
unfolding duration_string decimal
half_year = refl

fractions :
    (duration_string (pos 1500000000) ≡ codes "1.5s")
    × (duration_string (pos 2020000) ≡ codes "2.02ms")
    × (duration_string (pos 7) ≡ codes "7ns")
    × (duration_string (negsuc 999) ≡ codes "-1µs")
unfolding duration_string decimal
fractions = (refl, refl, refl, refl)
