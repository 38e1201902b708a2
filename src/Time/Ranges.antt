-- ===== src/Time/Ranges.antt =====
-- The ranges of the fields, and what keeps the sums in an `i64`.
use rosrust.Prelude.{ℕ, ◌+◌, ◌*◌, ◌<◌, ◌≡◌, arith}
use rosrust.Prelude.Int.{ℤ, pos, negsuc, pos_part, neg_part, ◌+ℤ◌, ◌-ℤ◌, ◌≤ℤ◌, +ℤ_parts, -ℤ_parts}
use rosrust.Time.{Time, Duration, billion, u32_mod, i32_max, time_nanos, duration_nanos}

-- The values of a `u32` and of an `i32`.
abbrev pub IsU32 : ℕ → Type 0
IsU32 n = n < u32_mod

abbrev pub IsI32 : ℤ → Type 0
IsI32 z = (z ≤ℤ pos i32_max) × (negsuc i32_max ≤ℤ z)

abbrev i64_max : ℕ
i64_max = 9_223_372_036_854_775_807

abbrev pub IsI64 : ℤ → Type 0
IsI64 z = (z ≤ℤ pos i64_max) × (negsuc i64_max ≤ℤ z)

abbrev pub IsTime : Time → Type 0
IsTime t = IsU32 t.sec × IsU32 t.nsec

abbrev pub IsDuration : Duration → Type 0
IsDuration d = IsI32 d.sec × IsI32 d.nsec

-- The operations by their parts, which are numbers.
pub time_nanos_parts :
    (t : Time) → pos_part (time_nanos t) ≡ t.sec * billion + t.nsec + neg_part (time_nanos t)
unfolding time_nanos
time_nanos_parts t = omega arith

pub duration_nanos_parts :
    (d : Duration)
    → pos_part (duration_nanos d) + neg_part d.sec * billion + neg_part d.nsec
      ≡ neg_part (duration_nanos d) + pos_part d.sec * billion + pos_part d.nsec
unfolding duration_nanos
duration_nanos_parts d = ground arith

-- The nanoseconds of a time are below 2 ^ 32 * 10 ^ 9 + 2 ^ 32, those of a duration within half
-- of that; so the sums and differences that the operators take fit in an `i64`.
pub nanos-IsI64 :
    (t u : Time) (d e : Duration)
    → IsTime t
    → IsTime u
    → IsDuration d
    → IsDuration e
    → IsI64 (time_nanos t +ℤ duration_nanos d)
      × IsI64 (time_nanos t -ℤ time_nanos u)
      × IsI64 (time_nanos t -ℤ duration_nanos d)
      × IsI64 (duration_nanos d +ℤ duration_nanos e)
      × IsI64 (duration_nanos d -ℤ duration_nanos e)
nanos-IsI64 t u d e ht hu hd he =
    omega (arith, +ℤ_parts, -ℤ_parts, time_nanos_parts, duration_nanos_parts)
