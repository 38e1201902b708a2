-- ===== src/Time.antt =====
-- rosrust/src/time.rs: points in time and durations. A `u32` field is a number below 2 ^ 32; an
-- `i32` field and an `i64` number of nanoseconds are integers. `seconds`, which is an `f64`, is in the
-- module Seconds.
use Prim.Native.Nat.{compare, Ordering}
use rosrust.Prelude.{ℕ, zero, suc, ◌+◌, ◌-◌, ◌*◌, ◌/◌, ◌%◌, Bool, ltb, ◌==◌, if◌then◌else◌}
use rosrust.Prelude.Int.{ℤ, pos, negsuc, pos_part, neg_part, sub_ℕ, ◌+ℤ◌, ◌-ℤ◌, ◌*ℤ◌}
pub mod Seconds
pub mod Ranges
pub mod Nanos
pub mod Arithmetic
mod Tests

abbrev pub billion : ℕ
billion = 1_000_000_000

abbrev pub u32_mod : ℕ
u32_mod = 4_294_967_296

abbrev pub i32_max : ℕ
i32_max = 2_147_483_647

-- `as u32`: the low 32 bits of the two's complement.
unfoldable pub as_u32 : ℤ → ℕ
as_u32 (pos n) = n % u32_mod
as_u32 (negsuc n) = u32_mod - 1 - n % u32_mod

-- `as i32`: the same bits, read with a sign.
unfoldable pub as_i32 : ℤ → ℤ
unfolding as_u32
as_i32 z = let u = as_u32 z in if ltb i32_max u then negsuc (u32_mod - 1 - u) else pos u

-- `t / BILLION` and `t % BILLION` round towards zero.
unfoldable pub quot : ℤ → ℤ
quot (pos n) = pos (n / billion)
quot (negsuc n) = sub_ℕ 0 (suc n / billion)

unfoldable pub rem : ℤ → ℤ
rem (pos n) = pos (n % billion)
rem (negsuc n) = sub_ℕ 0 (suc n % billion)

pub record Time : Type 0 where
  pub sec : ℕ
  pub nsec : ℕ

pub record Duration : Type 0 where
  pub sec : ℤ
  pub nsec : ℤ

-- `Time::from_nanos` and `Time::nanos`.
unfoldable pub time_from_nanos : ℤ → Time
unfolding as_u32 quot rem
time_from_nanos t = record { sec = as_u32 (quot t); nsec = as_u32 (rem t) }

unfoldable pub time_nanos : Time → ℤ
time_nanos t = pos (t.sec * billion + t.nsec)

-- `Duration::from_nanos`, `from_seconds` and `nanos`.
unfoldable pub duration_from_nanos : ℤ → Duration
unfolding as_i32 quot rem
duration_from_nanos t = record { sec = as_i32 (quot t); nsec = as_i32 (rem t) }

unfoldable pub from_seconds : ℤ → Duration
from_seconds sec = record { sec = sec; nsec = pos 0 }

unfoldable pub duration_nanos : Duration → ℤ
unfolding ◌*ℤ◌ ◌+ℤ◌
duration_nanos d = d.sec *ℤ pos billion +ℤ d.nsec

-- `Ord::cmp` and `PartialEq::eq` of both types compare the nanoseconds.
abbrev pub compare_ℤ : ℤ → ℤ → Ordering
compare_ℤ a b = compare (pos_part a + neg_part b) (pos_part b + neg_part a)

unfoldable pub time_cmp : Time → Time → Ordering
unfolding time_nanos
time_cmp a b = compare_ℤ (time_nanos a) (time_nanos b)

unfoldable pub duration_cmp : Duration → Duration → Ordering
unfolding duration_nanos
duration_cmp a b = compare_ℤ (duration_nanos a) (duration_nanos b)

-- `Time + Duration`, `Time - Time`, `Time - Duration`.
unfoldable pub add : Time → Duration → Time
add t d = time_from_nanos (time_nanos t +ℤ duration_nanos d)

unfoldable pub since : Time → Time → Duration
since t u = duration_from_nanos (time_nanos t -ℤ time_nanos u)

unfoldable pub sub : Time → Duration → Time
sub t d = time_from_nanos (time_nanos t -ℤ duration_nanos d)

-- `Duration + Duration`, `Duration - Duration`, `-Duration`.
unfoldable pub duration_add : Duration → Duration → Duration
duration_add a b = duration_from_nanos (duration_nanos a +ℤ duration_nanos b)

unfoldable pub duration_sub : Duration → Duration → Duration
duration_sub a b = duration_from_nanos (duration_nanos a -ℤ duration_nanos b)

-- The negation of `i32::MIN` overflows; it is a case of its own in the ranges.
unfoldable pub neg : Duration → Duration
unfolding ◌-ℤ◌
neg d = record { sec = pos 0 -ℤ d.sec; nsec = pos 0 -ℤ d.nsec }

-- `From<std::time::Duration>`, given its whole seconds and its nanoseconds.
unfoldable pub from_std : ℕ → ℕ → Duration
unfolding as_i32
from_std secs subsec_nanos = record { sec = as_i32 (pos secs); nsec = as_i32 (pos subsec_nanos) }
