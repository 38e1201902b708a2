-- ===== src/Time/Nanos.antt =====
-- The conversions to and from nanoseconds.
use rosrust.Prelude.{ℕ, suc, ◌+◌, ◌*◌, ◌/◌, ◌%◌, ◌<◌, ◌≡◌, ◌⊎◌, ap, arith}
use rosrust.Prelude.Int.{ℤ, pos, pos_part, neg_part, eq_of_parts}
use rosrust.Time.{
  Time, Duration, billion, u32_mod, i32_max, time_from_nanos, time_nanos, duration_from_nanos,
  duration_nanos,
}
use rosrust.Time.Ranges.{IsU32, IsI32, duration_nanos_parts}

-- A time whose nanoseconds are less than a second.
abbrev pub IsNormalTime : Time → Type 0
IsNormalTime t = IsU32 t.sec × (t.nsec < billion)

-- A duration whose nanoseconds are less than a second and have the sign of the seconds.
pub record IsNormal (d : Duration) : Type 0 where
  pub sec_fits : IsI32 d.sec
  pub nsec_lt : pos_part d.nsec < billion
  pub nsec_gt : neg_part d.nsec < billion
  pub signs :
      ((neg_part d.sec ≡ 0) × (neg_part d.nsec ≡ 0))
      ⊎ ((pos_part d.sec ≡ 0) × (pos_part d.nsec ≡ 0))

-- Nanoseconds whose seconds fit in an `i32`.
abbrev pub FitsDuration : ℤ → Type 0
FitsDuration z = (pos_part z < suc i32_max * billion) × (neg_part z < suc (suc i32_max) * billion)

pub time_from_nanos-nanos : (t : Time) → IsNormalTime t → time_from_nanos (time_nanos t) ≡ t
unfolding time_from_nanos time_nanos
time_from_nanos-nanos t h = ground arith

pub nanos-time_from_nanos :
    (n : ℕ) → n < u32_mod * billion → time_nanos (time_from_nanos (pos n)) ≡ pos n
unfolding time_from_nanos time_nanos
nanos-time_from_nanos n h = ground arith

-- A time of the range in which seconds fit is read back from its nanoseconds, and every number
-- of nanoseconds in that range from the time made of it.
pub time_nanos_inverse :
    (t : Time) (n : ℕ)
    → IsNormalTime t
    → n < u32_mod * billion
    → (time_from_nanos (time_nanos t) ≡ t)
      × (time_nanos (time_from_nanos (pos n)) ≡ pos n)
      × IsNormalTime (time_from_nanos (pos n))
time_nanos_inverse t n h k =
    (time_from_nanos-nanos t h, nanos-time_from_nanos n k, unfold time_from_nanos in omega arith)

-- The parts of a number of nanoseconds that fits.
duration_parts :
    (z : ℤ)
    → FitsDuration z
    → (pos_part (duration_from_nanos z).sec ≡ pos_part z / billion)
      × (neg_part (duration_from_nanos z).sec ≡ neg_part z / billion)
      × (pos_part (duration_from_nanos z).nsec ≡ pos_part z % billion)
      × (neg_part (duration_from_nanos z).nsec ≡ neg_part z % billion)
unfolding duration_from_nanos
duration_parts z h = ground arith

-- Any two integers with no part in common are equal when their parts are.
parts_disjoint : (z : ℤ) → (pos_part z ≡ 0) ⊎ (neg_part z ≡ 0)
parts_disjoint z = ground arith

pub duration_from_nanos-IsNormal : (z : ℤ) → FitsDuration z → IsNormal (duration_from_nanos z)
duration_from_nanos-IsNormal z h = omega (arith, duration_parts z h, parts_disjoint z)

pub nanos-duration_from_nanos :
    (z : ℤ) → FitsDuration z → duration_nanos (duration_from_nanos z) ≡ z
nanos-duration_from_nanos z h =
    eq_of_parts _ _
      (omega (arith, duration_parts z h, duration_nanos_parts (duration_from_nanos z)))

-- The sign of a normal duration is the sign of its nanoseconds.
nanos-FitsDuration : (d : Duration) → IsNormal d → FitsDuration (duration_nanos d)
nanos-FitsDuration d h = omega (
  arith,
  duration_nanos_parts d,
  parts_disjoint (duration_nanos d),
  parts_disjoint d.sec,
  parts_disjoint d.nsec,
)

Duration-eq : (a b : Duration) → a.sec ≡ b.sec → a.nsec ≡ b.nsec → a ≡ b
Duration-eq a b p q = cc

normal_parts :
    (a b : Duration)
    → IsNormal a
    → IsNormal b
    → duration_nanos a ≡ duration_nanos b
    → (pos_part a.sec + neg_part b.sec ≡ pos_part b.sec + neg_part a.sec)
      × (pos_part a.nsec + neg_part b.nsec ≡ pos_part b.nsec + neg_part a.nsec)
normal_parts a b h k e =
    omega (arith, duration_nanos_parts a, duration_nanos_parts b, ap pos_part e, ap neg_part e)

normal_eq : (a b : Duration) → IsNormal a → IsNormal b → duration_nanos a ≡ duration_nanos b → a ≡ b
normal_eq a b h k e =
    let p = normal_parts a b h k e in Duration-eq a b (eq_of_parts _ _ p.0) (eq_of_parts _ _ p.1)

pub duration_from_nanos-nanos :
    (d : Duration) → IsNormal d → duration_from_nanos (duration_nanos d) ≡ d
duration_from_nanos-nanos d h =
    let fits = nanos-FitsDuration d h in
    normal_eq _ d (duration_from_nanos-IsNormal _ fits) h (nanos-duration_from_nanos _ fits)

-- A normal duration is read back from its nanoseconds; a number of nanoseconds whose seconds fit
-- in an `i32` is read back from the duration made of it, and that duration is normal.
pub duration_nanos_inverse :
    (d : Duration) (z : ℤ)
    → IsNormal d
    → FitsDuration z
    → (duration_from_nanos (duration_nanos d) ≡ d)
      × (duration_nanos (duration_from_nanos z) ≡ z)
      × IsNormal (duration_from_nanos z)
duration_nanos_inverse d z h k =
    (duration_from_nanos-nanos d h, nanos-duration_from_nanos z k, duration_from_nanos-IsNormal z k)
