-- ===== src/Time/Tests.antt =====
-- The unit tests of time.rs, and the theorems at concrete times.
use rosrust.Prelude.{◌≡◌, refl, inl, arith}
use rosrust.Prelude.Int.{pos, negsuc}
use rosrust.Time.{
  Time, Duration, time_from_nanos, time_nanos, duration_from_nanos, duration_nanos, from_std,
}
use rosrust.Time.Nanos.{IsNormalTime, IsNormal, time_nanos_inverse}

abbrev start : Time
start = record { sec = 123456789; nsec = 987654321 }

abbrev later : Time
later = record { sec = 123456791; nsec = 1 }

abbrev pause : Duration
pause = record { sec = pos 1; nsec = pos 12345680 }

abbrev back : Duration
back = record { sec = negsuc 122; nsec = negsuc 455 }

from_nanos_works :
    (time_from_nanos (pos 123456789987654321) ≡ start)
    × (duration_from_nanos (negsuc 123000000455) ≡ back)
    × (time_nanos start ≡ pos 123456789987654321)
    × (duration_nanos back ≡ negsuc 123000000455)
    × (from_std 123 456 ≡ record { sec = pos 123; nsec = pos 456 })
unfolding time_from_nanos duration_from_nanos time_nanos duration_nanos from_std
from_nanos_works = (refl, refl, refl, refl, refl)

pause-IsNormal : IsNormal pause
pause-IsNormal = record {
  sec_fits = omega arith;
  nsec_lt = omega arith;
  nsec_gt = omega arith;
  signs = inl (refl, refl);
}

time_nanos_inverse_example :
    (time_from_nanos (time_nanos start) ≡ start)
    × (time_nanos (time_from_nanos (pos 5000000001)) ≡ pos 5000000001)
    × IsNormalTime (time_from_nanos (pos 5000000001))
time_nanos_inverse_example = time_nanos_inverse start 5000000001 (omega arith) (omega arith)
