-- ===== src/Clock/Tests.antt =====
-- Runs of the theorems on clocks.
use rosrust.Prelude.{ℕ, ◌≡◌, refl, [], ◌∷◌, ◌++◌, arith}
use rosrust.Prelude.Int.{pos}
use rosrust.Time.{Time, Duration, duration_nanos}
use rosrust.Clock.{SimData, waits, ticks, happen_all}
use rosrust.Clock.Wakes.{Sorted}
use rosrust.Clock.Waits.{Mem, waits-woken}

abbrev at : ℕ → Time
at s = record { sec = s; nsec = 0 }

abbrev clock : SimData
clock = record {
  current = at 1;
  timeouts =
      record { timestamp = at 3; unparker = 0 } ∷ record { timestamp = at 5; unparker = 1 } ∷ [];
}

clock_Sorted : Sorted clock.timeouts
clock_Sorted = ((omega arith, tt), (tt, tt))

waits-woken_example :
    Mem
      (record { timestamp = at 6; unparker = 2 })
      (happen_all
        (waits 2 (at 6) ∷ ((ticks (at 4) ∷ waits 3 (at 9) ∷ []) ++ (ticks (at 7) ∷ [])))
        (clock, [])).1
waits-woken_example =
    waits-woken 2 (at 6) (at 7) (ticks (at 4) ∷ waits 3 (at 9) ∷ []) clock clock_Sorted
      (omega arith)

abbrev tenth : Duration
tenth = record { sec = pos 0; nsec = pos 100_000_000 }

tenth_nanos : duration_nanos tenth ≡ pos 100_000_000
unfolding duration_nanos
tenth_nanos = refl
