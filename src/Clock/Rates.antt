-- ===== src/Clock/Rates.antt =====
-- A rate does not drift: its times are whole numbers of delays from its start.
use rosrust.Prelude.{ℕ, zero, suc, ◌+◌, ◌*◌, ◌<◌, ◌≡◌, ap, ◌∙◌, arith}
use rosrust.Prelude.Int.{pos, ◌+ℤ◌}
use rosrust.Time.{Time, Duration, billion, u32_mod, time_nanos, duration_nanos, add}
use rosrust.Time.Nanos.{nanos-time_from_nanos}
use rosrust.Clock.{rate_next, rate_after}
use rosrust.Clock.Wakes.{nanos}

pos_add : (a b : ℕ) → pos a +ℤ pos b ≡ pos (a + b)
unfolding ◌+ℤ◌
pos_add a b = ground arith

nanos_of : (t : Time) (n : ℕ) → time_nanos t ≡ pos n → nanos t ≡ n
unfolding time_nanos
nanos_of t n h = ground arith

rate_next-nanos :
    (delay : Duration) (now : Time) (step total : ℕ)
    → duration_nanos delay ≡ pos step
    → nanos now + step ≡ total
    → total < u32_mod * billion
    → nanos (rate_next delay now) ≡ total
unfolding rate_next add time_nanos
rate_next-nanos delay now step total d e h =
    let sum : time_nanos now +ℤ duration_nanos delay ≡ pos total =
      rw d (pos_add (nanos now) step ∙ ap pos e) in
    nanos_of (rate_next delay now) total (rw (rate_next, add, sum) (nanos-time_from_nanos total h))

-- After so many calls of `sleep` the time that a rate waits for is its start and so many delays, as
-- long as that time fits.
pub rate_after-nanos :
    (delay : Duration) (start : Time) (step n : ℕ)
    → duration_nanos delay ≡ pos step
    → nanos start + n * step < u32_mod * billion
    → nanos (rate_after delay start n) ≡ nanos start + n * step
unfolding rate_after
rate_after-nanos delay start step zero d h = omega arith
rate_after-nanos delay start step (suc n) d h =
    let split : suc n * step ≡ step + n * step = grind arith in
    let before = rate_after-nanos delay start step n d (omega arith) in
    rate_next-nanos delay (rate_after delay start n) step (nanos start + suc n * step) d
      (omega arith) h
