-- ===== src/Clock.antt =====
-- The clocks of rosrust/src/api/clock.rs. A thread that waits is the number of its parker: it goes on
-- when its timeout is dropped. A `BinaryHeap` is the list of its items in the order in which `pop`
-- gives them, the earliest timeout first; timeouts of the same time are in the order of arrival.
use Prim.Native.Nat.{Ordering}
use rosrust.Prelude.{
  Option, none, some, ℕ, zero, suc, ◌+◌, Bool, true, false, ◌||◌, List, [], ◌∷◌, ◌++◌,
  if◌then◌else◌, ◌==◌,
}
use rosrust.Prelude.Int.{ℤ, pos, ltb_ℤ}
use rosrust.Time.{Time, Duration, time_cmp, duration_cmp, time_from_nanos, add, as_u32}
pub mod Wakes
pub mod Waits
pub mod Rates
mod Tests

pub record Timeout : Type 0 where
  pub timestamp : Time
  pub unparker : ℕ

pub record SimData : Type 0 where
  pub current : Time
  pub timeouts : List Timeout

-- `>` on times.
unfoldable pub is_after : Time → Time → Bool
unfolding time_cmp
is_after t u = elim (time_cmp t u) [ Ordering.gt ↦ true | _ ↦ false ]

-- `BinaryHeap::push`.
unfoldable pub push : Timeout → List Timeout → List Timeout
unfolding is_after
push new [] = new ∷ []
push new (t ∷ timeouts) =
    let later = push new timeouts in
    if is_after t.timestamp new.timestamp then new ∷ t ∷ timeouts else t ∷ later

-- The loop of `trigger`: the timeouts that it drops, in their order, and those that stay.
unfoldable pub dropped : Time → List Timeout → List Timeout
unfolding is_after
dropped time [] = []
dropped time (t ∷ timeouts) =
    let later = dropped time timeouts in if is_after t.timestamp time then [] else t ∷ later

unfoldable pub staying : Time → List Timeout → List Timeout
unfolding is_after
staying time [] = []
staying time (t ∷ timeouts) =
    let later = staying time timeouts in if is_after t.timestamp time then t ∷ timeouts else later

-- `SimulatedClock::trigger`.
unfoldable pub trigger : Time → SimData → SimData
unfolding staying
trigger time data_ = record { current = time; timeouts = staying time data_.timeouts }

-- `SimulatedClock::wait_until`, up to the point where the thread parks.
unfoldable pub wait_until : ℕ → Time → SimData → SimData
unfolding push
wait_until thread timestamp data_ = record {
  current = data_.current;
  timeouts = push (record { timestamp = timestamp; unparker = thread }) data_.timeouts;
}

-- `SimulatedClock::sleep` and `await_init`: the time until which the thread waits, if it waits. The
-- two read the clock and then push the timeout, with the lock given up between.
unfoldable pub sleep_until : Duration → Time → Option Time
unfolding add
sleep_until d current =
    if ltb_ℤ d.sec (pos 0) || ltb_ℤ d.nsec (pos 0) then none else some (add current d)

unfoldable pub await_init : Time → Option Time
unfolding time_from_nanos time_cmp
await_init current = elim (time_cmp current (record { sec = 0; nsec = 0 })) [
  | Ordering.eq ↦ some (time_from_nanos (pos 1))
  | _ ↦ none
]

-- What happens to the clock: a thread starts to wait, or the time is set.
pub data Event : Type 0 where
  waits : ℕ → Time → Event
  ticks : Time → Event

-- The clock after the events, and the timeouts dropped on the way.
unfoldable pub happen : Event → SimData × List Timeout → SimData × List Timeout
unfolding wait_until trigger dropped
happen (waits thread t) (data_, woken) = (wait_until thread t data_, woken)
happen (ticks t) (data_, woken) = (trigger t data_, woken ++ dropped t data_.timeouts)

unfoldable pub happen_all : List Event → SimData × List Timeout → SimData × List Timeout
unfolding happen
happen_all [] s = s
happen_all (e ∷ events) s = happen_all events (happen e s)

-- `Rate::sleep`: the next time, until which it waits.
unfoldable pub rate_next : Duration → Time → Time
unfolding add
rate_next delay next = add next delay

-- The time after so many calls of `sleep`.
unfoldable pub rate_after : Duration → Time → ℕ → Time
unfolding rate_next
rate_after delay start zero = start
rate_after delay start (suc n) = rate_next delay (rate_after delay start n)
