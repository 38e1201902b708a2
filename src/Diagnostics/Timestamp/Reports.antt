-- ===== src/Diagnostics/Timestamp/Reports.antt =====
-- The report of a timestamp task on the ticks since its last run:
-- rosrust_diagnostics/src/tasks/timestamp_status.rs.
use rosrust.Prelude.{◌≡◌, ap, ◌∙◌, Bool, not, ◌&&◌, ◌||◌, List, Bytes, codes, if◌then◌else◌, arith}
use rosrust.Time.Seconds.{Floats}
use rosrust.Diagnostics.{Level, Status, set_summary, add}
use rosrust.Diagnostics.Timestamp.{
  Counter, TimestampStatus, up, clear_last_reading, check_early, check_late, check_zero, summarize,
  add_values, timestamp_run,
}
use rosrust.Diagnostics.Timestamp.Ticks.{
  MinMax, Tick, tick_each, any_zero, delays, any, is_some, below, above, each-valid, each-zero,
  each-counts, each-below, each-above,
}

module _ (f : Floats) where
  -- The level, the message and the counters after a run, given whether there is a delay, whether one is below the
  -- acceptable range, whether one is above it, and whether a timestamp was zero.
  abbrev pub level_for : Bool → Bool → Bool → Bool → Level
  level_for some_delay low high zero =
      if not some_delay then Level.warn else if zero || (high || low) then Level.error else Level.ok

  -- Its message: of the reasons that occurred, the one that is tested last.
  abbrev pub message_for : Bool → Bool → Bool → Bool → Bytes
  message_for some_delay low high zero =
      if not some_delay
      then codes "No data since last update."
      else if zero
      then codes "Zero timestamp seen."
      else if high
      then codes "Timestamps too far in past seen."
      else if low
      then codes "Timestamps too far in future seen."
      else codes "Timestamps are reasonable."

  abbrev pub count_for : Bool → Bool → Bool → Bool → Counter → Counter
  count_for some_delay low high zero c = record {
    early = if some_delay && low then up f c.early else c.early;
    late = if some_delay && high then up f c.late else c.late;
    zero = if some_delay && zero then up f c.zero else c.zero;
  }

  run-for :
      (task : TimestampStatus (f.F)) (s : Status)
      → ((timestamp_run f task s).0.level
          ≡ level_for task.tracker.delta_valid
              (below f task.tracker task.acceptable.min)
              (above f task.tracker task.acceptable.max)
              task.tracker.zero_seen)
        × ((timestamp_run f task s).0.message
            ≡ message_for task.tracker.delta_valid
                (below f task.tracker task.acceptable.min)
                (above f task.tracker task.acceptable.max)
                task.tracker.zero_seen)
        × ((timestamp_run f task s).1.tracker.counts
            ≡ count_for task.tracker.delta_valid
                (below f task.tracker task.acceptable.min)
                (above f task.tracker task.acceptable.max)
                task.tracker.zero_seen
                task.tracker.counts)
  unfolding timestamp_run summarize check_early check_late check_zero set_summary add_values add
      clear_last_reading
  run-for task s = ground arith

  run-as :
      (task : TimestampStatus (f.F)) (s : Status) {c : Counter}
      → task.tracker.counts ≡ c
      → ((timestamp_run f task s).0.level
          ≡ level_for task.tracker.delta_valid
              (below f task.tracker task.acceptable.min)
              (above f task.tracker task.acceptable.max)
              task.tracker.zero_seen)
        × ((timestamp_run f task s).0.message
            ≡ message_for task.tracker.delta_valid
                (below f task.tracker task.acceptable.min)
                (above f task.tracker task.acceptable.max)
                task.tracker.zero_seen)
        × ((timestamp_run f task s).1.tracker.counts
            ≡ count_for task.tracker.delta_valid
                (below f task.tracker task.acceptable.min)
                (above f task.tracker task.acceptable.max)
                task.tracker.zero_seen
                c)
  run-as task s h = (
    (run-for task s).0,
    (run-for task s).1,
    (run-for task s).2
        ∙ ap
            (λ (c : Counter).
              count_for task.tracker.delta_valid (below f task.tracker task.acceptable.min)
                (above f task.tracker task.acceptable.max) task.tracker.zero_seen c)
            h,
  )

  -- When a task that has cleared its last reading sees ticks and then runs, the level of its report is a
  -- warning if no tick had a timestamp; else it is an error just if a timestamp was zero or the delay of
  -- one was outside the acceptable range. The message names the reason: a timestamp of zero, before one
  -- that is too far in the past, before one that is too far in the future. When a tick had a timestamp,
  -- each of the three reasons that occurred raises its counter by one; with no timestamp but zeros none is
  -- raised. All of this is so if the least and the greatest of two numbers are below and above the limits
  -- that one of the two is.
  pub run-ticks :
      (laws : MinMax f) (ticks : List (Tick f)) (task : TimestampStatus (f.F)) (s : Status)
      → ((timestamp_run f
            (record task { tracker = tick_each f ticks (clear_last_reading f task.tracker) })
            s).0.level
          ≡ level_for
              (is_some f (delays f ticks))
              (any f (λ d. f.lt d task.acceptable.min) (delays f ticks))
              (any f (λ d. f.lt task.acceptable.max d) (delays f ticks))
              (any_zero f ticks))
        × ((timestamp_run f
              (record task { tracker = tick_each f ticks (clear_last_reading f task.tracker) })
              s).0.message
            ≡ message_for
                (is_some f (delays f ticks))
                (any f (λ d. f.lt d task.acceptable.min) (delays f ticks))
                (any f (λ d. f.lt task.acceptable.max d) (delays f ticks))
                (any_zero f ticks))
        × ((timestamp_run f
              (record task { tracker = tick_each f ticks (clear_last_reading f task.tracker) })
              s).1.tracker.counts
            ≡ count_for
                (is_some f (delays f ticks))
                (any f (λ d. f.lt d task.acceptable.min) (delays f ticks))
                (any f (λ d. f.lt task.acceptable.max d) (delays f ticks))
                (any_zero f ticks)
                task.tracker.counts)
  unfolding clear_last_reading
  run-ticks laws ticks task s =
      rw⁻¹
        (
          each-below f laws task.acceptable.min ticks (clear_last_reading f task.tracker),
          each-above f laws task.acceptable.max ticks (clear_last_reading f task.tracker),
          each-zero f ticks (clear_last_reading f task.tracker),
          each-valid f ticks (clear_last_reading f task.tracker),
        )
        (run-as (record task { tracker = tick_each f ticks (clear_last_reading f task.tracker) }) s
          (each-counts f ticks (clear_last_reading f task.tracker)))
