-- ===== src/Diagnostics/Timestamp.antt =====
-- The task that watches timestamps: rosrust_diagnostics/src/tasks/timestamp_status.rs. The counters are
-- of type `usize`, of 64 bits. The lock is not modelled: an operation is one step.
use rosrust.Prelude.{ℕ, ◌+◌, ◌%◌, Bool, true, false, not, if◌then◌else◌, Bytes, codes, decimal}
use rosrust.Prelude.Int.{ℤ, pos, negsuc}
use rosrust.Time.{Time}
use rosrust.Time.Seconds.{Floats, time_seconds}
use rosrust.Diagnostics.{Level, Status, usize_mod, set_summary, add}
pub mod Ticks
pub mod Reports

pub record Counter : Type 0 where
  pub early : ℕ
  pub late : ℕ
  pub zero : ℕ

pub record Range (F : Type 0) : Type 0 where
  pub min : F
  pub max : F

pub record Tracker (F : Type 0) : Type 0 where
  pub counts : Counter
  pub zero_seen : Bool
  pub delta_range : Range F
  pub delta_valid : Bool

pub record TimestampStatus (F : Type 0) : Type 0 where
  pub acceptable : Range F
  pub name : Bytes
  pub tracker : Tracker F

pub record TimestampStatusBuilder (F : Type 0) : Type 0 where
  pub min_acceptable : F
  pub max_acceptable : F
  pub name : Bytes

module _ (f : Floats) where
  abbrev pub range_new : f.F → Range (f.F)
  range_new value = record { min = value; max = value }

  abbrev pub default_range : Range (f.F)
  default_range = range_new (f.decimal (pos 0) 1)

  abbrev pub default_tracker : Tracker (f.F)
  default_tracker = record {
    counts = record { early = 0; late = 0; zero = 0 };
    zero_seen = false;
    delta_range = default_range;
    delta_valid = false;
  }

  unfoldable pub combine_with : f.F → Range (f.F) → Range (f.F)
  combine_with value r = record { min = f.min r.min value; max = f.max r.max value }

  unfoldable pub builder : TimestampStatusBuilder (f.F)
  builder = record {
    min_acceptable = f.decimal (negsuc 9) 1;
    max_acceptable = f.decimal (pos 50) 1;
    name = codes "Timestamp Status";
  }

  unfoldable pub timestamp_new : f.F → f.F → Bytes → TimestampStatus (f.F)
  timestamp_new min_acceptable max_acceptable name = record {
    acceptable = record { min = min_acceptable; max = max_acceptable };
    name = name;
    tracker = default_tracker;
  }

  unfoldable pub build : TimestampStatusBuilder (f.F) → TimestampStatus (f.F)
  unfolding timestamp_new
  build b = timestamp_new b.min_acceptable b.max_acceptable b.name

  -- `tick_float`, when the clock shows this.
  unfoldable pub tick_float : f.F → f.F → Tracker (f.F) → Tracker (f.F)
  unfolding combine_with
  tick_float now timestamp t =
      let delta = f.minus now timestamp in
      if f.eq timestamp (f.decimal (pos 0) 1)
      then record t { zero_seen = true }
      else if t.delta_valid
      then record t { delta_range = combine_with delta t.delta_range }
      else record t { delta_valid = true; delta_range = range_new delta }

  unfoldable pub tick : Time → Time → Tracker (f.F) → Tracker (f.F)
  unfolding tick_float
  tick now timestamp t = tick_float (time_seconds f now) (time_seconds f timestamp) t

  unfoldable pub clear_last_reading : Tracker (f.F) → Tracker (f.F)
  clear_last_reading t = record t {
    zero_seen = false;
    delta_range = default_range;
    delta_valid = false;
  }

  abbrev pub up : ℕ → ℕ
  up n = (n + 1) % usize_mod

  abbrev State : Type 0
  State = Status × Counter

  -- The three tests of `run`, each on the status and the counters that the one before left.
  unfoldable pub check_early : Range (f.F) → Range (f.F) → Status × Counter → Status × Counter
  unfolding set_summary
  check_early acceptable delta (s, c) =
      if f.lt delta.min acceptable.min
      then (
        set_summary Level.error (codes "Timestamps too far in future seen.") s,
        record c { early = up c.early },
      )
      else (s, c)

  unfoldable pub check_late : Range (f.F) → Range (f.F) → Status × Counter → Status × Counter
  unfolding set_summary
  check_late acceptable delta (s, c) =
      if f.lt acceptable.max delta.max
      then (
        set_summary Level.error (codes "Timestamps too far in past seen.") s,
        record c { late = up c.late },
      )
      else (s, c)

  unfoldable pub check_zero : Bool → Status × Counter → Status × Counter
  unfolding set_summary
  check_zero zero_seen (s, c) =
      if zero_seen
      then (set_summary Level.error (codes "Zero timestamp seen.") s, record c { zero = up c.zero })
      else (s, c)

  -- The summary, and the counters.
  unfoldable pub summarize : TimestampStatus (f.F) → Status → Status × Counter
  unfolding check_early check_late check_zero set_summary
  summarize task status =
      let t = task.tracker in
      let s = set_summary Level.ok (codes "Timestamps are reasonable.") status in
      if not t.delta_valid
      then (set_summary Level.warn (codes "No data since last update.") s, t.counts)
      else check_zero t.zero_seen (
          check_late task.acceptable t.delta_range
            (check_early task.acceptable t.delta_range (s, t.counts)))

  -- The values that `run` adds.
  unfoldable pub add_values : Range (f.F) → Range (f.F) → Counter → Status → Status
  unfolding add
  add_values delta acceptable c s =
      add (codes "Zero seen diagnostic update count:") (decimal 20 c.zero) (
        add (codes "Early diagnostic update count:") (decimal 20 c.early) (
          add (codes "Late diagnostic update count:") (decimal 20 c.late) (
            add (codes "Latest acceptable timestamp delay:") (f.show acceptable.max) (
              add (codes "Earliest acceptable timestamp delay:") (f.show acceptable.min) (
                add (codes "Latest timestamp delay:") (f.show delta.max)
                  (add (codes "Earliest timestamp delay:") (f.show delta.min) s))))))

  -- `Task::run`: the status, and the task with its tracker.
  unfoldable pub timestamp_run : TimestampStatus (f.F) → Status → Status × TimestampStatus (f.F)
  unfolding summarize add_values clear_last_reading
  timestamp_run task status =
      let (s, counts) = summarize task status in
      (
        add_values task.tracker.delta_range task.acceptable counts s,
        record task { tracker = clear_last_reading (record (task.tracker) { counts = counts }) },
      )
