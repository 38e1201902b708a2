-- ===== src/Diagnostics/Frequency.antt =====
-- The task that watches the frequency of an event:
-- rosrust_diagnostics/src/tasks/frequency_status.rs. The counts are of type `usize`, of 64 bits, and wrap
-- around as they do in a build without overflow checks. The lock is not modelled: an operation is one
-- step, and the branch for a lock that cannot be had is left out.
use rosrust.Prelude.{
  ℕ, zero, suc, ◌+◌, ◌-◌, ◌%◌, Bool, true, false, not, ◌&&◌, Option, none, some, List, [], ◌∷◌,
  ◌++◌, if◌then◌else◌, Bytes, codes, decimal,
}
use rosrust.Prelude.Int.{ℤ, pos}
use rosrust.Time.{Time, since}
use rosrust.Time.Seconds.{Floats, duration_seconds}
use rosrust.Diagnostics.{Level, Status, usize_mod, set_summary, add}
pub mod Window

pub record FrequencyStatusBuilder (F : Type 0) : Type 0 where
  pub min_frequency : F
  pub max_frequency : F
  pub tolerance : F
  pub window_size : ℕ
  pub name : Bytes
  pub allow_no_events : Bool

pub record HistoryEntry : Type 0 where
  pub count : ℕ
  pub time : Time

pub record Tracker : Type 0 where
  pub count : ℕ
  pub history : List HistoryEntry
  pub window_size : ℕ

pub record FrequencyStatus (F : Type 0) : Type 0 where
  pub min_frequency : F
  pub max_frequency : F
  pub min_tolerated_frequency : F
  pub max_tolerated_frequency : F
  pub name : Bytes
  pub allow_no_events : Bool
  pub tracker : Tracker

-- An entry again and again.
abbrev pub fill : ℕ → HistoryEntry → List HistoryEntry
fill zero entry = []
fill (suc n) entry = entry ∷ fill n entry

-- `Tracker::clear`, at this time.
unfoldable pub clear : Time → Tracker → Tracker
clear now t = record t {
  count = 0;
  history = fill t.window_size (record { count = 0; time = now });
}

unfoldable pub tracker_new : Time → ℕ → Tracker
unfolding clear
tracker_new now window_size =
    clear now (record { count = 0; history = []; window_size = window_size })

unfoldable pub tick : Tracker → Tracker
tick t = record t { count = (t.count + 1) % usize_mod }

-- `-` of two counts.
abbrev pub minus_usize : ℕ → ℕ → ℕ
minus_usize a b = (a + (usize_mod - b)) % usize_mod

-- What `run` takes from the history: the oldest entry, and the tracker with a new one.
unfoldable pub next_entry : Time → Tracker → Option (HistoryEntry × Tracker)
next_entry now t = elim t.history [
  | [] ↦ none
  | start ∷ history ↦
      some (start, record t { history = history ++ (record { count = t.count; time = now } ∷ []) })
]

module _ (f : Floats) where
  unfoldable pub builder : FrequencyStatusBuilder (f.F)
  builder = record {
    min_frequency = f.decimal (pos 0) 1;
    max_frequency = f.infinity;
    tolerance = f.decimal (pos 1) 1;
    window_size = 5;
    name = codes "Frequency Status";
    allow_no_events = false;
  }

  -- `FrequencyStatus::new`, at this time.
  unfoldable pub frequency_new : Time → f.F → f.F → f.F → ℕ → Bytes → Bool → FrequencyStatus (f.F)
  unfolding tracker_new
  frequency_new now min_frequency max_frequency tolerance window_size name allow_no_events =
      record {
        min_frequency = min_frequency;
        max_frequency = max_frequency;
        min_tolerated_frequency = f.times min_frequency (f.minus (f.decimal (pos 10) 1) tolerance);
        max_tolerated_frequency = f.times max_frequency (f.plus (f.decimal (pos 10) 1) tolerance);
        name = name;
        allow_no_events = allow_no_events;
        tracker = tracker_new now window_size;
      }

  unfoldable pub build : Time → FrequencyStatusBuilder (f.F) → FrequencyStatus (f.F)
  unfolding frequency_new
  build now b =
      frequency_new now b.min_frequency b.max_frequency b.tolerance b.window_size b.name
        b.allow_no_events

  unfoldable pub frequency_to_summary : FrequencyStatus (f.F) → f.F → Level × Bytes
  frequency_to_summary task frequency =
      if f.eq frequency (f.decimal (pos 0) 1) && not task.allow_no_events
      then (Level.error, codes "No events recorded.")
      else if f.lt frequency task.min_tolerated_frequency
      then (Level.warn, codes "Frequency too low.")
      else if f.lt task.max_tolerated_frequency frequency
      then (Level.warn, codes "Frequency too high.")
      else (Level.ok, codes "Desired frequency met")

  unfoldable pub add_frequency_info : FrequencyStatus (f.F) → Status → Status
  unfolding add
  add_frequency_info task status =
      let s =
        if f.eq task.max_frequency task.min_frequency
        then add (codes "Target frequency (Hz)") (f.show task.min_frequency) status
        else status in
      let s' =
        if f.lt (f.decimal (pos 0) 1) task.min_frequency
        then add (codes "Minimum acceptable frequency (Hz)") (f.show task.min_tolerated_frequency) s
        else s in
      if not (f.eq task.max_frequency f.infinity)
      then add (codes "Maximum acceptable frequency (Hz)") (f.show task.max_tolerated_frequency) s'
      else s'

  -- The report of `run` on so many events, out of these in all, in a window of this length.
  unfoldable pub report : FrequencyStatus (f.F) → ℕ → ℕ → f.F → Status → Status
  unfolding frequency_to_summary add_frequency_info set_summary add
  report task events end_count window status =
      let frequency = f.div (f.of_ℤ (pos events)) window in
      let (level, message) = frequency_to_summary task frequency in
      add_frequency_info task (
        add (codes "Actual frequency (Hz)") (f.show frequency) (
          add (codes "Duration of window (s)") (f.show window) (
            add (codes "Events since startup") (decimal 20 end_count) (
              add (codes "Events in window") (decimal 20 events)
                (set_summary level message status)))))

  -- `Task::run`, at this time: the status, and the task with its tracker.
  unfoldable pub frequency_run :
      Time → FrequencyStatus (f.F) → Status → Status × FrequencyStatus (f.F)
  unfolding next_entry report set_summary since
  frequency_run now task status = elim (next_entry now task.tracker) [
    | none ↦ (
      set_summary Level.error
          (codes "History in frequency status tracker is unexpectedly missing elements.") status,
      task,
    )
    | some (start, tracker) ↦ (
      report task (minus_usize task.tracker.count start.count) task.tracker.count
          (duration_seconds f (since now start.time)) status,
      record task { tracker = tracker },
    )
  ]
