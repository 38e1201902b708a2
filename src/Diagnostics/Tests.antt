-- ===== src/Diagnostics/Tests.antt =====
-- Witnesses and tests of the diagnostics. The numbers of type `f64` are hundredths here.
use rosrust.Prelude.{
  ℕ, ◌≡◌, refl, Bool, true, false, not, ◌||◌, some, List, [], ◌∷◌, ◌++◌, codes, arith,
  if◌then◌else◌, ◌==◌,
}
use rosrust.Prelude.Int.{ℤ, pos, ltb_ℤ, ◌+ℤ◌, ◌-ℤ◌, ◌*ℤ◌}
use rosrust.Time.{Time, since}
use rosrust.Time.Seconds.{Floats, duration_seconds}
use rosrust.Diagnostics.{
  Level, Status, DiagnosticStatus, new, default_status, set_summary, merge_summary_with,
}
use rosrust.Diagnostics.Summaries.{Rising}
use rosrust.Diagnostics.Composite.{
  Task, CompositeTask, function_task, heartbeat, composite_run, as_task,
}
use rosrust.Diagnostics.Composite.Reports.{reports, last, worst, verdict, composite_run-reports}
use rosrust.Diagnostics.Composite.Nesting.{composite_run-nested}
use rosrust.Diagnostics.Updater.{Updater, Readings, updater_new}
use rosrust.Diagnostics.Timestamp.{
  TimestampStatus, timestamp_new, timestamp_run, clear_last_reading,
}
use rosrust.Diagnostics.Timestamp.Ticks.{MinMax, tick_each}
use rosrust.Diagnostics.Timestamp.Reports.{level_for, message_for, count_for, run-ticks}
use rosrust.Diagnostics.Frequency.{FrequencyStatus, frequency_new, frequency_run, report}
use rosrust.Diagnostics.Frequency.Window.{after_ticks, pass_each, run-window}

abbrev number : Level → ℤ
number Level.ok = pos 0
number Level.warn = pos 1
number Level.error = pos 2

number-Rising : Rising number
number-Rising = (omega arith, omega arith)

abbrev hundredths : ℤ → ℕ → ℤ
hundredths n d = if d == 1 then n *ℤ pos 10 else n

abbrev floats : Floats
floats = record {
  F = ℤ;
  decimal = hundredths;
  infinity = pos 1_000_000;
  of_ℤ = λ n. n *ℤ pos 100;
  plus = λ a b. a +ℤ b;
  minus = λ a b. a -ℤ b;
  times = λ a b. a *ℤ b;
  div = λ a b. a;
  min = λ a b. if ltb_ℤ b a then b else a;
  max = λ a b. if ltb_ℤ a b then b else a;
  lt = ltb_ℤ;
  eq = λ a b. not (ltb_ℤ a b || ltb_ℤ b a);
  show = λ a. [];
}

floats-MinMax : MinMax floats
floats-MinMax = record { lt-min = λ a b c. ground arith; lt-max = λ a b c. ground arith }

-- A task that warns, and one that fails.
abbrev warm : Task
warm = function_task (codes "warm") (set_summary Level.warn (codes "warm"))

abbrev broken : Task
broken = function_task (codes "broken") (set_summary Level.error (codes "broken"))

abbrev both : CompositeTask
both = record { name = codes "both"; tasks = warm ∷ broken ∷ [] }

composite_test :
    composite_run number (heartbeat ∷ warm ∷ broken ∷ []) default_status
    ≡ new Level.error (codes "warm; broken")
unfolding composite_run rosrust.Diagnostics.Composite.heartbeat_run
composite_test = refl

composite_run-reports_example :
    composite_run number (heartbeat ∷ warm ∷ []) default_status
    ≡ record (last default_status (
        reports default_status.level default_status.message
          (heartbeat ∷ warm ∷ [])
          default_status)) {
            level = worst (reports Level.ok [] (heartbeat ∷ warm ∷ []) default_status);
            message = verdict (reports Level.ok [] (heartbeat ∷ warm ∷ []) default_status);
          }
composite_run-reports_example =
    composite_run-reports number (heartbeat ∷ warm ∷ []) default_status number-Rising

composite_run-nested_example :
    composite_run number ((heartbeat ∷ []) ++ (as_task number both ∷ (warm ∷ []))) default_status
    ≡ composite_run number ((heartbeat ∷ []) ++ (both.tasks ++ (warm ∷ []))) default_status
composite_run-nested_example =
    composite_run-nested number (heartbeat ∷ []) both (warm ∷ []) default_status number-Rising

abbrev takes : List DiagnosticStatus → Bool
takes _ = true

abbrev fresh : Updater ℤ
fresh = updater_new floats number takes

abbrev soon : Readings ℤ
soon = record { check = pos 350; compare = pos 350; refresh = pos 350; period = some (pos 100) }

abbrev watch : TimestampStatus ℤ
watch = timestamp_new floats (pos 0) (pos 500) (codes "watch")

run-ticks_example :
    ((timestamp_run floats
        (record watch {
          tracker =
              tick_each floats
                ((pos 700, pos 100) ∷ (pos 700, pos 0) ∷ [])
                (clear_last_reading floats watch.tracker);
        })
        default_status).0.level
      ≡ level_for floats true false true true)
    × ((timestamp_run floats
          (record watch {
            tracker =
                tick_each floats
                  ((pos 700, pos 100) ∷ (pos 700, pos 0) ∷ [])
                  (clear_last_reading floats watch.tracker);
          })
          default_status).0.message
        ≡ message_for floats true false true true)
    × ((timestamp_run floats
          (record watch {
            tracker =
                tick_each floats
                  ((pos 700, pos 100) ∷ (pos 700, pos 0) ∷ [])
                  (clear_last_reading floats watch.tracker);
          })
          default_status).1.tracker.counts
        ≡ count_for floats true false true true watch.tracker.counts)
unfolding timestamp_new ◌*ℤ◌ ◌-ℤ◌
run-ticks_example =
    run-ticks floats floats-MinMax ((pos 700, pos 100) ∷ (pos 700, pos 0) ∷ []) watch default_status

abbrev at_second : ℕ → Time
at_second n = record { sec = n; nsec = 0 }

abbrev pace : FrequencyStatus ℤ
pace = frequency_new floats (at_second 0) (pos 0) (pos 1000) (pos 10) 2 (codes "pace") false

run-window_example :
    (frequency_run floats
      (at_second 9)
      (after_ticks floats 4 (pass_each floats ((7, at_second 1) ∷ (5, at_second 2) ∷ []) pace))
      default_status).0
    ≡ report floats pace 9 16
        (duration_seconds floats (since (at_second 9) (at_second 1)))
        default_status
unfolding frequency_new
run-window_example =
    run-window floats 7 (at_second 1) ((5, at_second 2) ∷ []) 4 (at_second 9) default_status pace
      (omega arith) refl
