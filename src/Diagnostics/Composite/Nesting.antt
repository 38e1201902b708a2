-- ===== src/Diagnostics/Composite/Nesting.antt =====
-- Composite tasks inside composite tasks: rosrust_diagnostics/src/composite_task.rs.
use rosrust.Prelude.{◌≡◌, refl, ap, sym, ◌∙◌, false, List, [], ◌∷◌, ◌++◌, Bytes}
use rosrust.Prelude.Int.{ℤ}
use rosrust.Diagnostics.{Level, Status, set_summary, copy_summary}
use rosrust.Diagnostics.Summaries.{Rising, merge_summary_with-tell}
use rosrust.Diagnostics.Composite.{
  Task, CompositeTask, CompositeTaskRunner, runner_new, runner_run, apply_summary, run_each,
  composite_run, as_task,
}
use rosrust.Diagnostics.Composite.Reports.{
  max-ok, tell-nil, told-verdict, run_each-told, composite_run-reports,
}

-- The runner as the next task will see it: the level and the message of the target are overwritten.
abbrev reset : CompositeTaskRunner → CompositeTaskRunner
reset r = record r { target = record (r.target) { level = r.level; message = r.message } }

-- What the drop of the runner leaves after these tasks.
abbrev finish : (Level → ℤ) → List Task → CompositeTaskRunner → Status
finish number tasks r = (apply_summary (run_each number tasks r)).target

finish-reset :
    (number : Level → ℤ) (tasks : List Task) (r : CompositeTaskRunner)
    → r.finished ≡ false
    → finish number tasks (reset r) ≡ finish number tasks r
unfolding run_each runner_run set_summary apply_summary copy_summary
finish-reset number [] r h = rw h refl
finish-reset number (task ∷ tasks) r h = refl

run_each-append :
    (number : Level → ℤ) (front back : List Task) (r : CompositeTaskRunner)
    → run_each number (front ++ back) r ≡ run_each number back (run_each number front r)
unfolding run_each
run_each-append number [] back r = refl
run_each-append number (task ∷ front) back r =
    run_each-append number front back (runner_run number task r)

run_each-keeps :
    (number : Level → ℤ) (tasks : List Task) (r : CompositeTaskRunner)
    → Rising number
    → (run_each number tasks r).finished ≡ r.finished
run_each-keeps number tasks r h = rw (run_each-told number tasks r h) refl

nested :
    (number : Level → ℤ) (name : Bytes) (tasks : List Task) (r : CompositeTaskRunner)
    → Rising number
    → reset (runner_run number (as_task number (record { name = name; tasks = tasks })) r)
      ≡ reset (run_each number tasks r)
unfolding runner_run as_task set_summary
nested number name [] r h =
    rw
      (
        merge_summary_with-tell number _ r.combination h,
        max-ok r.combination.level,
        tell-nil r.combination.level,
      )
      refl
nested number name (task ∷ tasks) r h =
    rw
      (
        merge_summary_with-tell number _ r.combination h,
        composite_run-reports number (task ∷ tasks) _ h,
        run_each-told number (task ∷ tasks) r h,
        told-verdict,
      )
      refl

swapped :
    (number : Level → ℤ) (inner : CompositeTask) (after : List Task) (r : CompositeTaskRunner)
    → Rising number
    → r.finished ≡ false
    → finish number (as_task number inner ∷ after) r ≡ finish number (inner.tasks ++ after) r
unfolding run_each
swapped number inner after r h e =
    sym (finish-reset number after (runner_run number (as_task number inner) r) e)
    ∙ ap (finish number after) (nested number inner.name inner.tasks r h)
    ∙ finish-reset number after (run_each number inner.tasks r)
        (run_each-keeps number inner.tasks r h ∙ e)
    ∙ sym (
        ap (λ (q : CompositeTaskRunner). (apply_summary q).target)
          (run_each-append number inner.tasks after r))

-- A composite task inside another does what its tasks do in its place, if the numbers of the levels rise.
pub composite_run-nested :
    (number : Level → ℤ) (before : List Task) (inner : CompositeTask) (after : List Task)
    (s : Status)
    → Rising number
    → composite_run number (before ++ (as_task number inner ∷ after)) s
      ≡ composite_run number (before ++ (inner.tasks ++ after)) s
unfolding composite_run
composite_run-nested number before inner after s h =
    ap (λ (r : CompositeTaskRunner). (apply_summary r).target)
      (run_each-append number before (as_task number inner ∷ after) (runner_new s))
    ∙ swapped number inner after (run_each number before (runner_new s)) h
        (run_each-keeps number before (runner_new s) h)
    ∙ sym (
        ap (λ (r : CompositeTaskRunner). (apply_summary r).target)
          (run_each-append number before (inner.tasks ++ after) (runner_new s)))
