-- ===== src/Diagnostics/Composite.antt =====
-- The diagnostic tasks of rosrust_diagnostics/src/task.rs, function_task.rs, tasks/heartbeat.rs and
-- composite_task.rs. A task is its name and what its run does to a status; the tasks that keep a state
-- of their own are the modules Frequency and Timestamp.
use rosrust.Prelude.{Bool, true, false, List, [], ◌∷◌, ◌++◌, if◌then◌else◌, Bytes, codes}
use rosrust.Prelude.Int.{ℤ}
use rosrust.Diagnostics.{
  Level, Status, default_status, set_summary, copy_summary, merge_summary_with,
}
pub mod Reports
pub mod Nesting

pub record Task : Type 0 where
  pub name : Bytes
  pub run : Status → Status

-- `FunctionTask`, which is what `into_task` makes.
abbrev pub function_task : Bytes → (Status → Status) → Task
function_task name function = record { name = name; run = function }

unfoldable pub heartbeat_run : Status → Status
unfolding set_summary
heartbeat_run s = set_summary Level.ok (codes "Alive") s

abbrev pub heartbeat : Task
heartbeat = record { name = codes "Heartbeat"; run = heartbeat_run }

pub record CompositeTask : Type 0 where
  pub name : Bytes
  pub tasks : List Task

abbrev pub composite_new : Bytes → CompositeTask
composite_new name = record { name = name; tasks = [] }

unfoldable pub composite_add_task : Task → CompositeTask → CompositeTask
composite_add_task task c = record c { tasks = c.tasks ++ (task ∷ []) }

-- The target is the status that the runner borrows: it is given back when the runner is dropped.
pub record CompositeTaskRunner : Type 0 where
  pub level : Level
  pub message : Bytes
  pub target : Status
  pub combination : Status
  pub finished : Bool

unfoldable pub runner_new : Status → CompositeTaskRunner
runner_new target = record {
  level = target.level;
  message = target.message;
  target = target;
  combination = default_status;
  finished = false;
}

unfoldable pub runner_run : (Level → ℤ) → Task → CompositeTaskRunner → CompositeTaskRunner
unfolding merge_summary_with set_summary
runner_run number task r =
    let target = task.run (set_summary r.level r.message r.target) in
    record r { target = target; combination = merge_summary_with number target r.combination }

unfoldable pub apply_summary : CompositeTaskRunner → CompositeTaskRunner
unfolding copy_summary
apply_summary r =
    if r.finished
    then r
    else record r { finished = true; target = copy_summary r.combination r.target }

-- The loop of `CompositeTask::run`, and the calls of the macro `run_diagnostics`.
unfoldable pub run_each : (Level → ℤ) → List Task → CompositeTaskRunner → CompositeTaskRunner
unfolding runner_run
run_each number [] r = r
run_each number (task ∷ tasks) r = run_each number tasks (runner_run number task r)

-- `CompositeTask::run`: the drop of the runner applies the summary.
unfoldable pub composite_run : (Level → ℤ) → List Task → Status → Status
unfolding run_each apply_summary runner_new
composite_run number tasks status =
    (apply_summary (run_each number tasks (runner_new status))).target

-- `run_diagnostics`: `finish` applies the summary, and the drop finds it applied.
unfoldable pub run_diagnostics : (Level → ℤ) → List Task → Status → Status
unfolding run_each apply_summary runner_new
run_diagnostics number tasks status =
    (apply_summary (apply_summary (run_each number tasks (runner_new status)))).target

-- A composite task as a task.
unfoldable pub as_task : (Level → ℤ) → CompositeTask → Task
unfolding composite_run
as_task number c = record { name = c.name; run = composite_run number c.tasks }
