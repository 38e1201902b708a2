-- ===== src/Diagnostics/Updater.antt =====
-- The updater of rosrust_diagnostics/src/updater.rs. The arrays that it hands to its publisher are in
-- the order in which it does so, without their headers; whether the publisher takes one is a parameter.
-- The clock, which each operation reads when it needs it, and the ROS parameter `~diagnostic_period`
-- are arguments. The warnings that a verbose updater logs are left out.
use rosrust.Prelude.{
  Bool, true, false, Option, none, some, List, [], ◌∷◌, ◌++◌, map, if◌then◌else◌, Bytes, codes,
  equal, not,
}
use rosrust.Prelude.Int.{ℤ, pos}
use rosrust.Time.Seconds.{Floats}
use rosrust.Diagnostics.{Level, Status, DiagnosticStatus, into}
use rosrust.Diagnostics.Composite.{Task}
pub mod Publishing

pub record CheckTracker (F : Type 0) : Type 0 where
  pub last_update : F
  pub last_check_time_seconds : F
  pub diagnostic_period_seconds : F

pub record Updater (F : Type 0) : Type 0 where
  pub published : List (List DiagnosticStatus)
  pub tasks : List Task
  pub hardware_id : Bytes
  pub verbose : Bool
  pub check_tracker : CheckTracker F

-- What the clock shows at the three places where an update reads it, and what the ROS parameter is.
pub record Readings (F : Type 0) : Type 0 where
  pub check : F
  pub compare : F
  pub refresh : F
  pub period : Option F

module _ (f : Floats) (number : Level → ℤ) (takes : List DiagnosticStatus → Bool) where
  unfoldable pub updater_new : Updater (f.F)
  updater_new = record {
    published = [];
    tasks = [];
    hardware_id = codes "none";
    verbose = false;
    check_tracker = record {
      last_update = f.decimal (pos 0) 1;
      last_check_time_seconds = f.decimal (pos 0) 1;
      diagnostic_period_seconds = f.decimal (pos 10) 1;
    };
  }

  unfoldable pub set_hardware_id : Bytes → Updater (f.F) → Updater (f.F)
  set_hardware_id hardware_id u = record u { hardware_id = hardware_id }

  unfoldable pub set_verbose : Bool → Updater (f.F) → Updater (f.F)
  set_verbose verbose u = record u { verbose = verbose }

  -- `CheckTracker::check_diagnostic_period`, at this time and with this value of the ROS parameter.
  unfoldable pub check_diagnostic_period :
      f.F → Option (f.F) → CheckTracker (f.F) → CheckTracker (f.F)
  check_diagnostic_period now_seconds period t =
      if f.lt now_seconds (f.plus t.last_check_time_seconds (f.decimal (pos 25) 2))
      then t
      else record t {
        last_check_time_seconds = now_seconds;
        diagnostic_period_seconds = elim period [ none ↦ f.decimal (pos 10) 1 | some p ↦ p ];
      }

  unfoldable pub should_update : Readings (f.F) → Updater (f.F) → Bool × Updater (f.F)
  unfolding check_diagnostic_period
  should_update r u =
      let tracker = check_diagnostic_period r.check r.period u.check_tracker in
      (
        f.lt (f.plus tracker.last_update tracker.diagnostic_period_seconds) r.compare,
        record u { check_tracker = tracker },
      )

  unfoldable pub refresh_last_time : f.F → Updater (f.F) → Updater (f.F)
  refresh_last_time now u = record u {
    check_tracker = record (u.check_tracker) { last_update = now };
  }

  -- `publish`: whether it worked, and the updater.
  unfoldable pub publish : List DiagnosticStatus → Updater (f.F) → Bool × Updater (f.F)
  publish status u = (takes status, record u { published = u.published ++ (status ∷ []) })

  unfoldable pub make_update_status : Updater (f.F) → Task → DiagnosticStatus
  unfolding into
  make_update_status u task = into number (
      task.run (record {
        level = Level.error;
        name = task.name;
        message = codes "No message was set";
        hardware_id = u.hardware_id;
        values = [];
      }))

  unfoldable pub make_broadcast_status_for : Updater (f.F) → Task → Level → Bytes → DiagnosticStatus
  unfolding into
  make_broadcast_status_for u task level message = into number (record {
    level = level;
    name = task.name;
    message = message;
    hardware_id = u.hardware_id;
    values = [];
  })

  unfoldable pub map_over_tasks :
      List Task → (Task → DiagnosticStatus) → Updater (f.F) → List DiagnosticStatus
  map_over_tasks extra_tasks handler u = map handler (u.tasks ++ extra_tasks)

  unfoldable pub make_update_statuses : List Task → Updater (f.F) → List DiagnosticStatus
  unfolding map_over_tasks make_update_status
  make_update_statuses extra_tasks u = map_over_tasks extra_tasks (make_update_status u) u

  unfoldable pub make_broadcast_statuses :
      List Task → Level → Bytes → Updater (f.F) → List DiagnosticStatus
  unfolding map_over_tasks make_broadcast_status_for
  make_broadcast_statuses extra_tasks level message u =
      map_over_tasks extra_tasks (λ task. make_broadcast_status_for u task level message) u

  unfoldable pub advertise_added_task : Task → Updater (f.F) → Bool × Updater (f.F)
  unfolding publish make_broadcast_status_for
  advertise_added_task task u =
      publish (make_broadcast_status_for u task Level.ok (codes "Node starting up") ∷ []) u

  unfoldable pub add_task : Task → Updater (f.F) → Bool × Updater (f.F)
  unfolding advertise_added_task
  add_task task u =
      let (advertisement_result, u') = advertise_added_task task u in
      (advertisement_result, record u' { tasks = u'.tasks ++ (task ∷ []) })

  unfoldable pub retain : Bytes → List Task → List Task
  retain name [] = []
  retain name (task ∷ tasks) =
      let kept = retain name tasks in if equal task.name name then kept else task ∷ kept

  unfoldable pub remove_task : Bytes → Updater (f.F) → Updater (f.F)
  unfolding retain
  remove_task name u = record u { tasks = retain name u.tasks }

  unfoldable pub force_update_with_extra : f.F → List Task → Updater (f.F) → Bool × Updater (f.F)
  unfolding publish refresh_last_time make_update_statuses
  force_update_with_extra now extra_tasks u =
      let u' = refresh_last_time now u in publish (make_update_statuses extra_tasks u') u'

  unfoldable pub force_update : f.F → Updater (f.F) → Bool × Updater (f.F)
  unfolding force_update_with_extra
  force_update now u = force_update_with_extra now [] u

  unfoldable pub update_with_extra :
      Readings (f.F) → List Task → Updater (f.F) → Bool × Updater (f.F)
  unfolding should_update force_update_with_extra
  update_with_extra r extra_tasks u =
      let (due, u') = should_update r u in
      if due then force_update_with_extra r.refresh extra_tasks u' else (true, u')

  unfoldable pub update : Readings (f.F) → Updater (f.F) → Bool × Updater (f.F)
  unfolding update_with_extra
  update r u = update_with_extra r [] u

  unfoldable pub broadcast_with_extra :
      List Task → Level → Bytes → Updater (f.F) → Bool × Updater (f.F)
  unfolding publish make_broadcast_statuses
  broadcast_with_extra extra_tasks level message u =
      publish (make_broadcast_statuses extra_tasks level message u) u

  unfoldable pub broadcast : Level → Bytes → Updater (f.F) → Bool × Updater (f.F)
  unfolding broadcast_with_extra
  broadcast level message u = broadcast_with_extra [] level message u
