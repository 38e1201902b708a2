-- ===== src/Action/Server/Tests.antt =====
-- A server with one goal running, and requests that reach it.
use rosrust.Prelude.{All}
use rosrust.Prelude.{
  ◌≡◌, refl, ◌⊎◌, inl, inr, ◌≢◌, ℕ, true, none, some, [], ◌∷◌, if◌then◌else◌, codes, equal, ◌==◌,
  Bool-cases, arith,
}
use rosrust.Prelude.Int.{pos, ◌+ℤ◌}
use rosrust.Time.{Time, time_nanos}
use rosrust.Action.Goal.{
  GoalState, GoalId, Goal, active, pending, recalled, preempting, lost, default_header,
}
use rosrust.Action.Server.Command.{
  accepted, canceled, succeed, cancel_requested, do_transition, due, publish_target, ok, err,
  TransitionIssue,
}
use rosrust.Action.Server.Agreement.{Later, now, next}
use rosrust.Action.Server.State.{StatusTracker, new_cancellation, mark_for_destruction}
use rosrust.Action.Server.List.{
  before, IsSorted, Items, get, remove_dead_keys, is_dead, dead_keys, remove_all, remove,
  to_status_array,
}
use rosrust.Action.Server.Handle.{
  Env, response, done, unpublished, refused, set_general, set_public, put, set_cancel_requested,
  publish, send, publish_response,
}
use rosrust.Action.Server.Handle.Commands.{set_general_cases, answered_once}
use rosrust.Action.Server.Handle.Settled.{settled, IsSettled, set_public-IsSettled}
use rosrust.Action.Server.Coordinator.{
  GoalCoordinator, OnRequest, filter_from, select, matches, matches_everything, cancel_each,
  cancel_one, add_status_tracker, handle_on_goal, handle_on_cancel,
}
use rosrust.Action.Server.Coordinator.Settled.{Keeps, handle_on_goal-IsSettled}
use rosrust.Action.Server.Coordinator.Marks.{
  IsMarked, KeepsMarks, set_public-IsMarked, handle_on_cancel_marks,
}
use rosrust.Action.Server.Coordinator.Cancels.{cancel_id, cancel-goal, late_goal}

abbrev at : ℕ → Time
at n = record { sec = n; nsec = 0 }

abbrev moment : ℕ → Env
moment n = record { now = at n; stamp = at n; is_ok = true; sends = true; name = codes "/server" }

abbrev nowhere : StatusTracker ℕ
nowhere = new_cancellation (at 0) (cancel_id []) recalled

abbrev wash : Goal ℕ
wash = record { header = default_header; id = record { id = codes "wash"; stamp = at 4 }; body = 7 }

-- The goal "dry" is running, "fold" ended at the fifth second.
abbrev running : StatusTracker ℕ
running = record {
  goal = some wash;
  goal_id = record { id = codes "dry"; stamp = at 1 };
  state = active;
  text = [];
  destruction_time = none;
}

abbrev ended : StatusTracker ℕ
ended = record {
  goal = none;
  goal_id = record { id = codes "fold"; stamp = at 1 };
  state = recalled;
  text = [];
  destruction_time = some (at 5);
}

abbrev store : ℕ → StatusTracker ℕ
store n = if n == 0 then running else if n == 1 then ended else nowhere

abbrev listed : Items
listed = (codes "dry", 0) ∷ (codes "fold", 1) ∷ []

abbrev washer : GoalCoordinator ℕ ℕ
washer = record {
  server = record {
    trackers = store;
    allocated = 2;
    items = listed;
    timeout = pos 5_000_000_000;
    goal_count = 1;
    published = [];
  };
  last_cancel_ns = pos 0;
}

-- A callback that accepts every goal, and one that cancels every goal.
abbrev accept_all : OnRequest ℕ ℕ
accept_all g h s = set_public (moment 9) 0 h none (codes "ok") accepted s

abbrev cancel_all : OnRequest ℕ ℕ
cancel_all g h s = set_public (moment 9) 0 h none (codes "stopped") canceled s

accept_all-Keeps : Keeps accept_all
accept_all-Keeps g h s q = set_public-IsSettled (moment 9) 0 h none (codes "ok") accepted s q

cancel_all-KeepsMarks : KeepsMarks cancel_all
cancel_all-KeepsMarks g h s n q =
    set_public-IsMarked (moment 9) 0 h none (codes "stopped") canceled s n q

washer-IsSettled : IsSettled washer.server
unfolding IsSettled settled due
washer-IsSettled n = elim (Bool-cases (n == 0)) [
  | inl p ↦ rw p refl
  | inr p ↦ elim (Bool-cases (n == 1)) [ inl q ↦ rw (p, q) refl | inr q ↦ rw (p, q) refl ]
]

listed-IsSorted : IsSorted listed
listed-IsSorted = unfold before in ((refl, tt), (tt, tt))

handle_on_goal-IsSettled_example :
    IsSettled (handle_on_goal (moment 8) 0 accept_all wash washer).1.server
handle_on_goal-IsSettled_example =
    handle_on_goal-IsSettled (moment 8) 0 accept_all wash washer accept_all-Keeps washer-IsSettled

-- "wash" is canceled before it arrives.
cancel-goal_example :
    let asked = (handle_on_cancel (moment 7) 0 cancel_all (cancel_id (codes "wash")) washer).1 in
    let (_, after) = handle_on_goal (moment 8) 0 accept_all wash asked in
    ((after.server.trackers 2).state ≡ recalled)
    × (get (codes "wash") after.server.items ≡ some 2)
    × (after.server.published
        ≡ response
            (at 8)
            (record { goal_id = cancel_id (codes "wash"); state = recalled; text = [] })
            0
          ∷ [])
cancel-goal_example =
    cancel-goal (moment 7) (moment 8) 0 accept_all cancel_all wash washer refl
      (unfold equal in (refl, (refl, tt)))

abbrev until_six : GoalId
until_six = record { id = []; stamp = at 6 }

until_six-fine : (handle_on_cancel (moment 7) 0 cancel_all until_six washer).0 ≡ true
unfolding handle_on_cancel filter_from time_nanos select matches matches_everything cancel_each
    cancel_one mark_for_destruction put set_cancel_requested set_general do_transition
    publish_target publish send remove_dead_keys dead_keys is_dead remove_all remove to_status_array
    set_public publish_response get equal add_status_tracker ◌+ℤ◌
until_six-fine = refl

until_six-fresh :
    get (codes "wash") (handle_on_cancel (moment 7) 0 cancel_all until_six washer).1.server.items
    ≡ none
unfolding handle_on_cancel filter_from time_nanos select matches matches_everything cancel_each
    cancel_one mark_for_destruction put set_cancel_requested set_general do_transition
    publish_target publish send remove_dead_keys dead_keys is_dead remove_all remove to_status_array
    set_public publish_response get equal add_status_tracker ◌+ℤ◌
until_six-fresh = refl

handle_on_cancel_marks_example :
    All
      (IsMarked (handle_on_cancel (moment 7) 0 cancel_all until_six washer).1.server)
      (select (filter_from until_six) store listed)
handle_on_cancel_marks_example =
    handle_on_cancel_marks (moment 7) 0 cancel_all until_six washer cancel_all-KeepsMarks
      until_six-fine

late_goal_example :
    let asked = (handle_on_cancel (moment 7) 0 cancel_all until_six washer).1 in
    let (fine, after) = handle_on_goal (moment 8) 0 accept_all wash asked in
    (fine ≡ true) × ((after.server.trackers asked.server.allocated).state ≡ recalled)
late_goal_example =
    late_goal (moment 7) (moment 8) 0 accept_all cancel_all until_six wash washer until_six-fine
      until_six-fresh (unfold time_nanos in refl) refl (unfold time_nanos in refl)

set_general_cases_example :
    let after = set_general (moment 8) 0 0 (some 3) (some (codes "dry")) succeed washer.server in
    ((issue : TransitionIssue) × (do_transition succeed active ≡ err issue)
      × (after ≡ (refused issue, washer.server)))
    ⊎ ((next : GoalState) × (do_transition succeed active ≡ ok next)
        × ((after.0 ≡ done) ⊎ (after.0 ≡ unpublished))
        × ((after.1.trackers 0).state ≡ next)
        × ((◌≡◌ {A = ℕ} 1 0) ⊎ (after.1.trackers 1 ≡ store 1)))
set_general_cases_example =
    set_general_cases (moment 8) 0 0 1 (some 3) (some (codes "dry")) succeed washer.server

pending-ne-lost : pending ≢ lost
pending-ne-lost p = ground arith

pending-Later-preempting : Later pending preempting
unfolding do_transition
pending-Later-preempting = next cancel_requested (next accepted now refl) refl

answered_once_example :
    let after = (set_general (moment 8) 0 0 (some 3) none succeed washer.server).1 in
    (issue : TransitionIssue) × (set_general (moment 9) 0 0 (some 3) none accepted after
      ≡ (refused issue, after))
unfolding do_transition publish_target
answered_once_example =
    answered_once (moment 8) (moment 9) 0 0 (some 3) none succeed accepted washer.server refl refl
