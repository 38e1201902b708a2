-- ===== src/Action/Server/State.antt =====
-- rosrust_actionlib/src/action_server/status_tracker.rs: what the server keeps of one goal.
use rosrust.Prelude.{
  decimal, ℕ, ◌+◌, ◌*◌, Bool, true, false, not, ◌&&◌, Option, none, some, [], ◌∷◌, ◌++◌,
  if◌then◌else◌, ◌==◌, Bytes, codes,
}
use rosrust.Time.{Time, billion}
use rosrust.Action.Goal.{GoalState, pending, GoalId, GoalStatus, Goal}

-- `StatusTracker`.
pub record StatusTracker (B : Type 0) : Type 0 where
  pub goal : Option (Goal B)
  pub goal_id : GoalId
  pub state : GoalState
  pub text : Bytes
  pub destruction_time : Option Time

-- `generate_id`, with the number that `GOAL_COUNT` gave.
unfoldable pub generate_id : Bytes → ℕ → Time → GoalId
unfolding decimal
generate_id name seq_id stamp = record {
  id =
      name
      ++ (codes "-"
          ++ (decimal 20 seq_id
              ++ (codes "-" ++ (decimal 20 stamp.sec ++ (codes "." ++ decimal 20 stamp.nsec)))));
  stamp = stamp;
}

abbrev pub is_empty : Bytes → Bool
is_empty [] = true
is_empty (_ ∷ _) = false

abbrev pub is_some : Option Time → Bool
is_some none = false
is_some (some _) = true

module _ {B : Type 0} where
  -- `StatusTracker::new_cancellation`.
  abbrev pub new_cancellation : Time → GoalId → GoalState → StatusTracker B
  new_cancellation now goal_id state = record {
    goal = none;
    goal_id = goal_id;
    state = state;
    text = [];
    destruction_time = some now;
  }

  -- `StatusTracker::new_goal`, given what `generate_id` would give.
  unfoldable pub new_goal : Time → GoalId → Goal B → StatusTracker B
  new_goal now generated g =
      let id = if is_empty g.id.id then generated else g.id in
      record {
        goal = some g;
        goal_id =
            if id.stamp.sec * billion + id.stamp.nsec == 0 then record id { stamp = now } else id;
        state = pending;
        text = [];
        destruction_time = none;
      }

  abbrev pub to_status : StatusTracker B → GoalStatus
  to_status t = record { goal_id = t.goal_id; state = t.state; text = t.text }

  -- `StatusTracker::mark_for_destruction`.
  unfoldable pub mark_for_destruction : Time → Bool → StatusTracker B → StatusTracker B
  mark_for_destruction now force t =
      if not force && is_some t.destruction_time
      then t
      else record t { destruction_time = some now }
