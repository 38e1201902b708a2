-- ===== src/Action/Client.antt =====
-- rosrust_actionlib/src/action_client: the state machine of a client's goal and its handle. A
-- callback is taken to return without a call of the handle; what it was called with is recorded,
-- the latest call first.
use rosrust.Prelude.{
  ℕ, Bool, true, false, Option, none, some, List, [], ◌∷◌, if◌then◌else◌, Bytes, equal,
}
use rosrust.Action.Goal.{
  GoalState, GoalId, GoalStatus, GoalStatusRaw, GoalStatusArray, Goal, Response, StatusCodes,
  default_time, default_header, default_status, try_from, to_raw, from_raw,
}
use rosrust.Action.CommState.{
  State, waiting_for_goal_ack, waiting_for_result, waiting_for_cancel_ack, done, Refusal, silent,
  unknown_code, Steps, ok, err, into_update_status_steps, transition_to,
}
pub mod Updates
pub mod Progress
pub mod Runs
pub mod Cancel
pub mod Manager
mod Tests

-- What a `SyncClientGoalHandle` shows of the machine.
pub record View (R : Type 0) : Type 0 where
  pub comm_state : State
  pub goal_status : GoalStatus
  pub result : Option (Response R)

-- A call of a handler: `on_transition`, `on_feedback` or `send_cancel_handler`.
pub data Call (R F : Type 0) : Type 0 where
  transitioned : View R → Call R F
  fed_back : View R → F → Call R F
  cancel_sent : GoalId → Call R F

-- `CommStateMachine`; of the handlers it holds whether they are registered.
pub record CommStateMachine (G R F : Type 0) : Type 0 where
  pub action_goal : Goal G
  pub on_feedback : Bool
  pub on_transition : Bool
  pub state : State
  pub latest_goal_status : GoalStatus
  pub latest_result : Option (Response R)
  pub calls : List (Call R F)

abbrev pub is_done : State → Bool
is_done done = true
is_done _ = false

-- `find(|status| status.goal_id.id == …)`.
unfoldable pub find : Bytes → List GoalStatusRaw → Option GoalStatusRaw
find id [] = none
find id (s ∷ ss) = if equal s.goal_id.id id then some s else find id ss

terminal : GoalState → GoalState
terminal GoalState.pending = GoalState.lost
terminal GoalState.active = GoalState.lost
terminal GoalState.preempting = GoalState.lost
terminal GoalState.recalling = GoalState.lost
terminal g = g

abbrev pub status_array : StatusCodes → GoalStatus → GoalStatusArray
status_array k s = record { header = default_header; status_list = to_raw k s ∷ [] }

module _ {G R F : Type 0} where
  -- `CommStateMachine::new`, `register_on_feedback` and `register_on_transition`.
  abbrev pub new : Goal G → CommStateMachine G R F
  new action_goal = record {
    action_goal = action_goal;
    on_feedback = false;
    on_transition = false;
    state = waiting_for_goal_ack;
    latest_goal_status = default_status;
    latest_result = none;
    calls = [];
  }

  abbrev pub register_on_feedback : CommStateMachine G R F → CommStateMachine G R F
  register_on_feedback m = record m { on_feedback = true }

  abbrev pub register_on_transition : CommStateMachine G R F → CommStateMachine G R F
  register_on_transition m = record m { on_transition = true }

  abbrev pub view : CommStateMachine G R F → View R
  view m = record {
    comm_state = m.state;
    goal_status = m.latest_goal_status;
    result = m.latest_result;
  }

  -- `CommStateMachine::transition_to`.
  unfoldable pub go_to : State → CommStateMachine G R F → CommStateMachine G R F
  go_to s m =
      let m' = record m { state = s } in
      if m.on_transition then record m' { calls = transitioned (view m') ∷ m.calls } else m'

  -- `for step in steps { self.transition_to(*step) }`.
  unfoldable pub go_all : List State → CommStateMachine G R F → CommStateMachine G R F
  go_all [] m = m
  go_all (s ∷ ss) m = go_all ss (go_to s m)

  -- `CommStateMachine::update_feedback`.
  unfoldable pub update_feedback : Response F → CommStateMachine G R F → CommStateMachine G R F
  update_feedback f m =
      if equal m.action_goal.id.id f.status.goal_id.id
      then if is_done m.state
        then m
        else if m.on_feedback
        then record m { calls = fed_back (view m) f.body ∷ m.calls }
        else m
      else m

  -- `CommStateMachine::mark_as_lost`.
  unfoldable pub mark_as_lost : CommStateMachine G R F → CommStateMachine G R F
  mark_as_lost m =
      go_to done
        (record m { latest_goal_status = record (m.latest_goal_status) { state = GoalState.lost } })

  -- The goal is not in the list: `mark_as_lost` in the states that the closure lists.
  unfoldable pub missing : State → CommStateMachine G R F → CommStateMachine G R F
  missing waiting_for_goal_ack m = m
  missing waiting_for_result m = m
  missing done m = m
  missing _ m = mark_as_lost m

  unfoldable pub apply_steps :
      Steps → CommStateMachine G R F → CommStateMachine G R F × Option Refusal
  apply_steps (ok ss) m = (go_all ss m, none)
  apply_steps (err e) m = (m, some e)

module _ (k : StatusCodes) {G R F : Type 0} where
  -- The status found, with its number read as a goal state.
  unfoldable pub take_status :
      GoalStatusRaw
      → Option GoalState
      → CommStateMachine G R F
      → CommStateMachine G R F × Option Refusal
  unfolding apply_steps
  take_status raw none m = (m, some (unknown_code raw.status))
  take_status raw (some g) m =
      apply_steps (into_update_status_steps (transition_to m.state g))
        (record m { latest_goal_status = from_raw k raw })

  look_up : Option GoalStatusRaw → CommStateMachine G R F → CommStateMachine G R F × Option Refusal
  unfolding take_status
  look_up none m = (missing m.state m, some silent)
  look_up (some raw) m = take_status raw (try_from k raw.status) m

  -- `CommStateMachine::update_status_inner`, with its error beside the new state.
  unfoldable pub update_status_inner :
      GoalStatusArray → CommStateMachine G R F → CommStateMachine G R F × Option Refusal
  unfolding look_up
  update_status_inner a m =
      if is_done m.state
      then (m, some silent)
      else look_up (find m.action_goal.id.id a.status_list) m

  -- `CommStateMachine::update_status`, which only logs the error.
  abbrev pub update_status : GoalStatusArray → CommStateMachine G R F → CommStateMachine G R F
  update_status a m = (update_status_inner a m).0

  -- The states in which a result is logged as unexpected, and the others.
  unfoldable pub settle : State → GoalStatus → CommStateMachine G R F → CommStateMachine G R F
  settle done s m = m
  settle State.lost s m = m
  settle _ s m = go_to done (update_status (status_array k s) m)

  -- `CommStateMachine::update_result`.
  unfoldable pub update_result : Response R → CommStateMachine G R F → CommStateMachine G R F
  unfolding settle
  update_result r m =
      if equal m.action_goal.id.id r.status.goal_id.id
      then settle m.state r.status
          (record m { latest_goal_status = r.status; latest_result = some r })
      else m

module _ {G R F : Type 0} where
  -- `SyncClientGoalHandle::cancel`.
  unfoldable pub cancel : CommStateMachine G R F → CommStateMachine G R F
  cancel m = go_to waiting_for_cancel_ack (record m {
    calls = cancel_sent (record { id = m.action_goal.id.id; stamp = default_time }) ∷ m.calls;
  })

  -- `SyncClientGoalHandle::get_terminal_state`.
  unfoldable pub get_terminal_state : CommStateMachine G R F → GoalState
  unfolding terminal
  get_terminal_state m = terminal m.latest_goal_status.state
