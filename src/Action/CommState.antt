-- ===== src/Action/CommState.antt =====
-- rosrust_actionlib/src/action_client/comm_state_machine.rs: the states of a client's goal, and
-- the table of what a goal state that the server reports does to them.
use rosrust.Prelude.{ℕ, List, [], ◌∷◌}
use rosrust.Action.Goal.{GoalState}
pub mod Diagram

pub data State : Type 0 where
  waiting_for_goal_ack pending active waiting_for_result waiting_for_cancel_ack : State
  recalling preempting done lost : State

pub data Transition : Type 0 where
  no_transition : Transition
  invalid : State → GoalState → Transition
  funny_state : State → Transition
  unknown_status : GoalState → Transition
  steps : List State → Transition

-- Why a status is refused; `silent` is the error without a message, `unknown_code` a number that
-- is no goal state.
pub data Refusal : Type 0 where
  silent : Refusal
  refused : Transition → Refusal
  unknown_code : ℕ → Refusal

pub data Steps : Type 0 where
  ok : List State → Steps
  err : Refusal → Steps

-- `Transition::into_update_status_steps`.
unfoldable pub into_update_status_steps : Transition → Steps
into_update_status_steps no_transition = ok []
into_update_status_steps (invalid s g) = err (refused (invalid s g))
into_update_status_steps (funny_state s) = err (refused (funny_state s))
into_update_status_steps (unknown_status g) = err (refused (unknown_status g))
into_update_status_steps (steps ss) = ok ss

-- `State::transition_to`, a function for each state.
from_waiting_for_goal_ack : GoalState → Transition
from_waiting_for_goal_ack GoalState.pending = steps (State.pending ∷ [])
from_waiting_for_goal_ack GoalState.active = steps (State.active ∷ [])
from_waiting_for_goal_ack GoalState.rejected = steps (State.pending ∷ waiting_for_result ∷ [])
from_waiting_for_goal_ack GoalState.recalling = steps (State.pending ∷ State.recalling ∷ [])
from_waiting_for_goal_ack GoalState.recalled = steps (State.pending ∷ waiting_for_result ∷ [])
from_waiting_for_goal_ack GoalState.preempted =
    steps (State.active ∷ State.preempting ∷ waiting_for_result ∷ [])
from_waiting_for_goal_ack GoalState.succeeded = steps (State.active ∷ waiting_for_result ∷ [])
from_waiting_for_goal_ack GoalState.aborted = steps (State.active ∷ waiting_for_result ∷ [])
from_waiting_for_goal_ack GoalState.preempting = steps (State.active ∷ State.preempting ∷ [])
from_waiting_for_goal_ack GoalState.lost = unknown_status GoalState.lost

from_pending : GoalState → Transition
from_pending GoalState.pending = no_transition
from_pending GoalState.active = steps (State.active ∷ [])
from_pending GoalState.rejected = steps (waiting_for_result ∷ [])
from_pending GoalState.recalling = steps (State.recalling ∷ [])
from_pending GoalState.recalled = steps (State.recalling ∷ waiting_for_result ∷ [])
from_pending GoalState.preempted = steps (State.active ∷ State.preempting ∷ waiting_for_result ∷ [])
from_pending GoalState.succeeded = steps (State.active ∷ waiting_for_result ∷ [])
from_pending GoalState.aborted = steps (State.active ∷ waiting_for_result ∷ [])
from_pending GoalState.preempting = steps (State.active ∷ State.preempting ∷ [])
from_pending GoalState.lost = unknown_status GoalState.lost

from_active : GoalState → Transition
from_active GoalState.pending = invalid State.active GoalState.pending
from_active GoalState.active = no_transition
from_active GoalState.rejected = invalid State.active GoalState.rejected
from_active GoalState.recalling = invalid State.active GoalState.recalling
from_active GoalState.recalled = invalid State.active GoalState.recalled
from_active GoalState.preempted = steps (State.preempting ∷ waiting_for_result ∷ [])
from_active GoalState.succeeded = steps (waiting_for_result ∷ [])
from_active GoalState.aborted = steps (waiting_for_result ∷ [])
from_active GoalState.preempting = steps (State.preempting ∷ [])
from_active GoalState.lost = unknown_status GoalState.lost

-- `WaitingForResult` and `Done` have the same row.
from_finished : State → GoalState → Transition
from_finished s GoalState.rejected = no_transition
from_finished s GoalState.recalled = no_transition
from_finished s GoalState.preempted = no_transition
from_finished s GoalState.succeeded = no_transition
from_finished s GoalState.aborted = no_transition
from_finished s GoalState.lost = unknown_status GoalState.lost
from_finished waiting_for_result GoalState.active = no_transition
from_finished s g = invalid s g

from_waiting_for_cancel_ack : GoalState → Transition
from_waiting_for_cancel_ack GoalState.pending = no_transition
from_waiting_for_cancel_ack GoalState.active = no_transition
from_waiting_for_cancel_ack GoalState.rejected = steps (waiting_for_result ∷ [])
from_waiting_for_cancel_ack GoalState.recalling = steps (State.recalling ∷ [])
from_waiting_for_cancel_ack GoalState.recalled = steps (State.recalling ∷ waiting_for_result ∷ [])
from_waiting_for_cancel_ack GoalState.preempting = steps (State.preempting ∷ [])
from_waiting_for_cancel_ack GoalState.lost = unknown_status GoalState.lost
from_waiting_for_cancel_ack _ = steps (State.preempting ∷ waiting_for_result ∷ [])

from_recalling : GoalState → Transition
from_recalling GoalState.pending = invalid State.recalling GoalState.pending
from_recalling GoalState.active = invalid State.recalling GoalState.active
from_recalling GoalState.rejected = steps (waiting_for_result ∷ [])
from_recalling GoalState.recalling = no_transition
from_recalling GoalState.recalled = steps (waiting_for_result ∷ [])
from_recalling GoalState.preempting = steps (State.preempting ∷ [])
from_recalling GoalState.lost = unknown_status GoalState.lost
from_recalling _ = steps (State.preempting ∷ waiting_for_result ∷ [])

from_preempting : GoalState → Transition
from_preempting GoalState.preempted = steps (waiting_for_result ∷ [])
from_preempting GoalState.succeeded = steps (waiting_for_result ∷ [])
from_preempting GoalState.aborted = steps (waiting_for_result ∷ [])
from_preempting GoalState.preempting = no_transition
from_preempting GoalState.lost = unknown_status GoalState.lost
from_preempting g = invalid State.preempting g

unfoldable pub transition_to : State → GoalState → Transition
unfolding from_waiting_for_goal_ack from_pending from_active from_finished
    from_waiting_for_cancel_ack from_recalling from_preempting
transition_to waiting_for_goal_ack g = from_waiting_for_goal_ack g
transition_to State.pending g = from_pending g
transition_to State.active g = from_active g
transition_to waiting_for_result g = from_finished waiting_for_result g
transition_to waiting_for_cancel_ack g = from_waiting_for_cancel_ack g
transition_to State.recalling g = from_recalling g
transition_to State.preempting g = from_preempting g
transition_to done g = from_finished done g
transition_to State.lost g = funny_state State.lost
