-- ===== src/Action/Client/Cancel.antt =====
-- `cancel` on a handle.
use mathlib.Core.Path.{subst}
use rosrust.Prelude.{◌≡◌, ◌≢◌, sym, ap, ◌∙◌, none, some, arith}
use rosrust.Action.Goal.{GoalState, GoalStatusArray, Goal, StatusCodes}
use rosrust.Action.CommState.{State, waiting_for_cancel_ack, done, silent}
use rosrust.Action.Client.{
  CommStateMachine, cancel, find, missing, mark_as_lost, update_status, update_status_inner,
  get_terminal_state,
}
use rosrust.Action.Client.Updates.{go_to-Keeps, go_to-state, inner-missing, mark_as_lost_fields}

ne : waiting_for_cancel_ack ≢ done
ne e = cc

module _ {G R F : Type 0} where
  missing_waiting :
      (s : State) (m : CommStateMachine G R F)
      → s ≡ waiting_for_cancel_ack
      → missing s m ≡ mark_as_lost m
  unfolding missing
  missing_waiting s m e = rw e

  terminal_lost :
      (m : CommStateMachine G R F)
      → m.latest_goal_status.state ≡ GoalState.lost
      → get_terminal_state m ≡ GoalState.lost
  unfolding get_terminal_state
  terminal_lost m e = ground arith

  cancel-Keeps :
      (m : CommStateMachine G R F)
      → ((cancel m).state ≡ waiting_for_cancel_ack)
        × ((cancel m).action_goal ≡ m.action_goal)
        × ((cancel m).latest_result ≡ m.latest_result)
  unfolding cancel
  cancel-Keeps m = (go_to-state _ _, (go_to-Keeps _ _).goal, (go_to-Keeps _ _).result)

module _ (k : StatusCodes) {G R F : Type 0} where
  -- `cancel` makes the goal wait for an acknowledgement in every state, `Done` included. A status
  -- list that does not name the goal any more then counts it as lost, whatever result it had: the
  -- result stays, but the terminal state that the handle shows is `Lost`.
  pub cancel_reopens :
      (a : GoalStatusArray) (m : CommStateMachine G R F)
      → find m.action_goal.id.id a.status_list ≡ none
      → ((cancel m).state ≡ waiting_for_cancel_ack)
        × ((update_status k a (cancel m)).state ≡ done)
        × ((update_status k a (cancel m)).latest_result ≡ m.latest_result)
        × (get_terminal_state (update_status k a (cancel m)) ≡ GoalState.lost)
  cancel_reopens a m absent =
      let (waits, goal, same) = cancel-Keeps m in
      let unnamed : find (cancel m).action_goal.id.id a.status_list ≡ none =
        subst (λ (x : Goal G). find x.id.id a.status_list ≡ none) (sym goal) absent in
      let outcome : update_status_inner k a (cancel m) ≡ (mark_as_lost (cancel m), some silent) =
        inner-missing k a (cancel m) (λ d. ne (sym waits ∙ d)) unnamed
        ∙ ap (λ x. (x, some silent)) (missing_waiting _ (cancel m) waits) in
      let (ends, kept, lost) = mark_as_lost_fields (cancel m) in
      rw (update_status, outcome) (waits, ends, kept ∙ same, terminal_lost _ lost)
