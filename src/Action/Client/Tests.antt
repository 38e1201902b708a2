-- ===== src/Action/Client/Tests.antt =====
-- The client's theorems at a goal that is accepted, started and finished.
use rosrust.Prelude.{
  false, ℕ, zero, suc, ◌≤◌, ◌≡◌, refl, sym, ap, ◌∙◌, true, none, List, [], ◌∷◌, length, codes,
  equal, arith,
}
use rosrust.Action.Goal.{
  GoalState, GoalId, GoalStatus, GoalStatusArray, Goal, Response, StatusCodes, default_time,
  default_header, try_from, to_raw, from_raw,
}
use rosrust.Action.CommState.{
  State, waiting_for_result, waiting_for_cancel_ack, done, transition_to, into_update_status_steps,
}
use rosrust.Action.CommState.Diagram.{Follows, target, rank, transition_to-Follows}
use rosrust.Action.Client.{
  CommStateMachine, find, update_status, update_status_inner, update_result, update_feedback,
  go_all, go_to, cancel, get_terminal_state, view,
}
use rosrust.Action.Client.Updates.{state_after, refusal_of, update_status_table}
use rosrust.Action.Client.Progress.{Descends, reported}
use rosrust.Action.Client.Runs.{
  Message, status, result, feedback, Outcome, run, started, run_reports, run-Outcome,
}
use rosrust.Action.Client.Cancel.{cancel_reopens}
use rosrust.Action.Simple.{
  SimpleGoalState, SimpleActionClient, simple_new, send_goal, get_simple_state,
}
use rosrust.Action.Simple.Callbacks.{Tally, count_done, handled, fresh, handled-Tally}
use rosrust.Action.Simple.Late.{transitions, send_goal-transitions}
use rosrust.Action.Client.Manager.{Surroundings, empty_manager}
use rosrust.Action.Client.Manager.Events.{Event, init, drop, message, happen_all}
use rosrust.Action.Client.Manager.Live.{view_of, follow_all, happen_all-live}

-- The numbers of the published message package.
abbrev number : GoalState → ℕ
number GoalState.pending = 0
number GoalState.active = 1
number GoalState.preempted = 2
number GoalState.succeeded = 3
number GoalState.aborted = 4
number GoalState.rejected = 5
number GoalState.preempting = 6
number GoalState.recalling = 7
number GoalState.recalled = 8
number GoalState.lost = 9

back : ℕ → GoalState
back zero = GoalState.pending
back (suc zero) = GoalState.active
back (suc (suc zero)) = GoalState.preempted
back (suc (suc (suc zero))) = GoalState.succeeded
back (suc (suc (suc (suc zero)))) = GoalState.aborted
back (suc (suc (suc (suc (suc zero))))) = GoalState.rejected
back (suc (suc (suc (suc (suc (suc zero)))))) = GoalState.preempting
back (suc (suc (suc (suc (suc (suc (suc zero))))))) = GoalState.recalling
back (suc (suc (suc (suc (suc (suc (suc (suc zero)))))))) = GoalState.recalled
back _ = GoalState.lost

back-number : (g : GoalState) → back (number g) ≡ g
unfolding back
back-number GoalState.pending = refl
back-number _ = refl

abbrev published : StatusCodes
published = record {
  code = number;
  injective = λ a b e. sym (back-number a) ∙ ap back e ∙ back-number b;
}

abbrev id : GoalId
id = record { id = codes "fibonacci-1"; stamp = default_time }

abbrev goal : Goal ℕ
goal = record { header = default_header; id = id; body = 7 }

abbrev with_state : GoalState → GoalStatus
with_state g = record { goal_id = id; state = g; text = codes "" }

abbrev statuses : GoalState → GoalStatusArray
statuses g = record {
  header = default_header;
  status_list = record { goal_id = id; status = number g; text = codes "" } ∷ [];
}

abbrev nothing : GoalStatusArray
nothing = record { header = default_header; status_list = [] }

abbrev sum : Response ℕ
sum = record { header = default_header; status = with_state GoalState.succeeded; body = 13 }

abbrev first : CommStateMachine ℕ ℕ ℕ
first = started goal true true

-- Accepted, preempted at once, and finished.
abbrev story : List (Message ℕ ℕ)
story =
    status (statuses GoalState.pending)
    ∷ feedback sum
    ∷ status (statuses GoalState.preempted)
    ∷ result sum
    ∷ status nothing
    ∷ []

story_reports :
    reported (run published story first).calls
    ≡ done ∷ waiting_for_result ∷ State.preempting ∷ State.active ∷ State.pending ∷ []
unfolding run update_status_inner update_result update_feedback go_all go_to find equal
    transition_to into_update_status_steps try_from to_raw from_raw
story_reports = refl

transition_to-Follows_example :
    Follows State.pending (State.recalling ∷ waiting_for_result ∷ []) (target GoalState.recalled)
transition_to-Follows_example =
    transition_to-Follows State.pending GoalState.recalled (unfold transition_to in refl)

update_status_table_example :
    ((update_status published (statuses GoalState.active) first).state
      ≡ state_after (transition_to first.state GoalState.active) first.state GoalState.active)
    × ((update_status published (statuses GoalState.active) first).latest_goal_status
        ≡ with_state GoalState.active)
    × ((update_status published (statuses GoalState.active) first).latest_result ≡ none)
    × ((update_status_inner published (statuses GoalState.active) first).1
        ≡ refusal_of (transition_to first.state GoalState.active))
update_status_table_example =
    update_status_table published (statuses GoalState.active) first
      {raw = record { goal_id = id; status = 1; text = codes "" }} {g = GoalState.active} (λ e. cc)
      (unfold find equal in refl) refl

run_reports_example :
    let m = run published story first in
    Descends (suc (rank m.state)) (reported m.calls) × (length (reported m.calls) ≤ 8)
run_reports_example = run_reports published goal true true story

run-Outcome_example : Outcome (run published story first)
run-Outcome_example = run-Outcome published goal true true story

cancel_reopens_example :
    let m = run published story first in
    ((cancel m).state ≡ waiting_for_cancel_ack)
    × ((update_status published nothing (cancel m)).state ≡ done)
    × ((update_status published nothing (cancel m)).latest_result ≡ m.latest_result)
    × (get_terminal_state (update_status published nothing (cancel m)) ≡ GoalState.lost)
cancel_reopens_example =
    cancel_reopens published nothing (run published story first) (unfold find in refl)

abbrev node : Surroundings
node = record {
  name = codes "/node";
  stamp = default_time;
  later = default_time;
  seconds = λ _. codes "0.0";
}

abbrev events : List (Event ℕ ℕ ℕ)
events =
    init node 5 true true
    ∷ message (status (statuses GoalState.active))
    ∷ init node 6 false true
    ∷ drop 0
    ∷ message (result sum)
    ∷ []

happen_all-live_example :
    view_of (happen_all published events empty_manager)
    ≡ follow_all published events (view_of empty_manager)
happen_all-live_example = happen_all-live published events empty_manager

-- The simple client, of which one goal was sent before.
abbrev busy : SimpleActionClient ℕ ℕ ℕ
busy = send_goal 1 true true true simple_new

handled-Tally_example :
    Tally
      (count_done (reported (run published story (started goal true true)).calls))
      (handled (run published story (started goal true true)).calls fresh).state
      (handled (run published story (started goal true true)).calls fresh).called
handled-Tally_example = handled-Tally published goal true story

send_goal-transitions_example :
    get_simple_state (transitions ((0, view first) ∷ []) (send_goal 2 true true true busy))
    ≡ SimpleGoalState.pending
unfolding send_goal
send_goal-transitions_example =
    send_goal-transitions 2 true true true ((0, view first) ∷ []) busy (omega arith, tt)
