-- ===== src/Action/CommState/Diagram.antt =====
-- The table against the diagram of a client's goal.
use rosrust.Prelude.{ℕ, ◌≤◌, ◌<◌, ◌≡◌, ◌≢◌, refl, List, [], ◌∷◌, arith}
use rosrust.Action.Goal.{GoalState}
use rosrust.Action.CommState.{
  State, waiting_for_goal_ack, waiting_for_result, waiting_for_cancel_ack, done, Transition,
  no_transition, steps, transition_to,
}

-- The edges that a status of the server takes.
infix 40 ◌⟶◌
pub data ◌⟶◌ : State → State → Type 0 where
  accept : waiting_for_goal_ack ⟶ State.pending
  accept_active : waiting_for_goal_ack ⟶ State.active
  start : State.pending ⟶ State.active
  recall : State.pending ⟶ State.recalling
  reject : State.pending ⟶ waiting_for_result
  preempt : State.active ⟶ State.preempting
  finish : State.active ⟶ waiting_for_result
  cancel_recall : waiting_for_cancel_ack ⟶ State.recalling
  cancel_preempt : waiting_for_cancel_ack ⟶ State.preempting
  cancel_reject : waiting_for_cancel_ack ⟶ waiting_for_result
  recall_preempt : State.recalling ⟶ State.preempting
  recall_finish : State.recalling ⟶ waiting_for_result
  preempt_finish : State.preempting ⟶ waiting_for_result

ruleset edges = (
  accept, accept_active, start, recall, reject, preempt, finish, cancel_recall, cancel_preempt,
  cancel_reject, recall_preempt, recall_finish, preempt_finish,
)

-- A path of the diagram with the states that it visits.
pub data Follows : State → List State → State → Type 0 where
  here : {s : State} → Follows s [] s
  then : {s t u : State} {ss : List State} → s ⟶ t → Follows t ss u → Follows s (t ∷ ss) u

ruleset ways = (here, then, edges, tt)

-- Where a goal state leaves the client's goal that it moves.
unfoldable pub target : GoalState → State
target GoalState.pending = State.pending
target GoalState.active = State.active
target GoalState.preempting = State.preempting
target GoalState.recalling = State.recalling
target _ = waiting_for_result

pub target-ne-done : (g : GoalState) → target g ≢ done
unfolding target
target-ne-done GoalState.pending = λ e. cc
target-ne-done _ = λ e. cc

abbrev Lawful : State → GoalState → Transition → Type 0
Lawful s g (steps ss) = Follows s ss (target g)
Lawful s g _ = Unit

transition_to-Lawful : (s : State) (g : GoalState) → Lawful s g (transition_to s g)
unfolding transition_to target
transition_to-Lawful waiting_for_goal_ack GoalState.pending = search ways
transition_to-Lawful waiting_for_goal_ack _ = search ways
transition_to-Lawful State.pending GoalState.pending = search ways
transition_to-Lawful State.pending _ = search ways
transition_to-Lawful State.active GoalState.pending = search ways
transition_to-Lawful State.active _ = search ways
transition_to-Lawful waiting_for_result GoalState.pending = search ways
transition_to-Lawful waiting_for_result _ = search ways
transition_to-Lawful waiting_for_cancel_ack GoalState.pending = search ways
transition_to-Lawful waiting_for_cancel_ack _ = search ways
transition_to-Lawful State.recalling GoalState.pending = search ways
transition_to-Lawful State.recalling _ = search ways
transition_to-Lawful State.preempting GoalState.pending = search ways
transition_to-Lawful State.preempting _ = search ways
transition_to-Lawful done GoalState.pending = search ways
transition_to-Lawful done _ = search ways
transition_to-Lawful State.lost g = tt

-- The steps of the table are a path of the diagram, from the client's state to the state that the
-- goal state stands for.
pub transition_to-Follows :
    (s : State) (g : GoalState) {ss : List State}
    → transition_to s g ≡ steps ss
    → Follows s ss (target g)
transition_to-Follows s g h = rw h at (transition_to-Lawful s g)

-- After the path of a goal state, the same goal state is accepted and moves the client no further.
pub transition_to_again :
    (s : State) (g : GoalState) {ss : List State}
    → transition_to s g ≡ steps ss
    → transition_to (target g) g ≡ no_transition
unfolding transition_to target
transition_to_again s GoalState.pending h = refl
transition_to_again State.lost GoalState.lost h = cc
transition_to_again waiting_for_goal_ack GoalState.lost h = cc
transition_to_again _ GoalState.lost h = cc
transition_to_again _ _ h = refl

-- How far a client's goal has come. An edge leads further, so a path visits a state once.
unfoldable pub rank : State → ℕ
rank waiting_for_goal_ack = 0
rank State.pending = 1
rank State.active = 2
rank waiting_for_cancel_ack = 3
rank State.recalling = 4
rank State.preempting = 5
rank waiting_for_result = 6
rank done = 7
rank State.lost = 8

pub rank-le : (s : State) → s ≢ State.lost → rank s ≤ 7
unfolding rank
rank-le State.lost nl = absurd (nl refl)
rank-le _ nl = omega arith

pub ⟶-rank : {s t : State} → s ⟶ t → rank s < rank t
unfolding rank
⟶-rank accept = omega arith
⟶-rank _ = omega arith

-- The states of a path in ascending order above `n`, each step further than the one before.
abbrev pub Ascends : ℕ → List State → Type 0
Ascends n [] = Unit
Ascends n (s ∷ ss) = (n < rank s) × Ascends (rank s) ss

pub Follows-Ascends : {s u : State} {ss : List State} → Follows s ss u → Ascends (rank s) ss
Follows-Ascends here = tt
Follows-Ascends (then e f) = (⟶-rank e, Follows-Ascends f)
