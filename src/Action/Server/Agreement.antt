-- ===== src/Action/Server/Agreement.antt =====
-- The server's goal states against the client's table.
use rosrust.Prelude.{◌≡◌, ◌≢◌, refl, arith}
use rosrust.Action.Goal.{
  GoalState, pending, active, preempted, succeeded, aborted, rejected, preempting, recalling,
  recalled, lost,
}
use rosrust.Action.CommState.{State, Transition, no_transition, steps, transition_to}
use rosrust.Action.CommState.Diagram.{target}
use rosrust.Action.Server.Command.{
  ActionCommand, accepted, canceled, reject, abort, succeed, cancel_requested, Transited, ok, err,
  do_transition,
}

-- The edges of the server's goal states.
data Edge : GoalState → GoalState → Type 0 where
  accept : Edge pending active
  accept_recalling : Edge recalling preempting
  recall : Edge pending recalled
  finish_recall : Edge recalling recalled
  preempt : Edge active preempted
  finish_preempt : Edge preempting preempted
  refuse : Edge pending rejected
  refuse_recalling : Edge recalling rejected
  fail : Edge active aborted
  fail_preempting : Edge preempting aborted
  finish : Edge active succeeded
  finish_preempting : Edge preempting succeeded
  cancel : Edge pending recalling
  cancel_active : Edge active preempting

ruleset edges = (
  accept, accept_recalling, recall, finish_recall, preempt, finish_preempt, refuse,
  refuse_recalling, fail, fail_preempting, finish, finish_preempting, cancel, cancel_active, tt,
)

abbrev Lawful : GoalState → Transited → Type 0
Lawful s (ok g) = Edge s g
Lawful s (err e) = Unit

do_transition-Lawful : (a : ActionCommand) (s : GoalState) → Lawful s (do_transition a s)
unfolding do_transition
do_transition-Lawful accepted pending = search edges
do_transition-Lawful accepted _ = search edges
do_transition-Lawful canceled pending = search edges
do_transition-Lawful canceled _ = search edges
do_transition-Lawful reject pending = search edges
do_transition-Lawful reject _ = search edges
do_transition-Lawful abort pending = search edges
do_transition-Lawful abort _ = search edges
do_transition-Lawful succeed pending = search edges
do_transition-Lawful succeed _ = search edges
do_transition-Lawful cancel_requested pending = search edges
do_transition-Lawful cancel_requested _ = search edges

-- Goal states that the commands of the server lead to.
pub data Later (s : GoalState) : GoalState → Type 0 where
  now : Later s s
  next : {g h : GoalState} (a : ActionCommand) → Later s g → do_transition a g ≡ ok h → Later s h

-- The table lets the status pass.
abbrev pub Passes : Transition → Type 0
Passes no_transition = Unit
Passes (steps ss) = Unit
Passes _ = ⊥

-- What a goal state can become, by the state of the client that it leads to; a goal that is over
-- stays as it is.
Allowed : GoalState → GoalState → Type 0
Allowed pending g = Passes (transition_to State.pending g)
Allowed active g = Passes (transition_to State.active g)
Allowed preempting g = Passes (transition_to State.preempting g)
Allowed recalling g = Passes (transition_to State.recalling g)
Allowed s g = s ≡ g

Allowed-refl : (s : GoalState) → s ≢ lost → Allowed s s
unfolding Allowed transition_to
Allowed-refl pending n = tt
Allowed-refl active n = tt
Allowed-refl preempting n = tt
Allowed-refl recalling n = tt
Allowed-refl _ n = refl

Edge-Allowed : (s : GoalState) {g h : GoalState} → Edge g h → Allowed s g → Allowed s h
unfolding Allowed transition_to
Edge-Allowed pending accept p = tt
Edge-Allowed pending _ p = tt
Edge-Allowed active accept p = ground arith
Edge-Allowed active _ p = ground arith
Edge-Allowed preempting accept p = ground arith
Edge-Allowed preempting _ p = ground arith
Edge-Allowed recalling accept p = ground arith
Edge-Allowed recalling _ p = ground arith
Edge-Allowed preempted accept p = cc
Edge-Allowed preempted _ p = cc
Edge-Allowed _ accept p = cc
Edge-Allowed _ _ p = cc

Later-Allowed : {s g : GoalState} → s ≢ lost → Later s g → Allowed s g
Later-Allowed n now = Allowed-refl _ n
Later-Allowed {s} n (next {g} a l e) =
    Edge-Allowed s (rw e at (do_transition-Lawful a g)) (Later-Allowed n l)

Allowed-Passes : (s g : GoalState) → s ≢ lost → Allowed s g → Passes (transition_to (target s) g)
unfolding Allowed transition_to target
Allowed-Passes pending g n p = p
Allowed-Passes active g n p = p
Allowed-Passes preempting g n p = p
Allowed-Passes recalling g n p = p
Allowed-Passes lost g n p = absurd (n refl)
Allowed-Passes _ g n p = rw (← p) tt

-- A client in the state that a goal state leads to takes any later goal state of the server with
-- no error, whatever statuses in between it has missed.
pub Later-Passes : {s g : GoalState} → s ≢ lost → Later s g → Passes (transition_to (target s) g)
Later-Passes n l = Allowed-Passes _ _ n (Later-Allowed n l)
