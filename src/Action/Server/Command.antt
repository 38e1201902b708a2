-- ===== src/Action/Server/Command.antt =====
-- The commands of rosrust_actionlib/src/action_server/server_goal_handle.rs, and the goal states
-- between which they move a goal.
use rosrust.Prelude.{◌≡◌, ◌⊎◌, inl, inr, refl, List, [], ◌∷◌, arith}
use rosrust.Action.Goal.{
  GoalState, pending, active, preempted, succeeded, aborted, rejected, preempting, recalling,
  recalled,
}

pub data ActionCommand : Type 0 where
  accepted canceled reject abort succeed cancel_requested : ActionCommand

pub data ActionPublishTarget : Type 0 where
  status result : ActionPublishTarget

-- `ActionCommand::publish_target`.
unfoldable pub publish_target : ActionCommand → ActionPublishTarget
publish_target accepted = status
publish_target cancel_requested = status
publish_target canceled = result
publish_target reject = result
publish_target abort = result
publish_target succeed = result

-- `ActionCommand::accepted_states`.
unfoldable pub accepted_states : ActionCommand → List GoalState
accepted_states accepted = pending ∷ recalling ∷ []
accepted_states canceled = pending ∷ recalling ∷ active ∷ preempting ∷ []
accepted_states reject = pending ∷ recalling ∷ []
accepted_states abort = preempting ∷ active ∷ []
accepted_states succeed = preempting ∷ active ∷ []
accepted_states cancel_requested = pending ∷ active ∷ []

-- `TransitionIssue`.
pub record TransitionIssue : Type 0 where
  pub target : ActionCommand
  pub accepts : List GoalState
  pub found : GoalState

pub data Transited : Type 0 where
  ok : GoalState → Transited
  err : TransitionIssue → Transited

-- `ActionCommand::do_transition`; the last clause is the arm `(target, status)`.
unfoldable pub do_transition : ActionCommand → GoalState → Transited
unfolding accepted_states
do_transition accepted pending = ok active
do_transition accepted recalling = ok preempting
do_transition canceled pending = ok recalled
do_transition canceled recalling = ok recalled
do_transition canceled active = ok preempted
do_transition canceled preempting = ok preempted
do_transition reject pending = ok rejected
do_transition reject recalling = ok rejected
do_transition abort preempting = ok aborted
do_transition abort active = ok aborted
do_transition succeed preempting = ok succeeded
do_transition succeed active = ok succeeded
do_transition cancel_requested pending = ok recalling
do_transition cancel_requested active = ok preempting
do_transition a s = err (record { target = a; accepts = accepted_states a; found = s })

-- `s` is one of the states.
abbrev pub In : GoalState → List GoalState → Type 0
In s [] = ⊥
In s (x ∷ xs) = (s ≡ x) ⊎ In s xs

-- Whether a goal in the state is over, with a result due, or goes on with a status.
unfoldable pub due : GoalState → ActionPublishTarget
due pending = status
due active = status
due preempting = status
due recalling = status
due _ = result

-- A command succeeds in exactly the states that its error message lists; the error names the
-- command, those states and the state found.
pub do_transition_iff :
    (a : ActionCommand) (s : GoalState)
    → (In s (accepted_states a) × ((g : GoalState) × (do_transition a s ≡ ok g)))
      ⊎ ((¬ In s (accepted_states a))
          × (do_transition a s
              ≡ err (record { target = a; accepts = accepted_states a; found = s })))
unfolding do_transition
do_transition_iff accepted pending = inl (inl refl, (active, refl))
do_transition_iff accepted recalling = inl (inr (inl refl), (preempting, refl))
do_transition_iff accepted _ = inr (λ h. ground arith, refl)
do_transition_iff canceled pending = inl (inl refl, (recalled, refl))
do_transition_iff canceled recalling = inl (inr (inl refl), (recalled, refl))
do_transition_iff canceled active = inl (inr (inr (inl refl)), (preempted, refl))
do_transition_iff canceled preempting = inl (inr (inr (inr (inl refl))), (preempted, refl))
do_transition_iff canceled _ = inr (λ h. ground arith, refl)
do_transition_iff reject pending = inl (inl refl, (rejected, refl))
do_transition_iff reject recalling = inl (inr (inl refl), (rejected, refl))
do_transition_iff reject _ = inr (λ h. ground arith, refl)
do_transition_iff abort preempting = inl (inl refl, (aborted, refl))
do_transition_iff abort active = inl (inr (inl refl), (aborted, refl))
do_transition_iff abort _ = inr (λ h. ground arith, refl)
do_transition_iff succeed preempting = inl (inl refl, (succeeded, refl))
do_transition_iff succeed active = inl (inr (inl refl), (succeeded, refl))
do_transition_iff succeed _ = inr (λ h. ground arith, refl)
do_transition_iff cancel_requested pending = inl (inl refl, (recalling, refl))
do_transition_iff cancel_requested active = inl (inr (inl refl), (preempting, refl))
do_transition_iff cancel_requested _ = inr (λ h. ground arith, refl)

-- A command that succeeds finds a goal that goes on, and is announced by a result exactly when it
-- brings the goal to an end; so nothing moves a goal that is over.
pub do_transition-due :
    (a : ActionCommand) (s : GoalState) {g : GoalState}
    → do_transition a s ≡ ok g
    → (due s ≡ status) × (due g ≡ publish_target a)
unfolding do_transition due publish_target
do_transition-due accepted pending h = ground arith
do_transition-due accepted _ h = ground arith
do_transition-due canceled pending h = ground arith
do_transition-due canceled _ h = ground arith
do_transition-due reject pending h = ground arith
do_transition-due reject _ h = ground arith
do_transition-due abort pending h = ground arith
do_transition-due abort _ h = ground arith
do_transition-due succeed pending h = ground arith
do_transition-due succeed _ h = ground arith
do_transition-due cancel_requested pending h = ground arith
do_transition-due cancel_requested _ h = ground arith
