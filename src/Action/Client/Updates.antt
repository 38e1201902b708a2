-- ===== src/Action/Client/Updates.antt =====
-- What one message of the server, or a cancel, does to the client's state machine.
use rosrust.Prelude.{
  ◌≡◌, ◌≢◌, refl, sym, ap, ◌∙◌, ◌⊎◌, inl, inr, false, Option, none, some, List, [], ◌∷◌, arith,
  equal_iff,
}
use rosrust.Action.Goal.{
  GoalState, GoalStatus, GoalStatusRaw, GoalStatusArray, Response, StatusCodes, try_from_iff,
  to_raw, from_raw-reads,
}
use rosrust.Action.CommState.{
  State, waiting_for_goal_ack, waiting_for_result, done, steps, Steps, ok, err,
  into_update_status_steps, transition_to, Transition, no_transition, invalid, funny_state,
  unknown_status, silent, Refusal, refused,
}
use rosrust.Action.CommState.Diagram.{
  Follows, here, then, target, target-ne-done, transition_to-Follows,
}
use rosrust.Action.Client.{
  CommStateMachine, is_done, go_to, go_all, missing, mark_as_lost, find, apply_steps, take_status,
  update_status_inner, update_status, update_result, settle, status_array,
}

-- The states in which a status list without the goal counts it as lost.
abbrev pub Loses : State → Type 0
Loses waiting_for_goal_ack = ⊥
Loses waiting_for_result = ⊥
Loses done = ⊥
Loses _ = Unit

is_done_iff : (s : State) → s ≢ done → is_done s ≡ false
is_done_iff s h = ground arith

module _ {G R F : Type 0} where
  -- What a transition leaves alone.
  pub record Keeps (m m' : CommStateMachine G R F) : Type 0 where
    pub goal : m'.action_goal ≡ m.action_goal
    pub feedback : m'.on_feedback ≡ m.on_feedback
    pub transition : m'.on_transition ≡ m.on_transition
    pub status : m'.latest_goal_status ≡ m.latest_goal_status
    pub result : m'.latest_result ≡ m.latest_result

  pub go_to-Keeps : (s : State) (m : CommStateMachine G R F) → Keeps m (go_to s m)
  unfolding go_to
  go_to-Keeps s m = ground arith

  pub go_to-state : (s : State) (m : CommStateMachine G R F) → (go_to s m).state ≡ s
  unfolding go_to
  go_to-state s m = ground arith

  pub go_all-Keeps : (ss : List State) (m : CommStateMachine G R F) → Keeps m (go_all ss m)
  unfolding go_all
  go_all-Keeps [] m = ground arith
  go_all-Keeps (s ∷ ss) m = ground (arith, go_to-Keeps s m, go_all-Keeps ss (go_to s m))

  -- The steps of a path end where the path does.
  pub go_all-state :
      {s u : State} {ss : List State} (m : CommStateMachine G R F)
      → Follows s ss u
      → m.state ≡ s
      → (go_all ss m).state ≡ u
  unfolding go_all
  go_all-state m here e = e
  go_all-state m (then {t} x f) e = go_all-state (go_to t m) f (go_to-state t m)

  pub mark_as_lost_fields :
      (m : CommStateMachine G R F)
      → ((mark_as_lost m).state ≡ done)
        × ((mark_as_lost m).latest_result ≡ m.latest_result)
        × ((mark_as_lost m).latest_goal_status.state ≡ GoalState.lost)
  unfolding mark_as_lost
  mark_as_lost_fields m = (
    go_to-state done _,
    (go_to-Keeps done _).result,
    ap (λ (x : GoalStatus). x.state) (go_to-Keeps done _).status,
  )

  missing-cases :
      (s : State) (m : CommStateMachine G R F)
      → (Loses s
          × ((missing s m).state ≡ done)
          × ((missing s m).latest_goal_status.state ≡ GoalState.lost))
        ⊎ ((¬ Loses s) × (missing s m ≡ m))
  unfolding missing
  missing-cases waiting_for_goal_ack m = inr (λ h. h, refl)
  missing-cases waiting_for_result m = inr (λ h. h, refl)
  missing-cases done m = inr (λ h. h, refl)
  missing-cases _ m = let (ends, _, lost) = mark_as_lost_fields m in inl (tt, ends, lost)

  apply_steps-Keeps : (x : Steps) (m : CommStateMachine G R F) → Keeps m (apply_steps x m).0
  unfolding apply_steps
  apply_steps-Keeps (ok ss) m = go_all-Keeps ss m
  apply_steps-Keeps (err e) m = ground arith

  -- Only a lost goal or a result makes a goal done.
  apply_steps-ne-done :
      (t : Transition) (g : GoalState) (m : CommStateMachine G R F)
      → transition_to m.state g ≡ t
      → m.state ≢ done
      → (apply_steps (into_update_status_steps t) m).0.state ≢ done
  unfolding apply_steps into_update_status_steps go_all
  apply_steps-ne-done (steps ss) g m e nd d =
      target-ne-done g (sym (go_all-state m (transition_to-Follows m.state g e) refl) ∙ d)
  apply_steps-ne-done no_transition g m e nd d = nd d
  apply_steps-ne-done _ g m e nd d = nd d

-- What the table makes of a state: the one that the goal state stands for, or no other.
abbrev pub state_after : Transition → State → GoalState → State
state_after (steps ss) s g = target g
state_after _ s g = s

-- The error that it gives.
abbrev pub refusal_of : Transition → Option Refusal
refusal_of (steps ss) = none
refusal_of no_transition = none
refusal_of t = some (refused t)

module _ {G R F : Type 0} where
  apply_table :
      (m : CommStateMachine G R F) (g : GoalState) (t : Transition)
      → transition_to m.state g ≡ t
      → let after = apply_steps (into_update_status_steps t) m in
        (after.0.state ≡ state_after t m.state g)
        × (after.0.latest_goal_status ≡ m.latest_goal_status)
        × (after.0.latest_result ≡ m.latest_result)
        × (after.1 ≡ refusal_of t)
  unfolding apply_steps into_update_status_steps go_all
  apply_table m g (steps ss) e = (
    go_all-state m (transition_to-Follows m.state g e) refl,
    (go_all-Keeps ss m).status,
    (go_all-Keeps ss m).result,
    refl,
  )
  apply_table m g no_transition e = (refl, refl, refl, refl)
  apply_table m g (invalid _ _) e = (refl, refl, refl, refl)
  apply_table m g (funny_state _) e = (refl, refl, refl, refl)
  apply_table m g (unknown_status _) e = (refl, refl, refl, refl)

module _ (k : StatusCodes) {G R F : Type 0} where
  pub inner-found :
      (a : GoalStatusArray) (m : CommStateMachine G R F) {raw : GoalStatusRaw} {g : GoalState}
      → m.state ≢ done
      → find m.action_goal.id.id a.status_list ≡ some raw
      → raw.status ≡ k.code g
      → update_status_inner k a m
        ≡ apply_steps (into_update_status_steps (transition_to m.state g)) (record m {
          latest_goal_status = record { goal_id = raw.goal_id; state = g; text = raw.text };
        })
  unfolding update_status_inner
  inner-found a m {raw} {g} nd found coded =
      let reads = (try_from_iff k raw.status g).1 coded in
      rw (is_done_iff m.state nd, found, reads, take_status, from_raw-reads k raw g reads)

  pub inner-missing :
      (a : GoalStatusArray) (m : CommStateMachine G R F)
      → m.state ≢ done
      → find m.action_goal.id.id a.status_list ≡ none
      → update_status_inner k a m ≡ (missing m.state m, some silent)
  unfolding update_status_inner
  inner-missing a m nd absent = rw (is_done_iff m.state nd, absent)

  -- A status of the goal with a goal state is kept as the latest status, and the result stays. Where the
  -- table gives steps, the client comes to the state that the goal state stands for; where it gives none,
  -- the state stays; both are no error. Where it gives anything else, the state stays and that is the
  -- error.
  pub update_status_table :
      (a : GoalStatusArray) (m : CommStateMachine G R F) {raw : GoalStatusRaw} {g : GoalState}
      → m.state ≢ done
      → find m.action_goal.id.id a.status_list ≡ some raw
      → raw.status ≡ k.code g
      → ((update_status k a m).state ≡ state_after (transition_to m.state g) m.state g)
        × ((update_status k a m).latest_goal_status
            ≡ record { goal_id = raw.goal_id; state = g; text = raw.text })
        × ((update_status k a m).latest_result ≡ m.latest_result)
        × ((update_status_inner k a m).1 ≡ refusal_of (transition_to m.state g))
  update_status_table a m {raw} {g} nd found coded =
      let m' : CommStateMachine G R F = record m {
        latest_goal_status = record { goal_id = raw.goal_id; state = g; text = raw.text };
      } in
      rw (update_status, inner-found a m nd found coded)
        (apply_table m' g (transition_to m.state g) refl)

  -- A status list without the goal ends it as lost in the states that count on a status, and
  -- changes nothing in the others.
  pub update_status-missing :
      (a : GoalStatusArray) (m : CommStateMachine G R F)
      → m.state ≢ done
      → find m.action_goal.id.id a.status_list ≡ none
      → (Loses m.state
          × ((update_status k a m).state ≡ done)
          × ((update_status k a m).latest_goal_status.state ≡ GoalState.lost))
        ⊎ ((¬ Loses m.state) × (update_status k a m ≡ m))
  update_status-missing a m nd absent =
      rw (update_status, inner-missing a m nd absent) (missing-cases m.state m)

  -- The status that comes with a result is the latest one already.
  pub own_status-Keeps :
      (s : GoalStatus) (m : CommStateMachine G R F)
      → m.state ≢ done
      → m.latest_goal_status ≡ s
      → m.action_goal.id.id ≡ s.goal_id.id
      → Keeps m (update_status k (status_array k s) m)
  own_status-Keeps s m nd e same =
      rw
        (
          update_status,
          inner-found (status_array k s) m {raw = to_raw k s} {g = s.state} nd
              (unfold find to_raw in rw ((equal_iff _ _).1 (sym same))) (unfold to_raw in refl),
        )
        (unfold to_raw in rw (← e) (apply_steps-Keeps _ m))

  pub own_status-ne-done :
      (s : GoalStatus) (m : CommStateMachine G R F)
      → m.state ≢ done
      → m.action_goal.id.id ≡ s.goal_id.id
      → (update_status k (status_array k s) m).state ≢ done
  own_status-ne-done s m nd same =
      rw
        (
          update_status,
          inner-found (status_array k s) m {raw = to_raw k s} {g = s.state} nd
              (unfold find to_raw in rw ((equal_iff _ _).1 (sym same))) (unfold to_raw in refl),
        )
        (apply_steps-ne-done _ s.state _ refl nd)

  pub settle-finishes :
      (x : State) (s : GoalStatus) (m : CommStateMachine G R F)
      → m.state ≡ x
      → x ≢ State.lost
      → m.latest_goal_status ≡ s
      → m.action_goal.id.id ≡ s.goal_id.id
      → ((settle k x s m).state ≡ done)
        × ((settle k x s m).latest_result ≡ m.latest_result)
        × ((settle k x s m).latest_goal_status ≡ s)
  unfolding settle
  settle-finishes done s m at nl e same = (at, refl, e)
  settle-finishes State.lost s m at nl e same = absurd (nl refl)
  settle-finishes _ s m at nl e same =
      let own = own_status-Keeps s m (λ d. cc) e same in
      let last = go_to-Keeps done (update_status k (status_array k s) m) in
      (go_to-state done _, last.result ∙ own.result, last.status ∙ own.status ∙ e)

  -- The result of the goal ends it, and is kept with its status, in every state but `Lost`; in
  -- `Done` it takes the place of the result that was there.
  pub update_result-finishes :
      (r : Response R) (m : CommStateMachine G R F)
      → m.state ≢ State.lost
      → m.action_goal.id.id ≡ r.status.goal_id.id
      → ((update_result k r m).state ≡ done)
        × ((update_result k r m).latest_result ≡ some r)
        × ((update_result k r m).latest_goal_status ≡ r.status)
  unfolding update_result
  update_result-finishes r m nl same = rw ((equal_iff _ _).1 same) (
      settle-finishes m.state r.status
        (record m { latest_goal_status = r.status; latest_result = some r }) refl nl refl same)
