-- ===== src/Action/Client/Progress.antt =====
-- How far one message of the server brings a client's goal, and what is reported of it.
use rosrust.Prelude.{
  ℕ, suc, ◌≤◌, ◌<◌, ◌≡◌, ◌≢◌, refl, inl, inr, Option, none, some, List, [], ◌∷◌, arith, Bool-cases,
}
use rosrust.Action.Goal.{
  GoalState, GoalStatus, GoalStatusRaw, GoalStatusArray, StatusCodes, try_from,
}
use rosrust.Action.CommState.{
  State, waiting_for_goal_ack, waiting_for_result, done, Transition, no_transition, invalid, steps,
  funny_state, unknown_status, into_update_status_steps, transition_to,
}
use rosrust.Action.CommState.Diagram.{
  ◌⟶◌, accept, Follows, here, then, rank, ⟶-rank, target, transition_to-Follows,
}
use rosrust.Action.Client.{
  CommStateMachine, Call, transitioned, fed_back, cancel_sent, is_done, go_to, go_all, missing,
  mark_as_lost, apply_steps, take_status, look_up, update_status_inner, update_status,
}
use rosrust.Action.Client.Updates.{go_to-state}

⟶-ne-lost : {s t : State} → s ⟶ t → t ≢ State.lost
⟶-ne-lost accept = λ e. cc
⟶-ne-lost _ = λ e. cc

-- The ranks descend strictly, from below `n`.
abbrev pub Descends : ℕ → List State → Type 0
Descends n [] = Unit
Descends n (s ∷ ss) = (rank s < n) × Descends (rank s) ss

Descends-mono : (n p : ℕ) (ss : List State) → n ≤ p → Descends n ss → Descends p ss
Descends-mono n p [] le h = tt
Descends-mono n p (s ∷ ss) le h = (omega arith, h.1)

pub rank-lt-done : (s : State) → s ≢ done → s ≢ State.lost → rank s < rank done
unfolding rank
rank-lt-done done nd nl = absurd (nd refl)
rank-lt-done State.lost nd nl = absurd (nl refl)
rank-lt-done _ nd nl = omega arith

module _ {R F : Type 0} where
  -- The states with which `on_transition` was called, the latest first.
  abbrev pub reported : List (Call R F) → List State
  reported [] = []
  reported (transitioned v ∷ cs) = v.comm_state ∷ reported cs
  reported (fed_back v b ∷ cs) = reported cs
  reported (cancel_sent i ∷ cs) = reported cs

module _ {G R F : Type 0} where
  -- The reported states come each once, in the order of the diagram, and the state is `Lost` never.
  pub record Progress (m : CommStateMachine G R F) : Type 0 where
    pub ne_lost : m.state ≢ State.lost
    pub descends : Descends (suc (rank m.state)) (reported m.calls)

  abbrev with_status : GoalStatus → CommStateMachine G R F → CommStateMachine G R F
  with_status s m = record m { latest_goal_status = s }

  -- What an update by a status list can do to the machine.
  pub data Updated (m : CommStateMachine G R F) : CommStateMachine G R F → Type 0 where
    unchanged : Updated m m
    noted : (s : GoalStatus) → m.state ≢ done → Updated m (with_status s m)
    moved :
        (s : GoalStatus) (g : GoalState) {ss : List State}
        → m.state ≢ done
        → Follows m.state ss (target g)
        → Updated m (go_all ss (with_status s m))
    ended : m.state ≢ done → Updated m (mark_as_lost m)

  pub go_to-Progress :
      (s : State) (m : CommStateMachine G R F)
      → Progress m
      → rank m.state < rank s
      → s ≢ State.lost
      → Progress (go_to s m)
  unfolding go_to
  go_to-Progress s m p up nl = elim (Bool-cases m.on_transition) [
    | inl e ↦ rw e (record {
      ne_lost = nl;
      descends = (
        omega arith,
        Descends-mono (suc (rank m.state)) (rank s) (reported m.calls) up p.descends,
      );
    })
    | inr e ↦ rw e (record {
      ne_lost = nl;
      descends =
          Descends-mono (suc (rank m.state)) (suc (rank s)) (reported m.calls) (omega arith)
            p.descends;
    })
  ]

  go_all-Progress :
      {s u : State} {ss : List State} (m : CommStateMachine G R F)
      → Follows s ss u
      → m.state ≡ s
      → Progress m
      → Progress (go_all ss m)
  unfolding go_all
  go_all-Progress m here e p = p
  go_all-Progress m (then {t} x f) e p =
      go_all-Progress (go_to t m) f (go_to-state t m)
        (go_to-Progress t m p (rw e (⟶-rank x)) (⟶-ne-lost x))

  pub Updated-Progress : {m m' : CommStateMachine G R F} → Updated m m' → Progress m → Progress m'
  Updated-Progress unchanged p = p
  Updated-Progress (noted s nd) p = record { ne_lost = p.ne_lost; descends = p.descends }
  Updated-Progress {m} (moved s g nd f) p =
      go_all-Progress (with_status s m) f refl
        (record { ne_lost = p.ne_lost; descends = p.descends })
  Updated-Progress {m} (ended nd) p =
      unfold mark_as_lost in
      go_to-Progress done _ (record { ne_lost = p.ne_lost; descends = p.descends })
        (rank-lt-done m.state nd p.ne_lost) (λ e. cc)

  missing-Updated :
      (s : State) (m : CommStateMachine G R F) → m.state ≢ done → Updated m (missing s m)
  unfolding missing
  missing-Updated waiting_for_goal_ack m nd = unchanged
  missing-Updated waiting_for_result m nd = unchanged
  missing-Updated done m nd = unchanged
  missing-Updated _ m nd = ended nd

  apply_steps-Updated :
      (s : GoalStatus) (g : GoalState) (t : Transition) (m : CommStateMachine G R F)
      → m.state ≢ done
      → transition_to m.state g ≡ t
      → Updated m (apply_steps (into_update_status_steps t) (with_status s m)).0
  unfolding apply_steps into_update_status_steps
  apply_steps-Updated s g no_transition m nd e = unfold go_all in noted s nd
  apply_steps-Updated s g (invalid x y) m nd e = noted s nd
  apply_steps-Updated s g (funny_state x) m nd e = noted s nd
  apply_steps-Updated s g (unknown_status x) m nd e = noted s nd
  apply_steps-Updated s g (steps ss) m nd e = moved s g nd (transition_to-Follows m.state g e)

module _ (k : StatusCodes) {G R F : Type 0} where
  take_status-Updated :
      (raw : GoalStatusRaw) (o : Option GoalState) (m : CommStateMachine G R F)
      → m.state ≢ done
      → Updated m (take_status k raw o m).0
  unfolding take_status
  take_status-Updated raw none m nd = unchanged
  take_status-Updated raw (some g) m nd = apply_steps-Updated _ g _ m nd refl

  look_up-Updated :
      (o : Option GoalStatusRaw) (m : CommStateMachine G R F)
      → m.state ≢ done
      → Updated m (look_up k o m).0
  unfolding look_up
  look_up-Updated none m nd = missing-Updated m.state m nd
  look_up-Updated (some raw) m nd = take_status-Updated raw (try_from k raw.status) m nd

  inner-Updated :
      (a : GoalStatusArray) (m : CommStateMachine G R F) → Updated m (update_status_inner k a m).0
  unfolding update_status_inner
  inner-Updated a m = elim (Bool-cases (is_done m.state)) [
    | inl e ↦ rw e unchanged
    | inr e ↦ rw e (look_up-Updated _ m (λ d. absurd (ground arith)))
  ]

  pub update_status-Updated :
      (a : GoalStatusArray) (m : CommStateMachine G R F) → Updated m (update_status k a m)
  update_status-Updated a m = inner-Updated a m
