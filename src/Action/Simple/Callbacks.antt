-- ===== src/Action/Simple/Callbacks.antt =====
-- The callbacks of the simple action client over the life of a goal:
-- rosrust_actionlib/src/action_client/simple_action_client.rs with comm_state_machine.rs.
use rosrust.Prelude.{ℕ, suc, ◌≤◌, ◌≡◌, refl, Bool, true, false, if-cases, List, [], ◌∷◌, arith}
use rosrust.Action.Goal.{Goal, StatusCodes}
use rosrust.Action.CommState.{State}
use rosrust.Action.CommState.Diagram.{rank, rank-le}
use rosrust.Action.Client.{Call, View, transitioned, fed_back, cancel_sent}
use rosrust.Action.Client.Progress.{Descends, reported}
use rosrust.Action.Client.Runs.{Message, run, started, run-invariants, started-invariants}
use rosrust.Action.Simple.{
  SimpleGoalState, body, call, CallbackStatus, Called, finished, activated, fed, transition_by,
  become_active, become_done, handle_transition, handle_feedback,
}

abbrev count : State → ℕ → ℕ
count State.done n = suc n
count _ n = n

abbrev pub count_done : List State → ℕ
count_done [] = 0
count_done (s ∷ ss) = count s (count_done ss)

rank-le-done : (x : State) → x ≡ State.done → rank x ≤ 7
unfolding rank
rank-le-done State.lost h = cc
rank-le-done _ h = omega arith

no_done : (n : ℕ) (ss : List State) → n ≤ 7 → Descends n ss → count_done ss ≡ 0
unfolding rank
no_done n [] le h = refl
no_done n (State.done ∷ ss) le h = absurd (omega (arith, h.0))
no_done n (State.lost ∷ ss) le h = absurd (omega (arith, h.0))
no_done n (x ∷ ss) le h = no_done (rank x) ss (omega (arith, h.0)) h.1

module _ {R F : Type 0} where
  -- What the calls of the handlers, the latest first, make of a callback status.
  abbrev pub handled : List (Call R F) → CallbackStatus R F → CallbackStatus R F
  handled [] s = s
  handled (transitioned v ∷ cs) s = handle_transition v (handled cs s)
  handled (fed_back v b ∷ cs) s = handle_feedback b (handled cs s)
  handled (cancel_sent i ∷ cs) s = handled cs s

  abbrev pub finishes : List (Called R F) → ℕ
  finishes [] = 0
  finishes (finished g r ∷ cs) = suc (finishes cs)
  finishes (activated ∷ cs) = finishes cs
  finishes (fed f ∷ cs) = finishes cs

  abbrev pub activations : List (Called R F) → ℕ
  activations [] = 0
  activations (finished g r ∷ cs) = activations cs
  activations (activated ∷ cs) = suc (activations cs)
  activations (fed f ∷ cs) = activations cs

  -- A status whose handlers are all registered, as a new goal has it.
  abbrev pub fresh : CallbackStatus R F
  fresh = record {
    expired = false;
    state = SimpleGoalState.pending;
    on_done = true;
    on_active = true;
    on_feedback = true;
    called = [];
  }

  -- The calls of a callback status in a state, and how often its goal was reported done.
  abbrev pub Tally : ℕ → SimpleGoalState → List (Called R F) → Type 0
  Tally seen SimpleGoalState.pending cs = (seen ≡ 0) × (finishes cs ≡ 0) × (activations cs ≡ 0)
  Tally seen SimpleGoalState.active cs = (seen ≡ 0) × (finishes cs ≡ 0) × (activations cs ≡ 1)
  Tally seen SimpleGoalState.done cs = (seen ≡ 1) × (finishes cs ≡ 1) × (activations cs ≤ 1)

  -- The handlers stay registered.
  record Sound (seen : ℕ) (s : CallbackStatus R F) : Type 0 where
    tally : Tally seen s.state s.called
    on_done : s.on_done ≡ true
    on_active : s.on_active ≡ true

  call-true :
      (b : Bool) (c : Called R F) (s : CallbackStatus R F)
      → b ≡ true
      → call b c s ≡ record s { called = c ∷ s.called }
  call-true true c s h = refl
  call-true false c s h = cc

  became_active :
      (seen : ℕ) (s : CallbackStatus R F)
      → Sound seen (record s { state = SimpleGoalState.pending })
      → Sound seen (become_active (record s { state = SimpleGoalState.pending }))
  unfolding become_active
  became_active seen s g =
      rw (call-true s.on_active activated (record s { state = SimpleGoalState.active }) g.on_active)
        (record {
          tally = (g.tally.0, g.tally.1, omega (arith, g.tally.2));
          on_done = g.on_done;
          on_active = g.on_active;
        })

  became_done :
      (seen : ℕ) (v : View R) (s : CallbackStatus R F)
      → seen ≡ 0
      → finishes s.called ≡ 0
      → activations s.called ≤ 1
      → s.on_done ≡ true
      → s.on_active ≡ true
      → Sound (suc seen) (become_done v s)
  unfolding become_done
  became_done seen v s none_seen none_finished few done_there active_there =
      rw
        (call-true s.on_done (finished v.goal_status.state (body v.result))
          (record s { state = SimpleGoalState.done }) done_there)
        (record {
          tally = (omega arith, omega arith, few);
          on_done = done_there;
          on_active = active_there;
        })

  fed-Tally :
      (seen : ℕ) (y : SimpleGoalState) (b : F) (cs : List (Called R F))
      → Tally seen y cs
      → Tally seen y (fed b ∷ cs)
  fed-Tally seen SimpleGoalState.pending b cs h = h
  fed-Tally seen SimpleGoalState.active b cs h = h
  fed-Tally seen SimpleGoalState.done b cs h = h

  transition-Sound :
      (x : State) (y : SimpleGoalState) (seen : ℕ) (v : View R) (s : CallbackStatus R F)
      → (x ≡ State.done → seen ≡ 0)
      → Sound seen (record s { state = y })
      → Sound (count x seen) (transition_by x y v (record s { state = y }))
  unfolding transition_by become_active become_done
  transition-Sound State.active SimpleGoalState.pending seen v s h g = became_active seen s g
  transition-Sound State.preempting SimpleGoalState.pending seen v s h g = became_active seen s g
  transition-Sound State.done SimpleGoalState.pending seen v s h g =
      became_done seen v (record s { state = SimpleGoalState.pending }) g.tally.0 g.tally.1
        (omega (arith, g.tally.2)) g.on_done g.on_active
  transition-Sound State.done SimpleGoalState.active seen v s h g =
      became_done seen v (record s { state = SimpleGoalState.active }) g.tally.0 g.tally.1
        (omega (arith, g.tally.2)) g.on_done g.on_active
  transition-Sound State.done SimpleGoalState.done seen v s h g =
      absurd (omega (arith, h refl, g.tally.0))
  transition-Sound _ _ seen v s h g = g

  feedback-Sound :
      (seen : ℕ) (b : F) (s : CallbackStatus R F) → Sound seen s → Sound seen (handle_feedback b s)
  unfolding handle_feedback
  feedback-Sound seen b s g =
      if-cases (Sound seen) s.expired _ _ (λ _. g)
        (λ _.
          if-cases (Sound seen) s.on_feedback _ _
            (λ _. record {
              tally = fed-Tally seen s.state b s.called g.tally;
              on_done = g.on_done;
              on_active = g.on_active;
            })
            (λ _. g))

  handled-Sound :
      (n : ℕ) (cs : List (Call R F))
      → n ≤ 8
      → Descends n (reported cs)
      → Sound (count_done (reported cs)) (handled cs fresh)
  unfolding handle_transition
  handled-Sound n [] le h = record { tally = (refl, refl, refl); on_done = refl; on_active = refl }
  handled-Sound n (transitioned v ∷ cs) le h =
      transition-Sound v.comm_state (handled cs fresh).state (count_done (reported cs)) v
        (handled cs fresh)
        (λ e.
          no_done (rank v.comm_state) (reported cs) (omega (arith, rank-le-done v.comm_state e))
            h.1)
        (handled-Sound (rank v.comm_state) cs (omega (arith, h.0)) h.1)
  handled-Sound n (fed_back v b ∷ cs) le h =
      feedback-Sound (count_done (reported cs)) b (handled cs fresh) (handled-Sound n cs le h)
  handled-Sound n (cancel_sent i ∷ cs) le h = handled-Sound n cs le h

-- Whatever the server sends, and as long as nothing is cancelled, a simple client whose callbacks are
-- all given calls `on_done` exactly as often as the goal is reported done, which is once at most, and
-- `on_active` once at most. Its simple state is `Done` just if `on_done` was called, and
-- `Active` just if `on_active` was called and `on_done` was not.
pub handled-Tally :
    (k : StatusCodes) {G R F : Type 0} (goal : Goal G) (f : Bool) (xs : List (Message R F))
    → Tally
        (count_done (reported (run k xs (started goal f true)).calls))
        (handled (run k xs (started goal f true)).calls fresh).state
        (handled (run k xs (started goal f true)).calls fresh).called
handled-Tally k goal f xs =
    let start = started-invariants goal f true in
    let after = (run-invariants k xs (started goal f true) start.0 start.1).0 in
    (handled-Sound (suc (rank (run k xs (started goal f true)).state))
      (run k xs (started goal f true)).calls
      (omega (arith, rank-le (run k xs (started goal f true)).state after.ne_lost))
      after.descends).tally
