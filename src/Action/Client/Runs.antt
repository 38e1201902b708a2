-- ===== src/Action/Client/Runs.antt =====
-- Any sequence of the server's messages to the goal of one client.
use rosrust.Prelude.{
  ℕ, suc, ◌≤◌, ◌≡◌, ◌≢◌, refl, sym, ◌∙◌, inl, inr, Bool, none, some, List, [], ◌∷◌, arith,
  Bool-cases, length, equal, equal_iff,
}
use rosrust.Action.Goal.{GoalState, GoalStatus, GoalStatusArray, Goal, Response, StatusCodes}
use rosrust.Action.CommState.{State, done}
use rosrust.Action.CommState.Diagram.{rank, rank-le, target-ne-done}
use rosrust.Action.Client.{
  Call, CommStateMachine, is_done, new, update_status, update_feedback, update_result, settle,
  status_array,
}
use rosrust.Action.Client.Updates.{
  go_all-Keeps, go_all-state, mark_as_lost_fields, update_result-finishes, own_status-ne-done,
}
use rosrust.Action.Client.Progress.{
  Descends, reported, Progress, Updated, unchanged, noted, moved, ended, go_to-Progress,
  rank-lt-done, Updated-Progress, update_status-Updated,
}

pub data Message (R F : Type 0) : Type 0 where
  status : GoalStatusArray → Message R F
  result : Response R → Message R F
  feedback : Response F → Message R F

module _ {G R F : Type 0} where
  -- A goal that is not done has no result; one that is done has a result, and then the latest
  -- status is the one that came with it, or it has none and is lost.
  pub data Outcome (m : CommStateMachine G R F) : Type 0 where
    unfinished : m.state ≢ done → m.latest_result ≡ none → Outcome m
    answered :
        (r : Response R)
        → m.state ≡ done
        → m.latest_result ≡ some r
        → m.latest_goal_status ≡ r.status
        → Outcome m
    unanswered :
        m.state ≡ done
        → m.latest_result ≡ none
        → m.latest_goal_status.state ≡ GoalState.lost
        → Outcome m

  -- Before it is done a goal has no result.
  no_result : (m : CommStateMachine G R F) → Outcome m → m.state ≢ done → m.latest_result ≡ none
  no_result m (unfinished _ e) nd = e
  no_result m (answered r d _ _) nd = absurd (nd d)
  no_result m (unanswered _ e _) nd = e

  Updated-Outcome : {m m' : CommStateMachine G R F} → Updated m m' → Outcome m → Outcome m'
  Updated-Outcome unchanged o = o
  Updated-Outcome {m} (noted s nd) o = unfinished nd (no_result m o nd)
  Updated-Outcome {m} (moved s g {ss} nd f) o =
      let keeps = go_all-Keeps ss (record m { latest_goal_status = s }) in
      let ends = go_all-state (record m { latest_goal_status = s }) f refl in
      unfinished (λ d. target-ne-done g (sym ends ∙ d)) (keeps.result ∙ no_result m o nd)
  Updated-Outcome {m} (ended nd) o =
      let (ends, same, lost) = mark_as_lost_fields m in
      unanswered ends (same ∙ no_result m o nd) lost

  called-Outcome :
      (cs : List (Call R F)) (m : CommStateMachine G R F)
      → Outcome m
      → Outcome (record m { calls = cs })
  called-Outcome cs m (unfinished nd e) = unfinished nd e
  called-Outcome cs m (answered r d e s) = answered r d e s
  called-Outcome cs m (unanswered d e s) = unanswered d e s

  update_feedback-quiet :
      (f : Response F) (m : CommStateMachine G R F)
      → (Progress m → Progress (update_feedback f m))
        × (Outcome m → Outcome (update_feedback f m))
        × ((update_feedback f m).state ≡ m.state)
  unfolding update_feedback
  update_feedback-quiet f m = elim (Bool-cases (equal m.action_goal.id.id f.status.goal_id.id)) [
    | inr e ↦ rw e (λ p. p, λ o. o, refl)
    | inl e ↦ elim (Bool-cases (is_done m.state)) [
      | inl d ↦ rw (e, d) (λ p. p, λ o. o, refl)
      | inr d ↦ elim (Bool-cases m.on_feedback) [
        | inr b ↦ rw (e, d, b) (λ p. p, λ o. o, refl)
        | inl b ↦
            rw (e, d, b)
              (
                λ p. record { ne_lost = p.ne_lost; descends = p.descends },
                λ o. called-Outcome _ (record m { on_feedback = Bool.true }) o,
                refl,
              )
      ]
    ]
  ]

module _ (k : StatusCodes) {G R F : Type 0} where
  unfoldable pub step : Message R F → CommStateMachine G R F → CommStateMachine G R F
  step (status a) m = update_status k a m
  step (result r) m = update_result k r m
  step (feedback f) m = update_feedback f m

  unfoldable pub run : List (Message R F) → CommStateMachine G R F → CommStateMachine G R F
  unfolding step
  run [] m = m
  run (x ∷ xs) m = run xs (step x m)

  settle-Progress :
      (x : State) (s : GoalStatus) (m : CommStateMachine G R F)
      → m.state ≡ x
      → m.action_goal.id.id ≡ s.goal_id.id
      → Progress m
      → Progress (settle k x s m)
  unfolding settle
  settle-Progress done s m at same p = p
  settle-Progress State.lost s m at same p = p
  settle-Progress _ s m at same p =
      let later = Updated-Progress (update_status-Updated k (status_array k s) m) p in
      let nd = own_status-ne-done k s m (λ d. cc) same in
      go_to-Progress done _ later (rank-lt-done _ nd later.ne_lost) (λ e. cc)

  update_result-Progress :
      (r : Response R) (m : CommStateMachine G R F) → Progress m → Progress (update_result k r m)
  unfolding update_result
  update_result-Progress r m p = elim (Bool-cases (equal m.action_goal.id.id r.status.goal_id.id)) [
    | inr e ↦ rw e p
    | inl e ↦ rw e (
        settle-Progress m.state r.status _ refl ((equal_iff _ _).0 e)
          (record { ne_lost = p.ne_lost; descends = p.descends }))
  ]

  update_result-Outcome :
      (r : Response R) (m : CommStateMachine G R F)
      → Progress m
      → Outcome m
      → Outcome (update_result k r m)
  update_result-Outcome r m p o =
      elim (Bool-cases (equal m.action_goal.id.id r.status.goal_id.id)) [
        | inr e ↦ unfold update_result in rw e o
        | inl e ↦
            let (d, x, s) = update_result-finishes k r m p.ne_lost ((equal_iff _ _).0 e) in
            answered r d x s
      ]

  pub run-invariants :
      (xs : List (Message R F)) (m : CommStateMachine G R F)
      → Progress m
      → Outcome m
      → Progress (run xs m) × Outcome (run xs m)
  unfolding run step
  run-invariants [] m p o = (p, o)
  run-invariants (status a ∷ xs) m p o =
      let u = update_status-Updated k a m in
      run-invariants xs _ (Updated-Progress u p) (Updated-Outcome u o)
  run-invariants (result r ∷ xs) m p o =
      run-invariants xs _ (update_result-Progress r m p) (update_result-Outcome r m p o)
  run-invariants (feedback f ∷ xs) m p o =
      let (keeps_p, keeps_o, _) = update_feedback-quiet f m in
      run-invariants xs _ (keeps_p p) (keeps_o o)

-- A new machine, with the handlers that are registered.
abbrev pub started : {G R F : Type 0} → Goal G → Bool → Bool → CommStateMachine G R F
started goal f t = record (new goal) { on_feedback = f; on_transition = t }

Descends-length : (n : ℕ) (ss : List State) → Descends n ss → length ss ≤ n
Descends-length n [] h = omega arith
Descends-length n (s ∷ ss) h = omega (arith, Descends-length (rank s) ss h.1)

pub started-invariants :
    {G R F : Type 0} (goal : Goal G) (f t : Bool)
    → Progress (started {R = R} {F = F} goal f t) × Outcome (started {R = R} {F = F} goal f t)
started-invariants goal f t =
    (record { ne_lost = λ e. cc; descends = tt }, unfinished (λ e. cc) refl)

module _ (k : StatusCodes) {G R F : Type 0} (goal : Goal G) (f t : Bool)
    (xs : List (Message R F)) where
  -- Whatever the server sends, and as long as nothing is cancelled, `on_transition` is called at
  -- most once for each state, in the order of the diagram, eight times at most.
  pub run_reports :
      let m = run k xs (started goal f t) in
      Descends (suc (rank m.state)) (reported m.calls) × (length (reported m.calls) ≤ 8)
  run_reports =
      let (p, o) = started-invariants goal f t in
      let after = (run-invariants k xs (started goal f t) p o).0 in
      (after.descends, omega (arith, Descends-length _ _ after.descends, rank-le _ after.ne_lost))

  -- Whatever the server sends, and as long as nothing is cancelled, a goal has a result only when
  -- it is done, its status is then the one that came with the result, and a goal that is done with
  -- no result is lost.
  pub run-Outcome : Outcome (run k xs (started goal f t))
  run-Outcome =
      let (p, o) = started-invariants goal f t in (run-invariants k xs (started goal f t) p o).1
