-- ===== src/Action/Client/Manager/Live.antt =====
-- What a manager's goals are for those who hold them: rosrust_actionlib/src/action_client/goal_manager.rs.
use rosrust.Prelude.{
  ◌≡◌, refl, ap, ◌∙◌, inl, inr, ℕ, zero, suc, Bool, List, [], ◌∷◌, ◌++◌, map, if◌then◌else◌,
  Bool-cases,
}
use rosrust.Action.Goal.{Goal, StatusCodes, default_header}
use rosrust.Action.Client.{CommStateMachine, new, update_status, update_result, update_feedback}
use rosrust.Action.Client.Runs.{status, result, feedback, step}
use rosrust.Action.Client.Manager.{
  Held, GoalManager, Surroundings, generate_id, registered, init_goal, retain, for_each_status,
  update_statuses, update_results, update_feedbacks,
}
use rosrust.Action.Client.Manager.Events.{Event, init, drop, message, let_go, happen, happen_all}

-- A list without the item at a place.
abbrev pub without : {A : Type 0} → ℕ → List A → List A
without n [] = []
without zero (x ∷ xs) = xs
without (suc n) (x ∷ xs) = x ∷ without n xs

-- A manager as its holders see it: the machines, and the number of the next goal.
abbrev pub View : Type 0 → Type 0 → Type 0 → Type 0
View G R F = List (CommStateMachine G R F) × ℕ

module _ {G R F : Type 0} where
  -- The machines whose handles are held, the oldest first.
  unfoldable pub live : List (Held G R F) → List (CommStateMachine G R F)
  live [] = []
  live (s ∷ ss) = let rest = live ss in if s.held then s.machine ∷ rest else rest

  live-append : (xs ys : List (Held G R F)) → live (xs ++ ys) ≡ live xs ++ live ys
  unfolding live
  live-append [] ys = refl
  live-append (s ∷ ss) ys = elim (Bool-cases s.held) [
    | inl e ↦ rw e (ap (◌∷◌ s.machine) (live-append ss ys))
    | inr e ↦ rw e (live-append ss ys)
  ]

  live-retain : (ss : List (Held G R F)) → live (retain ss) ≡ live ss
  unfolding live retain
  live-retain [] = refl
  live-retain (s ∷ ss) = elim (Bool-cases s.held) [
    | inl e ↦ rw e (ap (◌∷◌ s.machine) (live-retain ss))
    | inr e ↦ rw e (live-retain ss)
  ]

  live-for_each :
      (handler : CommStateMachine G R F → CommStateMachine G R F) (ss : List (Held G R F))
      → live (for_each_status handler ss) ≡ map handler (live ss)
  unfolding live for_each_status
  live-for_each handler [] = refl
  live-for_each handler (s ∷ ss) = elim (Bool-cases s.held) [
    | inl e ↦ rw e (ap (◌∷◌ (handler s.machine)) (live-for_each handler ss))
    | inr e ↦ rw e (live-for_each handler ss)
  ]

  live-let_go : (n : ℕ) (ss : List (Held G R F)) → live (let_go n ss) ≡ without n (live ss)
  unfolding live let_go
  live-let_go n [] = refl
  live-let_go zero (s ∷ ss) = elim (Bool-cases s.held) [
    | inl e ↦ rw e refl
    | inr e ↦ rw e (live-let_go zero ss)
  ]
  live-let_go (suc n) (s ∷ ss) = elim (Bool-cases s.held) [
    | inl e ↦ rw e (ap (◌∷◌ s.machine) (live-let_go n ss))
    | inr e ↦ rw e (live-let_go (suc n) ss)
  ]

  -- The machine of a goal that starts.
  abbrev pub started_goal : Surroundings → ℕ → G → Bool → Bool → CommStateMachine G R F
  started_goal w id body t f =
      let goal : Goal G = record {
        header = record default_header { stamp = w.later };
        id = generate_id w id;
        body = body;
      } in
      registered f t (new goal)

  abbrev pub view_of : GoalManager G R F → View G R F
  view_of m = (live m.statuses, m.next_goal_id)

module _ (k : StatusCodes) {G R F : Type 0} where
  -- Each machine takes every message, by itself.
  unfoldable pub follow : Event G R F → View G R F → View G R F
  unfolding step
  follow (init w body t f) (ms, n) = (ms ++ started_goal w n body t f ∷ [], suc n)
  follow (drop i) (ms, n) = (without i ms, n)
  follow (message x) (ms, n) = (map (step k x) ms, n)

  unfoldable pub follow_all : List (Event G R F) → View G R F → View G R F
  unfolding follow
  follow_all [] v = v
  follow_all (x ∷ xs) v = follow_all xs (follow x v)

  happen-follow :
      (x : Event G R F) (m : GoalManager G R F) → view_of (happen k x m) ≡ follow x (view_of m)
  unfolding happen follow init_goal update_statuses update_results update_feedbacks step live
  happen-follow (init w body t f) m =
      ap (λ (ms : List (CommStateMachine G R F)). (ms, suc m.next_goal_id))
        (live-append m.statuses _)
  happen-follow (drop i) m =
      ap (λ (ms : List (CommStateMachine G R F)). (ms, m.next_goal_id)) (live-let_go i m.statuses)
  happen-follow (message (status a)) m =
      ap (λ (ms : List (CommStateMachine G R F)). (ms, m.next_goal_id))
        (live-for_each (update_status k a) (retain m.statuses)
          ∙ ap (map (update_status k a)) (live-retain m.statuses))
  happen-follow (message (result r)) m =
      ap (λ (ms : List (CommStateMachine G R F)). (ms, m.next_goal_id))
        (live-for_each (update_result k r) m.statuses)
  happen-follow (message (feedback f)) m =
      ap (λ (ms : List (CommStateMachine G R F)). (ms, m.next_goal_id))
        (live-for_each (update_feedback f) m.statuses)

  -- Whatever goals are started, handles dropped and messages received, in any order, the machines
  -- whose handles are held are those that take every message by themselves, from the start of their
  -- goal on and in the order of the starts; the goals are numbered in that order.
  pub happen_all-live :
      (xs : List (Event G R F)) (m : GoalManager G R F)
      → view_of (happen_all k xs m) ≡ follow_all xs (view_of m)
  unfolding happen_all follow_all
  happen_all-live [] m = refl
  happen_all-live (x ∷ xs) m =
      happen_all-live xs (happen k x m) ∙ ap (follow_all xs) (happen-follow x m)
