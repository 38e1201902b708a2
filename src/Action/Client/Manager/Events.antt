-- ===== src/Action/Client/Manager/Events.antt =====
-- What happens to the goals of a client: rosrust_actionlib/src/action_client/goal_manager.rs.
use rosrust.Prelude.{ℕ, zero, suc, Bool, false, List, [], ◌∷◌, if◌then◌else◌}
use rosrust.Action.Goal.{StatusCodes}
use rosrust.Action.Client.Runs.{Message, status, result, feedback}
use rosrust.Action.Client.Manager.{
  Held, GoalManager, Surroundings, init_goal, update_statuses, update_results, update_feedbacks,
}

-- What happens to a manager: a goal starts, a handle is dropped, or a message arrives.
pub data Event (G R F : Type 0) : Type 0 where
  init : Surroundings → G → Bool → Bool → Event G R F
  drop : ℕ → Event G R F
  message : Message R F → Event G R F

module _ {G R F : Type 0} where
  -- One of the handles that are held goes away, counted from the oldest.
  unfoldable pub let_go : ℕ → List (Held G R F) → List (Held G R F)
  let_go n [] = []
  let_go zero (s ∷ ss) =
      let rest = let_go zero ss in if s.held then record s { held = false } ∷ ss else s ∷ rest
  let_go (suc n) (s ∷ ss) =
      let same = let_go (suc n) ss in
      let rest = let_go n ss in if s.held then s ∷ rest else s ∷ same

module _ (k : StatusCodes) {G R F : Type 0} where
  unfoldable pub happen : Event G R F → GoalManager G R F → GoalManager G R F
  unfolding init_goal let_go update_statuses update_results update_feedbacks
  happen (init w body t f) m = init_goal w body t f m
  happen (drop n) m = record m { statuses = let_go n m.statuses }
  happen (message (status a)) m = update_statuses k a m
  happen (message (result r)) m = update_results k r m
  happen (message (feedback f)) m = update_feedbacks f m

  unfoldable pub happen_all : List (Event G R F) → GoalManager G R F → GoalManager G R F
  unfolding happen
  happen_all [] m = m
  happen_all (x ∷ xs) m = happen_all xs (happen x m)
