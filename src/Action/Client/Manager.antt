-- ===== src/Action/Client/Manager.antt =====
-- rosrust_actionlib/src/action_client/goal_manager.rs: the goals of a client. A machine stands in
-- the list with whether a handle still holds it, which is what `Weak::upgrade` asks; the printing of
-- `f64` seconds is a parameter.
use rosrust.Prelude.{
  decimal, ℕ, suc, Bool, true, false, List, [], ◌∷◌, ◌++◌, if◌then◌else◌, Bytes, codes,
}
use rosrust.Time.{Time}
use rosrust.Action.Goal.{GoalId, GoalStatusArray, Goal, Response, StatusCodes, default_header}
use rosrust.Action.Client.{
  CommStateMachine, new, register_on_feedback, register_on_transition, update_status, update_result,
  update_feedback,
}
pub mod Events
pub mod Live

pub record Held (G R F : Type 0) : Type 0 where
  pub machine : CommStateMachine G R F
  pub held : Bool

-- `GoalManager`; `next_goal_id` is `NEXT_GOAL_ID`, and `sent` what `on_send_goal` was given.
pub record GoalManager (G R F : Type 0) : Type 0 where
  pub statuses : List (Held G R F)
  pub next_goal_id : ℕ
  pub sent : List (Goal G)

-- What `generate_id` and `init_goal` read: the node's name and the clock, twice.
pub record Surroundings : Type 0 where
  pub name : Bytes
  pub stamp : Time
  pub later : Time
  pub seconds : Time → Bytes

unfoldable pub generate_id : Surroundings → ℕ → GoalId
generate_id w id = record {
  id = w.name ++ (codes "-" ++ (decimal 20 id ++ (codes "-" ++ w.seconds w.stamp)));
  stamp = w.stamp;
}

module _ {G R F : Type 0} where
  abbrev pub empty_manager : GoalManager G R F
  empty_manager = record { statuses = []; next_goal_id = 0; sent = [] }

  abbrev registered : Bool → Bool → CommStateMachine G R F → CommStateMachine G R F
  registered feedback transition m =
      let m' = if feedback then register_on_feedback m else m in
      if transition then register_on_transition m' else m'

  -- `GoalManager::init_goal`; the flags say which callbacks are given.
  unfoldable pub init_goal : Surroundings → G → Bool → Bool → GoalManager G R F → GoalManager G R F
  init_goal w body on_transition on_feedback m =
      let goal : Goal G = record {
        header = record default_header { stamp = w.later };
        id = generate_id w m.next_goal_id;
        body = body;
      } in
      record {
        statuses =
            m.statuses
            ++ record { machine = registered on_feedback on_transition (new goal); held = true }
              ∷ [];
        next_goal_id = suc m.next_goal_id;
        sent = m.sent ++ goal ∷ [];
      }

  -- `self.statuses.retain(|status| status.upgrade().is_some())`.
  unfoldable pub retain : List (Held G R F) → List (Held G R F)
  retain [] = []
  retain (s ∷ ss) = let rest = retain ss in if s.held then s ∷ rest else rest

  -- `GoalManager::for_each_status`.
  unfoldable pub for_each_status :
      (CommStateMachine G R F → CommStateMachine G R F) → List (Held G R F) → List (Held G R F)
  for_each_status handler [] = []
  for_each_status handler (s ∷ ss) =
      let rest = for_each_status handler ss in
      if s.held then record s { machine = handler s.machine } ∷ rest else s ∷ rest

module _ (k : StatusCodes) {G R F : Type 0} where
  unfoldable pub update_statuses : GoalStatusArray → GoalManager G R F → GoalManager G R F
  unfolding retain for_each_status
  update_statuses a m = record m {
    statuses = for_each_status (update_status k a) (retain m.statuses);
  }

  unfoldable pub update_results : Response R → GoalManager G R F → GoalManager G R F
  unfolding for_each_status
  update_results r m = record m { statuses = for_each_status (update_result k r) m.statuses }

module _ {G R F : Type 0} where
  unfoldable pub update_feedbacks : Response F → GoalManager G R F → GoalManager G R F
  unfolding for_each_status
  update_feedbacks f m = record m { statuses = for_each_status (update_feedback f) m.statuses }
