-- ===== src/Action/Simple.antt =====
-- The simple action client: rosrust_actionlib/src/action_client/simple_action_client.rs. What the goals
-- share behind an `Arc` is a store: the goals that were sent, each with its callback status, are
-- numbered in the order in which they were sent. Of the callbacks it holds whether they are registered;
-- what they were called with is recorded, the latest call first. The texts of the log are left out.
use rosrust.Prelude.{
  ℕ, Bool, true, false, not, Option, none, some, List, [], ◌∷◌, ◌++◌, if◌then◌else◌, length,
  get_elem?, set,
}
use rosrust.Prelude.Int.{ℤ, pos}
use rosrust.Time.{Time}
use rosrust.Time.Seconds.{Floats, time_seconds}
use rosrust.Action.Goal.{GoalState, Response}
use rosrust.Action.CommState.{State}
use rosrust.Action.Client.{View}
pub mod Callbacks
pub mod Late

pub data SimpleGoalState : Type 0 where
  pending active done : SimpleGoalState

-- A call of `on_done`, `on_active` or `on_feedback`.
pub data Called (R F : Type 0) : Type 0 where
  finished : GoalState → Option R → Called R F
  activated : Called R F
  fed : F → Called R F

pub record CallbackStatus (R F : Type 0) : Type 0 where
  pub expired : Bool
  pub state : SimpleGoalState
  pub on_done : Bool
  pub on_active : Bool
  pub on_feedback : Bool
  pub called : List (Called R F)

abbrev pub body : {R : Type 0} → Option (Response R) → Option R
body none = none
body (some r) = some r.body

module _ {R F : Type 0} where
  abbrev pub call : Bool → Called R F → CallbackStatus R F → CallbackStatus R F
  call registered c s = if registered then record s { called = c ∷ s.called } else s

  unfoldable pub become_active : CallbackStatus R F → CallbackStatus R F
  become_active s = call s.on_active activated (record s { state = SimpleGoalState.active })

  unfoldable pub become_done : View R → CallbackStatus R F → CallbackStatus R F
  become_done v s =
      call s.on_done (finished v.goal_status.state (body v.result))
        (record s { state = SimpleGoalState.done })

  -- The `match` of `handle_transition`; the branches that only log change nothing.
  unfoldable pub transition_by :
      State → SimpleGoalState → View R → CallbackStatus R F → CallbackStatus R F
  unfolding become_active become_done
  transition_by State.active SimpleGoalState.pending v s = become_active s
  transition_by State.preempting SimpleGoalState.pending v s = become_active s
  transition_by State.done SimpleGoalState.pending v s = become_done v s
  transition_by State.done SimpleGoalState.active v s = become_done v s
  transition_by _ _ v s = s

  unfoldable pub handle_transition : View R → CallbackStatus R F → CallbackStatus R F
  unfolding transition_by
  handle_transition v s = transition_by v.comm_state s.state v s

  unfoldable pub handle_feedback : F → CallbackStatus R F → CallbackStatus R F
  handle_feedback feedback s = if s.expired then s else call s.on_feedback (fed feedback) s

-- A change of a callback status, which a number that is none leaves undone.
abbrev pub change :
    {R F : Type 0}
    → (CallbackStatus R F → CallbackStatus R F)
    → ℕ
    → List (CallbackStatus R F)
    → List (CallbackStatus R F)
change f i callbacks = elim (get_elem? callbacks i) [
  | none ↦ callbacks
  | some s ↦ set callbacks i (f s)
]

-- `simple_state` and `callback_handle` are numbers of callback statuses, as is `goal_handle` of the
-- goal sent with it; before the first goal there is none, and the simple state is `Done`.
pub record SimpleActionClient (G R F : Type 0) : Type 0 where
  pub sent : List G
  pub callbacks : List (CallbackStatus R F)
  pub goal_handle : Option ℕ
  pub callback_handle : Option ℕ
  pub simple_state : Option ℕ

module _ {G R F : Type 0} where
  abbrev pub simple_new : SimpleActionClient G R F
  simple_new = record {
    sent = [];
    callbacks = [];
    goal_handle = none;
    callback_handle = none;
    simple_state = none;
  }

  unfoldable pub detach_goal : SimpleActionClient G R F → Option ℕ × SimpleActionClient G R F
  detach_goal c = (c.goal_handle, record c { callback_handle = none; goal_handle = none })

  unfoldable pub stop_tracking_goal : SimpleActionClient G R F → Option ℕ × SimpleActionClient G R F
  unfolding detach_goal
  stop_tracking_goal c = detach_goal (elim c.callback_handle [
    | none ↦ c
    | some i ↦ record c { callbacks = change (λ s. record s { expired = true }) i c.callbacks }
  ])

  -- `send_goal`, with which of the callbacks are given.
  unfoldable pub send_goal :
      G → Bool → Bool → Bool → SimpleActionClient G R F → SimpleActionClient G R F
  unfolding stop_tracking_goal
  send_goal goal on_done on_active on_feedback c =
      let c' = (stop_tracking_goal c).1 in
      let i = length c'.callbacks in
      record c' {
        sent = c'.sent ++ (goal ∷ []);
        callbacks =
            c'.callbacks
            ++ (record {
              expired = false;
              state = SimpleGoalState.pending;
              on_done = on_done;
              on_active = on_active;
              on_feedback = on_feedback;
              called = [];
            }
                ∷ []);
        goal_handle = some i;
        callback_handle = some i;
        simple_state = some i;
      }

  -- The private `simple_state`.
  unfoldable pub get_simple_state : SimpleActionClient G R F → SimpleGoalState
  get_simple_state c = elim c.simple_state [
    | none ↦ SimpleGoalState.done
    | some i ↦ elim (get_elem? c.callbacks i) [ none ↦ SimpleGoalState.done | some s ↦ s.state ]
  ]

  -- A transition of a goal that was sent, and a feedback to it, as their handlers take them.
  unfoldable pub on_transition : ℕ → View R → SimpleActionClient G R F → SimpleActionClient G R F
  unfolding handle_transition
  on_transition i v c = record c { callbacks = change (handle_transition v) i c.callbacks }

  unfoldable pub on_feedback_ : ℕ → F → SimpleActionClient G R F → SimpleActionClient G R F
  unfolding handle_feedback
  on_feedback_ i feedback c = record c {
    callbacks = change (handle_feedback feedback) i c.callbacks;
  }

-- `state`, given the goal state of the handle, if there is one.
unfoldable pub simple_goal_state : Option GoalState → GoalState
simple_goal_state none = GoalState.lost
simple_goal_state (some GoalState.recalling) = GoalState.pending
simple_goal_state (some GoalState.preempting) = GoalState.active
simple_goal_state (some other) = other

-- What one round of the loop of `wait_for_result` finds: whether the node is running, the time, and
-- the simple state.
pub record Round : Type 0 where
  pub is_ok : Bool
  pub now : Time
  pub state : SimpleGoalState

abbrev is_done : SimpleGoalState → Bool
is_done SimpleGoalState.done = true
is_done _ = false

-- The loop of `wait_for_result` over the rounds until it ends; none if it goes on after them.
unfoldable pub wait_loop : (f : Floats) → Option (f.F) → List Round → Option Bool
wait_loop f timeout_time [] = none
wait_loop f timeout_time (r ∷ rounds) =
    let period = f.decimal (pos 1) 1 in
    let time_left : f.F = elim timeout_time [
      | none ↦ period
      | some t ↦ f.min (f.minus t (time_seconds f r.now)) period
    ] in
    let later = wait_loop f timeout_time rounds in
    if not r.is_ok
    then some false
    else if is_done r.state
    then some true
    else if f.lt time_left (f.decimal (pos 0) 1)
    then some false
    else later
