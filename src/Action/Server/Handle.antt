-- ===== src/Action/Server/Handle.antt =====
-- rosrust_actionlib/src/action_server/server_goal_handle.rs: what a goal's handle does, with the
-- publishing of status_list.rs and mod.rs. A handle stands for the number of its tracker. A
-- publisher is a parameter: whether it takes the message it is given. The clock is read at most
-- once for the state and once for the stamp of a message.
use rosrust.Prelude.{
  ℕ, Bool, true, false, Option, none, some, List, [], ◌∷◌, ◌++◌, if◌then◌else◌, ◌==◌, Bytes,
}
use rosrust.Prelude.Int.{ℤ}
use rosrust.Time.{Time}
use rosrust.Action.Goal.{GoalState, GoalStatus}
use rosrust.Action.Server.Command.{
  ActionCommand, accepted, canceled, reject, abort, succeed, cancel_requested, status, result,
  TransitionIssue, ok, err, publish_target, do_transition,
}
use rosrust.Action.Server.State.{StatusTracker, to_status, mark_for_destruction}
use rosrust.Action.Server.List.{Items, remove_dead_keys, to_status_array}
pub mod Commands
pub mod Settled

-- The clock's two readings, `rosrust::is_ok`, whether the publishers take a message, and the name of
-- the node.
pub record Env : Type 0 where
  pub now : Time
  pub stamp : Time
  pub is_ok : Bool
  pub sends : Bool
  pub name : Bytes

-- A message that a publisher took, with the stamp of its header.
pub data Publication (R : Type 0) : Type 0 where
  statuses : Time → List GoalStatus → Publication R
  response : Time → GoalStatus → R → Publication R

-- The list of goals, the store of trackers and what was published; `goal_count` is `GOAL_COUNT`.
pub record Server (B R : Type 0) : Type 0 where
  pub trackers : ℕ → StatusTracker B
  pub allocated : ℕ
  pub items : Items
  pub timeout : ℤ
  pub goal_count : ℕ
  pub published : List (Publication R)

-- What `set_general` returns.
pub data Outcome : Type 0 where
  done : Outcome
  refused : TransitionIssue → Outcome
  unpublished : Outcome

abbrev pub with_text : {B : Type 0} → Option Bytes → StatusTracker B → StatusTracker B
with_text none t = t
with_text (some text) t = record t { text = text }

-- `unwrap_or_default`, with the type's default.
abbrev pub unwrap_or_default : {R : Type 0} → R → Option R → R
unwrap_or_default empty none = empty
unwrap_or_default empty (some r) = r

module _ {B R : Type 0} where
  -- Handing a message to a publisher, which takes it or fails; nothing is handed when the node is
  -- shutting down.
  unfoldable pub send : Env → Publication R → Server B R → Bool × Server B R
  send e p s =
      if e.is_ok
      then if e.sends then (true, record s { published = s.published ++ p ∷ [] }) else (false, s)
      else (true, s)

  -- `StatusList::publish`.
  unfoldable pub publish : Env → Server B R → Bool × Server B R
  unfolding send
  publish e s =
      let kept = remove_dead_keys s.timeout e.now s.trackers s.items in
      send e (statuses e.stamp (to_status_array s.trackers kept)) (record s { items = kept })

  -- `publish_response`.
  unfoldable pub publish_response : Env → GoalStatus → R → Server B R → Bool × Server B R
  unfolding send
  publish_response e st body s = send e (response e.stamp st body) s

  -- A write to a tracker of the store.
  unfoldable pub put : ℕ → StatusTracker B → Server B R → Server B R
  put h t s = record s { trackers = λ n. if n == h then t else s.trackers n }

  abbrev sent : Bool × Server B R → Outcome × Server B R
  sent (true, s) = (done, s)
  sent (false, s) = (unpublished, s)

  -- `ServerGoalHandle::set_general`; `empty` is the default of the result's type.
  unfoldable pub set_general :
      Env → R → ℕ → Option R → Option Bytes → ActionCommand → Server B R → Outcome × Server B R
  unfolding publish publish_response put
  set_general e empty h res text a s = elim (do_transition a (s.trackers h).state) [
    | err issue ↦ (refused issue, s)
    | ok next ↦
        let moved = with_text text (record (s.trackers h) { state = next }) in
        elim (publish_target a) [
          | status ↦ sent (publish e (put h moved s))
          | result ↦
              let over = mark_for_destruction e.now true moved in
              sent
                (publish_response e (to_status over) (unwrap_or_default empty res) (put h over s))
        ]
  ]

  abbrev is_done : Outcome × Server B R → Bool × Server B R
  is_done (done, s) = (true, s)
  is_done (_, s) = (false, s)

  -- `set_public` and `set_cancel_requested`.
  unfoldable pub set_public :
      Env → R → ℕ → Option R → Bytes → ActionCommand → Server B R → Bool × Server B R
  unfolding set_general
  set_public e empty h res text a s = is_done (set_general e empty h res (some text) a s)

  unfoldable pub set_cancel_requested : Env → R → ℕ → Server B R → Bool × Server B R
  unfolding set_general
  set_cancel_requested e empty h s = is_done (set_general e empty h none none cancel_requested s)
