-- ===== src/Action/Server/Coordinator.antt =====
-- rosrust_actionlib/src/action_server/goal_coordinator.rs: goals and cancel requests as they
-- arrive. The callbacks are parameters: functions on the server's state that may fail; the time of
-- the last cancel is out of their reach.
use rosrust.Prelude.{
  ℕ, suc, ◌+◌, ◌*◌, Bool, true, false, not, ◌&&◌, ◌||◌, Option, none, some, List, [], ◌∷◌,
  if◌then◌else◌, ◌==◌, leb, Bytes, codes, equal,
}
use rosrust.Prelude.Int.{ℤ, pos, ltb_ℤ}
use rosrust.Time.{Time, time_nanos}
use rosrust.Action.Goal.{GoalState, recalled, recalling, GoalId, Goal}
use rosrust.Action.Server.Command.{canceled}
use rosrust.Action.Server.State.{
  StatusTracker, generate_id, is_empty, new_cancellation, new_goal, to_status, mark_for_destruction,
}
use rosrust.Action.Server.List.{Items, get, insert}
use rosrust.Action.Server.Handle.{
  Env, Server, publish_response, put, set_public, set_cancel_requested,
}
pub mod Settled
pub mod Cancels
pub mod Marks

pub record GoalCoordinator (B R : Type 0) : Type 0 where
  pub server : Server B R
  pub last_cancel_ns : ℤ

pub record GoalFilter : Type 0 where
  pub id : Option Bytes
  pub stamp_nanos : Option ℤ

abbrev is_zero : ℤ → Bool
is_zero z = not (ltb_ℤ z (pos 0)) && not (ltb_ℤ (pos 0) z)

-- `GoalFilter::from`.
unfoldable pub filter_from : GoalId → GoalFilter
filter_from g = record {
  id = if is_empty g.id then none else some g.id;
  stamp_nanos = if is_zero (time_nanos g.stamp) then none else some (time_nanos g.stamp);
}

abbrev pub matches_id : GoalFilter → Bytes → Bool
matches_id f other = elim f.id [ none ↦ false | some id ↦ equal id other ]

abbrev pub matches_stamp : GoalFilter → Time → Bool
matches_stamp f other = elim f.stamp_nanos [
  | none ↦ false
  | some stamp ↦ not (ltb_ℤ stamp (time_nanos other))
]

-- `GoalFilter::matches`.
unfoldable pub matches : GoalFilter → GoalId → Bool
matches f g = matches_id f g.id || matches_stamp f g.stamp

abbrev is_none {ℓ} : {A : Type ℓ} → Option A → Bool
is_none none = true
is_none (some _) = false

unfoldable pub matches_everything : GoalFilter → Bool
matches_everything f = is_none f.id && is_none f.stamp_nanos

abbrev is_recalling : GoalState → Bool
is_recalling recalling = true
is_recalling _ = false

-- The text of the response to a goal that a cancel request preceded.
abbrev pub preceded : Bytes
preceded =
    codes
      "This goal handle was canceled by the action server because its timestamp is before the timestamp of the last cancel request"

-- `on_goal` and `on_cancel`: what the callback does when it is given a handle.
abbrev pub OnRequest : Type 0 → Type 0 → Type 0
OnRequest B R = Goal B → ℕ → Server B R → Bool × Server B R

-- The trackers that a cancel request is about, in the order of their keys.
unfoldable pub select : {B : Type 0} → GoalFilter → (ℕ → StatusTracker B) → Items → List ℕ
unfolding matches matches_everything
select f trackers [] = []
select f trackers ((_, h) ∷ m) =
    let rest = select f trackers m in
    if matches_everything f || matches f (trackers h).goal_id then h ∷ rest else rest

abbrev pub remember : Option ℤ → ℤ → ℤ
remember none last = last
remember (some stamp) last = if ltb_ℤ last stamp then stamp else last

module _ {B R : Type 0} where
  -- `add_status_tracker`, with the allocation of the tracker before it; gives the handle too.
  unfoldable pub add_status_tracker : Bytes → StatusTracker B → Server B R → ℕ × Server B R
  unfolding put
  add_status_tracker key t s = (
    s.allocated,
    record (put s.allocated t s) {
      allocated = suc s.allocated;
      items = insert key s.allocated s.items;
    },
  )

  unfoldable pub handle_on_goal_existing : Env → R → ℕ → Server B R → Bool × Server B R
  unfolding put publish_response
  handle_on_goal_existing e empty h s =
      let t = mark_for_destruction e.now false (s.trackers h) in
      let over = record t { state = recalled } in
      if is_recalling t.state
      then publish_response e (to_status over) empty (put h over s)
      else (true, put h t s)

  abbrev count_for : Goal B → Server B R → Server B R
  count_for g s = if is_empty g.id.id then record s { goal_count = suc s.goal_count } else s

  unfoldable pub handle_on_goal_new :
      Env → R → OnRequest B R → Goal B → GoalCoordinator B R → Bool × GoalCoordinator B R
  unfolding new_goal add_status_tracker set_public
  handle_on_goal_new e empty on_goal g c =
      let t = new_goal e.now (generate_id e.name c.server.goal_count e.now) g in
      let (h, s) = add_status_tracker t.goal_id.id t (count_for g c.server) in
      let goal_timestamp = time_nanos t.goal_id.stamp in
      if not (is_zero goal_timestamp) && not (ltb_ℤ c.last_cancel_ns goal_timestamp)
      then (true, record c { server = (set_public e empty h none preceded canceled s).1 })
      else let (fine, after) = on_goal g h s in (fine, record c { server = after })

  unfoldable pub handle_on_goal :
      Env → R → OnRequest B R → Goal B → GoalCoordinator B R → Bool × GoalCoordinator B R
  unfolding handle_on_goal_existing handle_on_goal_new
  handle_on_goal e empty on_goal g c = elim (get g.id.id c.server.items) [
    | none ↦ handle_on_goal_new e empty on_goal g c
    | some h ↦
        let (fine, after) = handle_on_goal_existing e empty h c.server in
        (fine, record c { server = after })
  ]

  -- What the loop of `handle_on_cancel` does with a tracker.
  unfoldable pub cancel_one : Env → R → OnRequest B R → ℕ → Server B R → Bool × Server B R
  unfolding put set_cancel_requested
  cancel_one e empty on_cancel h s =
      let t = mark_for_destruction e.now false (s.trackers h) in
      elim t.goal [
        | none ↦ (true, put h t s)
        | some g ↦
            let (moved, after) = set_cancel_requested e empty h (put h t s) in
            if moved then on_cancel g h after else (true, after)
      ]

  -- The loop of `handle_on_cancel`, with `goal_id_found`; an error of the callback ends it.
  unfoldable pub cancel_each :
      Env → R → OnRequest B R → GoalFilter → List ℕ → Bool → Server B R → Bool × (Bool × Server B R)
  unfolding cancel_one
  cancel_each e empty on_cancel f [] found s = (true, (found, s))
  cancel_each e empty on_cancel f (h ∷ hs) found s =
      let now_found = found || matches_id f (s.trackers h).goal_id.id in
      let step = cancel_one e empty on_cancel h s in
      let rest = cancel_each e empty on_cancel f hs now_found step.1 in
      if step.0 then rest else (false, (now_found, step.1))

  unfoldable pub handle_on_cancel :
      Env → R → OnRequest B R → GoalId → GoalCoordinator B R → Bool × GoalCoordinator B R
  unfolding filter_from select cancel_each add_status_tracker
  handle_on_cancel e empty on_cancel g c =
      let f = filter_from g in
      let hs = select f c.server.trackers c.server.items in
      let (fine, (found, s)) = cancel_each e empty on_cancel f hs (is_none f.id) c.server in
      let noted =
        if found then s else (add_status_tracker g.id (new_cancellation e.now g recalling) s).1 in
      if fine
      then (
        true,
        record { server = noted; last_cancel_ns = remember f.stamp_nanos c.last_cancel_ns },
      )
      else (false, record c { server = s })
