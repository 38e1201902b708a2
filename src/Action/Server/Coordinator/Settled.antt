-- ===== src/Action/Server/Coordinator/Settled.antt =====
-- A goal that arrives keeps the goals settled: one that is over is marked, so that the list lets go
-- of it.
use rosrust.Prelude.{
  ◌≡◌, refl, inl, inr, ℕ, true, false, none, Bytes, Bool-cases, Option-cases, not, ◌&&◌,
}
use rosrust.Prelude.Int.{ltb_ℤ}
use rosrust.Time.{time_nanos}
use rosrust.Action.Goal.{recalled, Goal}
use rosrust.Action.Server.Command.{canceled, due}
use rosrust.Action.Server.State.{
  is_empty, StatusTracker, generate_id, new_goal, to_status, mark_for_destruction,
}
use rosrust.Action.Server.List.{get}
use rosrust.Action.Server.Handle.{Env, Server, publish_response, put, response}
use rosrust.Action.Server.Handle.Commands.{send-trackers}
use rosrust.Action.Server.Handle.Settled.{
  settled, IsSettled, put-IsSettled, trackers-IsSettled, set_public-IsSettled,
  mark-destruction_time, marked-settled,
}
use rosrust.Action.Server.Coordinator.{
  GoalCoordinator, OnRequest, is_recalling, is_zero, add_status_tracker, preceded, count_for,
  handle_on_goal_existing, handle_on_goal_new, handle_on_goal,
}

module _ {B R : Type 0} where
  -- What a callback must keep.
  abbrev pub Keeps : OnRequest B R → Type 0
  Keeps on = (g : Goal B) (h : ℕ) (s : Server B R) → IsSettled s → IsSettled (on g h s).1

  add-IsSettled :
      (key : Bytes) (t : StatusTracker B) (s : Server B R)
      → settled t ≡ true
      → IsSettled s
      → IsSettled (add_status_tracker key t s).1
  unfolding add_status_tracker IsSettled
  add-IsSettled key t s p q = put-IsSettled s.allocated t s p q

  response-IsSettled :
      (e : Env) (h : ℕ) (t : StatusTracker B) (body : R) (s : Server B R)
      → settled t ≡ true
      → IsSettled s
      → IsSettled (publish_response e (to_status t) body (put h t s)).1
  unfolding publish_response
  response-IsSettled e h t body s p q =
      trackers-IsSettled (publish_response e (to_status t) body (put h t s)).1 (put h t s)
        (send-trackers e (response e.stamp (to_status t) body) (put h t s))
        (put-IsSettled h t s p q)

  existing-IsSettled :
      (e : Env) (empty : R) (h : ℕ) (s : Server B R)
      → IsSettled s
      → IsSettled (handle_on_goal_existing e empty h s).1
  unfolding handle_on_goal_existing
  existing-IsSettled e empty h s q =
      let t = mark_for_destruction e.now false (s.trackers h) in
      let over : StatusTracker B = record t { state = recalled } in
      let marked = mark-destruction_time e.now false (s.trackers h) in
      elim (Bool-cases (is_recalling t.state)) [
        | inl p ↦
            rw (handle_on_goal_existing, p)
              (response-IsSettled e h over empty s (marked-settled over marked) q)
        | inr p ↦ rw (handle_on_goal_existing, p) (put-IsSettled h t s (marked-settled t marked) q)
      ]

  count-IsSettled : (g : Goal B) (s : Server B R) → IsSettled s → IsSettled (count_for g s)
  unfolding IsSettled
  count-IsSettled g s q = elim (Bool-cases (is_empty g.id.id)) [
    | inl p ↦ rw (count_for, p) q
    | inr p ↦ rw (count_for, p) q
  ]

  new-IsSettled :
      (e : Env) (empty : R) (on_goal : OnRequest B R) (g : Goal B) (c : GoalCoordinator B R)
      → Keeps on_goal
      → IsSettled c.server
      → IsSettled (handle_on_goal_new e empty on_goal g c).1.server
  unfolding handle_on_goal_new settled due
  new-IsSettled e empty on_goal g c k q =
      let t = new_goal e.now (generate_id e.name c.server.goal_count e.now) g in
      let added = add_status_tracker t.goal_id.id t (count_for g c.server) in
      let fine : IsSettled added.1 =
        add-IsSettled t.goal_id.id t (count_for g c.server) refl (count-IsSettled g c.server q) in
      elim (Bool-cases (
        not (is_zero (time_nanos t.goal_id.stamp))
        && not (ltb_ℤ c.last_cancel_ns (time_nanos t.goal_id.stamp)))) [
          | inl p ↦
              rw (handle_on_goal_new, p)
                (set_public-IsSettled e empty added.0 none preceded canceled added.1 fine)
          | inr p ↦ rw (handle_on_goal_new, p) (k g added.0 added.1 fine)
        ]

  pub handle_on_goal-IsSettled :
      (e : Env) (empty : R) (on_goal : OnRequest B R) (g : Goal B) (c : GoalCoordinator B R)
      → Keeps on_goal
      → IsSettled c.server
      → IsSettled (handle_on_goal e empty on_goal g c).1.server
  unfolding handle_on_goal
  handle_on_goal-IsSettled e empty on_goal g c k q =
      elim (Option-cases (get g.id.id c.server.items)) [
        | inl p ↦ rw (handle_on_goal, p) (new-IsSettled e empty on_goal g c k q)
        | inr (h, p) ↦ rw (handle_on_goal, p) (existing-IsSettled e empty h c.server q)
      ]
