-- ===== src/Action/Server/Coordinator/Cancels.antt =====
-- A cancel request reaches the goal that arrives after it: by its id, or by its stamp.
use rosrust.Prelude.{
  ◌≡◌, refl, ap, inl, inr, ℕ, Bool, true, false, ◌&&◌, none, some, [], ◌∷◌, ◌++◌, arith,
  if◌then◌else◌, Bytes, equal, equal_refl, Bool-cases, All,
}
use rosrust.Prelude.Int.{ℤ, ltb_ℤ}
use rosrust.Time.{Time, time_nanos}
use rosrust.Action.Goal.{pending, recalled, recalling, GoalId, Goal}
use rosrust.Action.Server.Command.{canceled, do_transition, ok}
use rosrust.Action.Server.State.{
  StatusTracker, is_empty, generate_id, new_cancellation, new_goal, to_status, mark_for_destruction,
}
use rosrust.Action.Server.List.{Items, get}
use rosrust.Action.Server.List.Sorted.{get-insert}
use rosrust.Action.Server.Handle.{
  Env, Server, Publication, response, publish_response, put, send, set_general, set_public,
}
use rosrust.Action.Server.Handle.Commands.{
  send-trackers, set_general-moves, put-same, after_command, after_command-state,
}
use rosrust.Action.Server.Handle.Settled.{is_done-snd}
use rosrust.Action.Server.Coordinator.{
  GoalCoordinator, OnRequest, is_zero, add_status_tracker, preceded, handle_on_goal_existing,
  handle_on_goal_new, handle_on_goal, matches, matches_everything, cancel_each, filter_from, select,
  remember, is_none, handle_on_cancel,
}

-- The request with the id and no stamp.
abbrev pub cancel_id : Bytes → GoalId
cancel_id id = record { id = id; stamp = record { sec = 0; nsec = 0 } }

-- No tracker in the list has the id.
abbrev pub Unknown : {B : Type 0} → Bytes → (ℕ → StatusTracker B) → Items → Type 0
Unknown id trackers m = All (λ e. equal id (trackers e.1).goal_id.id ≡ false) m

select-Unknown :
    {B : Type 0} (id : Bytes) (trackers : ℕ → StatusTracker B) (m : Items)
    → is_empty id ≡ false
    → Unknown id trackers m
    → select (filter_from (cancel_id id)) trackers m ≡ []
unfolding select filter_from matches matches_everything time_nanos
select-Unknown [] trackers m full h = ground arith
select-Unknown (x ∷ id) trackers [] full h = refl
select-Unknown (x ∷ id) trackers ((key, n) ∷ m) full h =
    rw (matches_everything, matches, h.0) (select-Unknown (x ∷ id) trackers m full h.1)

new_goal-id :
    {B : Type 0} (now : Time) (made : GoalId) (g : Goal B)
    → is_zero (time_nanos g.id.stamp) ≡ false
    → is_empty g.id.id ≡ false
    → (new_goal now made g).goal_id ≡ g.id
unfolding new_goal time_nanos
new_goal-id now made g stamped full = rw (new_goal, full) (ground arith)

-- The tracker that a cancel request left, once the goal has arrived.
recall_it : {B : Type 0} → Env → Bytes → StatusTracker B
recall_it e id = record (new_cancellation e.now (cancel_id id) recalling) { state = recalled }

remember_bound :
    (r : GoalId) (t : Time) (last : ℤ)
    → is_zero (time_nanos t) ≡ false
    → ltb_ℤ (time_nanos r.stamp) (time_nanos t) ≡ false
    → ltb_ℤ (remember (filter_from r).stamp_nanos last) (time_nanos t) ≡ false
unfolding time_nanos filter_from
remember_bound r t last p q =
    let z = time_nanos r.stamp in
    elim (Bool-cases (is_zero z)) [ inl e ↦ ground arith | inr e ↦ rw e (ground arith) ]

module _ {B R : Type 0} where
  -- What the request leaves behind for an id that no goal has.
  noted_cancel : Env → Bytes → GoalCoordinator B R → GoalCoordinator B R
  noted_cancel e id c = record c {
    server = (add_status_tracker id (new_cancellation e.now (cancel_id id) recalling) c.server).1;
  }

  handle_on_cancel-Unknown :
      (e : Env) (empty : R) (on_cancel : OnRequest B R) (id : Bytes) (c : GoalCoordinator B R)
      → is_empty id ≡ false
      → Unknown id c.server.trackers c.server.items
      → handle_on_cancel e empty on_cancel (cancel_id id) c ≡ (true, noted_cancel e id c)
  unfolding handle_on_cancel filter_from cancel_each noted_cancel time_nanos
  handle_on_cancel-Unknown e empty on_cancel [] c full h = ground arith
  handle_on_cancel-Unknown e empty on_cancel (x ∷ id) c full h =
      rw (select-Unknown (x ∷ id) c.server.trackers c.server.items full h) refl

  answer_it : Env → Env → R → Bytes → ℕ → Server B R → Bool × Server B R
  answer_it a b empty id h s =
      send b (response b.stamp (to_status (recall_it {B = B} a id)) empty)
        (put h (recall_it a id) s)

  handle_on_goal-recalled :
      (a b : Env) (empty : R) (on_goal : OnRequest B R) (g : Goal B) (d : GoalCoordinator B R)
      (h : ℕ)
      → get g.id.id d.server.items ≡ some h
      → d.server.trackers h ≡ new_cancellation a.now (cancel_id g.id.id) recalling
      → handle_on_goal b empty on_goal g d ≡ (
        (answer_it a b empty g.id.id h d.server).0,
        record d { server = (answer_it a b empty g.id.id h d.server).1 },
      )
  unfolding handle_on_goal handle_on_goal_existing mark_for_destruction publish_response answer_it
      recall_it
  handle_on_goal-recalled a b empty on_goal g d h p q =
      rw (handle_on_goal, p) (rw (handle_on_goal_existing, q) refl)

  send-items : (e : Env) (p : Publication R) (s : Server B R) → (send e p s).1.items ≡ s.items
  unfolding send
  send-items e p s = ground arith

  send-published :
      (e : Env) (p : Publication R) (s : Server B R)
      → (send e p s).1.published
        ≡ (if e.is_ok && e.sends then s.published ++ p ∷ [] else s.published)
  unfolding send
  send-published e p s = ground arith

  -- After a request to cancel an id that no goal has, a goal with that id, if it is the next thing that
  -- arrives, is recalled at once: the callback is not given it. The answer, with the default result, is
  -- given to the publisher, which sends it if the node is running and the publisher takes it.
  pub cancel-goal :
      (before_it after_it : Env) (empty : R) (on_goal on_cancel : OnRequest B R) (g : Goal B)
      (c : GoalCoordinator B R)
      → is_empty g.id.id ≡ false
      → Unknown g.id.id c.server.trackers c.server.items
      → let asked = (handle_on_cancel before_it empty on_cancel (cancel_id g.id.id) c).1 in
        let (_, ended) = handle_on_goal after_it empty on_goal g asked in
        ((ended.server.trackers c.server.allocated).state ≡ recalled)
        × (get g.id.id ended.server.items ≡ some c.server.allocated)
        × (ended.server.published ≡ (
            if after_it.is_ok && after_it.sends
            then c.server.published
              ++ response after_it.stamp
                  (record { goal_id = cancel_id g.id.id; state = recalled; text = [] })
                  empty
                ∷ []
            else c.server.published))
  unfolding noted_cancel add_status_tracker answer_it recall_it
  cancel-goal a b empty on_goal on_cancel g c full h =
      let id = g.id.id in
      let n = c.server.allocated in
      let d = noted_cancel a id c in
      let t : StatusTracker B = new_cancellation a.now (cancel_id id) recalling in
      let found : get id d.server.items ≡ some n =
        rw (get-insert id id n c.server.items, equal_refl id) refl in
      let recall = recall_it a id in
      let answer = response b.stamp (to_status recall) empty in
      rw
        (
          handle_on_cancel-Unknown a empty on_cancel id c full h,
          handle_on_goal-recalled a b empty on_goal g d n found (put-same n t c.server),
        )
        (
          rw (send-trackers b answer (put n recall d.server), put-same n recall d.server) refl,
          rw (send-items b answer (put n recall d.server)) found,
          send-published b answer (put n recall d.server),
        )

  set_public-state :
      (e : Env) (empty : R) (h : ℕ) (text : Bytes) (s : Server B R)
      → (s.trackers h).state ≡ pending
      → ((set_public e empty h none text canceled s).1.trackers h).state ≡ recalled
  unfolding set_public
  set_public-state e empty h text s p =
      let next : do_transition canceled (s.trackers h).state ≡ ok recalled =
        unfold do_transition in rw p refl in
      let moved = (set_general-moves e empty h none (some text) canceled s next).1 in
      rw
        (
          is_done-snd (set_general e empty h none (some text) canceled s),
          moved,
          put-same h (after_command e (some text) canceled recalled (s.trackers h)) s,
        )
        (after_command-state e (some text) canceled recalled (s.trackers h))

  last_cancel-after :
      (e : Env) (empty : R) (on_cancel : OnRequest B R) (r : GoalId) (c : GoalCoordinator B R)
      → (handle_on_cancel e empty on_cancel r c).0 ≡ true
      → (handle_on_cancel e empty on_cancel r c).1.last_cancel_ns
        ≡ remember (filter_from r).stamp_nanos c.last_cancel_ns
  unfolding handle_on_cancel
  last_cancel-after e empty on_cancel r c fine =
      let f = filter_from r in
      let hs = select f c.server.trackers c.server.items in
      let out = cancel_each e empty on_cancel f hs (is_none f.id) c.server in
      elim (Bool-cases out.0) [
        | inl p ↦ rw (handle_on_cancel, p) refl
        | inr p ↦
            let failed : (handle_on_cancel e empty on_cancel r c).0 ≡ false =
              rw (handle_on_cancel, p) refl in
            ground arith
      ]

  handle_on_goal-late :
      (e : Env) (empty : R) (on_goal : OnRequest B R) (g : Goal B) (d : GoalCoordinator B R)
      → get g.id.id d.server.items ≡ none
      → is_zero (time_nanos g.id.stamp) ≡ false
      → is_empty g.id.id ≡ false
      → ltb_ℤ d.last_cancel_ns (time_nanos g.id.stamp) ≡ false
      → ((handle_on_goal e empty on_goal g d).0 ≡ true)
        × (((handle_on_goal e empty on_goal g d).1.server.trackers d.server.allocated).state
            ≡ recalled)
  unfolding handle_on_goal handle_on_goal_new add_status_tracker
  handle_on_goal-late e empty on_goal g d fresh stamped full early =
      let made = generate_id e.name d.server.goal_count e.now in
      let t : StatusTracker B = record {
        goal = some g;
        goal_id = g.id;
        state = pending;
        text = [];
        destruction_time = none;
      } in
      let id = new_goal-id e.now made g stamped full in
      let s = (add_status_tracker g.id.id t d.server).1 in
      let start : (s.trackers d.server.allocated).state ≡ pending =
        ap (λ x. x.state) (put-same d.server.allocated t d.server) in
      rw (handle_on_goal, fresh)
        (rw (handle_on_goal_new, id, full, stamped, early)
          (refl, set_public-state e empty d.server.allocated preceded s start))

  -- When a cancel request has ended without an error of its callback, a goal with a stamp that is not
  -- after that of the request, and an id that is not in the list, is recalled without the callback being
  -- given it, if it is the next thing that arrives. With an error the stamp is not kept.
  pub late_goal :
      (a b : Env) (empty : R) (on_goal on_cancel : OnRequest B R) (r : GoalId) (g : Goal B)
      (c : GoalCoordinator B R)
      → (handle_on_cancel a empty on_cancel r c).0 ≡ true
      → get g.id.id (handle_on_cancel a empty on_cancel r c).1.server.items ≡ none
      → is_zero (time_nanos g.id.stamp) ≡ false
      → is_empty g.id.id ≡ false
      → ltb_ℤ (time_nanos r.stamp) (time_nanos g.id.stamp) ≡ false
      → let asked = (handle_on_cancel a empty on_cancel r c).1 in
        let (fine, ended) = handle_on_goal b empty on_goal g asked in
        (fine ≡ true) × ((ended.server.trackers asked.server.allocated).state ≡ recalled)
  late_goal a b empty on_goal on_cancel r g c fine fresh stamped full early =
      handle_on_goal-late b empty on_goal g (handle_on_cancel a empty on_cancel r c).1 fresh stamped
        full
        (rw (last_cancel-after a empty on_cancel r c fine)
          (remember_bound r g.id.stamp c.last_cancel_ns stamped early))
