-- ===== src/Action/Server/Coordinator/Marks.antt =====
-- A cancel request marks every goal that it is about for removal from the list.
use rosrust.Prelude.{
  ◌≡◌, ◌≢◌, refl, arith, inl, inr, ℕ, Bool, true, false, Option, none, some, List, [], ◌∷◌, Bytes,
  Bool-cases, Option-cases, All, ◌||◌,
}
use rosrust.Action.Goal.{GoalState, recalling, GoalId, Goal}
use rosrust.Action.Server.Command.{ActionCommand, cancel_requested, do_transition}
use rosrust.Action.Server.State.{StatusTracker, is_some, new_cancellation, mark_for_destruction}
use rosrust.Action.Server.Handle.{Env, Server, put, set_general, set_public, set_cancel_requested}
use rosrust.Action.Server.Handle.Commands.{
  after_command, target-cases, Transited-cases, set_general-moves, put-same, put-other,
}
use rosrust.Action.Server.Handle.Settled.{mark-destruction_time, is_done-snd}
use rosrust.Action.Server.Coordinator.{
  GoalCoordinator, GoalFilter, OnRequest, add_status_tracker, matches_id, cancel_one, cancel_each,
  filter_from, select, is_none, handle_on_cancel,
}

after_command-marked :
    {B : Type 0} (e : Env) (text : Option Bytes) (a : ActionCommand) (next : GoalState)
    (t : StatusTracker B)
    → is_some t.destruction_time ≡ true
    → is_some (after_command e text a next t).destruction_time ≡ true
unfolding mark_for_destruction
after_command-marked e none a next t h = elim (target-cases a) [
  | inl p ↦ rw (after_command, p) h
  | inr p ↦ rw (after_command, p) refl
]
after_command-marked e (some _) a next t h = elim (target-cases a) [
  | inl p ↦ rw (after_command, p) h
  | inr p ↦ rw (after_command, p) refl
]

false-ne-true : false ≢ true
false-ne-true h = ground arith

module _ {B R : Type 0} where
  -- The tracker has a time to be destroyed.
  unfoldable pub IsMarked : Server B R → ℕ → Type 0
  IsMarked s n = is_some (s.trackers n).destruction_time ≡ true

  -- What a callback must keep, which has no means to unmark a tracker.
  abbrev pub KeepsMarks : OnRequest B R → Type 0
  KeepsMarks on =
      (g : Goal B) (h : ℕ) (s : Server B R) (n : ℕ) → IsMarked s n → IsMarked (on g h s).1 n

  put-IsMarked :
      (h : ℕ) (t : StatusTracker B) (s : Server B R) (n : ℕ)
      → (IsMarked s h → is_some t.destruction_time ≡ true)
      → IsMarked s n
      → IsMarked (put h t s) n
  unfolding IsMarked
  put-IsMarked h t s n p q = elim (put-other h n t s) [
    | inl e ↦ rw (e, put-same h t s) (p (rw e at q))
    | inr e ↦ rw e q
  ]

  put-here :
      (h : ℕ) (t : StatusTracker B) (s : Server B R)
      → is_some t.destruction_time ≡ true
      → IsMarked (put h t s) h
  unfolding IsMarked
  put-here h t s p = rw (put-same h t s) p

  set_general-IsMarked :
      (e : Env) (empty : R) (h : ℕ) (res : Option R) (text : Option Bytes) (a : ActionCommand)
      (s : Server B R) (n : ℕ)
      → IsMarked s n
      → IsMarked (set_general e empty h res text a s).1 n
  unfolding set_general
  set_general-IsMarked e empty h res text a s n q =
      elim (Transited-cases (do_transition a (s.trackers h).state)) [
        | inl (issue, same) ↦ rw (set_general, same) q
        | inr (next, same) ↦
            let moved = (set_general-moves e empty h res text a s same).1 in
            let t = after_command e text a next (s.trackers h) in
            let kept =
              put-IsMarked h t s n
                (unfold IsMarked in after_command-marked e text a next (s.trackers h)) q in
            unfold IsMarked in rw moved (unfold IsMarked in kept)
      ]

  pub set_public-IsMarked :
      (e : Env) (empty : R) (h : ℕ) (res : Option R) (text : Bytes) (a : ActionCommand)
      (s : Server B R) (n : ℕ)
      → IsMarked s n
      → IsMarked (set_public e empty h res text a s).1 n
  unfolding set_public
  set_public-IsMarked e empty h res text a s n q =
      rw (is_done-snd (set_general e empty h res (some text) a s))
        (set_general-IsMarked e empty h res (some text) a s n q)

  requested-IsMarked :
      (e : Env) (empty : R) (h : ℕ) (s : Server B R) (n : ℕ)
      → IsMarked s n
      → IsMarked (set_cancel_requested e empty h s).1 n
  unfolding set_cancel_requested
  requested-IsMarked e empty h s n q =
      rw (is_done-snd (set_general e empty h none none cancel_requested s))
        (set_general-IsMarked e empty h none none cancel_requested s n q)

  cancel_one-others :
      (e : Env) (empty : R) (on_cancel : OnRequest B R) (h : ℕ) (s : Server B R) (n : ℕ)
      → KeepsMarks on_cancel
      → IsMarked (put h (mark_for_destruction e.now false (s.trackers h)) s) n
      → IsMarked (cancel_one e empty on_cancel h s).1 n
  unfolding cancel_one
  cancel_one-others e empty on_cancel h s n k q =
      let t = mark_for_destruction e.now false (s.trackers h) in
      let asked = set_cancel_requested e empty h (put h t s) in
      let fine = requested-IsMarked e empty h (put h t s) n q in
      elim (Option-cases t.goal) [
        | inl p ↦ rw (cancel_one, p) q
        | inr (g, p) ↦ elim (Bool-cases asked.0) [
          | inl m ↦ rw (cancel_one, p, m) (k g h asked.1 n fine)
          | inr m ↦ rw (cancel_one, p, m) fine
        ]
      ]

  cancel_one-keeps :
      (e : Env) (empty : R) (on_cancel : OnRequest B R) (h : ℕ) (s : Server B R) (n : ℕ)
      → KeepsMarks on_cancel
      → IsMarked s n
      → IsMarked (cancel_one e empty on_cancel h s).1 n
  cancel_one-keeps e empty on_cancel h s n k q =
      let marked = mark-destruction_time e.now false (s.trackers h) in
      cancel_one-others e empty on_cancel h s n k
        (put-IsMarked h (mark_for_destruction e.now false (s.trackers h)) s n (λ _. marked) q)

  cancel_one-marks :
      (e : Env) (empty : R) (on_cancel : OnRequest B R) (h : ℕ) (s : Server B R)
      → KeepsMarks on_cancel
      → IsMarked (cancel_one e empty on_cancel h s).1 h
  cancel_one-marks e empty on_cancel h s k = cancel_one-others e empty on_cancel h s h k (
      put-here h (mark_for_destruction e.now false (s.trackers h)) s
        (mark-destruction_time e.now false (s.trackers h)))

  cancel_each-keeps :
      (e : Env) (empty : R) (on_cancel : OnRequest B R) (f : GoalFilter) (hs : List ℕ)
      (found : Bool) (s : Server B R) (n : ℕ)
      → KeepsMarks on_cancel
      → IsMarked s n
      → IsMarked (cancel_each e empty on_cancel f hs found s).1.1 n
  unfolding cancel_each
  cancel_each-keeps e empty on_cancel f [] found s n k q = q
  cancel_each-keeps e empty on_cancel f (h ∷ hs) found s n k q =
      let now_found = found || matches_id f (s.trackers h).goal_id.id in
      let stepped = cancel_one e empty on_cancel h s in
      let fine = cancel_one-keeps e empty on_cancel h s n k q in
      elim (Bool-cases stepped.0) [
        | inl p ↦
            rw (cancel_each, p)
              (cancel_each-keeps e empty on_cancel f hs now_found stepped.1 n k fine)
        | inr p ↦ rw (cancel_each, p) fine
      ]

  cancel_each-fine :
      (e : Env) (empty : R) (on_cancel : OnRequest B R) (f : GoalFilter) (h : ℕ) (hs : List ℕ)
      (found : Bool) (s : Server B R)
      → (cancel_one e empty on_cancel h s).0 ≡ true
      → cancel_each e empty on_cancel f (h ∷ hs) found s
        ≡ cancel_each e empty on_cancel f hs
            (found || matches_id f (s.trackers h).goal_id.id)
            (cancel_one e empty on_cancel h s).1
  unfolding cancel_each
  cancel_each-fine e empty on_cancel f h hs found s p = rw (cancel_each, p) refl

  cancel_each-first :
      (e : Env) (empty : R) (on_cancel : OnRequest B R) (f : GoalFilter) (h : ℕ) (hs : List ℕ)
      (found : Bool) (s : Server B R)
      → (cancel_each e empty on_cancel f (h ∷ hs) found s).0 ≡ true
      → (cancel_one e empty on_cancel h s).0 ≡ true
  unfolding cancel_each
  cancel_each-first e empty on_cancel f h hs found s fine =
      elim (Bool-cases (cancel_one e empty on_cancel h s).0) [
        | inl p ↦ p
        | inr p ↦ absurd (false-ne-true (rw (cancel_each, p) at fine))
      ]

  marks-same :
      (r r' : Bool × (Bool × Server B R)) (hs : List ℕ)
      → r ≡ r'
      → All (IsMarked r'.1.1) hs
      → All (IsMarked r.1.1) hs
  marks-same r r' [] e h = tt
  marks-same r r' (n ∷ hs) e h = (rw e h.0, marks-same r r' hs e h.1)

  cancel_each-marks :
      (e : Env) (empty : R) (on_cancel : OnRequest B R) (f : GoalFilter) (hs : List ℕ)
      (found : Bool) (s : Server B R)
      → KeepsMarks on_cancel
      → (cancel_each e empty on_cancel f hs found s).0 ≡ true
      → All (IsMarked (cancel_each e empty on_cancel f hs found s).1.1) hs
  cancel_each-marks e empty on_cancel f [] found s k fine = tt
  cancel_each-marks e empty on_cancel f (h ∷ hs) found s k fine =
      let now_found = found || matches_id f (s.trackers h).goal_id.id in
      let after = (cancel_one e empty on_cancel h s).1 in
      let first = cancel_each-first e empty on_cancel f h hs found s fine in
      let same = cancel_each-fine e empty on_cancel f h hs found s first in
      (
        rw same (
            cancel_each-keeps e empty on_cancel f hs now_found after h k
              (cancel_one-marks e empty on_cancel h s k)),
        marks-same (cancel_each e empty on_cancel f (h ∷ hs) found s) _ hs same
            (cancel_each-marks e empty on_cancel f hs now_found after k (rw same at fine)),
      )

  noted-marks :
      (key : Bytes) (e : Env) (g : GoalId) (s : Server B R) (hs : List ℕ)
      → All (IsMarked s) hs
      → All (IsMarked (add_status_tracker key (new_cancellation e.now g recalling) s).1) hs
  unfolding add_status_tracker
  noted-marks key e g s [] h = tt
  noted-marks key e g s (n ∷ hs) h = (
    unfold IsMarked in
        put-IsMarked s.allocated (new_cancellation e.now g recalling) s n (λ _. refl) h.0,
    noted-marks key e g s hs h.1,
  )

  -- After a cancel request without an error of the callback, every goal that it is about is marked for
  -- removal from the list, with any callback that unmarks none.
  pub handle_on_cancel_marks :
      (e : Env) (empty : R) (on_cancel : OnRequest B R) (g : GoalId) (c : GoalCoordinator B R)
      → KeepsMarks on_cancel
      → (handle_on_cancel e empty on_cancel g c).0 ≡ true
      → All
          (IsMarked (handle_on_cancel e empty on_cancel g c).1.server)
          (select (filter_from g) c.server.trackers c.server.items)
  unfolding handle_on_cancel
  handle_on_cancel_marks e empty on_cancel g c k fine =
      let f = filter_from g in
      let hs = select f c.server.trackers c.server.items in
      let out = cancel_each e empty on_cancel f hs (is_none f.id) c.server in
      elim (Bool-cases out.0) [
        | inl p ↦
            let marks = cancel_each-marks e empty on_cancel f hs (is_none f.id) c.server k p in
            elim (Bool-cases out.1.0) [
              | inl b ↦ rw (handle_on_cancel, p, b) marks
              | inr b ↦ rw (handle_on_cancel, p, b) (noted-marks g.id e g out.1.1 hs marks)
            ]
        | inr p ↦ absurd (false-ne-true (rw (handle_on_cancel, p) at fine))
      ]
