-- ===== src/Action/Server/Handle/Settled.antt =====
-- A goal that is over is marked, so that the list lets go of it: what keeps this true.
use rosrust.Prelude.{
  ◌≡◌, refl, inl, inr, ℕ, Bool, true, false, Option, none, some, ◌==◌, Bytes, Bool-cases,
}
use rosrust.Time.{Time}
use rosrust.Action.Goal.{GoalState}
use rosrust.Action.Server.Command.{
  ActionCommand, ActionPublishTarget, cancel_requested, status, result, ok, do_transition, due,
  do_transition-due,
}
use rosrust.Action.Server.State.{StatusTracker, is_some, mark_for_destruction}
use rosrust.Action.Server.Handle.Commands.{
  after_command, after_command-state, target-cases, Transited-cases, set_general-moves,
}
use rosrust.Action.Server.Handle.{
  Outcome, done, refused, unpublished, is_done, Env, Server, put, set_general, set_public,
  set_cancel_requested,
}

either_true :
    (p : ActionPublishTarget) (b : Bool)
    → b ≡ true
    → elim p as (λ _. Bool) [ status ↦ true | result ↦ b ] ≡ true
either_true status b q = refl
either_true result b q = q

-- A goal whose result is due has a time to be destroyed.
unfoldable pub settled : {B : Type 0} → StatusTracker B → Bool
unfolding due
settled t = elim (due t.state) [ status ↦ true | result ↦ is_some t.destruction_time ]

after_command-settled :
    {B : Type 0} (e : Env) (text : Option Bytes) (a : ActionCommand) (next : GoalState)
    (t : StatusTracker B)
    → do_transition a t.state ≡ ok next
    → settled (after_command e text a next t) ≡ true
unfolding settled mark_for_destruction
after_command-settled e text a next t moves =
    let (_, due-next) = do_transition-due a t.state moves in
    let same = after_command-state e text a next t in
    elim (target-cases a) [
      | inl p ↦ rw (settled, same, due-next, p) refl
      | inr p ↦ rw (settled, same, due-next, p) (rw (after_command, p) refl)
    ]

pub mark-destruction_time :
    {B : Type 0} (now : Time) (force : Bool) (t : StatusTracker B)
    → is_some (mark_for_destruction now force t).destruction_time ≡ true
unfolding mark_for_destruction
mark-destruction_time now true t = refl
mark-destruction_time now false t = elim (Bool-cases (is_some t.destruction_time)) [
  | inl p ↦ rw p p
  | inr p ↦ rw p refl
]

-- A tracker with a time to be destroyed is settled, whatever its state.
pub marked-settled :
    {B : Type 0} (t : StatusTracker B) → is_some t.destruction_time ≡ true → settled t ≡ true
unfolding settled
marked-settled t p = either_true (due t.state) (is_some t.destruction_time) p

module _ {B R : Type 0} where
  unfoldable pub IsSettled : Server B R → Type 0
  IsSettled s = (n : ℕ) → settled (s.trackers n) ≡ true

  pub put-IsSettled :
      (h : ℕ) (t : StatusTracker B) (s : Server B R)
      → settled t ≡ true
      → IsSettled s
      → IsSettled (put h t s)
  unfolding IsSettled put
  put-IsSettled h t s p q n = elim (Bool-cases (n == h)) [ inl e ↦ rw e p | inr e ↦ rw e (q n) ]

  pub trackers-IsSettled : (r s : Server B R) → r.trackers ≡ s.trackers → IsSettled s → IsSettled r
  unfolding IsSettled
  trackers-IsSettled r s same q n = rw same (q n)

  pub set_general-IsSettled :
      (e : Env) (empty : R) (h : ℕ) (res : Option R) (text : Option Bytes) (a : ActionCommand)
      (s : Server B R)
      → IsSettled s
      → IsSettled (set_general e empty h res text a s).1
  unfolding set_general
  set_general-IsSettled e empty h res text a s q =
      elim (Transited-cases (do_transition a (s.trackers h).state)) [
        | inl (issue, same) ↦ rw (set_general, same) q
        | inr (next, same) ↦
            let t = after_command e text a next (s.trackers h) in
            trackers-IsSettled (set_general e empty h res text a s).1 (put h t s)
              (set_general-moves e empty h res text a s same).1
              (put-IsSettled h t s (after_command-settled e text a next (s.trackers h) same) q)
      ]

  pub is_done-snd : (x : Outcome × Server B R) → (is_done x).1 ≡ x.1
  is_done-snd (done, s) = refl
  is_done-snd (refused _, s) = refl
  is_done-snd (unpublished, s) = refl

  pub set_public-IsSettled :
      (e : Env) (empty : R) (h : ℕ) (res : Option R) (text : Bytes) (a : ActionCommand)
      (s : Server B R)
      → IsSettled s
      → IsSettled (set_public e empty h res text a s).1
  unfolding set_public
  set_public-IsSettled e empty h res text a s q =
      rw (is_done-snd (set_general e empty h res (some text) a s))
        (set_general-IsSettled e empty h res (some text) a s q)

  pub set_cancel_requested-IsSettled :
      (e : Env) (empty : R) (h : ℕ) (s : Server B R)
      → IsSettled s
      → IsSettled (set_cancel_requested e empty h s).1
  unfolding set_cancel_requested
  set_cancel_requested-IsSettled e empty h s q =
      rw (is_done-snd (set_general e empty h none none cancel_requested s))
        (set_general-IsSettled e empty h none none cancel_requested s q)
