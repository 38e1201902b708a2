-- ===== src/Action/Server/Handle/Commands.antt =====
-- What a command given through a handle does, on every branch.
use rosrust.Prelude.{
  ◌≡◌, refl, sym, ◌⊎◌, inl, inr, ℕ, Bool, true, false, Option, none, some, arith, ◌==◌, Bytes,
  Bool-cases, ==_iff, ap, ◌∙◌,
}
use rosrust.Action.Goal.{GoalState}
use rosrust.Action.Server.Command.{
  ActionCommand, accepted, cancel_requested, status, result, TransitionIssue, Transited, ok, err,
  publish_target, do_transition, due, do_transition-due,
}
use rosrust.Action.Server.State.{StatusTracker, to_status, mark_for_destruction}
use rosrust.Action.Server.Handle.{
  Env, Server, done, refused, unpublished, Publication, response, send, publish, publish_response,
  put, sent, set_general, with_text, unwrap_or_default,
}

pub Transited-cases :
    (x : Transited)
    → ((issue : TransitionIssue) × (x ≡ err issue)) ⊎ ((next : GoalState) × (x ≡ ok next))
Transited-cases (err issue) = inl (issue, refl)
Transited-cases (ok next) = inr (next, refl)

pub target-cases : (a : ActionCommand) → (publish_target a ≡ status) ⊎ (publish_target a ≡ result)
unfolding publish_target
target-cases accepted = inl refl
target-cases cancel_requested = inl refl
target-cases _ = inr refl

-- The tracker of a goal that a command moved to the state.
abbrev pub after_command :
    {B : Type 0}
    → Env
    → Option Bytes
    → ActionCommand
    → GoalState
    → StatusTracker B
    → StatusTracker B
after_command e text a next t = elim (publish_target a) [
  | status ↦ with_text text (record t { state = next })
  | result ↦ mark_for_destruction e.now true (with_text text (record t { state = next }))
]

pub after_command-state :
    {B : Type 0} (e : Env) (text : Option Bytes) (a : ActionCommand) (next : GoalState)
    (t : StatusTracker B)
    → (after_command e text a next t).state ≡ next
unfolding mark_for_destruction
after_command-state e none a next t = elim (target-cases a) [
  | inl p ↦ rw (after_command, p) refl
  | inr p ↦ rw (after_command, p) refl
]
after_command-state e (some _) a next t = elim (target-cases a) [
  | inl p ↦ rw (after_command, p) refl
  | inr p ↦ rw (after_command, p) refl
]

module _ {B R : Type 0} where
  pub send-trackers :
      (e : Env) (p : Publication R) (s : Server B R) → (send e p s).1.trackers ≡ s.trackers
  unfolding send
  send-trackers e p s = ground arith

  pub publish-trackers : (e : Env) (s : Server B R) → (publish e s).1.trackers ≡ s.trackers
  unfolding publish send
  publish-trackers e s = ground arith

  sent-fst : (x : Bool × Server B R) → ((sent x).0 ≡ done) ⊎ ((sent x).0 ≡ unpublished)
  sent-fst (true, s) = inl refl
  sent-fst (false, s) = inr refl

  sent-snd : (x : Bool × Server B R) → (sent x).1 ≡ x.1
  sent-snd (true, s) = refl
  sent-snd (false, s) = refl

  pub set_general-moves :
      (e : Env) (empty : R) (h : ℕ) (res : Option R) (text : Option Bytes) (a : ActionCommand)
      (s : Server B R) {next : GoalState}
      → do_transition a (s.trackers h).state ≡ ok next
      → (((set_general e empty h res text a s).0 ≡ done)
          ⊎ ((set_general e empty h res text a s).0 ≡ unpublished))
        × ((set_general e empty h res text a s).1.trackers
            ≡ (put h (after_command e text a next (s.trackers h)) s).trackers)
  unfolding set_general publish_response
  set_general-moves e empty h res text a s {next} moves =
      let moved : StatusTracker B = with_text text (record (s.trackers h) { state = next }) in
      let over = mark_for_destruction e.now true moved in
      let listed = publish e (put h moved s) in
      let answered =
        send e (response e.stamp (to_status over) (unwrap_or_default empty res)) (put h over s) in
      elim (target-cases a) [
        | inl t ↦
            rw (set_general, after_command, moves, t)
              (
                sent-fst listed,
                ap (λ r. r.trackers) (sent-snd listed) ∙ publish-trackers e (put h moved s),
              )
        | inr t ↦
            rw (set_general, after_command, moves, t)
              (
                sent-fst answered,
                ap (λ r. r.trackers) (sent-snd answered) ∙ send-trackers e _ (put h over s),
              )
      ]

  pub put-same : (h : ℕ) (t : StatusTracker B) (s : Server B R) → (put h t s).trackers h ≡ t
  unfolding put
  put-same h t s = ground arith

  pub put-other :
      (h n : ℕ) (t : StatusTracker B) (s : Server B R)
      → (n ≡ h) ⊎ ((put h t s).trackers n ≡ s.trackers n)
  unfolding put
  put-other h n t s = elim (Bool-cases (n == h)) [
    | inl p ↦ inl ((==_iff n h).0 p)
    | inr p ↦ inr (rw p refl)
  ]

  -- A command that the goal's state does not accept changes nothing and is refused; any other is
  -- not refused, moves the goal to the next state, even when nothing can be published, and leaves
  -- the trackers of other goals as they were.
  pub set_general_cases :
      (e : Env) (empty : R) (h n : ℕ) (res : Option R) (text : Option Bytes) (a : ActionCommand)
      (s : Server B R)
      → ((issue : TransitionIssue) × (do_transition a (s.trackers h).state ≡ err issue)
          × (set_general e empty h res text a s ≡ (refused issue, s)))
        ⊎ ((next : GoalState) × (do_transition a (s.trackers h).state ≡ ok next)
            × (((set_general e empty h res text a s).0 ≡ done)
                ⊎ ((set_general e empty h res text a s).0 ≡ unpublished))
            × (((set_general e empty h res text a s).1.trackers h).state ≡ next)
            × ((n ≡ h) ⊎ ((set_general e empty h res text a s).1.trackers n ≡ s.trackers n)))
  unfolding set_general
  set_general_cases e empty h n res text a s =
      elim (Transited-cases (do_transition a (s.trackers h).state)) [
        | inl (issue, same) ↦ inl (issue, same, rw (set_general, same) refl)
        | inr (next, same) ↦
            let (ends, trackers) = set_general-moves e empty h res text a s same in
            let t = after_command e text a next (s.trackers h) in
            inr (
              next,
              same,
              ends,
              rw (trackers, put-same h t s) (after_command-state e text a next (s.trackers h)),
              rw trackers (put-other h n t s),
            )
      ]

  refused_when_over :
      (e : Env) (empty : R) (h : ℕ) (res : Option R) (text : Option Bytes) (a : ActionCommand)
      (s : Server B R)
      → due (s.trackers h).state ≡ result
      → (issue : TransitionIssue) × (set_general e empty h res text a s ≡ (refused issue, s))
  refused_when_over e empty h res text a s over =
      elim (set_general_cases e empty h h res text a s) [
        | inl (issue, _, same) ↦ (issue, same)
        | inr (next, moves, _, _, _) ↦
            let goes_on = (do_transition-due a (s.trackers h).state moves).0 in ground arith
      ]

  -- Once a command has brought a goal to an end, every further command is refused and changes
  -- nothing: a goal is answered once.
  pub answered_once :
      (e f : Env) (empty : R) (h : ℕ) (res : Option R) (text : Option Bytes) (a b : ActionCommand)
      (s : Server B R) {next : GoalState}
      → do_transition a (s.trackers h).state ≡ ok next
      → publish_target a ≡ result
      → let after = (set_general e empty h res text a s).1 in
        (issue : TransitionIssue) × (set_general f empty h res text b after
          ≡ (refused issue, after))
  answered_once e f empty h res text a b s {next} moves ends =
      let after = (set_general e empty h res text a s).1 in
      refused_when_over f empty h res text b after
        (elim (set_general_cases e empty h h res text a s) [
          | inl (issue, stays, _) ↦ let never : ok next ≡ err issue = sym moves ∙ stays in cc
          | inr (reached, there, _, at, _) ↦
              ap due at ∙ (do_transition-due a (s.trackers h).state there).1 ∙ ends
        ])
