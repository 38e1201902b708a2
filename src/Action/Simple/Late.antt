-- ===== src/Action/Simple/Late.antt =====
-- News of earlier goals of a simple action client:
-- rosrust_actionlib/src/action_client/simple_action_client.rs.
use rosrust.Prelude.{
  ℕ, zero, suc, ◌<◌, ◌≡◌, refl, ap, sym, ◌∙◌, Bool, some, Option-cases, inl, inr, List, [], ◌∷◌,
  ◌++◌, length, get_elem?, All, arith,
}
use rosrust.Action.Client.{View}
use rosrust.Action.Simple.{
  SimpleGoalState, CallbackStatus, SimpleActionClient, change, stop_tracking_goal, detach_goal,
  send_goal, get_simple_state, on_transition, handle_transition,
}

module _ {R F : Type 0} where
  change-suc :
      (f : CallbackStatus R F → CallbackStatus R F) (i : ℕ) (s : CallbackStatus R F)
      (ss : List (CallbackStatus R F))
      → change f (suc i) (s ∷ ss) ≡ s ∷ change f i ss
  change-suc f i s ss = elim (Option-cases (get_elem? ss i)) [
    | inl e ↦ rw (change, e) refl
    | inr (t, e) ↦ rw (change, e) refl
  ]

  change-append :
      (f : CallbackStatus R F → CallbackStatus R F) (i : ℕ) (ss ts : List (CallbackStatus R F))
      → i < length ss
      → change f i (ss ++ ts) ≡ change f i ss ++ ts
  change-append f i [] ts h = absurd (omega (arith, h))
  change-append f zero (s ∷ ss) ts h = refl
  change-append f (suc i) (s ∷ ss) ts h =
      rw (change-suc f i s (ss ++ ts), change-suc f i s ss)
        (ap (λ (l : List (CallbackStatus R F)). s ∷ l) (change-append f i ss ts (omega (arith, h))))

  length-change :
      (f : CallbackStatus R F → CallbackStatus R F) (i : ℕ) (ss : List (CallbackStatus R F))
      → length (change f i ss) ≡ length ss
  length-change f i [] = refl
  length-change f zero (s ∷ ss) = refl
  length-change f (suc i) (s ∷ ss) = rw (change-suc f i s ss) (omega (arith, length-change f i ss))

  get_elem-append :
      (ss : List (CallbackStatus R F)) (s : CallbackStatus R F)
      → get_elem? (ss ++ (s ∷ [])) (length ss) ≡ some s
  get_elem-append [] s = refl
  get_elem-append (t ∷ ss) s = get_elem-append ss s

module _ {G R F : Type 0} where
  -- Transitions of goals, one after the other.
  abbrev pub transitions : List (ℕ × View R) → SimpleActionClient G R F → SimpleActionClient G R F
  transitions [] c = c
  transitions ((i, v) ∷ news) c = transitions news (on_transition i v c)

  -- The latest goal is the last callback status, and so the one of the simple state.
  record Latest (n : ℕ) (s : CallbackStatus R F) (c : SimpleActionClient G R F) : Type 0 where
    olds : List (CallbackStatus R F)
    size : length olds ≡ n
    callbacks : c.callbacks ≡ olds ++ (s ∷ [])
    simple_state : c.simple_state ≡ some n

  transitions-Latest :
      (n : ℕ) (s : CallbackStatus R F) (news : List (ℕ × View R)) (c : SimpleActionClient G R F)
      → All (λ e. e.0 < n) news
      → Latest n s c
      → Latest n s (transitions news c)
  unfolding on_transition
  transitions-Latest n s [] c late h = h
  transitions-Latest n s ((i, v) ∷ news) c late h =
      transitions-Latest n s news (on_transition i v c) late.1 (record {
        olds = change (handle_transition v) i h.olds;
        size = length-change (handle_transition v) i h.olds ∙ h.size;
        callbacks =
            ap (λ (l : List (CallbackStatus R F)). change (handle_transition v) i l) h.callbacks
            ∙ change-append (handle_transition v) i h.olds (s ∷ []) (omega (arith, late.0, h.size));
        simple_state = h.simple_state;
      })

  Latest-state :
      (n : ℕ) (s : CallbackStatus R F) (c : SimpleActionClient G R F)
      → Latest n s c
      → get_simple_state c ≡ s.state
  unfolding get_simple_state
  Latest-state n s c h =
      rw (h.simple_state, h.callbacks, sym h.size, get_simple_state, get_elem-append h.olds s) refl

  length-stop :
      (c : SimpleActionClient G R F)
      → length (stop_tracking_goal c).1.callbacks ≡ length c.callbacks
  unfolding stop_tracking_goal detach_goal
  length-stop c = elim (Option-cases c.callback_handle) [
    | inl e ↦ rw e refl
    | inr (i, e) ↦ rw e (length-change _ i c.callbacks)
  ]

  -- After a goal is sent, transitions of goals that were sent before it, however many and in whatever
  -- order, leave the simple state of the client at `Pending`.
  pub send_goal-transitions :
      (goal : G) (on_done on_active on_feedback : Bool) (news : List (ℕ × View R))
      (c : SimpleActionClient G R F)
      → All (λ e. e.0 < length c.callbacks) news
      → get_simple_state (transitions news (send_goal goal on_done on_active on_feedback c))
        ≡ SimpleGoalState.pending
  unfolding send_goal
  send_goal-transitions goal on_done on_active on_feedback news c late =
      Latest-state (length c.callbacks) _
        (transitions news (send_goal goal on_done on_active on_feedback c))
        (transitions-Latest (length c.callbacks)
          (record {
            expired = Bool.false;
            state = SimpleGoalState.pending;
            on_done = on_done;
            on_active = on_active;
            on_feedback = on_feedback;
            called = [];
          })
          news (send_goal goal on_done on_active on_feedback c) late
          (record {
            olds = (stop_tracking_goal c).1.callbacks;
            size = length-stop c;
            callbacks = refl;
            simple_state = ap (λ (n : ℕ). some n) (length-stop c);
          }))
