-- ===== src/Tcpros/Fork/Pruning.antt =====
-- The subscribers that stay after a message: rosrust/src/tcpros/util/streamfork.rs.
use mathlib.Core.List.{Perm}
use mathlib.Core.List.Perm
use rosrust.Prelude.{
  ℕ, suc, ◌≡◌, refl, ap, ◌∙◌, Bool, true, false, List, [], ◌∷◌, map, Bytes, if◌then◌else◌,
}
use rosrust.Tcpros.Fork.{
  SubscriberInfo, ForkThread, caller, update_target_names, last_first, swap_remove, write_each,
  dropped_targets, targets_of, remove_reversed, prune, publish_buffer_and_prune_targets,
}

module _ {W : Type 0} where
  -- The subscribers whose writes worked, with their streams after it.
  abbrev pub reached : List (Bool × SubscriberInfo W) → List (SubscriberInfo W)
  reached [] = []
  reached ((worked, t) ∷ ws) = let later = reached ws in if worked then t ∷ later else later

  behind-Perm :
      (t : SubscriberInfo W) (us ts : List (SubscriberInfo W))
      → Perm us ts
      → Perm (elim us [ [] ↦ t ∷ [] | l ∷ rest ↦ l ∷ t ∷ rest ]) (t ∷ ts)
  behind-Perm t [] ts h = Perm.cons t h
  behind-Perm t (l ∷ rest) ts h = Perm.trans (Perm.swap t l rest) (Perm.cons t h)

  last_first-Perm : (ts : List (SubscriberInfo W)) → Perm (last_first ts) ts
  last_first-Perm [] = Perm.refl []
  last_first-Perm (t ∷ ts) = behind-Perm t (last_first ts) ts (last_first-Perm ts)

  dropped_targets-suc :
      (n : ℕ) (ws : List (Bool × SubscriberInfo W))
      → dropped_targets (suc n) ws ≡ map (λ i. suc i) (dropped_targets n ws)
  dropped_targets-suc n [] = refl
  dropped_targets-suc n ((true, t) ∷ ws) = dropped_targets-suc (suc n) ws
  dropped_targets-suc n ((false, t) ∷ ws) =
      ap (λ (is : List ℕ). suc n ∷ is) (dropped_targets-suc (suc n) ws)

  remove_reversed-suc :
      (is : List ℕ) (t : SubscriberInfo W) (ts : List (SubscriberInfo W))
      → remove_reversed (map (λ i. suc i) is) (t ∷ ts) ≡ t ∷ remove_reversed is ts
  unfolding swap_remove
  remove_reversed-suc [] t ts = refl
  remove_reversed-suc (i ∷ is) t ts =
      ap (λ (us : List (SubscriberInfo W)). swap_remove (suc i) us) (remove_reversed-suc is t ts)

  removed-Perm :
      (ws : List (Bool × SubscriberInfo W))
      → Perm (remove_reversed (dropped_targets 0 ws) (targets_of ws)) (reached ws)
  unfolding swap_remove
  removed-Perm [] = Perm.refl []
  removed-Perm ((true, t) ∷ ws) =
      rw (dropped_targets-suc 0 ws, remove_reversed-suc (dropped_targets 0 ws) t (targets_of ws))
        (Perm.cons t (removed-Perm ws))
  removed-Perm ((false, t) ∷ ws) =
      rw (dropped_targets-suc 0 ws, remove_reversed-suc (dropped_targets 0 ws) t (targets_of ws))
        (Perm.trans (last_first-Perm (remove_reversed (dropped_targets 0 ws) (targets_of ws)))
          (removed-Perm ws))

  prune-targets :
      (is : List ℕ) (f : ForkThread W) → (prune is f).targets ≡ remove_reversed is f.targets
  unfolding prune update_target_names
  prune-targets [] f = refl
  prune-targets (i ∷ is) f = refl

  -- The names that the thread shows are those of its targets.
  abbrev pub IsNamed : ForkThread W → Type 0
  IsNamed f = f.target_names ≡ map caller f.targets

  prune-IsNamed : (is : List ℕ) (f : ForkThread W) → IsNamed f → IsNamed (prune is f)
  unfolding prune update_target_names
  prune-IsNamed [] f h = h
  prune-IsNamed (i ∷ is) f h = refl

  module _ (write_all : Bytes → W → Bool × W) where
    callers-write :
        (buffer : Bytes) (ts : List (SubscriberInfo W))
        → map caller ts ≡ map caller (targets_of (write_each write_all buffer ts))
    callers-write buffer [] = refl
    callers-write buffer (t ∷ ts) =
        ap (λ (names : List Bytes). t.caller_id ∷ names) (callers-write buffer ts)

    -- After a message the targets of the thread are those to which it could be written, each once and
    -- in some order, and the names that the thread shows are those of its targets, if they were before.
    pub publish-Perm :
        (buffer : Bytes) (f : ForkThread W)
        → IsNamed f
        → Perm
            (publish_buffer_and_prune_targets write_all buffer f).targets
            (reached (write_each write_all buffer f.targets))
          × IsNamed (publish_buffer_and_prune_targets write_all buffer f)
    unfolding publish_buffer_and_prune_targets
    publish-Perm buffer f h =
        let ws = write_each write_all buffer f.targets in
        (
          rw (prune-targets (dropped_targets 0 ws) (record f { targets = targets_of ws }))
              (removed-Perm ws),
          prune-IsNamed (dropped_targets 0 ws) (record f { targets = targets_of ws })
              (h ∙ callers-write buffer f.targets),
        )
