-- ===== src/Tcpros/Fork.antt =====
-- The thread that gives a publisher's messages to its subscribers:
-- rosrust/src/tcpros/util/streamfork.rs. What a write makes of a stream, and whether it works, is a
-- parameter; what the thread receives is a list of events.
use rosrust.Prelude.{
  ℕ, zero, suc, Bool, true, false, Option, none, some, List, [], ◌∷◌, ◌++◌, map, if◌then◌else◌,
  Bytes,
}
pub mod Pruning

pub record SubscriberInfo (W : Type 0) : Type 0 where
  pub caller_id : Bytes
  pub stream : W

-- `ForkThread`, with the names that it shares with the data stream.
pub record ForkThread (W : Type 0) : Type 0 where
  pub targets : List (SubscriberInfo W)
  pub target_names : List Bytes

-- What the thread receives: a kill signal, a message, a subscriber, or the end of a channel.
pub data Event (W : Type 0) : Type 0 where
  killed : Event W
  message : Bytes → Event W
  subscriber : SubscriberInfo W → Event W
  closed : Event W

module _ {W : Type 0} where
  abbrev pub fork_new : ForkThread W
  fork_new = record { targets = []; target_names = [] }

  abbrev pub caller : SubscriberInfo W → Bytes
  caller t = t.caller_id

  unfoldable pub update_target_names : ForkThread W → ForkThread W
  update_target_names f = record f { target_names = map caller f.targets }

  unfoldable pub add_target : SubscriberInfo W → ForkThread W → ForkThread W
  unfolding update_target_names
  add_target target f = update_target_names (record f { targets = f.targets ++ (target ∷ []) })

  -- `Vec::pop`: the last item in front of the others.
  abbrev pub last_first : List (SubscriberInfo W) → List (SubscriberInfo W)
  last_first [] = []
  last_first (t ∷ ts) = elim (last_first ts) [ [] ↦ t ∷ [] | l ∷ rest ↦ l ∷ t ∷ rest ]

  -- `Vec::swap_remove`: the last item takes the place of the one that is removed.
  unfoldable pub swap_remove : ℕ → List (SubscriberInfo W) → List (SubscriberInfo W)
  swap_remove i [] = []
  swap_remove zero (t ∷ ts) = last_first ts
  swap_remove (suc i) (t ∷ ts) = t ∷ swap_remove i ts

  -- The writes, with whether they worked.
  abbrev pub write_each :
      (Bytes → W → Bool × W) → Bytes → List (SubscriberInfo W) → List (Bool × SubscriberInfo W)
  write_each write_all buffer [] = []
  write_each write_all buffer (t ∷ ts) =
      ((write_all buffer t.stream).0, record t { stream = (write_all buffer t.stream).1 })
      ∷ write_each write_all buffer ts

  -- The places of the writes that failed, counted from this one.
  abbrev pub dropped_targets : ℕ → List (Bool × SubscriberInfo W) → List ℕ
  dropped_targets idx [] = []
  dropped_targets idx ((worked, _) ∷ ws) =
      let later = dropped_targets (suc idx) ws in if worked then later else idx ∷ later

  abbrev pub targets_of : List (Bool × SubscriberInfo W) → List (SubscriberInfo W)
  targets_of [] = []
  targets_of ((_, t) ∷ ws) = t ∷ targets_of ws

  -- The loop over the places, from the last to the first.
  abbrev pub remove_reversed : List ℕ → List (SubscriberInfo W) → List (SubscriberInfo W)
  remove_reversed [] ts = ts
  remove_reversed (idx ∷ idxs) ts = swap_remove idx (remove_reversed idxs ts)

  unfoldable pub prune : List ℕ → ForkThread W → ForkThread W
  unfolding swap_remove update_target_names
  prune [] f = f
  prune (idx ∷ idxs) f =
      update_target_names (record f { targets = remove_reversed (idx ∷ idxs) f.targets })

  unfoldable pub publish_buffer_and_prune_targets :
      (Bytes → W → Bool × W) → Bytes → ForkThread W → ForkThread W
  unfolding prune
  publish_buffer_and_prune_targets write_all buffer f =
      let ws = write_each write_all buffer f.targets in
      prune (dropped_targets 0 ws) (record f { targets = targets_of ws })

  -- `step`; none if it gives an error, which ends the thread.
  unfoldable pub step : (Bytes → W → Bool × W) → Event W → ForkThread W → Option (ForkThread W)
  unfolding publish_buffer_and_prune_targets add_target
  step write_all killed f = none
  step write_all (message buffer) f = some (publish_buffer_and_prune_targets write_all buffer f)
  step write_all (subscriber target) f = some (add_target target f)
  step write_all closed f = none

  -- `run`, over the events until it ends or they do.
  unfoldable pub run : (Bytes → W → Bool × W) → List (Event W) → ForkThread W → ForkThread W
  unfolding step
  run write_all [] f = f
  run write_all (e ∷ events) f = elim (step write_all e f) [
    | none ↦ f
    | some g ↦ run write_all events g
  ]
