-- ===== src/Action/Server/List/Reap.antt =====
-- What a publication of the list removes from it.
use rosrust.Prelude.{
  ◌≡◌, refl, inl, inr, ◌∙◌, ℕ, Bool, true, false, ◌||◌, Option, none, some, List, [], ◌∷◌, arith,
  if◌then◌else◌, Bytes, equal, equal_iff, equal_refl, All, Bool-cases,
}
use rosrust.Prelude.Int.{ℤ}
use rosrust.Time.{Time}
use rosrust.Action.Server.State.{StatusTracker}
use rosrust.Action.Server.List.{
  before, Items, get, remove, IsSorted, dead_keys, remove_all, is_dead, remove_dead_keys,
}
use rosrust.Action.Server.List.Sorted.{before-equal, get-before, get-remove, remove-IsSorted}

-- Whether the key is in the list.
listed : Bytes → List Bytes → Bool
listed k [] = false
listed k (j ∷ js) = equal j k || listed k js

remove_all-IsSorted : (js : List Bytes) (m : Items) → IsSorted m → IsSorted (remove_all js m)
unfolding remove_all
remove_all-IsSorted [] m s = s
remove_all-IsSorted (j ∷ js) m s = remove_all-IsSorted js (remove j m) (remove-IsSorted j m s)

get-remove_all :
    (k : Bytes) (js : List Bytes) (m : Items)
    → IsSorted m
    → get k (remove_all js m) ≡ (if listed k js then none else get k m)
unfolding remove_all listed
get-remove_all k [] m s = refl
get-remove_all k (j ∷ js) m s =
    ground (arith, get-remove_all k js (remove j m) (remove-IsSorted j m s), get-remove k j m s)

-- The tracker found under a key, when it is one to keep.
abbrev pub kept : (ℕ → Bool) → Option ℕ → Option ℕ
kept dead none = none
kept dead (some t) = if dead t then none else some t

dead_keys-before :
    (dead : ℕ → Bool) (k : Bytes) (m : Items)
    → All (λ e. before k e.0 ≡ true) m
    → listed k (dead_keys dead m) ≡ false
unfolding dead_keys listed
dead_keys-before dead k [] h = refl
dead_keys-before dead k ((j, t) ∷ m) h =
    let apart = before-equal k j h.0 in
    ground (arith, apart, equal_iff j k, equal_iff k j, dead_keys-before dead k m h.1)

kept-dead_keys :
    (dead : ℕ → Bool) (k : Bytes) (m : Items)
    → IsSorted m
    → (if listed k (dead_keys dead m) then none else get k m) ≡ kept dead (get k m)
unfolding dead_keys listed get
kept-dead_keys dead k [] s = refl
kept-dead_keys dead k ((j, t) ∷ m) s = elim (Bool-cases (equal k j)) [
  | inl e ↦
      let same = (equal_iff k j).0 e in
      let gone = get-before j m s.0 in
      let later = dead_keys-before dead j m s.0 in rw same ground (arith, equal_refl j, gone, later)
  | inr e ↦ ground (arith, equal_iff j k, equal_iff k j, kept-dead_keys dead k m s.1)
]

-- After dead goals are removed the list is in order, and a key leads to the tracker it led to,
-- when that tracker's time has not come, and to none when it has.
pub remove_dead_keys-keeps :
    {B : Type 0} (timeout : ℤ) (now : Time) (trackers : ℕ → StatusTracker B) (m : Items)
    → IsSorted m
    → IsSorted (remove_dead_keys timeout now trackers m)
      × ((k : Bytes)
          → get k (remove_dead_keys timeout now trackers m)
            ≡ kept (λ t. is_dead timeout now (trackers t)) (get k m))
unfolding remove_dead_keys
remove_dead_keys-keeps timeout now trackers m s =
    let dead : ℕ → Bool = λ t. is_dead timeout now (trackers t) in
    (
      remove_all-IsSorted (dead_keys dead m) m s,
      λ k. get-remove_all k (dead_keys dead m) m s ∙ kept-dead_keys dead k m s,
    )
