-- ===== src/Action/Server/List.antt =====
-- rosrust_actionlib/src/action_server/status_list.rs. Trackers are shared between the list and the
-- handles of goals: they live in a store, and the list and a handle hold a tracker's number, the store
-- being a function from numbers to trackers. The
-- `BTreeMap` from ids to trackers is an association list in the order of its keys.
use rosrust.Prelude.{
  ◌≡◌, ℕ, ◌+◌, Bool, true, false, not, ◌&&◌, ◌||◌, Option, none, some, List, [], ◌∷◌, if◌then◌else◌,
  ltb, ◌==◌, Bytes, equal, get_elem?, All,
}
use rosrust.Prelude.Int.{ℤ, ◌+ℤ◌, ltb_ℤ}
use rosrust.Time.{Time, time_nanos}
use rosrust.Action.Goal.{GoalStatus}
use rosrust.Action.Server.State.{StatusTracker, to_status}
pub mod Sorted
pub mod Reap

-- The order of texts: by the first byte that differs, a prefix first.
unfoldable pub before : Bytes → Bytes → Bool
before _ [] = false
before [] (y ∷ ys) = true
before (x ∷ xs) (y ∷ ys) = ltb x y || (x == y && before xs ys)

abbrev pub Items : Type 0
Items = List (Bytes × ℕ)

-- `BTreeMap::insert`, `get` and `remove`.
unfoldable pub insert : Bytes → ℕ → Items → Items
insert key t [] = (key, t) ∷ []
insert key t ((j, u) ∷ m) =
    let rest = insert key t m in
    if before key j
    then (key, t) ∷ (j, u) ∷ m
    else if equal key j
    then (key, t) ∷ m
    else (j, u) ∷ rest

unfoldable pub get : Bytes → Items → Option ℕ
get key [] = none
get key ((j, u) ∷ m) = if equal key j then some u else get key m

unfoldable pub remove : Bytes → Items → Items
remove key [] = []
remove key ((j, u) ∷ m) = let rest = remove key m in if equal key j then m else (j, u) ∷ rest

-- Every key is before the keys after it.
abbrev pub IsSorted : Items → Type 0
IsSorted [] = Unit
IsSorted ((j, _) ∷ m) = All (λ e. before j e.0 ≡ true) m × IsSorted m

-- The two loops of `StatusList::remove_dead_keys`.
unfoldable pub dead_keys : (ℕ → Bool) → Items → List Bytes
dead_keys dead [] = []
dead_keys dead ((key, t) ∷ m) = let rest = dead_keys dead m in if dead t then key ∷ rest else rest

unfoldable pub remove_all : List Bytes → Items → Items
remove_all [] m = m
remove_all (key ∷ keys) m = remove_all keys (remove key m)

module _ {B : Type 0} where
  -- Whether the time to destroy the tracker, with the timeout added, has come. The sum is an `i64`
  -- of the source, which it does not leave at a timeout below 100 years.
  unfoldable pub is_dead : ℤ → Time → StatusTracker B → Bool
  is_dead timeout now t = elim t.destruction_time [
    | none ↦ false
    | some d ↦ not (ltb_ℤ (time_nanos now) (time_nanos d +ℤ timeout))
  ]

  -- `StatusList::remove_dead_keys`.
  unfoldable pub remove_dead_keys : ℤ → Time → (ℕ → StatusTracker B) → Items → Items
  remove_dead_keys timeout now trackers m =
      remove_all (dead_keys (λ t. is_dead timeout now (trackers t)) m) m

  -- The list of `StatusList::to_status_array`; its header is the default one.
  unfoldable pub to_status_array : (ℕ → StatusTracker B) → Items → List GoalStatus
  to_status_array trackers [] = []
  to_status_array trackers ((_, t) ∷ m) = to_status (trackers t) ∷ to_status_array trackers m
