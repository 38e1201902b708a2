-- ===== src/Slave.antt =====
-- The side of a node that its master and its peers call: rosrust/src/api/slave. This module has the
-- sets of names and the tables by name that the parts share. A `BTreeSet` is the list of its items in
-- their order, and a `HashMap` the list of its entries in the order of their insertion.
use rosrust.Prelude.{
  ℕ, Bool, true, false, not, ◌&&◌, ◌||◌, Option, none, some, List, [], ◌∷◌, if◌then◌else◌, Bytes,
  equal, ltb, ◌==◌,
}
pub mod Sets
pub mod Subscriptions
pub mod Publications
pub mod Handler
mod Tests

-- `Topic`.
pub record Topic : Type 0 where
  pub name : Bytes
  pub msg_type : Bytes

-- `Ord` of the type `String`: byte by byte.
abbrev pub is_before : Bytes → Bytes → Bool
is_before [] [] = false
is_before [] (_ ∷ _) = true
is_before (_ ∷ _) [] = false
is_before (c ∷ s) (d ∷ t) = let later = is_before s t in if c == d then later else ltb c d

abbrev pub contains : Bytes → List Bytes → Bool
contains x [] = false
contains x (y ∷ ys) = equal y x || contains x ys

-- `BTreeSet::insert`.
abbrev pub set_insert : Bytes → List Bytes → List Bytes
set_insert x [] = x ∷ []
set_insert x (y ∷ ys) =
    let later = set_insert x ys in
    if equal y x then y ∷ ys else if is_before x y then x ∷ y ∷ ys else y ∷ later

-- `collect` into a `BTreeSet`. The order in which the items are put in does not show.
abbrev pub collect : List Bytes → List Bytes
collect [] = []
collect (x ∷ xs) = set_insert x (collect xs)

-- `BTreeSet::remove`.
abbrev pub set_remove : Bytes → List Bytes → List Bytes
set_remove x [] = []
set_remove x (y ∷ ys) = let later = set_remove x ys in if equal y x then later else y ∷ later

-- `BTreeSet::difference`.
abbrev pub difference : List Bytes → List Bytes → List Bytes
difference [] ys = []
difference (x ∷ xs) ys = let later = difference xs ys in if contains x ys then later else x ∷ later

-- `HashMap` by a name.
abbrev pub Table : Type 0 → Type 0
Table A = List (Bytes × A)

module _ {A : Type 0} where
  abbrev pub find : Bytes → Table A → Option A
  find k [] = none
  find k ((j, a) ∷ table) = let later = find k table in if equal j k then some a else later

  -- A write to the value of a key that is there.
  abbrev pub write : Bytes → A → Table A → Table A
  write k a [] = []
  write k a ((j, b) ∷ table) =
      let later = write k a table in if equal j k then (j, a) ∷ table else (j, b) ∷ later

  abbrev pub table_remove : Bytes → Table A → Table A
  table_remove k [] = []
  table_remove k ((j, a) ∷ table) =
      let later = table_remove k table in if equal j k then later else (j, a) ∷ later

  abbrev pub table_values : Table A → List A
  table_values [] = []
  table_values ((_, a) ∷ table) = a ∷ table_values table
