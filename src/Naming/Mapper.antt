-- ===== src/Naming/Mapper.antt =====
-- rosrust/src/api/naming/mapper.rs: the tree of name remappings. The hash map of children is an
-- association list; every read of it is by key.
use mathlib.Core.Option
use rosrust.Prelude.{
  ℕ, Bool, true, false, Option, none, some, List, [], ◌∷◌, if◌then◌else◌, Bytes, equal,
}
use rosrust.Naming.Path.{Slice, Buffer, slice}
pub mod Lookup

mutual
  pub data Mapper : Type 0 where
    node : Children → Option Buffer → Mapper

  pub data Children : Type 0 where
    nil : Children
    entry : Bytes → Mapper → Children → Children

-- `Mapper::new`.
abbrev pub new : Mapper
new = node nil none

-- `self.children.get(key)`.
unfoldable pub get : Bytes → Children → Option Mapper
get key nil = none
get key (entry k m cs) = if equal k key then some m else get key cs

-- `self.children.entry(key).or_insert_with(Mapper::new)`, changed in place by `f`.
unfoldable pub update : Bytes → (Mapper → Mapper) → Children → Children
update key f nil = entry key (f new) nil
update key f (entry k m cs) = if equal k key then entry k (f m) cs else entry k m (update key f cs)

-- `Mapper::add`.
unfoldable pub add : List Bytes → Buffer → Mapper → Mapper
unfolding update
add [] value (node cs old) = node cs (some value)
add (key ∷ child_keys) value (node cs old) = node (update key (add child_keys value) cs) old

-- `Mapper::translate`.
unfoldable pub translate : List Bytes → Mapper → Option Slice
unfolding get
translate [] (node cs value) = Option.map slice value
translate (key ∷ child_keys) (node cs value) = elim (get key cs) [
  | none ↦ none
  | some m ↦ translate child_keys m
]
