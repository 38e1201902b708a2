-- ===== src/Codegen/Checksums.antt =====
-- `calculate_md5` of rosrust_codegen/src/helpers.rs. The package `md5`, with `hex`, is a parameter. A
-- `HashMap` is the list of its entries in the order of iteration. The loop runs on fuel.
use rosrust.Prelude.{
  Option, none, some, ℕ, zero, suc, ◌+◌, ◌&&◌, Bool, true, false, List, [], ◌∷◌, ◌++◌,
  if◌then◌else◌, ltb, length, codes, equal,
}
use rosrust.Codegen.Scan.{Text}
use rosrust.Codegen.Field.{Entry, Hashes, get}
use rosrust.Codegen.Msg.{Msg, Name, get_md5_representation}
pub mod Pass
pub mod Count
pub mod Settled

abbrev pub Messages : Type 0
Messages = List (Entry Msg)

pub record MessageMap : Type 0 where
  pub messages : Messages
  pub services : List Name

-- The variables of the loop.
pub record Sums : Type 0 where
  pub representations : Hashes
  pub hashes : Hashes
  pub changed : Bool

abbrev pub entry : Text → Text → Text → Entry Text
entry p n t = record { pkg = p; name = n; item = t }

-- `insert`.
unfoldable pub insert : {A : Type 0} → Entry A → List (Entry A) → List (Entry A)
unfolding equal
insert new [] = new ∷ []
insert new (e ∷ table) =
    let later = insert new table in
    if equal e.pkg new.pkg && equal e.name new.name then new ∷ table else e ∷ later

abbrev pub unchanged : Sums → Sums
unchanged s = record { representations = s.representations; hashes = s.hashes; changed = false }

abbrev pub start : Sums
start = record { representations = []; hashes = []; changed = false }

module _ (calculate_md5_from_representation : Text → Text) where
  abbrev pub added : Entry Msg → Text → Sums → Sums
  added e answer s = record {
    representations = entry e.pkg e.name answer ∷ s.representations;
    hashes = entry e.pkg e.name (calculate_md5_from_representation answer) ∷ s.hashes;
    changed = true;
  }

  -- The body of the inner loop. The key is not in the tables when it is inserted.
  unfoldable pub visit : Entry Msg → Sums → Sums
  unfolding get get_md5_representation
  visit e s = elim (get e.pkg e.name s.hashes) [
    | some _ ↦ s
    | none ↦ elim (get_md5_representation e.item s.hashes) [
      | none ↦ s
      | some answer ↦ added e answer s
    ]
  ]

  unfoldable pub pass : Messages → Sums → Sums
  unfolding visit
  pass [] s = s
  pass (e ∷ messages) s = pass messages (visit e s)

  -- The outer loop; none is that the fuel is used up.
  unfoldable pub loop : ℕ → Messages → Sums → Option Sums
  unfolding pass
  loop zero messages s = none
  loop (suc fuel) messages s =
      let next = pass messages (unchanged s) in
      let rest = loop fuel messages next in
      if ltb (length s.hashes) (length messages)
      then if next.changed then rest else some next
      else some s

  -- The checksums of the services; none is an error.
  unfoldable pub add_services : Hashes → List Name → Hashes → Option Hashes
  unfolding get insert
  add_services representations [] hashes = some hashes
  add_services representations (s ∷ services) hashes =
      elim (get s.pkg (s.name ++ codes "Req") representations) [
        | none ↦ none
        | some req ↦ elim (get s.pkg (s.name ++ codes "Res") representations) [
          | none ↦ none
          | some res ↦
              add_services representations services (
                insert (entry s.pkg s.name (calculate_md5_from_representation (req ++ res))) hashes)
        ]
      ]

  -- What follows the loop; none is an error.
  unfoldable pub finish : MessageMap → Sums → Option Hashes
  unfolding add_services
  finish m s = elim (add_services s.representations m.services s.hashes) [
    | none ↦ none
    | some hashes ↦
        if ltb (length hashes) (length m.messages + length m.services) then none else some hashes
  ]

  unfoldable pub calculate_md5 : MessageMap → Option (Option Hashes)
  unfolding loop finish
  calculate_md5 m = elim (loop (suc (length m.messages)) m.messages start) [
    | none ↦ none
    | some s ↦ some (finish m s)
  ]
