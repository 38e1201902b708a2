-- ===== src/Codegen/Collect.antt =====
-- The messages that are needed for the ones asked for: `get_message_map` and
-- `generate_message_definition` of rosrust_codegen/src/helpers.rs. What `get_message` finds is an
-- argument of the loop, or none when it gives an error. The loops run on fuel: the first need not
-- end when the folders have messages without end.
use rosrust.Prelude.{
  Option, none, some, ℕ, zero, suc, ◌&&◌, Bool, true, false, ◌||◌, List, [], ◌∷◌, ◌++◌,
  if◌then◌else◌, codes, equal,
}
use rosrust.Codegen.Scan.{Text}
use rosrust.Codegen.Field.{Entry, get}
use rosrust.Codegen.Msg.{Msg, Name, dependencies}
use rosrust.Codegen.Checksums.{Messages, MessageMap, insert}
pub mod Insert
pub mod Pending
pub mod Closed
pub mod Folders
pub mod Served
pub mod Ends

-- `MessageCase`.
pub data MessageCase : Type 0 where
  message : Msg → MessageCase
  service : Text → Msg → Msg → MessageCase

-- The variables of the loop. The last name to be pushed on the `Vec` stands first.
pub record Search : Type 0 where
  pub msgs : Messages
  pub srvs : List Name
  pub pending : List Name

-- Names pushed one after the other.
unfoldable pub push_all : List Name → List Name → List Name
push_all [] pending = pending
push_all (d ∷ names) pending = push_all names (d ∷ pending)

abbrev pub keyed : Text → Text → Msg → Entry Msg
keyed p n m = record { pkg = p; name = n; item = m }

-- `contains` and `insert` of a `HashSet`.
unfoldable pub contains : Name → List Name → Bool
unfolding equal
contains n [] = false
contains n (m ∷ names) = (equal m.pkg n.pkg && equal m.name n.name) || contains n names

abbrev pub include : Name → List Name → List Name
include n names = if contains n names then names else n ∷ names

module _ (get_message : Text → Text → Option MessageCase) where
  -- What the loop does with a name whose message is not there, given what is pending besides.
  unfoldable pub add : Name → MessageCase → Search → Search
  unfolding push_all insert contains
  add value (message m) s = record {
    msgs = insert (keyed value.pkg value.name m) s.msgs;
    srvs = s.srvs;
    pending = push_all (dependencies m) s.pending;
  }
  add value (service name req res) s = record {
    msgs = insert (keyed value.pkg res.name res) (insert (keyed value.pkg req.name req) s.msgs);
    srvs = include (record { pkg = value.pkg; name = name }) s.srvs;
    pending = push_all (dependencies res) (push_all (dependencies req) s.pending);
  }

  -- The loop: none is that the fuel is used up, and the inner none an error.
  unfoldable pub search : ℕ → Messages → List Name → List Name → Option (Option MessageMap)
  unfolding add get
  search zero msgs srvs pending = none
  search (suc fuel) msgs srvs [] = some (some (record { messages = msgs; services = srvs }))
  search (suc fuel) msgs srvs (value ∷ pending) = elim (get value.pkg value.name msgs) [
    | some _ ↦ search fuel msgs srvs pending
    | none ↦ elim (get_message value.pkg value.name) [
      | none ↦ some none
      | some found ↦
          let next = add value found (record { msgs = msgs; srvs = srvs; pending = pending }) in
          search fuel next.msgs next.srvs next.pending
    ]
  ]

  unfoldable pub get_message_map : ℕ → List Name → Option (Option MessageMap)
  unfolding search push_all
  get_message_map fuel messages = search fuel [] [] (push_all messages [])

-- The loop of `generate_message_definition`, with the text so far.
unfoldable pub define : ℕ → Messages → List Name → Text → List Name → Option (Option Text)
unfolding contains get
define zero message_map handled result pending = none
define (suc fuel) message_map handled result [] = some (some (result ++ (10 ∷ [])))
define (suc fuel) message_map handled result (value ∷ pending) =
    let skipped = define fuel message_map handled result pending in
    if contains value handled then skipped else elim (get value.pkg value.name message_map) [
      | none ↦ some none
      | some m ↦
          define fuel message_map (value ∷ handled)
            (result
              ++ (10
                    ∷ 10
                    ∷ codes
                        "================================================================================"
                  ++ (10 ∷ codes "MSG: " ++ (value.pkg ++ (b'/' ∷ value.name ++ (10 ∷ m.source))))))
            (pending ++ dependencies m)
    ]

unfoldable pub generate_message_definition : ℕ → Messages → Msg → Option (Option Text)
unfolding define
generate_message_definition fuel message_map m =
    define fuel message_map [] m.source (dependencies m)
