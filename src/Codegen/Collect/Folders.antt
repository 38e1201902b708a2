-- ===== src/Codegen/Collect/Folders.antt =====
-- `get_message` of rosrust_codegen/src/helpers.rs. What opening and reading a file gives, and the texts
-- of the three messages that the program includes, are parameters.
use rosrust.Prelude.{
  Option, none, some, ◌≡◌, refl, inl, inr, Option-cases, List, [], ◌∷◌, ◌++◌, if◌then◌else◌, codes,
  equal,
}
use rosrust.Codegen.Scan.{Text, split, trim}
use rosrust.Codegen.Field.{FieldInfo}
use rosrust.Codegen.Msg.{Msg, Result, ok, err, panic, new, match_lines}
use rosrust.Codegen.Collect.{MessageCase, message, service}

-- A file does not open, or cannot be read as a text, or has this text.
pub data File : Type 0 where
  missing : File
  unreadable : File
  contents : Text → File

-- The texts of Clock.msg, Log.msg and Header.msg.
pub record Included : Type 0 where
  pub clock : Text
  pub log : Text
  pub header : Text

-- The look-up in `IN_MEMORY_MESSAGES`.
unfoldable pub in_memory : Included → Text → Option Text
unfolding equal
in_memory i key =
    if equal key (codes "rosgraph_msgs/Clock")
    then some i.clock
    else if equal key (codes "rosgraph_msgs/Log")
    then some i.log
    else if equal key (codes "std_msgs/Header")
    then some i.header
    else none

abbrev pub in_front : Text → List Text → List Text
in_front text [] = text ∷ []
in_front text (part ∷ parts) = (text ++ part) ∷ parts

-- The split at `^---$`, of the lines of a text; all but the first have the end of a line in front.
unfoldable pub split_lines : Text → List Text → List Text
unfolding equal
split_lines lead [] = [] ∷ []
split_lines lead (line ∷ lines) =
    let parts = split_lines (10 ∷ []) lines in
    if equal line (codes "---") then lead ∷ parts else in_front (lead ++ line) parts

-- `Msg::new`, without its error or its panic.
abbrev pub new_ok : Text → Text → Text → Option Msg
new_ok pkg name text = elim (new pkg name text) [ ok m ↦ some m | err _ ↦ none | panic ↦ none ]

abbrev pub read_message : Text → Text → Text → Option MessageCase
read_message pkg name text = elim (new_ok pkg name text) [ none ↦ none | some m ↦ some (message m) ]

abbrev pub both_parts : Text → Text → Text → Text → Option MessageCase
both_parts pkg name req res = elim (new_ok pkg (name ++ codes "Req") req) [
  | none ↦ none
  | some q ↦ elim (new_ok pkg (name ++ codes "Res") res) [
    | none ↦ none
    | some r ↦ some (service name q r)
  ]
]

abbrev pub parts_case : Text → Text → List Text → Option MessageCase
parts_case pkg name [] = none
parts_case pkg name (req ∷ []) = both_parts pkg name req []
parts_case pkg name (req ∷ res ∷ []) = both_parts pkg name req res
parts_case pkg name (req ∷ res ∷ more ∷ parts) = none

unfoldable pub read_service : Text → Text → Text → Option MessageCase
unfolding new split_lines split
read_service pkg name text = parts_case pkg name (split_lines [] (split 10 text))

-- The folder, the package, "msg" or "srv", and the name say which file it is.
abbrev pub Open : Type 0
Open = Text → Text → Text → Text → File

unfoldable pub get_message : Open → Included → List Text → Text → Text → Option MessageCase
unfolding new read_service in_memory
get_message open_ i [] pkg name = elim (in_memory i (pkg ++ (b'/' ∷ name))) [
  | none ↦ none
  | some text ↦ read_message pkg name text
]
get_message open_ i (folder ∷ folders) pkg name =
    let later = get_message open_ i folders pkg name in
    elim (open_ folder pkg (codes "msg") name) [
      | contents text ↦ read_message pkg name text
      | unreadable ↦ none
      | missing ↦ elim (open_ folder pkg (codes "srv") name) [
        | contents text ↦ read_service pkg name text
        | unreadable ↦ none
        | missing ↦ later
      ]
    ]

-- What a name gives is called after it.
abbrev pub Named : Text → Option MessageCase → Type 0
Named n none = Unit
Named n (some (message _)) = Unit
Named n (some (service s q r)) = (s ≡ n) × (q.name ≡ n ++ codes "Req") × (r.name ≡ n ++ codes "Res")

abbrev CalledBy : Text → Option Msg → Type 0
CalledBy n none = Unit
CalledBy n (some m) = m.name ≡ n

new_ok-CalledBy : (p n t : Text) → CalledBy n (new_ok p n t)
unfolding new
new_ok-CalledBy p n t = from_lines (match_lines t)
  where
    from_lines :
        (x : Result (List FieldInfo))
        → CalledBy n
            (elim (elim x as (λ _. Result Msg) [
              | err e ↦ err e
              | panic ↦ panic
              | ok fields ↦ ok (record { pkg = p; name = n; fields = fields; source = trim t })
            ]) [ ok m ↦ some m | err _ ↦ none | panic ↦ none ])
    from_lines (ok fields) = refl
    from_lines (err e) = tt
    from_lines panic = tt

read_message-Named : (p n t : Text) → Named n (read_message p n t)
read_message-Named p n t =
    elim (new_ok p n t) as (λ x. Named n (elim x [ none ↦ none | some m ↦ some (message m) ])) [
      | none ↦ tt
      | some m ↦ tt
    ]

both_parts-Named : (p n q r : Text) → Named n (both_parts p n q r)
both_parts-Named p n q r =
    both (new_ok p (n ++ codes "Req") q) (new_ok p (n ++ codes "Res") r)
      (new_ok-CalledBy p (n ++ codes "Req") q) (new_ok-CalledBy p (n ++ codes "Res") r)
  where
    both :
        (x y : Option Msg)
        → CalledBy (n ++ codes "Req") x
        → CalledBy (n ++ codes "Res") y
        → Named n (elim x [
          | none ↦ none
          | some q ↦ elim y [ none ↦ none | some r ↦ some (service n q r) ]
        ])
    both none y h k = tt
    both (some q) none h k = tt
    both (some q) (some r) h k = (refl, h, k)

parts_case-Named : (p n : Text) (parts : List Text) → Named n (parts_case p n parts)
parts_case-Named p n [] = tt
parts_case-Named p n (q ∷ []) = both_parts-Named p n q []
parts_case-Named p n (q ∷ r ∷ []) = both_parts-Named p n q r
parts_case-Named p n (q ∷ r ∷ more ∷ parts) = tt

pub get_message-Named :
    (open_ : Open) (i : Included) (folders : List Text) (p n : Text)
    → Named n (get_message open_ i folders p n)
unfolding get_message read_service
get_message-Named open_ i [] p n = elim (Option-cases (in_memory i (p ++ (b'/' ∷ n)))) [
  | inl e ↦ rw (get_message, e) tt
  | inr (t, e) ↦ rw (get_message, e) (read_message-Named p n t)
]
get_message-Named open_ i (folder ∷ folders) p n =
    opened (open_ folder p (codes "msg") n) (open_ folder p (codes "srv") n)
      (get_message-Named open_ i folders p n)
  where
    opened :
        (x y : File)
        → Named n (get_message open_ i folders p n)
        → Named n (elim x [
          | contents text ↦ read_message p n text
          | unreadable ↦ none
          | missing ↦ elim y [
            | contents text ↦ read_service p n text
            | unreadable ↦ none
            | missing ↦ get_message open_ i folders p n
          ]
        ])
    opened (contents t) y later = read_message-Named p n t
    opened unreadable y later = tt
    opened missing (contents t) later = parts_case-Named p n (split_lines [] (split 10 t))
    opened missing unreadable later = tt
    opened missing missing later = later
