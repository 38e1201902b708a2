-- ===== src/Codegen/Msg.antt =====
-- Messages: `Msg` and `match_lines` of rosrust_codegen/src/msg.rs.
use rosrust.Prelude.{
  Option, none, some, Bool, true, false, not, ◌||◌, List, [], ◌∷◌, ◌++◌, if◌then◌else◌, codes,
  Bytes,
}
use rosrust.Codegen.Scan.{Text, split, trim}
use rosrust.Codegen.Field.{
  DataType, local_struct, remote_struct, FieldInfo, Hashes, field_md5_string, is_constant,
  is_header,
}
use rosrust.Codegen.Line.{Error, Outcome, good, bad, panicked, match_line}
pub mod Dependencies

pub data Result (A : Type 0) : Type 0 where
  ok : A → Result A
  err : Error → Result A
  panic : Result A

pub record Msg : Type 0 where
  pub pkg : Text
  pub name : Text
  pub fields : List FieldInfo
  pub source : Text

-- `collect` stops at the first error.
unfoldable pub collect : List Text → Result (List FieldInfo)
unfolding match_line
collect [] = ok []
collect (l ∷ lines) = elim (match_line l) [
  | none ↦ collect lines
  | some (bad e) ↦ err e
  | some panicked ↦ panic
  | some (good f) ↦ elim (collect lines) [
    | ok fields ↦ ok (f ∷ fields)
    | err e ↦ err e
    | panic ↦ panic
  ]
]

unfoldable pub match_lines : Text → Result (List FieldInfo)
unfolding split collect
match_lines data_ = collect (split 10 data_)

-- `Msg::new`.
unfoldable pub new : Text → Text → Text → Result Msg
unfolding match_lines trim
new pkg name source = elim (match_lines source) [
  | err e ↦ err e
  | panic ↦ panic
  | ok fields ↦ ok (record { pkg = pkg; name = name; fields = fields; source = trim source })
]

-- `get_type`.
unfoldable pub get_type : Msg → Text
get_type m = m.pkg ++ (b'/' ∷ m.name)

pub record Name : Type 0 where
  pub pkg : Text
  pub name : Text

-- `dependencies`, of the message of a package.
unfoldable pub dependency : Text → DataType → Option Name
dependency pkg (local_struct name) = some (record { pkg = pkg; name = name })
dependency pkg (remote_struct other name) = some (record { pkg = other; name = name })
dependency pkg _ = none

unfoldable pub dependencies_of : Text → List FieldInfo → List Name
unfolding dependency
dependencies_of pkg [] = []
dependencies_of pkg (f ∷ fields) = elim (dependency pkg f.datatype) [
  | none ↦ dependencies_of pkg fields
  | some d ↦ d ∷ dependencies_of pkg fields
]

abbrev pub dependencies : Msg → List Name
dependencies m = dependencies_of m.pkg m.fields

-- The two filters of `get_md5_representation`.
abbrev pub selected : Bool → FieldInfo → Bool
selected constants f = if constants then is_constant f else not (is_constant f)

-- The descriptions of the fields of a kind, or none when one of them has none.
unfoldable pub describe_all : Bool → Text → Hashes → List FieldInfo → Option (List Text)
unfolding is_constant field_md5_string
describe_all constants pkg hashes [] = some []
describe_all constants pkg hashes (f ∷ fields) =
    let later = describe_all constants pkg hashes fields in
    if selected constants f
    then elim (field_md5_string pkg hashes f) [
      | none ↦ none
      | some text ↦ elim later [ none ↦ none | some texts ↦ some (text ∷ texts) ]
    ]
    else later

-- `join("\n")`.
unfoldable pub join : List Text → Text
join [] = []
join (t ∷ []) = t
join (t ∷ (u ∷ texts)) = t ++ (10 ∷ join (u ∷ texts))

-- `get_md5_representation`: constants first.
unfoldable pub get_md5_representation : Msg → Hashes → Option Text
unfolding describe_all join
get_md5_representation m hashes = elim (describe_all true m.pkg hashes m.fields) [
  | none ↦ none
  | some constants ↦ elim (describe_all false m.pkg hashes m.fields) [
    | none ↦ none
    | some fields ↦ some (join (constants ++ fields))
  ]
]

-- `has_header`.
unfoldable pub has_header : List FieldInfo → Bool
unfolding is_header
has_header [] = false
has_header (f ∷ fields) = is_header f || has_header fields
