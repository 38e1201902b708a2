-- ===== src/Codegen/Field.antt =====
-- The types of fields and their names in checksums: `DataType`, `FieldCase` and `FieldInfo` of
-- rosrust_codegen/src/msg.rs.
use rosrust.Prelude.{
  Option, none, some, ℕ, Bool, true, false, ◌&&◌, List, [], ◌∷◌, ◌++◌, decimal, if◌then◌else◌,
  codes, equal,
}
use rosrust.Codegen.Scan.{Text, split}
pub mod Names

pub data DataType : Type 0 where
  bool : DataType
  int8 : Bool → DataType
  int16 int32 int64 : DataType
  uint8 : Bool → DataType
  uint16 uint32 uint64 float32 float64 string time duration : DataType
  local_struct : Text → DataType
  remote_struct : Text → Text → DataType

pub data FieldCase : Type 0 where
  unit vector : FieldCase
  array : ℕ → FieldCase
  const : Text → FieldCase

pub record FieldInfo : Type 0 where
  pub datatype : DataType
  pub name : Text
  pub case : FieldCase

-- The names of `parse_datatype` that are not names of messages.
unfoldable pub known : Text → Option DataType
unfolding equal
known t =
    if equal t (codes "bool")
    then some bool
    else if equal t (codes "int8")
    then some (int8 true)
    else if equal t (codes "byte")
    then some (int8 false)
    else if equal t (codes "int16")
    then some int16
    else if equal t (codes "int32")
    then some int32
    else if equal t (codes "int64")
    then some int64
    else if equal t (codes "uint8")
    then some (uint8 true)
    else if equal t (codes "char")
    then some (uint8 false)
    else if equal t (codes "uint16")
    then some uint16
    else if equal t (codes "uint32")
    then some uint32
    else if equal t (codes "uint64")
    then some uint64
    else if equal t (codes "float32")
    then some float32
    else if equal t (codes "float64")
    then some float64
    else if equal t (codes "string")
    then some string
    else if equal t (codes "time")
    then some time
    else if equal t (codes "duration")
    then some duration
    else if equal t (codes "Header")
    then some (remote_struct (codes "std_msgs") (codes "Header"))
    else none

-- The parts of a name between slashes; none of them may be empty, and there are one or two.
unfoldable pub from_parts : List Text → Option DataType
from_parts ((a ∷ pkg) ∷ (b ∷ name) ∷ []) = some (remote_struct (a ∷ pkg) (b ∷ name))
from_parts ((a ∷ name) ∷ []) = some (local_struct (a ∷ name))
from_parts _ = none

unfoldable pub parse_datatype : Text → Option DataType
unfolding known split from_parts
parse_datatype datatype = elim (known datatype) [
  | some t ↦ some t
  | none ↦ from_parts (split b'/' datatype)
]

unfoldable pub is_builtin : DataType → Bool
is_builtin (local_struct _) = false
is_builtin (remote_struct _ _) = false
is_builtin _ = true

-- A `HashMap` by package and name, as the list of its entries, where the first entry of a key counts.
pub record Entry (A : Type 0) : Type 0 where
  pub pkg : Text
  pub name : Text
  pub item : A

abbrev pub Hashes : Type 0
Hashes = List (Entry Text)

unfoldable pub get : {A : Type 0} → Text → Text → List (Entry A) → Option A
unfolding equal
get p n [] = none
get p n (e ∷ table) = if equal e.pkg p && equal e.name n then some e.item else get p n table

-- `DataType::md5_string`; none is its error, a message without a checksum.
unfoldable pub md5_string : Text → Hashes → DataType → Option Text
unfolding get
md5_string pkg hashes bool = some (codes "bool")
md5_string pkg hashes (int8 true) = some (codes "int8")
md5_string pkg hashes (int8 false) = some (codes "byte")
md5_string pkg hashes int16 = some (codes "int16")
md5_string pkg hashes int32 = some (codes "int32")
md5_string pkg hashes int64 = some (codes "int64")
md5_string pkg hashes (uint8 true) = some (codes "uint8")
md5_string pkg hashes (uint8 false) = some (codes "char")
md5_string pkg hashes uint16 = some (codes "uint16")
md5_string pkg hashes uint32 = some (codes "uint32")
md5_string pkg hashes uint64 = some (codes "uint64")
md5_string pkg hashes float32 = some (codes "float32")
md5_string pkg hashes float64 = some (codes "float64")
md5_string pkg hashes string = some (codes "string")
md5_string pkg hashes time = some (codes "time")
md5_string pkg hashes duration = some (codes "duration")
md5_string pkg hashes (local_struct name) = get pkg name hashes
md5_string pkg hashes (remote_struct p name) = get p name hashes

-- `FieldInfo::md5_string`, from the name of its type. A `usize` has 20 digits at most.
unfoldable pub describe : Bool → FieldCase → Text → Text → Text
unfolding decimal
describe _ (const v) datatype name = datatype ++ (b' ' ∷ (name ++ (b'=' ∷ v)))
describe false _ datatype name = datatype ++ (b' ' ∷ name)
describe true unit datatype name = datatype ++ (b' ' ∷ name)
describe true vector datatype name = datatype ++ (codes "[] " ++ name)
describe true (array l) datatype name = datatype ++ (b'[' ∷ (decimal 20 l ++ (codes "] " ++ name)))

unfoldable pub field_md5_string : Text → Hashes → FieldInfo → Option Text
unfolding md5_string describe is_builtin
field_md5_string pkg hashes f = elim (md5_string pkg hashes f.datatype) [
  | none ↦ none
  | some datatype ↦ some (describe (is_builtin f.datatype) f.case datatype f.name)
]

unfoldable pub is_constant : FieldInfo → Bool
is_constant f = elim f.case [ const _ ↦ true | _ ↦ false ]

-- `is_header`.
unfoldable pub is_header : FieldInfo → Bool
unfolding equal
is_header f = elim f.case [
  | unit ↦ elim f.datatype [
    | remote_struct pkg name ↦
        equal f.name (codes "header")
        && (equal pkg (codes "std_msgs") && equal name (codes "Header"))
    | _ ↦ false
  ]
  | _ ↦ false
]
