-- ===== src/Codegen/Line.antt =====
-- A line of a message's description: the functions `match_*` and `strip_useless` of
-- rosrust_codegen/src/msg.rs.
use rosrust.Prelude.{
  Option, none, some, ℕ, ◌^◌, Bool, true, false, not, List, [], ◌∷◌, ◌++◌, ltb, ◌==◌, if◌then◌else◌,
  codes, equal,
}
use rosrust.Codegen.Scan.{
  Text, Scan, ◌>>=◌, pure, one, many, symbol, at_end, field_type, any_whitespace, ignore_whitespace,
  field_name, digits, run, trim, before, split, to_number,
}
use rosrust.Codegen.Field.{FieldInfo, FieldCase, unit, vector, array, const, parse_datatype}
pub mod Reads
pub mod Fields

pub record FieldLine : Type 0 where
  pub field_type : Text
  pub field_name : Text

abbrev pub line : Text → Text → FieldLine
line t n = record { field_type = t; field_name = n }

pub data Error : Type 0 where
  unsupported_content unsupported_datatype : Text → Error

-- A line's field, its error, or the panic at a number that no `usize` holds.
pub data Outcome : Type 0 where
  good : FieldInfo → Outcome
  bad : Error → Outcome
  panicked : Outcome

-- What the whole of a text matches.
abbrev matches : {A : Type 0} → Scan A → Text → Option A
matches scan data_ = elim (scan data_) [ none ↦ none | some (a, _) ↦ some a ]

unfoldable pub match_field : Text → Option FieldLine
match_field =
    matches do t ← field_type; _ ← any_whitespace; n ← field_name; _ ← at_end; pure (line t n)

unfoldable pub match_vector_field : Text → Option FieldLine
match_vector_field = matches do
  t ← field_type
  _ ← ignore_whitespace
  _ ← symbol b'['
  _ ← ignore_whitespace
  _ ← symbol b']'
  _ ← any_whitespace
  n ← field_name
  _ ← at_end
  pure (line t n)

-- The count is none when it is no `usize`.
unfoldable pub match_array_field : Text → Option (FieldLine × Option ℕ)
unfolding to_number
match_array_field = matches do
  t ← field_type
  _ ← ignore_whitespace
  _ ← symbol b'['
  _ ← ignore_whitespace
  ds ← digits
  _ ← ignore_whitespace
  _ ← symbol b']'
  _ ← any_whitespace
  n ← field_name
  _ ← at_end
  let count = to_number 0 ds in pure (line t n, (if ltb count (2 ^ 64) then some count else none))

-- `(.*)$`: the rest of a text without a line break.
rest_of_line : Scan Text
unfolding run
rest_of_line text = if equal (run (λ c. not (c == 10)) text) text then some (text, []) else none

-- `(string)`, before a space.
word : Text → Scan Text
word w = do t ← field_type; λ left. if equal t w then some (t, left) else none

unfoldable pub match_const_string : Text → Option (FieldLine × Text)
unfolding rest_of_line word
match_const_string = matches do
  t ← word (codes "string")
  _ ← any_whitespace
  n ← field_name
  _ ← ignore_whitespace
  _ ← symbol b'='
  _ ← ignore_whitespace
  value ← rest_of_line
  pure (line t n, value)

-- `(-?[0-9]+)`.
number : Scan Text
number [] = none
number (c ∷ text) = if c == b'-' then (do ds ← digits; pure (b'-' ∷ ds)) text else digits (c ∷ text)

unfoldable pub match_const_numeric : Text → Option (FieldLine × Text)
unfolding number
match_const_numeric = matches do
  t ← field_type
  _ ← any_whitespace
  n ← field_name
  _ ← ignore_whitespace
  _ ← symbol b'='
  _ ← ignore_whitespace
  value ← number
  _ ← at_end
  pure (line t n, value)

-- `FieldInfo::new`.
unfoldable pub new : Text → Text → FieldCase → Outcome
unfolding parse_datatype
new datatype name case = elim (parse_datatype datatype) [
  | none ↦ bad (unsupported_datatype datatype)
  | some t ↦ good (record { datatype = t; name = name; case = case })
]

unfoldable pub strip_useless : Text → Text
unfolding before trim
strip_useless data_ = trim (before b'#' data_)

-- `match_line` on a line that is stripped and no constant text.
unfoldable pub match_stripped : Text → Option Outcome
unfolding match_field match_vector_field match_array_field match_const_numeric new
match_stripped [] = none
match_stripped (c ∷ more) =
    let data_ = c ∷ more in
    elim (match_field data_) [
      | some l ↦ some (new l.field_type l.field_name unit)
      | none ↦ elim (match_vector_field data_) [
        | some l ↦ some (new l.field_type l.field_name vector)
        | none ↦ elim (match_array_field data_) [
          | some (l, some count) ↦ some (new l.field_type l.field_name (array count))
          | some (l, none) ↦ some panicked
          | none ↦ elim (match_const_numeric data_) [
            | some (l, value) ↦ some (new l.field_type l.field_name (const value))
            | none ↦ some (bad (unsupported_content data_))
          ]
        ]
      ]
    ]

unfoldable pub match_line : Text → Option Outcome
unfolding match_const_string new match_stripped strip_useless trim
match_line data_ = elim (match_const_string (trim data_)) [
  | some (l, value) ↦ some (new l.field_type l.field_name (const value))
  | none ↦ match_stripped (strip_useless data_)
]
