-- ===== src/Codegen/Tests.antt =====
-- Runs of the theorems on the descriptions of messages.
use rosrust.Prelude.{
  Option, List, Bool-cases, inl, inr, if◌then◌else◌, none, ◌≡◌, refl, suc, true, [], ◌∷◌, ◌++◌,
  some, codes, length, All, equal, sym, ℕ, ◌≤◌, ◌&&◌, ◌⊎◌, arith, equal_iff, Option-cases,
}
use rosrust.Codegen.Scan.{
  Text, is_space, is_type, is_name, is_letter, is_digit, field_type, any_whitespace, field_name,
  ignore_whitespace, digits,
}
use rosrust.Codegen.Field.{unit, const, vector, array, int32, string, local_struct}
use rosrust.Codegen.Checksums.Pass.{none-ne-some, some-injective}
use rosrust.Codegen.Collect.{MessageCase, service, get_message_map}
use rosrust.Codegen.Collect.Folders.{
  Open, Included, missing, contents, in_memory, read_message, get_message,
}
use rosrust.Codegen.Collect.Ends.{needs, total, Weighs, IsWhole, Needed, get_message_map-IsWhole}
use rosrust.Codegen.Msg.{dependencies_of, Name, Msg, ok, match_lines, collect}
use rosrust.Codegen.Line.{new, match_line}
use rosrust.Codegen.Line.Fields.{match_line-unit}
use rosrust.Codegen.Checksums.{MessageMap, Messages, Sums, loop, start}
use rosrust.Codegen.Checksums.Pass.{Distinct}
use rosrust.Codegen.Checksums.Settled.{Settled, loop-Settled}

abbrev inner : Msg
inner = record {
  pkg = codes "demo";
  name = codes "Inner";
  fields = record { datatype = int32; name = codes "x"; case = unit } ∷ [];
  source = codes "int32 x";
}

abbrev outer : Msg
outer = record {
  pkg = codes "demo";
  name = codes "Outer";
  fields =
      record { datatype = local_struct (codes "Inner"); name = codes "item"; case = unit } ∷ [];
  source = codes "Inner item";
}

abbrev messages : Messages
messages =
    record { pkg = codes "demo"; name = codes "Outer"; item = outer }
    ∷ record { pkg = codes "demo"; name = codes "Inner"; item = inner }
    ∷ []

-- A stand-in for the checksum, which marks the text.
abbrev marked : Text → Text
marked t = b'!' ∷ t

messages_Distinct : Distinct messages
unfolding equal
messages_Distinct = ((refl, tt), (tt, tt))

loop-Settled_example :
    (r : Sums) × (loop marked (suc (length messages)) messages start ≡ some r)
    × Settled marked messages r.hashes
loop-Settled_example = loop-Settled marked messages messages_Distinct

line_word : All (λ c. is_type c ≡ true) (codes "int32")
unfolding is_type is_name is_letter is_digit
line_word = (refl, (refl, (refl, (refl, (refl, tt)))))

line_name : (is_letter b'x' ≡ true) × All (λ c. is_name c ≡ true) (codes "_1")
unfolding is_name is_letter is_digit
line_name = (refl, (refl, (refl, tt)))

one_space : is_space b' ' ≡ true
unfolding is_space
one_space = refl

match_line-unit_example :
    match_line (
      codes "  "
      ++ (codes "int32" ++ (codes " " ++ (codes "x_1" ++ (codes " " ++ codes "# a = b")))))
    ≡ some (new (codes "int32") (codes "x_1") unit)
match_line-unit_example =
    match_line-unit (codes "int32") (codes " ") (codes "x_1") line_word (one_space, tt) line_name
      (codes "  ") (codes " ") (codes "# a = b") (one_space, (one_space, tt)) (one_space, tt) refl

-- A constant text keeps its sign of a comment; a constant number, a vector, an array and a comment.
description :
    match_lines (
      codes "string NAME = a # b"
      ++ (10 ∷ codes "int32 C=-5 # c"
          ++ (10 ∷ codes "int32[ ] v" ++ (10 ∷ codes "# only" ++ (10 ∷ codes " string [ 12 ] w")))))
    ≡ ok (
        record { datatype = string; name = codes "NAME"; case = const (codes "a # b") }
        ∷ record { datatype = int32; name = codes "C"; case = const (codes "-5") }
        ∷ record { datatype = int32; name = codes "v"; case = vector }
        ∷ record { datatype = string; name = codes "w"; case = array 12 }
        ∷ [])
unfolding match_lines collect field_type any_whitespace field_name ignore_whitespace digits
description = refl

-- A folder with a service and the message that it needs.
abbrev a_number : Text
a_number = codes "int32 x"

abbrev opened : Open
opened folder p kind n =
    if equal kind (codes "srv") && equal n (codes "Sum")
    then contents (codes "Part a" ++ (10 ∷ codes "---" ++ (10 ∷ a_number)))
    else if equal kind (codes "msg") && equal n (codes "Part")
    then contents a_number
    else missing

abbrev included : Included
included = record { clock = a_number; log = a_number; header = a_number }

abbrev weight : Name → ℕ
weight v = if equal v.name (codes "Sum") then 1 else 0

abbrev wanted : List Name
wanted = record { pkg = codes "demo"; name = codes "Sum" } ∷ []

included_same : (key : Text) {t : Text} → in_memory included key ≡ some t → t ≡ a_number
unfolding in_memory
included_same key h = elim (Bool-cases (equal key (codes "rosgraph_msgs/Clock"))) [
  | inl e ↦ sym (some-injective (rw e at h))
  | inr e ↦ elim (Bool-cases (equal key (codes "rosgraph_msgs/Log"))) [
    | inl f ↦ sym (some-injective (rw (e, f) at h))
    | inr f ↦ elim (Bool-cases (equal key (codes "std_msgs/Header"))) [
      | inl g ↦ sym (some-injective (rw (e, f, g) at h))
      | inr g ↦ absurd (none-ne-some (rw (e, f, g) at h))
    ]
  ]
]

abbrev lookup : Text → Text → Option MessageCase
lookup p n = get_message opened included (codes "msgs" ∷ []) p n

sum_weighs :
    (p : Text) (found : MessageCase)
    → lookup p (codes "Sum") ≡ some found
    → total weight (needs found) ≤ 1
unfolding get_message dependencies_of field_type any_whitespace field_name
sum_weighs p found h = let is = some-injective h in rw (sym is) (omega arith)

part_weighs :
    (p : Text) (found : MessageCase)
    → lookup p (codes "Part") ≡ some found
    → total weight (needs found) ≤ 0
unfolding get_message dependencies_of field_type any_whitespace field_name
part_weighs p found h = let is = some-injective h in rw (sym is) (omega arith)

number_weighs :
    (p n : Text) (found : MessageCase)
    → read_message p n a_number ≡ some found
    → total weight (needs found) ≤ 0
unfolding dependencies_of rosrust.Codegen.Msg.new field_type any_whitespace field_name
number_weighs p n found h = let is = some-injective h in rw (sym is) (omega arith)

weighs : Weighs (get_message opened included (codes "msgs" ∷ [])) weight
unfolding get_message
weighs v found h = elim (Bool-cases (equal v.name (codes "Sum"))) [
  | inl e ↦
      let same : v.name ≡ codes "Sum" = (equal_iff _ _).0 e in
      rw e (sum_weighs v.pkg found (rw same at h))
  | inr e ↦ elim (Bool-cases (equal v.name (codes "Part"))) [
    | inl f ↦
        let same : v.name ≡ codes "Part" = (equal_iff _ _).0 f in
        rw e (part_weighs v.pkg found (rw same at h))
    | inr f ↦ elim (Option-cases (in_memory included (v.pkg ++ (b'/' ∷ v.name)))) [
      | inl g ↦ absurd (none-ne-some (rw (get_message, f, e, g) at h))
      | inr (t, g) ↦
          let number = included_same (v.pkg ++ (b'/' ∷ v.name)) g in
          rw e (number_weighs v.pkg v.name found (rw (get_message, f, e, g, number) at h))
    ]
  ]
]

get_message_map-IsWhole_example :
    let out =
      get_message_map
        (get_message opened included (codes "msgs" ∷ []))
        (suc (total weight wanted))
        wanted in
    ((m : MessageMap) × (out ≡ some (some m)) × IsWhole wanted m)
    ⊎ ((out ≡ some none)
        × (v : Name) × Needed (get_message opened included (codes "msgs" ∷ [])) wanted v
        × (get_message opened included (codes "msgs" ∷ []) v.pkg v.name ≡ none))
get_message_map-IsWhole_example =
    get_message_map-IsWhole opened included (codes "msgs" ∷ []) weight wanted weighs

service_run :
    get_message opened included (codes "msgs" ∷ []) (codes "demo") (codes "Sum")
    ≡ some (
        service
          (codes "Sum")
          (record {
            pkg = codes "demo";
            name = codes "SumReq";
            fields =
                record { datatype = local_struct (codes "Part"); name = codes "a"; case = unit }
                ∷ [];
            source = codes "Part a";
          })
          (record {
            pkg = codes "demo";
            name = codes "SumRes";
            fields = record { datatype = int32; name = codes "x"; case = unit } ∷ [];
            source = a_number;
          }))
unfolding get_message match_lines collect field_type any_whitespace field_name ignore_whitespace
    digits
service_run = refl
