-- ===== src/Codegen/Msg/Dependencies.antt =====
-- What a checksum depends on: the checksums of the messages that the fields name.
use rosrust.Prelude.{
  none, some, ◌≡◌, ◌≢◌, ◌↔◌, ◌⊎◌, inl, inr, refl, sym, ap, ◌∙◌, Bool, true, false, List, [], ◌∷◌,
  ◌++◌, All, Bool-cases, Option-cases,
}
use rosrust.Codegen.Scan.{Text}
use rosrust.Codegen.Field.{
  DataType, FieldInfo, Hashes, get, md5_string, field_md5_string, is_constant, describe, is_builtin,
}
use rosrust.Codegen.Msg.{
  Msg, Name, dependency, dependencies_of, dependencies, selected, describe_all, join,
  get_md5_representation,
}

-- Every checksum that one table has, the other has as well, and it is the same.
abbrev pub Extends : Hashes → Hashes → Type 0
Extends h k = (p n t : Text) → get p n h ≡ some t → get p n k ≡ some t

some-injective : {A : Type 0} {a b : A} → some a ≡ some b → a ≡ b
some-injective h = cc

none-ne-some : {A : Type 0} {a : A} → none ≢ some a
none-ne-some h = cc

-- The names of the types of fields do not change when checksums are added.
md5_string-Extends :
    (pkg : Text) (h k : Hashes) (d : DataType) {t : Text}
    → Extends h k
    → md5_string pkg h d ≡ some t
    → md5_string pkg k d ≡ some t
unfolding md5_string
md5_string-Extends pkg h k (DataType.local_struct name) e m = e pkg name _ m
md5_string-Extends pkg h k (DataType.remote_struct p name) e m = e p name _ m
md5_string-Extends pkg h k (DataType.int8 true) e m = m
md5_string-Extends pkg h k (DataType.int8 false) e m = m
md5_string-Extends pkg h k (DataType.uint8 true) e m = m
md5_string-Extends pkg h k (DataType.uint8 false) e m = m
md5_string-Extends pkg h k _ e m = m

field_md5_string-cases :
    (pkg : Text) (h : Hashes) (f : FieldInfo)
    → ((md5_string pkg h f.datatype ≡ none) × (field_md5_string pkg h f ≡ none))
      ⊎ ((t u : Text) × (md5_string pkg h f.datatype ≡ some t)
          × (field_md5_string pkg h f ≡ some u))
unfolding field_md5_string
field_md5_string-cases pkg h f = elim (Option-cases (md5_string pkg h f.datatype)) [
  | inl e ↦ inl (e, rw (field_md5_string, e) refl)
  | inr (t, e) ↦
      inr (t, describe (is_builtin f.datatype) f.case t f.name, e, rw (field_md5_string, e) refl)
]

field_md5_string-Extends :
    (pkg : Text) (h k : Hashes) (f : FieldInfo) {t : Text}
    → Extends h k
    → field_md5_string pkg h f ≡ some t
    → field_md5_string pkg k f ≡ some t
unfolding field_md5_string
field_md5_string-Extends pkg h k f x m = elim (Option-cases (md5_string pkg h f.datatype)) [
  | inl e ↦ absurd (none-ne-some (rw (field_md5_string, e) at m))
  | inr (t, e) ↦
      let more = md5_string-Extends pkg h k f.datatype x e in
      rw (field_md5_string, more) (rw (field_md5_string, e) at m)
]

-- The descriptions of a kind, by whether the first field is of that kind.
describe_all-selected :
    (c : Bool) (pkg : Text) (h : Hashes) (f : FieldInfo) (fields : List FieldInfo) {ts : List Text}
    → selected c f ≡ true
    → describe_all c pkg h (f ∷ fields) ≡ some ts
    → (t : Text) × (later : List Text) × (field_md5_string pkg h f ≡ some t)
      × (describe_all c pkg h fields ≡ some later)
      × (ts ≡ t ∷ later)
unfolding describe_all
describe_all-selected c pkg h f fields s m = elim (Option-cases (field_md5_string pkg h f)) [
  | inl e ↦ absurd (none-ne-some (rw (describe_all, s, e) at m))
  | inr (t, e) ↦ elim (Option-cases (describe_all c pkg h fields)) [
    | inl g ↦ absurd (none-ne-some (rw (describe_all, s, e, g) at m))
    | inr (later, g) ↦ (t, later, e, g, sym (some-injective (rw (describe_all, s, e, g) at m)))
  ]
]

describe_all-Extends :
    (c : Bool) (pkg : Text) (h k : Hashes) (fields : List FieldInfo) {ts : List Text}
    → Extends h k
    → describe_all c pkg h fields ≡ some ts
    → describe_all c pkg k fields ≡ some ts
unfolding describe_all
describe_all-Extends c pkg h k [] x m = m
describe_all-Extends c pkg h k (f ∷ fields) x m = elim (Bool-cases (selected c f)) [
  | inl s ↦
      let part = describe_all-selected c pkg h f fields s m in
      rw
        (
          describe_all,
          s,
          field_md5_string-Extends pkg h k f x part.2,
          describe_all-Extends c pkg h k fields x part.3,
        )
        (ap some (sym part.4))
  | inr s ↦
      rw (describe_all, s) (describe_all-Extends c pkg h k fields x (rw (describe_all, s) at m))
]

pub get_md5_representation-Extends :
    (m : Msg) (h k : Hashes) {t : Text}
    → Extends h k
    → get_md5_representation m h ≡ some t
    → get_md5_representation m k ≡ some t
unfolding get_md5_representation
get_md5_representation-Extends m h k x e =
    elim (Option-cases (describe_all true m.pkg h m.fields)) [
      | inl f ↦ absurd (none-ne-some (rw (get_md5_representation, f) at e))
      | inr (constants, f) ↦ elim (Option-cases (describe_all false m.pkg h m.fields)) [
        | inl g ↦ absurd (none-ne-some (rw (get_md5_representation, f, g) at e))
        | inr (fields, g) ↦
            rw
              (
                get_md5_representation,
                describe_all-Extends true m.pkg h k m.fields x f,
                describe_all-Extends false m.pkg h k m.fields x g,
              )
              (rw (get_md5_representation, f, g) at e)
      ]
    ]

-- A message whose checksum is there.
abbrev pub Known : Hashes → Name → Type 0
Known h d = (t : Text) × (get d.pkg d.name h ≡ some t)

md5_string-cases :
    (pkg : Text) (h : Hashes) (d : DataType)
    → ((dependency pkg d ≡ none) × ((t : Text) × (md5_string pkg h d ≡ some t)))
      ⊎ ((n : Name) × (dependency pkg d ≡ some n) × (md5_string pkg h d ≡ get n.pkg n.name h))
unfolding md5_string dependency
md5_string-cases pkg h (DataType.local_struct name) = inr (_, refl, refl)
md5_string-cases pkg h (DataType.remote_struct p name) = inr (_, refl, refl)
md5_string-cases pkg h (DataType.int8 true) = inl (refl, (_, refl))
md5_string-cases pkg h (DataType.int8 false) = inl (refl, (_, refl))
md5_string-cases pkg h (DataType.uint8 true) = inl (refl, (_, refl))
md5_string-cases pkg h (DataType.uint8 false) = inl (refl, (_, refl))
md5_string-cases pkg h _ = inl (refl, (_, refl))

field-Known :
    (pkg : Text) (h : Hashes) (f : FieldInfo) (fields : List FieldInfo) {t : Text}
    → field_md5_string pkg h f ≡ some t
    → All (Known h) (dependencies_of pkg fields)
    → All (Known h) (dependencies_of pkg (f ∷ fields))
unfolding dependencies_of field_md5_string
field-Known pkg h f fields e known = elim (md5_string-cases pkg h f.datatype) [
  | inl (d, _) ↦ rw (dependencies_of, d) known
  | inr (n, d, same) ↦ elim (Option-cases (md5_string pkg h f.datatype)) [
    | inl g ↦ absurd (none-ne-some (rw (field_md5_string, g) at e))
    | inr (t, g) ↦ rw (dependencies_of, d) ((t, sym same ∙ g), known)
  ]
]

describe_all-Known :
    (pkg : Text) (h : Hashes) (fields : List FieldInfo) {ts us : List Text}
    → describe_all true pkg h fields ≡ some ts
    → describe_all false pkg h fields ≡ some us
    → All (Known h) (dependencies_of pkg fields)
unfolding describe_all dependencies_of
describe_all-Known pkg h [] e g = tt
describe_all-Known pkg h (f ∷ fields) e g = elim (Bool-cases (is_constant f)) [
  | inl c ↦
      let part = describe_all-selected true pkg h f fields c e in
      let rest : describe_all false pkg h fields ≡ some _ = rw (describe_all, c) at g in
      field-Known pkg h f fields part.2 (describe_all-Known pkg h fields part.3 rest)
  | inr c ↦
      let part = describe_all-selected false pkg h f fields (rw c refl) g in
      let rest : describe_all true pkg h fields ≡ some _ = rw (describe_all, c) at e in
      field-Known pkg h f fields part.2 (describe_all-Known pkg h fields rest part.3)
]

Known-field :
    (pkg : Text) (h : Hashes) (f : FieldInfo) (fields : List FieldInfo)
    → All (Known h) (dependencies_of pkg (f ∷ fields))
    → ((t : Text) × (field_md5_string pkg h f ≡ some t))
      × All (Known h) (dependencies_of pkg fields)
unfolding dependencies_of
Known-field pkg h f fields known = elim (md5_string-cases pkg h f.datatype) [
  | inl (d, (_, same)) ↦ (described same, rw (dependencies_of, d) at known)
  | inr (n, d, same) ↦
      let both : Known h n × All (Known h) (dependencies_of pkg fields) =
        rw (dependencies_of, d) at known in
      (described (same ∙ both.0.1), both.1)
]
  where
    described :
        {t : Text}
        → md5_string pkg h f.datatype ≡ some t
        → (u : Text) × (field_md5_string pkg h f ≡ some u)
    described same = elim (field_md5_string-cases pkg h f) [
      | inl (e, _) ↦ absurd (none-ne-some (sym e ∙ same))
      | inr (_, u, _, e) ↦ (u, e)
    ]

Known-describe_all :
    (c : Bool) (pkg : Text) (h : Hashes) (fields : List FieldInfo)
    → All (Known h) (dependencies_of pkg fields)
    → (ts : List Text) × (describe_all c pkg h fields ≡ some ts)
unfolding describe_all
Known-describe_all c pkg h [] known = ([], refl)
Known-describe_all c pkg h (f ∷ fields) known =
    let split = Known-field pkg h f fields known in
    let rest = Known-describe_all c pkg h fields split.1 in
    elim (Bool-cases (selected c f)) [
      | inl s ↦ (split.0.0 ∷ rest.0, rw (describe_all, s, split.0.1, rest.1) refl)
      | inr s ↦ (rest.0, rw (describe_all, s) rest.1)
    ]

-- The text that a message's checksum is made from is there exactly when every message that its fields
-- name has a checksum.
pub get_md5_representation_iff :
    (m : Msg) (h : Hashes)
    → ((t : Text) × (get_md5_representation m h ≡ some t)) ↔ All (Known h) (dependencies m)
unfolding get_md5_representation
get_md5_representation_iff m h = (forward, backward)
  where
    forward : ((t : Text) × (get_md5_representation m h ≡ some t)) → All (Known h) (dependencies m)
    forward (t, e) = elim (Option-cases (describe_all true m.pkg h m.fields)) [
      | inl f ↦ absurd (none-ne-some (rw (get_md5_representation, f) at e))
      | inr (constants, f) ↦ elim (Option-cases (describe_all false m.pkg h m.fields)) [
        | inl g ↦ absurd (none-ne-some (rw (get_md5_representation, f, g) at e))
        | inr (fields, g) ↦ describe_all-Known m.pkg h m.fields f g
      ]
    ]

    backward : All (Known h) (dependencies m) → (t : Text) × (get_md5_representation m h ≡ some t)
    backward known =
        let constants = Known-describe_all true m.pkg h m.fields known in
        let fields = Known-describe_all false m.pkg h m.fields known in
        (join (constants.0 ++ fields.0), rw (get_md5_representation, constants.1, fields.1) refl)
