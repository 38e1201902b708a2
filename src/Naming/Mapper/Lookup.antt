-- ===== src/Naming/Mapper/Lookup.antt =====
-- The tree of remappings behaves as a map from whole names to names.
use rosrust.Prelude.{
  ◌≡◌, refl, sym, inl, inr, Option, none, some, List, [], ◌∷◌, arith, if◌then◌else◌, Bool-cases,
  Bytes, equal, equal_iff, equal_all,
}
use rosrust.Naming.Path.{Buffer, slice}
use rosrust.Naming.Mapper.{Mapper, node, Children, nil, entry, new, get, update, add, translate}

-- The child that `entry` finds or makes.
abbrev child : Option Mapper → Mapper
child none = new
child (some m) = m

get-update :
    (j k : Bytes) (f : Mapper → Mapper) (cs : Children)
    → get j (update k f cs) ≡ (if equal k j then some (f (child (get k cs))) else get j cs)
unfolding get update
get-update j k f nil = refl
get-update j k f (entry i m cs) =
    ground (arith, equal_iff k j, equal_iff i k, equal_iff i j, get-update j k f cs)

pub translate-new : (ks : List Bytes) → translate ks new ≡ none
unfolding translate
translate-new [] = refl
translate-new (k ∷ ks) = refl

-- Below one key.
translate-child :
    (js : List Bytes) (o : Option Mapper)
    → translate js (child o) ≡ elim o [ none ↦ none | some m ↦ translate js m ]
translate-child js none = translate-new js
translate-child js (some m) = refl

translate-cons :
    (j : Bytes) (js : List Bytes) (cs : Children) (o : Option Buffer)
    → translate (j ∷ js) (node cs o) ≡ translate js (child (get j cs))
unfolding translate
translate-cons j js cs o = sym (translate-child js (get j cs))

-- After a name is added, it is translated to the value given, and every other name as before.
pub translate-add :
    (ks js : List Bytes) (v : Buffer) (m : Mapper)
    → translate js (add ks v m) ≡ (if equal_all ks js then some (slice v) else translate js m)
unfolding add equal_all
translate-add [] [] v (node cs old) = unfold translate in refl
translate-add [] (j ∷ js) v (node cs old) = unfold translate in refl
translate-add (k ∷ ks) [] v (node cs old) = unfold translate in refl
translate-add (k ∷ ks) (j ∷ js) v (node cs old) =
    rw
      (
        translate-cons j js (update k (add ks v) cs) old,
        translate-cons j js cs old,
        get-update j k (add ks v) cs,
      )
      elim (Bool-cases (equal k j)) [
        | inl e ↦ rw e (rw (← (equal_iff k j).0 e) (translate-add ks js v (child (get k cs))))
        | inr e ↦ rw e
      ]
