-- ===== src/Codegen/Collect/Pending.antt =====
-- The names that wait to be looked at, and sets of names.
use rosrust.Prelude.{
  ◌≡◌, ◌⊎◌, inl, inr, refl, Bool, true, false, ◌&&◌, ◌||◌, List, [], ◌∷◌, ◌++◌, All, Bool-cases,
  equal, equal_refl,
}
use rosrust.Codegen.Msg.{Name}
use rosrust.Codegen.Collect.{push_all, contains, include}

unfoldable pub Pending : Name → List Name → Type 0
Pending d [] = ⊥
Pending d (v ∷ pending) = (d ≡ v) ⊎ Pending d pending

pub contains-include : (n : Name) (names : List Name) → contains n (include n names) ≡ true
unfolding contains
contains-include n names = elim (Bool-cases (contains n names)) [
  | inl h ↦ rw h h
  | inr h ↦ rw (h, contains, equal_refl n.pkg, equal_refl n.name) refl
]

pub include-keeps :
    (n d : Name) (names : List Name) → contains d names ≡ true → contains d (include n names) ≡ true
unfolding contains
include-keeps n d names h = elim (Bool-cases (contains n names)) [
  | inl e ↦ rw e h
  | inr e ↦ rw e (either (equal n.pkg d.pkg && equal n.name d.name))
]
  where
    either : (b : Bool) → (b || contains d names) ≡ true
    either true = refl
    either false = h

pub Pending-push_all :
    (ds pending : List Name) (d : Name) → Pending d pending → Pending d (push_all ds pending)
unfolding push_all Pending
Pending-push_all [] pending d h = h
Pending-push_all (v ∷ ds) pending d h = Pending-push_all ds (v ∷ pending) d (inr h)

pub pushed : (ds pending : List Name) → All (λ d. Pending d (push_all ds pending)) ds
unfolding push_all Pending
pushed [] pending = tt
pushed (v ∷ ds) pending = (Pending-push_all ds (v ∷ pending) v (inl refl), pushed ds (v ∷ pending))

pub Pending-inv :
    (ds pending : List Name) (d : Name)
    → Pending d (push_all ds pending)
    → Pending d ds ⊎ Pending d pending
unfolding push_all Pending
Pending-inv [] pending d h = inr h
Pending-inv (v ∷ ds) pending d h = elim (Pending-inv ds (v ∷ pending) d h) [
  | inl w ↦ inl (inr w)
  | inr (inl e) ↦ inl (inl e)
  | inr (inr w) ↦ inr w
]

pub Pending-into :
    (ds pending : List Name) (d : Name) → Pending d ds → Pending d (push_all ds pending)
unfolding push_all Pending
Pending-into [] pending d h = elim h [ ]
Pending-into (v ∷ ds) pending d (inl e) = Pending-push_all ds (v ∷ pending) d (inl e)
Pending-into (v ∷ ds) pending d (inr h) = Pending-into ds (v ∷ pending) d h

-- A name that is held need not wait.
pub Pending-drop :
    (ds pending : List Name) (v d : Name)
    → Pending d (push_all ds (v ∷ pending))
    → (d ≡ v) ⊎ Pending d (push_all ds pending)
unfolding Pending
Pending-drop ds pending v d h = elim (Pending-inv ds (v ∷ pending) d h) [
  | inl w ↦ inr (Pending-into ds pending d w)
  | inr (inl e) ↦ inl e
  | inr (inr w) ↦ inr (Pending-push_all ds pending d w)
]

pub push_all-append :
    (xs ys pending : List Name) → push_all (xs ++ ys) pending ≡ push_all ys (push_all xs pending)
unfolding push_all
push_all-append [] ys pending = refl
push_all-append (x ∷ xs) ys pending = push_all-append xs ys (x ∷ pending)
