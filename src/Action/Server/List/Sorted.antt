-- ===== src/Action/Server/List/Sorted.antt =====
-- The list of goals behaves as a map from ids to trackers, and stays in the order of its keys.
use rosrust.Prelude.{
  ◌≡◌, refl, inl, inr, ℕ, true, false, none, some, [], ◌∷◌, arith, if◌then◌else◌, Bytes, equal,
  equal_iff, All, Bool-cases,
}
use rosrust.Action.Server.List.{before, Items, insert, get, remove, IsSorted}

before_trans : (a b c : Bytes) → before a b ≡ true → before b c ≡ true → before a c ≡ true
unfolding before
before_trans [] (y ∷ b) (z ∷ c) p q = refl
before_trans (x ∷ a) (y ∷ b) (z ∷ c) p q = ground (arith, before_trans a b c)
before_trans _ [] _ p q = ground arith
before_trans _ _ [] p q = ground arith

pub before-equal : (a b : Bytes) → before a b ≡ true → equal a b ≡ false
unfolding before equal
before-equal [] (y ∷ b) p = refl
before-equal (x ∷ a) (y ∷ b) p = ground (arith, before-equal a b)
before-equal _ [] p = ground arith

before_total : (a b : Bytes) → before a b ≡ false → equal a b ≡ false → before b a ≡ true
unfolding before equal
before_total [] [] p q = ground arith
before_total [] (y ∷ b) p q = ground arith
before_total (x ∷ a) [] p q = refl
before_total (x ∷ a) (y ∷ b) p q = ground (arith, before_total a b)

-- A key that is before all others is not among them.
pub get-before : (k : Bytes) (m : Items) → All (λ e. before k e.0 ≡ true) m → get k m ≡ none
unfolding get
get-before k [] h = refl
get-before k ((j, u) ∷ m) h = rw (before-equal k j h.0) (get-before k m h.1)

All-before_trans :
    (j k : Bytes) (m : Items)
    → before j k ≡ true
    → All (λ e. before k e.0 ≡ true) m
    → All (λ e. before j e.0 ≡ true) m
All-before_trans j k [] p h = tt
All-before_trans j k ((i, u) ∷ m) p h = (before_trans j k i p h.0, All-before_trans j k m p h.1)

All-insert :
    (j k : Bytes) (t : ℕ) (m : Items)
    → before j k ≡ true
    → All (λ e. before j e.0 ≡ true) m
    → All (λ e. before j e.0 ≡ true) (insert k t m)
unfolding insert
All-insert j k t [] p h = (p, tt)
All-insert j k t ((i, u) ∷ m) p h = elim (Bool-cases (before k i)) [
  | inl e ↦ rw e (p, h)
  | inr e ↦ elim (Bool-cases (equal k i)) [
    | inl f ↦ rw (e, f) (p, h.1)
    | inr f ↦ rw (e, f) (h.0, All-insert j k t m p h.1)
  ]
]

All-remove :
    (j k : Bytes) (m : Items)
    → All (λ e. before j e.0 ≡ true) m
    → All (λ e. before j e.0 ≡ true) (remove k m)
unfolding remove
All-remove j k [] h = tt
All-remove j k ((i, u) ∷ m) h = elim (Bool-cases (equal k i)) [
  | inl f ↦ rw f h.1
  | inr f ↦ rw f (h.0, All-remove j k m h.1)
]

pub insert-IsSorted : (k : Bytes) (t : ℕ) (m : Items) → IsSorted m → IsSorted (insert k t m)
unfolding insert
insert-IsSorted k t [] s = (tt, tt)
insert-IsSorted k t ((i, u) ∷ m) s = elim (Bool-cases (before k i)) [
  | inl e ↦ rw e ((e, All-before_trans k i m e s.0), s)
  | inr e ↦ elim (Bool-cases (equal k i)) [
    | inl f ↦ rw (e, f) rw ((equal_iff k i).0 f) s
    | inr f ↦ rw (e, f) (All-insert i k t m (before_total k i e f) s.0, insert-IsSorted k t m s.1)
  ]
]

pub remove-IsSorted : (k : Bytes) (m : Items) → IsSorted m → IsSorted (remove k m)
unfolding remove
remove-IsSorted k [] s = tt
remove-IsSorted k ((i, u) ∷ m) s = elim (Bool-cases (equal k i)) [
  | inl f ↦ rw f s.1
  | inr f ↦ rw f (All-remove i k m s.0, remove-IsSorted k m s.1)
]

pub get-insert :
    (j k : Bytes) (t : ℕ) (m : Items)
    → get j (insert k t m) ≡ (if equal k j then some t else get j m)
unfolding get insert
get-insert j k t [] = ground (arith, equal_iff j k, equal_iff k j)
get-insert j k t ((i, u) ∷ m) =
    ground (arith, equal_iff j k, equal_iff k j, equal_iff k i, equal_iff j i, get-insert j k t m)

pub get-remove :
    (j k : Bytes) (m : Items)
    → IsSorted m
    → get j (remove k m) ≡ (if equal k j then none else get j m)
unfolding get remove
get-remove j k [] s = ground arith
get-remove j k ((i, u) ∷ m) s =
    let absent = get-before i m s.0 in
    ground (
      arith,
      absent,
      equal_iff j k,
      equal_iff k j,
      equal_iff k i,
      equal_iff j i,
      get-remove j k m s.1,
    )
