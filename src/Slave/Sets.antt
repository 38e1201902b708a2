-- ===== src/Slave/Sets.antt =====
-- Which names are in a set of names after its operations.
use rosrust.Prelude.{
  ◌≡◌, refl, ap, sym, ◌∙◌, Bool, true, false, not, ◌&&◌, ◌||◌, Bool-cases, inl, inr, List, [], ◌∷◌,
  Bytes, equal, equal_iff, arith,
}
use rosrust.Slave.{contains, set_insert, collect, set_remove, difference, is_before}

or_same : (b c : Bool) → (b || (b || c)) ≡ (b || c)
or_same true c = refl
or_same false c = refl

or_swap : (a b c : Bool) → (a || (b || c)) ≡ (b || (a || c))
or_swap true true c = refl
or_swap true false c = refl
or_swap false b c = refl

pub contains-insert :
    (x y : Bytes) (s : List Bytes) → contains x (set_insert y s) ≡ (equal y x || contains x s)
contains-insert x y [] = refl
contains-insert x y (z ∷ s) = elim (Bool-cases (equal z y)) [
  | inl e ↦ rw (e, sym ((equal_iff z y).0 e)) (sym (or_same (equal z x) (contains x s)))
  | inr e ↦ elim (Bool-cases (is_before y z)) [
    | inl b ↦ rw (e, b) refl
    | inr b ↦ rw (e, b, contains-insert x y s) (or_swap (equal z x) (equal y x) (contains x s))
  ]
]

pub contains-collect : (x : Bytes) (xs : List Bytes) → contains x (collect xs) ≡ contains x xs
contains-collect x [] = refl
contains-collect x (y ∷ xs) =
    contains-insert x y (collect xs) ∙ ap (λ (b : Bool). equal y x || b) (contains-collect x xs)

pub contains-remove :
    (x y : Bytes) (s : List Bytes) → contains x (set_remove y s) ≡ (not (equal y x) && contains x s)
contains-remove x y [] = ground arith
contains-remove x y (z ∷ s) = elim (Bool-cases (equal z y)) [
  | inl e ↦
      let same : equal z x ≡ equal y x = ap (λ (w : Bytes). equal w x) ((equal_iff z y).0 e) in
      rw e (ground (arith, contains-remove x y s, same))
  | inr e ↦ elim (Bool-cases (equal y x)) [
    | inl f ↦
        let same : equal z x ≡ equal z y =
          ap (λ (w : Bytes). equal z w) (sym ((equal_iff y x).0 f)) in
        rw e (ground (arith, contains-remove x y s, same, e, f))
    | inr f ↦ rw e (ground (arith, contains-remove x y s, f))
  ]
]

same_in : (z x : Bytes) (ys : List Bytes) → equal z x ≡ true → contains x ys ≡ contains z ys
same_in z x ys f = ap (λ (w : Bytes). contains w ys) (sym ((equal_iff z x).0 f))

pub contains-difference :
    (x : Bytes) (xs ys : List Bytes)
    → contains x (difference xs ys) ≡ (contains x xs && not (contains x ys))
contains-difference x [] ys = refl
contains-difference x (z ∷ xs) ys = elim (Bool-cases (contains z ys)) [
  | inl e ↦ rw e (elim (Bool-cases (equal z x)) [
    | inl f ↦ ground (arith, contains-difference x xs ys, same_in z x ys f, e)
    | inr f ↦ ground (arith, contains-difference x xs ys, f)
  ])
  | inr e ↦ rw e (elim (Bool-cases (equal z x)) [
    | inl f ↦ ground (arith, contains-difference x xs ys, same_in z x ys f, e)
    | inr f ↦ ground (arith, contains-difference x xs ys, f)
  ])
]
