-- ===== src/Wire/Reader/Laws.antt =====
-- Reading back what was written.
use rosrust.Prelude.{
  ℕ, zero, suc, ◌/◌, ◌<◌, ◌≡◌, refl, sym, ◌∙◌, ◌≢◌, ◌⊎◌, inl, inr, Option-cases, Bool-cases, true,
  false, [], ◌∷◌, ◌++◌, arith, length, Bytes, leb, ◌&&◌,
}
use rosrust.Wire.Reader.{
  Read, Reader, ◌>>=◌, ok, err, Error, read_exact, bound, le_bytes, from_le, tail_of, continues,
}

-- A chain whose first part reads `x` goes on with the rest, and one whose first part fails fails.
pub >>=_ok {ℓ κ} :
    {X : Type ℓ} {Y : Type κ} (first : Reader X) (next : X → Reader Y) (input : Bytes) {x : X}
    {left : Bytes}
    → first input ≡ ok x left
    → (first >>= next) input ≡ next x left
>>=_ok first next input e = rw (e, ◌>>=◌) refl

pub >>=_err {ℓ κ} :
    {X : Type ℓ} {Y : Type κ} (first : Reader X) (next : X → Reader Y) (input : Bytes) {e : Error}
    {left : Bytes}
    → first input ≡ err e left
    → (first >>= next) input ≡ err e left
>>=_err first next input e = rw (e, ◌>>=◌) refl

pub Read-cases {ℓ} :
    {X : Type ℓ} (r : Read X)
    → ((x : X) × (left : Bytes) × (r ≡ ok x left))
      ⊎ ((e : Error) × (left : Bytes) × (r ≡ err e left))
Read-cases (ok x left) = inl (x, left, refl)
Read-cases (err e left) = inr (e, left, refl)

-- A text in front of another is read by its length.
pub read_exact-append :
    (n : ℕ) (bs rest : Bytes) → length bs ≡ n → read_exact n (bs ++ rest) ≡ ok bs rest
unfolding read_exact
read_exact-append zero [] rest h = refl
read_exact-append (suc n) [] rest h = ground arith
read_exact-append zero (b ∷ bs) rest h = ground arith
read_exact-append (suc n) (b ∷ bs) rest h = rw (read_exact-append n bs rest (omega arith))

pub length-le_bytes : (n v : ℕ) → length (le_bytes n v) ≡ n
unfolding le_bytes
length-le_bytes zero v = refl
length-le_bytes (suc n) v = omega (arith, length-le_bytes n (v / 256))

pub from_le-le_bytes : (n v : ℕ) → v < bound n → from_le (le_bytes n v) ≡ v
unfolding from_le le_bytes
from_le-le_bytes zero v h = omega arith
from_le-le_bytes (suc n) v h = omega (arith, from_le-le_bytes n (v / 256) (omega arith))

true-ne-false : true ≢ false
true-ne-false h = cc

-- Texts put together are a text.
pub continues-append :
    (more low high : ℕ) (xs ys : Bytes)
    → continues more low high xs ≡ true
    → continues 0 0 0 ys ≡ true
    → continues more low high (xs ++ ys) ≡ true
unfolding continues
continues-append zero low high [] [] p q = refl
continues-append zero low high [] (y ∷ ys) p q = q
continues-append (suc more) low high [] ys p q = ground arith
continues-append (suc more) low high (b ∷ xs) ys p q = elim (Bool-cases (leb low b && leb b high)) [
  | inl e ↦ rw e (continues-append more 0x80 0xbf xs ys (rw e at p) q)
  | inr e ↦ absurd (true-ne-false (sym (rw e at p)))
]
continues-append zero low high (b ∷ xs) ys p q = elim (Option-cases (tail_of b)) [
  | inl e ↦ absurd (true-ne-false (sym p ∙ rw (continues, e) refl))
  | inr (t, e) ↦
      rw (continues, e) (continues-append t.more t.low t.high xs ys (rw (continues, e) at p) q)
]
