-- ===== src/Clock/Wakes.antt =====
-- What a trigger wakes.
use rosrust.Prelude.{
  ℕ, suc, ◌+◌, ◌*◌, ◌<◌, ◌≤◌, ◌≡◌, inl, inr, refl, ap, true, false, List, [], ◌∷◌, ◌++◌, arith, All,
  Bool-cases,
}
use rosrust.Time.{Time, billion, time_cmp, time_nanos}
use rosrust.Clock.{Timeout, SimData, is_after, push, dropped, staying, trigger}

-- The nanoseconds of a time.
abbrev pub nanos : Time → ℕ
nanos t = t.sec * billion + t.nsec

after_true : (t u : Time) → is_after t u ≡ true → nanos u < nanos t
unfolding is_after time_cmp time_nanos
after_true t u h = ground arith

after_false : (t u : Time) → is_after t u ≡ false → nanos t ≤ nanos u
unfolding is_after time_cmp time_nanos
after_false t u h = ground arith

-- No timeout in a list is before a time.
abbrev pub From : ℕ → List Timeout → Type 0
From n timeouts = All (λ t. n ≤ nanos t.timestamp) timeouts

abbrev pub Sorted : List Timeout → Type 0
Sorted [] = Unit
Sorted (t ∷ timeouts) = From (nanos t.timestamp) timeouts × Sorted timeouts

From-le : (m n : ℕ) (timeouts : List Timeout) → m ≤ n → From n timeouts → From m timeouts
From-le m n [] le h = tt
From-le m n (t ∷ timeouts) le h = (omega (arith, h.0), From-le m n timeouts le h.1)

push-From :
    (n : ℕ) (new : Timeout) (timeouts : List Timeout)
    → n ≤ nanos new.timestamp
    → From n timeouts
    → From n (push new timeouts)
unfolding push
push-From n new [] le h = (le, tt)
push-From n new (t ∷ timeouts) le h = elim (Bool-cases (is_after t.timestamp new.timestamp)) [
  | inl e ↦ rw (push, e) (le, h)
  | inr e ↦ rw (push, e) (h.0, push-From n new timeouts le h.1)
]

pub push-Sorted :
    (new : Timeout) (timeouts : List Timeout) → Sorted timeouts → Sorted (push new timeouts)
unfolding push
push-Sorted new [] h = (tt, tt)
push-Sorted new (t ∷ timeouts) h = elim (Bool-cases (is_after t.timestamp new.timestamp)) [
  | inl e ↦
      let less = after_true t.timestamp new.timestamp e in
      rw (push, e)
        ((omega (arith, less), From-le _ (nanos t.timestamp) timeouts (omega (arith, less)) h.0), h)
  | inr e ↦
      rw (push, e)
        (
          push-From (nanos t.timestamp) new timeouts (after_false t.timestamp new.timestamp e) h.0,
          push-Sorted new timeouts h.1,
        )
]

pub staying-Sorted :
    (time : Time) (timeouts : List Timeout) → Sorted timeouts → Sorted (staying time timeouts)
unfolding staying
staying-Sorted time [] h = tt
staying-Sorted time (t ∷ timeouts) h = elim (Bool-cases (is_after t.timestamp time)) [
  | inl e ↦ rw (staying, e) h
  | inr e ↦ rw (staying, e) (staying-Sorted time timeouts h.1)
]

dropped-staying :
    (time : Time) (timeouts : List Timeout)
    → dropped time timeouts ++ staying time timeouts ≡ timeouts
unfolding dropped staying
dropped-staying time [] = refl
dropped-staying time (t ∷ timeouts) = elim (Bool-cases (is_after t.timestamp time)) [
  | inl e ↦ rw (dropped, staying, e) refl
  | inr e ↦ rw (dropped, staying, e) (ap (◌∷◌ t) (dropped-staying time timeouts))
]

dropped-due :
    (time : Time) (timeouts : List Timeout)
    → All (λ t. nanos t.timestamp ≤ nanos time) (dropped time timeouts)
unfolding dropped
dropped-due time [] = tt
dropped-due time (t ∷ timeouts) = elim (Bool-cases (is_after t.timestamp time)) [
  | inl e ↦ rw (dropped, e) tt
  | inr e ↦ rw (dropped, e) (after_false t.timestamp time e, dropped-due time timeouts)
]

pub staying-later :
    (time : Time) (timeouts : List Timeout)
    → Sorted timeouts
    → All (λ t. nanos time < nanos t.timestamp) (staying time timeouts)
unfolding staying
staying-later time [] h = tt
staying-later time (t ∷ timeouts) h = elim (Bool-cases (is_after t.timestamp time)) [
  | inl e ↦
      let less = after_true t.timestamp time e in
      rw (staying, e)
        (less, From-le (suc (nanos time)) (nanos t.timestamp) timeouts (omega (arith, less)) h.0)
  | inr e ↦ rw (staying, e) (staying-later time timeouts h.1)
]

-- A trigger drops the timeouts that are due at its time, and only those, in their order; the others stay.
pub trigger_drops :
    (time : Time) (data_ : SimData)
    → Sorted data_.timeouts
    → (dropped time data_.timeouts ++ (trigger time data_).timeouts ≡ data_.timeouts)
      × All (λ t. nanos t.timestamp ≤ nanos time) (dropped time data_.timeouts)
      × All (λ t. nanos time < nanos t.timestamp) (trigger time data_).timeouts
      × Sorted (trigger time data_).timeouts
unfolding trigger
trigger_drops time data_ h = (
  dropped-staying time data_.timeouts,
  dropped-due time data_.timeouts,
  staying-later time data_.timeouts h,
  staying-Sorted time data_.timeouts h,
)
