-- ===== src/Clock/Waits.antt =====
-- A thread that waits is woken.
use rosrust.Prelude.{
  ℕ, ◌<◌, ◌≤◌, ◌≡◌, ◌⊎◌, inl, inr, refl, List, [], ◌∷◌, ◌++◌, arith, All, Bool-cases,
}
use rosrust.Time.{Time}
use rosrust.Clock.{
  Timeout, SimData, is_after, push, dropped, staying, trigger, wait_until, Event, waits, ticks,
  happen, happen_all,
}
use rosrust.Clock.Wakes.{nanos, Sorted, push-Sorted, staying-Sorted, staying-later}

abbrev pub Mem : {A : Type 0} → A → List A → Type 0
Mem x [] = ⊥
Mem x (y ∷ ys) = (x ≡ y) ⊎ Mem x ys

Mem-append : {A : Type 0} (x : A) (xs ys : List A) → Mem x xs ⊎ Mem x ys → Mem x (xs ++ ys)
Mem-append x [] ys (inl h) = elim h [ ]
Mem-append x [] ys (inr h) = h
Mem-append x (y ∷ xs) ys (inl (inl e)) = inl e
Mem-append x (y ∷ xs) ys (inl (inr h)) = inr (Mem-append x xs ys (inl h))
Mem-append x (y ∷ xs) ys (inr h) = inr (Mem-append x xs ys (inr h))

push-Mem :
    (x new : Timeout) (timeouts : List Timeout)
    → (x ≡ new) ⊎ Mem x timeouts
    → Mem x (push new timeouts)
unfolding push
push-Mem x new [] h = h
push-Mem x new (t ∷ timeouts) h = elim (Bool-cases (is_after t.timestamp new.timestamp)) [
  | inl e ↦ rw (push, e) h
  | inr e ↦
      rw (push, e)
        (elim h [
          | inl new_one ↦ inr (push-Mem x new timeouts (inl new_one))
          | inr (inl first) ↦ inl first
          | inr (inr later) ↦ inr (push-Mem x new timeouts (inr later))
        ])
]

Mem-trigger :
    (x : Timeout) (time : Time) (timeouts : List Timeout)
    → Mem x timeouts
    → Mem x (dropped time timeouts) ⊎ Mem x (staying time timeouts)
unfolding dropped staying
Mem-trigger x time [] h = elim h [ ]
Mem-trigger x time (t ∷ timeouts) h = elim (Bool-cases (is_after t.timestamp time)) [
  | inl e ↦ rw (dropped, staying, e) (inr h)
  | inr e ↦
      rw (dropped, staying, e)
        (elim h [
          | inl first ↦ inl (inl first)
          | inr later ↦ elim (Mem-trigger x time timeouts later) [
            | inl d ↦ inl (inr d)
            | inr s ↦ inr s
          ]
        ])
]

Mem-All : {A : Type 0} (P : A → Type 0) (x : A) (xs : List A) → Mem x xs → All P xs → P x
Mem-All P x [] h a = elim h [ ]
Mem-All P x (y ∷ xs) (inl e) a = rw e (a.0)
Mem-All P x (y ∷ xs) (inr h) a = Mem-All P x xs h a.1

-- A timeout waits or was dropped, and the timeouts that wait are in order.
Kept : Timeout → SimData × List Timeout → Type 0
Kept x (data_, woken) = (Mem x data_.timeouts ⊎ Mem x woken) × Sorted data_.timeouts

happen-Kept :
    (x : Timeout) (e : Event) (s : SimData × List Timeout) → Kept x s → Kept x (happen e s)
unfolding happen Kept wait_until trigger
happen-Kept x (waits thread t) (data_, woken) (inl h, sorted) =
    (inl (push-Mem x _ data_.timeouts (inr h)), push-Sorted _ data_.timeouts sorted)
happen-Kept x (waits thread t) (data_, woken) (inr h, sorted) =
    (inr h, push-Sorted _ data_.timeouts sorted)
happen-Kept x (ticks t) (data_, woken) (inl h, sorted) = (
  elim (Mem-trigger x t data_.timeouts h) [
    | inl d ↦ inr (Mem-append x woken (dropped t data_.timeouts) (inr d))
    | inr s ↦ inl s
  ],
  staying-Sorted t data_.timeouts sorted,
)
happen-Kept x (ticks t) (data_, woken) (inr h, sorted) = (
  inr (Mem-append x woken (dropped t data_.timeouts) (inl h)),
  staying-Sorted t data_.timeouts sorted,
)

happen_all-Kept :
    (x : Timeout) (events : List Event) (s : SimData × List Timeout)
    → Kept x s
    → Kept x (happen_all events s)
unfolding happen_all
happen_all-Kept x [] s h = h
happen_all-Kept x (e ∷ events) s h = happen_all-Kept x events (happen e s) (happen-Kept x e s h)

happen_all-append :
    (events more : List Event) (s : SimData × List Timeout)
    → happen_all (events ++ more) s ≡ happen_all more (happen_all events s)
unfolding happen_all
happen_all-append [] more s = refl
happen_all-append (e ∷ events) more s = happen_all-append events more (happen e s)

due_woken :
    (x : Timeout) (time : Time) (s : SimData × List Timeout)
    → nanos x.timestamp ≤ nanos time
    → Kept x s
    → Mem x (happen (ticks time) s).1
unfolding happen Kept
due_woken x time (data_, woken) le (inr h, sorted) =
    Mem-append x woken (dropped time data_.timeouts) (inl h)
due_woken x time (data_, woken) le (inl h, sorted) = elim (Mem-trigger x time data_.timeouts h) [
  | inl d ↦ Mem-append x woken (dropped time data_.timeouts) (inr d)
  | inr s ↦
      let later : nanos time < nanos x.timestamp =
        Mem-All (λ t. nanos time < nanos t.timestamp) x (staying time data_.timeouts) s
          (staying-later time data_.timeouts sorted) in
      absurd (omega arith)
]

-- A thread that waits for a time on a clock whose timeouts are in order is woken at the latest when the
-- clock is set to that time or a later one, whatever other threads wait for and whatever times the clock
-- is set to in between.
pub waits-woken :
    (thread : ℕ) (timestamp time : Time) (events : List Event) (data_ : SimData)
    → Sorted data_.timeouts
    → nanos timestamp ≤ nanos time
    → Mem
        (record { timestamp = timestamp; unparker = thread })
        (happen_all (waits thread timestamp ∷ (events ++ (ticks time ∷ []))) (data_, [])).1
unfolding happen_all
waits-woken thread timestamp time events data_ sorted le =
    let x : Timeout = record { timestamp = timestamp; unparker = thread } in
    let s = happen (waits thread timestamp) (data_, []) in
    let begun : Kept x s =
      unfold happen Kept wait_until in
      (inl (push-Mem x x data_.timeouts (inl refl)), push-Sorted x data_.timeouts sorted) in
    rw (happen_all-append events (ticks time ∷ []) s)
      (due_woken x time (happen_all events s) le (happen_all-Kept x events s begun))
