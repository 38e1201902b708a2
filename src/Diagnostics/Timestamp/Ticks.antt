-- ===== src/Diagnostics/Timestamp/Ticks.antt =====
-- What a tracker keeps of the ticks that it sees:
-- rosrust_diagnostics/src/tasks/timestamp_status.rs.
use rosrust.Prelude.{
  ◌≡◌, refl, ap, sym, ◌∙◌, Bool, true, false, not, ◌&&◌, ◌||◌, Bool-cases, if-cases, or_false,
  or_assoc, inl, inr, List, [], ◌∷◌, if◌then◌else◌,
}
use rosrust.Prelude.Int.{pos}
use rosrust.Time.Seconds.{Floats}
use rosrust.Diagnostics.Timestamp.{Tracker, tick_float, combine_with, range_new}

-- `f64::min` and `f64::max` give one of the two numbers, the lesser and the greater: they are below or
-- above a limit as soon as one of the two is. A number that is not one (NaN) is neither below nor above
-- anything, and `min` and `max` leave it out.
pub record MinMax (f : Floats) : Type 0 where
  pub lt-min : (a b c : f.F) → f.lt (f.min a b) c ≡ (f.lt a c || f.lt b c)
  pub lt-max : (a b c : f.F) → f.lt c (f.max a b) ≡ (f.lt c a || f.lt c b)

module _ (f : Floats) where
  -- A tick: the time that the clock shows and the timestamp.
  abbrev pub Tick : Type 0
  Tick = f.F × f.F

  abbrev pub tick_each : List Tick → Tracker (f.F) → Tracker (f.F)
  tick_each [] t = t
  tick_each ((now, timestamp) ∷ ticks) t = tick_each ticks (tick_float f now timestamp t)

  abbrev pub is_zero : f.F → Bool
  is_zero timestamp = f.eq timestamp (f.decimal (pos 0) 1)

  abbrev pub any_zero : List Tick → Bool
  any_zero [] = false
  any_zero ((_, timestamp) ∷ ticks) = is_zero timestamp || any_zero ticks

  -- The delays of the ticks that have a timestamp.
  abbrev pub delays : List Tick → List (f.F)
  delays [] = []
  delays ((now, timestamp) ∷ ticks) =
      let later = delays ticks in if is_zero timestamp then later else f.minus now timestamp ∷ later

  abbrev pub any : (f.F → Bool) → List (f.F) → Bool
  any test [] = false
  any test (d ∷ ds) = test d || any test ds

  abbrev pub is_some : List (f.F) → Bool
  is_some [] = false
  is_some (_ ∷ _) = true

  -- Whether a delay seen since the last run is below a limit, or above it.
  abbrev pub below : Tracker (f.F) → f.F → Bool
  below t limit = t.delta_valid && f.lt t.delta_range.min limit

  abbrev pub above : Tracker (f.F) → f.F → Bool
  above t limit = t.delta_valid && f.lt limit t.delta_range.max

  any-delays :
      (test : f.F → Bool) (now timestamp : f.F) (ticks : List Tick) (b : Bool)
      → ((b || (not (is_zero timestamp) && test (f.minus now timestamp)))
          || any test (delays ticks))
        ≡ (b || any test (delays ((now, timestamp) ∷ ticks)))
  any-delays test now timestamp ticks b = elim (Bool-cases (is_zero timestamp)) [
    | inl z ↦ rw z (ap (λ (c : Bool). c || any test (delays ticks)) (or_false b))
    | inr z ↦ rw z (or_assoc b (test (f.minus now timestamp)) (any test (delays ticks)))
  ]

  or_true : (b : Bool) → (b || true) ≡ true
  or_true true = refl
  or_true false = refl

  -- The three ways of a tick.
  tick_cases :
      (now timestamp : f.F) (t : Tracker (f.F)) (P : Tracker (f.F) → Type 0)
      → (is_zero timestamp ≡ true → P (record t { zero_seen = true }))
      → (is_zero timestamp ≡ false
          → t.delta_valid ≡ true
          → P (record t { delta_range = combine_with f (f.minus now timestamp) t.delta_range }))
      → (is_zero timestamp ≡ false
          → t.delta_valid ≡ false
          → P (record t { delta_valid = true; delta_range = range_new f (f.minus now timestamp) }))
      → P (tick_float f now timestamp t)
  unfolding tick_float
  tick_cases now timestamp t P zero more first =
      if-cases P (is_zero timestamp) _ _ zero (λ z. if-cases P t.delta_valid _ _ (more z) (first z))

  tick-valid :
      (now timestamp : f.F) (t : Tracker (f.F))
      → (tick_float f now timestamp t).delta_valid ≡ (t.delta_valid || not (is_zero timestamp))
  unfolding tick_float combine_with
  tick-valid now timestamp t =
      tick_cases now timestamp t (λ u. u.delta_valid ≡ (t.delta_valid || not (is_zero timestamp)))
        (λ z. rw z (sym (or_false t.delta_valid))) (λ z v. rw (z, v) refl) (λ z v. rw (z, v) refl)

  tick-zero :
      (now timestamp : f.F) (t : Tracker (f.F))
      → (tick_float f now timestamp t).zero_seen ≡ (t.zero_seen || is_zero timestamp)
  unfolding tick_float combine_with
  tick-zero now timestamp t =
      tick_cases now timestamp t (λ u. u.zero_seen ≡ (t.zero_seen || is_zero timestamp))
        (λ z. rw z (sym (or_true t.zero_seen))) (λ z v. rw z (sym (or_false t.zero_seen)))
        (λ z v. rw z (sym (or_false t.zero_seen)))

  tick-counts :
      (now timestamp : f.F) (t : Tracker (f.F)) → (tick_float f now timestamp t).counts ≡ t.counts
  unfolding tick_float combine_with
  tick-counts now timestamp t =
      tick_cases now timestamp t (λ u. u.counts ≡ t.counts) (λ z. refl) (λ z v. refl) (λ z v. refl)

  tick-below :
      (laws : MinMax f) (now timestamp limit : f.F) (t : Tracker (f.F))
      → below (tick_float f now timestamp t) limit
        ≡ (below t limit || (not (is_zero timestamp) && f.lt (f.minus now timestamp) limit))
  unfolding tick_float combine_with
  tick-below laws now timestamp limit t =
      tick_cases now timestamp t
        (λ u.
          below u limit
          ≡ (below t limit || (not (is_zero timestamp) && f.lt (f.minus now timestamp) limit)))
        (λ z. rw z (sym (or_false (below t limit))))
        (λ z v. rw (z, v) (laws.lt-min t.delta_range.min (f.minus now timestamp) limit))
        (λ z v. rw (z, v) refl)

  tick-above :
      (laws : MinMax f) (now timestamp limit : f.F) (t : Tracker (f.F))
      → above (tick_float f now timestamp t) limit
        ≡ (above t limit || (not (is_zero timestamp) && f.lt limit (f.minus now timestamp)))
  unfolding tick_float combine_with
  tick-above laws now timestamp limit t =
      tick_cases now timestamp t
        (λ u.
          above u limit
          ≡ (above t limit || (not (is_zero timestamp) && f.lt limit (f.minus now timestamp))))
        (λ z. rw z (sym (or_false (above t limit))))
        (λ z v. rw (z, v) (laws.lt-max t.delta_range.max (f.minus now timestamp) limit))
        (λ z v. rw (z, v) refl)

  pub each-valid :
      (ticks : List Tick) (t : Tracker (f.F))
      → (tick_each ticks t).delta_valid ≡ (t.delta_valid || is_some (delays ticks))
  each-valid [] t = sym (or_false t.delta_valid)
  each-valid ((now, timestamp) ∷ ticks) t =
      each-valid ticks (tick_float f now timestamp t)
      ∙ rw (tick-valid now timestamp t) (elim (Bool-cases (is_zero timestamp)) [
        | inl z ↦ rw z (ap (λ (c : Bool). c || is_some (delays ticks)) (or_false t.delta_valid))
        | inr z ↦ rw z (or_assoc t.delta_valid true (is_some (delays ticks)))
      ])

  pub each-zero :
      (ticks : List Tick) (t : Tracker (f.F))
      → (tick_each ticks t).zero_seen ≡ (t.zero_seen || any_zero ticks)
  each-zero [] t = sym (or_false t.zero_seen)
  each-zero ((now, timestamp) ∷ ticks) t =
      each-zero ticks (tick_float f now timestamp t)
      ∙ rw (tick-zero now timestamp t) (or_assoc t.zero_seen (is_zero timestamp) (any_zero ticks))

  pub each-counts : (ticks : List Tick) (t : Tracker (f.F)) → (tick_each ticks t).counts ≡ t.counts
  each-counts [] t = refl
  each-counts ((now, timestamp) ∷ ticks) t =
      each-counts ticks (tick_float f now timestamp t) ∙ tick-counts now timestamp t

  pub each-below :
      (laws : MinMax f) (limit : f.F) (ticks : List Tick) (t : Tracker (f.F))
      → below (tick_each ticks t) limit ≡ (below t limit || any (λ d. f.lt d limit) (delays ticks))
  each-below laws limit [] t = sym (or_false (below t limit))
  each-below laws limit ((now, timestamp) ∷ ticks) t =
      each-below laws limit ticks (tick_float f now timestamp t)
      ∙ ap (λ (b : Bool). b || any (λ d. f.lt d limit) (delays ticks))
          (tick-below laws now timestamp limit t)
      ∙ any-delays (λ d. f.lt d limit) now timestamp ticks (below t limit)

  pub each-above :
      (laws : MinMax f) (limit : f.F) (ticks : List Tick) (t : Tracker (f.F))
      → above (tick_each ticks t) limit ≡ (above t limit || any (λ d. f.lt limit d) (delays ticks))
  each-above laws limit [] t = sym (or_false (above t limit))
  each-above laws limit ((now, timestamp) ∷ ticks) t =
      each-above laws limit ticks (tick_float f now timestamp t)
      ∙ ap (λ (b : Bool). b || any (λ d. f.lt limit d) (delays ticks))
          (tick-above laws now timestamp limit t)
      ∙ any-delays (λ d. f.lt limit d) now timestamp ticks (above t limit)
