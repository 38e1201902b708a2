-- ===== src/Time/Arithmetic.antt =====
-- The operators on times and durations, against the integers.
use Prim.Native.Nat.{compare, Ordering}
use rosrust.Prelude.{ℕ, ◌-◌, ◌*◌, ◌<◌, ◌≡◌, refl, ap, arith}
use rosrust.Prelude.Int.{ℤ, pos, negsuc, pos_part, neg_part, ◌+ℤ◌, ◌-ℤ◌, ◌≤ℤ◌, int_laws}
use rosrust.Time.{
  Time, Duration, billion, u32_mod, time_from_nanos, time_nanos, duration_from_nanos,
  duration_nanos, time_cmp, add, since, sub, duration_add, duration_sub, neg,
}
use rosrust.Time.Ranges.{duration_nanos_parts}
use rosrust.Time.Nanos.{
  IsNormalTime, IsNormal, FitsDuration, nanos-duration_from_nanos, time_from_nanos-nanos,
  nanos-time_from_nanos, duration_from_nanos-nanos,
}

-- Adding the time elapsed since `u` to `u` gives `t` back, and taking it from `t` gives `u`, as
-- long as the difference fits in a duration.
pub since-add-sub :
    (t u : Time)
    → IsNormalTime t
    → IsNormalTime u
    → FitsDuration (time_nanos t -ℤ time_nanos u)
    → (add u (since t u) ≡ t) × (sub t (since t u) ≡ u)
unfolding add since sub
since-add-sub t u ht hu f =
    let back : time_nanos u +ℤ (time_nanos t -ℤ time_nanos u) ≡ time_nanos t = omega int_laws in
    let forth : time_nanos t -ℤ (time_nanos t -ℤ time_nanos u) ≡ time_nanos u = omega int_laws in
    (
      rw (nanos-duration_from_nanos _ f, back) (time_from_nanos-nanos t ht),
      rw (nanos-duration_from_nanos _ f, forth) (time_from_nanos-nanos u hu),
    )

nanos-time_from_nanos_of :
    (z : ℤ) → pos 0 ≤ℤ z → pos_part z < u32_mod * billion → time_nanos (time_from_nanos z) ≡ z
nanos-time_from_nanos_of (pos n) low high = nanos-time_from_nanos n high
nanos-time_from_nanos_of (negsuc n) low high = absurd (omega arith)

-- A time moved by a duration to a time that fits is moved back by `-`, and `since` measures it.
pub add-sub-since :
    (t : Time) (d : Duration)
    → IsNormalTime t
    → IsNormal d
    → pos 0 ≤ℤ time_nanos t +ℤ duration_nanos d
    → pos_part (time_nanos t +ℤ duration_nanos d) < u32_mod * billion
    → (sub (add t d) d ≡ t) × (since (add t d) t ≡ d)
unfolding add since sub
add-sub-since t d ht hd low high =
    let end = time_nanos t +ℤ duration_nanos d in
    let at_end : time_nanos (time_from_nanos end) ≡ end = nanos-time_from_nanos_of end low high in
    let back : end -ℤ duration_nanos d ≡ time_nanos t = omega int_laws in
    let forth : end -ℤ time_nanos t ≡ duration_nanos d = omega int_laws in
    (
      rw (at_end, back) (time_from_nanos-nanos t ht),
      rw (at_end, forth) (duration_from_nanos-nanos d hd),
    )

-- Times compare as their seconds, then their nanoseconds.
pub time_cmp_lex :
    (t u : Time)
    → IsNormalTime t
    → IsNormalTime u
    → time_cmp t u ≡ elim (compare t.sec u.sec) [
      | Ordering.eq ↦ compare t.nsec u.nsec
      | Ordering.lt ↦ Ordering.lt
      | Ordering.gt ↦ Ordering.gt
    ]
unfolding time_cmp
time_cmp_lex t u ht hu = ground arith

neg_parts :
    (d : Duration)
    → (pos_part (neg d).sec ≡ neg_part d.sec)
      × (neg_part (neg d).sec ≡ pos_part d.sec)
      × (pos_part (neg d).nsec ≡ neg_part d.nsec)
      × (neg_part (neg d).nsec ≡ pos_part d.nsec)
unfolding neg
neg_parts d = ground arith

-- On durations whose sums fit, `+` and `-` undo one another, and `-` is addition of the negation.
pub duration_group :
    (a b : Duration)
    → IsNormal a
    → IsNormal b
    → FitsDuration (duration_nanos a +ℤ duration_nanos b)
    → FitsDuration (duration_nanos a -ℤ duration_nanos b)
    → (duration_sub (duration_add a b) b ≡ a)
      × (duration_add (duration_sub a b) b ≡ a)
      × (duration_add a (neg b) ≡ duration_sub a b)
unfolding duration_add duration_sub
duration_group a b ha hb fa fs =
    let sum = duration_nanos a +ℤ duration_nanos b in
    let difference = duration_nanos a -ℤ duration_nanos b in
    let lower : sum -ℤ duration_nanos b ≡ duration_nanos a = omega int_laws in
    let raise : difference +ℤ duration_nanos b ≡ duration_nanos a = omega int_laws in
    let other : duration_nanos a +ℤ duration_nanos (neg b) ≡ difference =
      omega (int_laws, duration_nanos_parts b, duration_nanos_parts (neg b), neg_parts b) in
    (
      rw (nanos-duration_from_nanos sum fa, lower) (duration_from_nanos-nanos a ha),
      rw (nanos-duration_from_nanos difference fs, raise) (duration_from_nanos-nanos a ha),
      ap duration_from_nanos other,
    )

-- Taking a duration that is up to a second longer than the time since zero is no error: it gives
-- a time at second 0 whose nanoseconds are just below 2 ^ 32, which is no normal time.
pub sub_underflow :
    (t : Time) (d : Duration) (k : ℕ)
    → 0 < k
    → k < billion
    → duration_nanos d ≡ time_nanos t +ℤ pos k
    → (sub t d ≡ record { sec = 0; nsec = u32_mod - k }) × (¬ IsNormalTime (sub t d))
unfolding sub
sub_underflow t d k low high e =
    let below : time_nanos t -ℤ duration_nanos d ≡ negsuc (k - 1) =
      omega (int_laws, ap pos_part e, ap neg_part e) in
    let at : time_from_nanos (negsuc (k - 1)) ≡ record { sec = 0; nsec = u32_mod - k } =
      unfold time_from_nanos in ground arith in
    rw (below, at) (refl, λ h. omega arith)
