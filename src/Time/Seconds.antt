-- ===== src/Time/Seconds.antt =====
-- `seconds` of rosrust/src/time.rs, and the numbers of type `f64`, which the processor provides: the
-- operations of them that the sources use are the fields of a record.
use rosrust.Prelude.{ℕ, Bool, Bytes}
use rosrust.Prelude.Int.{ℤ, pos}
use rosrust.Time.{Time, Duration, billion}

-- `lt` is `<`, `eq` is `==`, `of_ℤ` the conversions and `show` the trait `ToString`; `decimal n d` is the
-- literal of n / 10 ^ d.
pub record Floats : Type 1 where
  pub F : Type 0
  pub decimal : ℤ → ℕ → F
  pub infinity : F
  pub of_ℤ : ℤ → F
  pub plus : F → F → F
  pub minus : F → F → F
  pub times : F → F → F
  pub div : F → F → F
  pub min : F → F → F
  pub max : F → F → F
  pub lt : F → F → Bool
  pub eq : F → F → Bool
  pub show : F → Bytes

-- `Time::seconds`.
unfoldable pub time_seconds : (f : Floats) → Time → f.F
time_seconds f t = f.plus (f.of_ℤ (pos t.sec)) (f.div (f.of_ℤ (pos t.nsec)) (f.of_ℤ (pos billion)))

-- `Duration::seconds`.
unfoldable pub duration_seconds : (f : Floats) → Duration → f.F
duration_seconds f d = f.plus (f.of_ℤ d.sec) (f.div (f.of_ℤ d.nsec) (f.of_ℤ (pos billion)))
