-- ===== src/Codegen/Scan/Laws.antt =====
-- Runs and trims on texts whose parts are known.
use rosrust.Prelude.{some, ℕ, ◌≡◌, refl, ap, Bool, true, false, [], ◌∷◌, ◌++◌, All}
use rosrust.Codegen.Scan.{Text, ◌>>=◌, run, after_run, many, many1, one}

-- What is next is not of the class.
abbrev pub Stops : (ℕ → Bool) → Text → Type 0
Stops class [] = Unit
Stops class (c ∷ text) = class c ≡ false

abbrev pub AllOf : (ℕ → Bool) → Text → Type 0
AllOf class text = All (λ c. class c ≡ true) text

pub run-append :
    (class : ℕ → Bool) (xs rest : Text)
    → AllOf class xs
    → Stops class rest
    → run class (xs ++ rest) ≡ xs
unfolding run
run-append class [] [] h s = refl
run-append class [] (c ∷ rest) h s = rw s refl
run-append class (x ∷ xs) rest h s = rw h.0 (ap (◌∷◌ x) (run-append class xs rest h.1 s))

pub after_run-append :
    (class : ℕ → Bool) (xs rest : Text)
    → AllOf class xs
    → Stops class rest
    → after_run class (xs ++ rest) ≡ rest
unfolding after_run
after_run-append class [] [] h s = refl
after_run-append class [] (c ∷ rest) h s = rw s refl
after_run-append class (x ∷ xs) rest h s = rw h.0 (after_run-append class xs rest h.1 s)

pub many-append :
    (class : ℕ → Bool) (xs rest : Text)
    → AllOf class xs
    → Stops class rest
    → many class (xs ++ rest) ≡ some (xs, rest)
many-append class xs rest h s =
    rw (run-append class xs rest h s, after_run-append class xs rest h s) refl

pub many1-append :
    (class : ℕ → Bool) (x : ℕ) (xs rest : Text)
    → AllOf class (x ∷ xs)
    → Stops class rest
    → many1 class (x ∷ (xs ++ rest)) ≡ some (x ∷ xs, rest)
unfolding many1
many1-append class x xs rest h s =
    rw
      (many1, ◌>>=◌, one, h.0, run-append class xs rest h.1 s, after_run-append class xs rest h.1 s)
      refl
