-- ===== src/Codegen/Line/Reads.antt =====
-- The lines that describe a field, with any spaces in them and any comment after them.
use rosrust.Prelude.{
  some, ℕ, ◌≡◌, refl, ap, Bool, true, false, [], ◌∷◌, ◌++◌, arith, All, if◌then◌else◌, ◌==◌,
}
use rosrust.Codegen.Scan.{
  Text, Scan, ◌>>=◌, one, field_type, any_whitespace, ignore_whitespace, field_name, digits,
  is_space, is_type, is_name, is_letter, is_digit, trim_end, before,
}
use rosrust.Codegen.Scan.Laws.{
  Stops, AllOf, run-append, after_run-append, many-append, many1-append,
}

-- Not empty, and of a class.
abbrev pub Word : (ℕ → Bool) → Text → Type 0
Word class [] = ⊥
Word class (c ∷ text) = AllOf class (c ∷ text)

abbrev pub IsName : Text → Type 0
IsName [] = ⊥
IsName (c ∷ text) = (is_letter c ≡ true) × AllOf is_name text

>>=_some :
    {A B : Type 0} (first : Scan A) (next : A → Scan B) (text : Text) {a : A} {left : Text}
    → first text ≡ some (a, left)
    → (first >>= next) text ≡ next a left
>>=_some first next text e = rw (e, ◌>>=◌) refl

pub type_taken :
    (t rest : Text) → Word is_type t → Stops is_type rest → field_type (t ++ rest) ≡ some (t, rest)
unfolding field_type
type_taken [] rest h s = elim h [ ]
type_taken (c ∷ t) rest h s = many1-append is_type c t rest h s

pub spaces_taken :
    (t rest : Text)
    → Word is_space t
    → Stops is_space rest
    → any_whitespace (t ++ rest) ≡ some (t, rest)
unfolding any_whitespace
spaces_taken [] rest h s = elim h [ ]
spaces_taken (c ∷ t) rest h s = many1-append is_space c t rest h s

pub any_taken :
    (t rest : Text)
    → AllOf is_space t
    → Stops is_space rest
    → ignore_whitespace (t ++ rest) ≡ some (t, rest)
unfolding ignore_whitespace
any_taken t rest h s = many-append is_space t rest h s

pub name_taken :
    (t rest : Text) → IsName t → Stops is_name rest → field_name (t ++ rest) ≡ some (t, rest)
unfolding field_name
name_taken [] rest h s = elim h [ ]
name_taken (c ∷ t) rest h s =
    rw
      (
        field_name,
        ◌>>=◌,
        one,
        h.0,
        run-append is_name t rest h.1 s,
        after_run-append is_name t rest h.1 s,
      )
      refl

pub digits_taken :
    (t rest : Text) → Word is_digit t → Stops is_digit rest → digits (t ++ rest) ≡ some (t, rest)
unfolding digits
digits_taken [] rest h s = elim h [ ]
digits_taken (c ∷ t) rest h s = many1-append is_digit c t rest h s

-- The classes of what follows one another are apart.
pub space_apart : (c : ℕ) → is_space c ≡ true → is_type c ≡ false
unfolding is_space is_type is_name is_letter is_digit
space_apart c h = ground arith

pub letter_apart : (c : ℕ) → is_letter c ≡ true → is_space c ≡ false
unfolding is_space is_letter
letter_apart c h = ground arith

pub hash_apart : (c : ℕ) → is_type c ≡ true → (c == b'#') ≡ false
unfolding is_type is_name is_letter is_digit
hash_apart c h = ground arith

pub space_no_hash : (c : ℕ) → is_space c ≡ true → (c == b'#') ≡ false
unfolding is_space
space_no_hash c h = ground arith

pub type_no_space : (c : ℕ) → is_type c ≡ true → is_space c ≡ false
unfolding is_space is_type is_name is_letter is_digit
type_no_space c h = ground arith

pub space_no_name : (c : ℕ) → is_space c ≡ true → is_name c ≡ false
unfolding is_space is_name is_letter is_digit
space_no_name c h = ground arith

pub name_is_type : (c : ℕ) → is_name c ≡ true → is_type c ≡ true
unfolding is_type
name_is_type c h = rw (is_type, h) refl

pub letter_is_type : (c : ℕ) → is_letter c ≡ true → is_type c ≡ true
unfolding is_type is_name
letter_is_type c h = rw (is_type, is_name, h) refl

-- Facts about the characters of a text, from facts about those of a class.
pub All-weaken : {P Q : ℕ → Type 0} (text : Text) → ((c : ℕ) → P c → Q c) → All P text → All Q text
All-weaken [] f h = tt
All-weaken (c ∷ text) f h = (f c h.0, All-weaken text f h.1)

pub before-append :
    (m : ℕ) (xs rest : Text)
    → All (λ c. (c == m) ≡ false) xs
    → before m (xs ++ rest) ≡ xs ++ before m rest
unfolding before
before-append m [] rest h = refl
before-append m (c ∷ xs) rest h = rw (h.0) (ap (◌∷◌ c) (before-append m xs rest h.1))

pub trim_end-no_space :
    (xs rest : Text)
    → All (λ c. is_space c ≡ false) xs
    → trim_end (xs ++ rest) ≡ xs ++ trim_end rest
unfolding trim_end
trim_end-no_space [] rest h = refl
trim_end-no_space (c ∷ xs) rest h =
    rw (trim_end, trim_end-no_space xs rest h.1) (last (xs ++ trim_end rest))
  where
    last :
        (more : Text)
        → elim more [ [] ↦ if is_space c then [] else c ∷ [] | d ∷ ds ↦ c ∷ d ∷ ds ] ≡ c ∷ more
    last [] = rw (h.0) refl
    last (d ∷ ds) = refl

pub trim_end-append :
    (xs : Text) (c : ℕ) (rest : Text)
    → is_space c ≡ false
    → trim_end (xs ++ (c ∷ rest)) ≡ xs ++ (c ∷ trim_end rest)
unfolding trim_end
trim_end-append [] c rest h = trim_end-no_space (c ∷ []) rest (h, tt)
trim_end-append (x ∷ []) c rest h = rw (trim_end, trim_end-append [] c rest h) refl
trim_end-append (x ∷ (y ∷ xs)) c rest h = rw (trim_end, trim_end-append (y ∷ xs) c rest h) refl

pub trim_end-spaces : (xs : Text) → AllOf is_space xs → trim_end xs ≡ []
unfolding trim_end
trim_end-spaces [] h = refl
trim_end-spaces (c ∷ xs) h = rw (trim_end, trim_end-spaces xs h.1, h.0) refl

-- A comment, or none.
abbrev pub IsComment : Text → Type 0
IsComment [] = Unit
IsComment (c ∷ text) = c ≡ b'#'
