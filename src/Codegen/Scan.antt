-- ===== src/Codegen/Scan.antt =====
-- The regular expressions of rosrust_codegen/src/msg.rs, as scanners. A run takes as many characters
-- as it can: in each expression what follows a run cannot begin with one of the run's characters, so
-- that no other split can match.
use rosrust.Prelude.{
  Option, none, some, ℕ, ◌+◌, ◌-◌, ◌*◌, Bool, true, false, not, ◌&&◌, ◌||◌, List, [], ◌∷◌, leb, ltb,
  ◌==◌, if◌then◌else◌, Bytes,
}
pub mod Laws

abbrev pub Text : Type 0
Text = List ℕ

-- A scanner gives what it takes and what is left, or does not match.
abbrev pub Scan {ℓ} : Type ℓ → Type ℓ
Scan A = Text → Option (A × Text)

infixl 5 ◌>>=◌
abbrev pub ◌>>=◌ {ℓ κ} : {X : Type ℓ} {Y : Type κ} → Scan X → (X → Scan Y) → Scan Y
◌>>=◌ first next text = elim (first text) [ none ↦ none | some (x, left) ↦ next x left ]

abbrev pub pure {ℓ} : {X : Type ℓ} → X → Scan X
pure x text = some (x, text)

-- `White_Space` of Unicode, for `\s` and for `trim`.
unfoldable pub is_space : ℕ → Bool
is_space c =
    (leb 9 c && leb c 13)
    || c == 32
    || c == 133
    || c == 160
    || c == 5760
    || (leb 8192 c && leb c 8202)
    || c == 8232
    || c == 8233
    || c == 8239
    || c == 8287
    || c == 12288

unfoldable pub is_digit : ℕ → Bool
is_digit c = leb 48 c && leb c 57

unfoldable pub is_letter : ℕ → Bool
is_letter c = (leb 97 c && leb c 122) || (leb 65 c && leb c 90)

-- `[a-zA-Z0-9_]` and `[a-zA-Z0-9_/]`.
unfoldable pub is_name : ℕ → Bool
unfolding is_letter is_digit
is_name c = is_letter c || is_digit c || c == 95

unfoldable pub is_type : ℕ → Bool
unfolding is_name
is_type c = is_name c || c == 47

-- The longest run of characters of a class, and what follows it.
unfoldable pub run : (ℕ → Bool) → Text → Text
run class [] = []
run class (c ∷ text) = let more = run class text in if class c then c ∷ more else []

unfoldable pub after_run : (ℕ → Bool) → Text → Text
after_run class [] = []
after_run class (c ∷ text) = let more = after_run class text in if class c then more else c ∷ text

-- `[class]*`, `[class]+`, and one character of a class.
abbrev pub many : (ℕ → Bool) → Scan Text
many class text = some (run class text, after_run class text)

abbrev pub one : (ℕ → Bool) → Scan ℕ
one class [] = none
one class (c ∷ text) = if class c then some (c, text) else none

unfoldable pub many1 : (ℕ → Bool) → Scan Text
unfolding run after_run
many1 class = do c ← one class; cs ← many class; pure (c ∷ cs)

abbrev pub symbol : ℕ → Scan ℕ
symbol c = one (λ d. d == c)

-- `$`.
abbrev pub at_end : Scan (Unit {0})
at_end [] = some (tt, [])
at_end (c ∷ text) = none

-- FIELD_TYPE, ANY_WHITESPACE, IGNORE_WHITESPACE, FIELD_NAME, and the digits of NUMBER_BRACKETS.
unfoldable pub field_type : Scan Text
unfolding many1 is_type
field_type = many1 is_type

unfoldable pub any_whitespace : Scan Text
unfolding many1 is_space
any_whitespace = many1 is_space

unfoldable pub ignore_whitespace : Scan Text
unfolding run after_run is_space
ignore_whitespace = many is_space

unfoldable pub field_name : Scan Text
unfolding run after_run is_letter is_name
field_name = do c ← one is_letter; cs ← many is_name; pure (c ∷ cs)

unfoldable pub digits : Scan Text
unfolding many1 is_digit
digits = many1 is_digit

-- `trim`, and `splitn(2, '#').next()`.
unfoldable pub trim_end : Text → Text
unfolding is_space
trim_end [] = []
trim_end (c ∷ text) = elim (trim_end text) [
  | [] ↦ if is_space c then [] else c ∷ []
  | d ∷ more ↦ c ∷ d ∷ more
]

unfoldable pub trim : Text → Text
unfolding trim_end after_run is_space
trim text = trim_end (after_run is_space text)

unfoldable pub before : ℕ → Text → Text
before mark [] = []
before mark (c ∷ text) = let more = before mark text in if c == mark then [] else c ∷ more

-- The number that decimal digits stand for.
unfoldable pub to_number : ℕ → Text → ℕ
to_number value [] = value
to_number value (c ∷ text) = to_number (value * 10 + (c - 48)) text

-- `split(mark)`, which gives one part at least.
unfoldable pub split : ℕ → Text → List Text
split mark [] = [] ∷ []
split mark (c ∷ text) =
    let parts = split mark text in
    if c == mark then [] ∷ parts else elim parts [ [] ↦ (c ∷ []) ∷ [] | p ∷ ps ↦ (c ∷ p) ∷ ps ]
