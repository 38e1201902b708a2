-- ===== src/Naming/Path.antt =====
-- rosrust/src/api/naming/path.rs and error.rs: absolute names as chains of words.
-- A `Slice` borrows the chain of a `Buffer`; as values both are the chain.
use rosrust.Prelude.{
  ℕ, Bool, true, false, ◌≡◌, refl, ◌&&◌, ◌||◌, List, [], ◌∷◌, ◌++◌, leb, ◌==◌, if◌then◌else◌, Bytes,
}
pub mod Parse

-- A variant of `ErrorKind`, with the text that it carries.
pub data Error : Type 0 where
  illegal_character : Bytes → Error
  illegal_first_character : Bytes → Error
  empty_name : Error
  leading_slash_missing : Bytes → Error
  missing_parent : Error

pub data Result {ℓ} (A : Type ℓ) : Type ℓ where
  ok : A → Result A
  err : Error → Result A

infixl 5 ◌>>=◌
abbrev pub ◌>>=◌ {ℓ κ} : {X : Type ℓ} {Y : Type κ} → Result X → (X → Result Y) → Result Y
err issue >>= _ = err issue
ok x >>= next = next x

-- A chain that succeeds comes from a first part that succeeds.
pub >>=-eq-ok {ℓ κ} :
    {A : Type ℓ} {B : Type κ} {z : B} (first : Result A) (next : A → Result B)
    → (first >>= next) ≡ ok z
    → (x : A) × (first ≡ ok x) × (next x ≡ ok z)
>>=-eq-ok (err issue) next h = cc
>>=-eq-ok (ok x) next h = (x, refl, h)

pub ok-injective {ℓ} : {A : Type ℓ} {a b : A} → ok a ≡ ok b → a ≡ b
ok-injective h = cc

pub record Slice : Type 0 where
  pub chain : List Bytes

pub record Buffer : Type 0 where
  pub chain : List Bytes

-- `Path::slice` and `Path::take`.
abbrev pub slice : Buffer → Slice
slice b = record { chain = b.chain }

abbrev pub take : Slice → Buffer
take s = record { chain = s.chain }

-- `split_last`, the items before the last one.
unfoldable pub split_last : Bytes → List Bytes → List Bytes
split_last w [] = []
split_last w (v ∷ ws) = w ∷ split_last v ws

parent_of : List Bytes → Result Slice
parent_of [] = err missing_parent
parent_of (w ∷ ws) = ok (record { chain = split_last w ws })

-- `Path::parent`.
unfoldable pub parent : Slice → Result Slice
unfolding split_last parent_of
parent s = parent_of s.chain

-- `Display`: every item behind a slash.
unfoldable pub display : List Bytes → Bytes
display [] = []
display (w ∷ ws) = b'/' ∷ (w ++ display ws)

-- `Add` and `AddAssign`.
abbrev pub add : Buffer → Slice → Buffer
add b s = record { chain = b.chain ++ s.chain }

unfoldable pub is_legal_first_char : ℕ → Bool
is_legal_first_char v =
    (leb b'A' v && leb v b'Z')
    || (leb b'a' v && leb v b'z')
    || v == b'/'
    || v == b'~'
    || (leb b'0' v && leb v b'9')

unfoldable pub is_legal_char : ℕ → Bool
unfolding is_legal_first_char
is_legal_char v = is_legal_first_char v || v == b'_'

all_legal : Bytes → Bool
all_legal [] = true
all_legal (c ∷ cs) = is_legal_char c && all_legal cs

is_empty : Bytes → Bool
is_empty [] = true
is_empty (_ ∷ _) = false

unfoldable pub process_name : Bytes → Result Bytes
unfolding all_legal is_legal_char is_empty
process_name name =
    if is_empty name
    then err empty_name
    else if all_legal name
    then ok name
    else err (illegal_character name)

-- `s.trim_end_matches('/')`.
cons_trimmed : ℕ → Bytes → Bytes
cons_trimmed c [] = if c == b'/' then [] else c ∷ []
cons_trimmed c (d ∷ cs) = c ∷ d ∷ cs

unfoldable pub trim_end : Bytes → Bytes
unfolding cons_trimmed
trim_end [] = []
trim_end (c ∷ cs) = cons_trimmed c (trim_end cs)

-- `s.split('/')`, which always yields at least one word.
push_front : ℕ → List Bytes → List Bytes
push_front c [] = (c ∷ []) ∷ []
push_front c (w ∷ ws) = (c ∷ w) ∷ ws

split_slash : Bytes → List Bytes
unfolding push_front
split_slash [] = [] ∷ []
split_slash (c ∷ cs) =
    let rest = split_slash cs in if c == b'/' then [] ∷ rest else push_front c rest

-- `map(process_name).collect()`: the first error ends it.
process_all : List Bytes → Result (List Bytes)
unfolding process_name
process_all [] = ok []
process_all (w ∷ ws) = do v ← process_name w; vs ← process_all ws; ok (v ∷ vs)

-- The words after the leading slash of `s`.
after_leading : Bytes → List Bytes → Result (List Bytes)
unfolding process_all
after_leading s ([] ∷ ws) = process_all ws
after_leading s ((c ∷ cs) ∷ ws) = err (leading_slash_missing s)
after_leading s [] = err (leading_slash_missing s)

-- `words` for the trimmed text.
parse_words : Bytes → Result (List Bytes)
unfolding after_leading split_slash is_legal_first_char
parse_words [] = ok []
parse_words (c ∷ cs) =
    if is_legal_first_char c
    then after_leading (c ∷ cs) (split_slash (c ∷ cs))
    else err (illegal_first_character (c ∷ cs))

-- `Buffer::from_str`.
unfoldable pub from_str : Bytes → Result Buffer
unfolding parse_words trim_end
from_str s = do ws ← parse_words (trim_end s); ok (record { chain = ws })
