-- ===== src/Wire/Reader.antt =====
-- The readers and writers of rosrust/src/rosmsg.rs. A writer takes all that it is given, as a
-- `Vec<u8>` does: to write is to give bytes. A reader is the bytes that are left; a read that meets
-- the end takes what there is.
use rosrust.Prelude.{
  Option, none, some, ℕ, zero, suc, ◌+◌, ◌*◌, ◌/◌, ◌%◌, Bool, false, true, ◌&&◌, List, [], ◌∷◌,
  if◌then◌else◌, ltb, leb, ◌==◌, Bytes,
}
pub mod Laws

-- The kinds of `io::Error` that are met.
pub data Error : Type 0 where
  unexpected_eof invalid_data : Error

-- What a read gives, and what is left.
pub data Read {ℓ} (A : Type ℓ) : Type ℓ where
  ok : A → Bytes → Read A
  err : Error → Bytes → Read A

abbrev pub Reader {ℓ} : Type ℓ → Type ℓ
Reader A = Bytes → Read A

infixl 5 ◌>>=◌
abbrev pub ◌>>=◌ {ℓ κ} : {X : Type ℓ} {Y : Type κ} → Reader X → (X → Reader Y) → Reader Y
◌>>=◌ first next input = elim (first input) [
  | ok x left ↦ next x left
  | err issue left ↦ err issue left
]

abbrev pub pure {ℓ} : {X : Type ℓ} → X → Reader X
pure x input = ok x input

-- `Read::read_exact` into a buffer of the length.
unfoldable pub read_exact : ℕ → Reader Bytes
read_exact zero input = ok [] input
read_exact (suc n) [] = err unexpected_eof []
read_exact (suc n) (b ∷ input) = elim (read_exact n input) [
  | ok bs left ↦ ok (b ∷ bs) left
  | err issue left ↦ err issue left
]

-- One more than the largest number of so many bytes.
abbrev pub bound : ℕ → ℕ
bound zero = 1
bound (suc n) = 256 * bound n

-- A number of so many bytes in the memory of a little endian machine, and back.
unfoldable pub le_bytes : ℕ → ℕ → Bytes
le_bytes zero v = []
le_bytes (suc n) v = v % 256 ∷ le_bytes n (v / 256)

unfoldable pub from_le : Bytes → ℕ
from_le [] = 0
from_le (b ∷ bs) = b + 256 * from_le bs

-- The bytes that follow the first byte of a character: how many, and the range of the next.
pub record Tail : Type 0 where
  pub more : ℕ
  pub low : ℕ
  pub high : ℕ

tail : ℕ → ℕ → ℕ → Option Tail
tail m l h = some (record { more = m; low = l; high = h })

unfoldable pub tail_of : ℕ → Option Tail
unfolding tail
tail_of b =
    if ltb b 0x80
    then tail 0 0 0
    else if ltb b 0xc2
    then none
    else if ltb b 0xe0
    then tail 1 0x80 0xbf
    else if b == 0xe0
    then tail 2 0xa0 0xbf
    else if b == 0xed
    then tail 2 0x80 0x9f
    else if ltb b 0xf0
    then tail 2 0x80 0xbf
    else if b == 0xf0
    then tail 3 0x90 0xbf
    else if ltb b 0xf4
    then tail 3 0x80 0xbf
    else if b == 0xf4
    then tail 3 0x80 0x8f
    else none

-- What `String::from_utf8` accepts, when `more` bytes of a character are to come, the next of them
-- in the range given.
unfoldable pub continues : ℕ → ℕ → ℕ → Bytes → Bool
continues zero low high [] = true
continues (suc more) low high [] = false
continues (suc more) low high (b ∷ bs) = (leb low b && leb b high) && continues more 0x80 0xbf bs
continues zero low high (b ∷ bs) = elim (tail_of b) [
  | none ↦ false
  | some t ↦ continues t.more t.low t.high bs
]

abbrev pub is_utf8 : Bytes → Bool
is_utf8 bs = continues 0 0 0 bs
