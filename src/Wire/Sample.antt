-- ===== src/Wire/Sample.antt =====
-- A byte order to run the definitions with, and tests that stand for the conditions on texts.
use rosrust.Prelude.{
  ℕ, ◌<◌, ◌≡◌, refl, Bool, true, false, not, ◌&&◌, List, [], ◌∷◌, arith, All, ltb, leb, ◌==◌,
  length, equal, Bytes,
}
use rosrust.Wire.Reader.{bound, le_bytes, from_le, is_utf8, continues, tail_of}
use rosrust.Wire.Codec.{ByteOrder}
use rosrust.Wire.Codec.RoundTrip.{IsText}
use rosrust.Wire.Map.{Row, item}
use rosrust.Wire.Map.Rows.{IsKey, Distinct}
use rosrust.Wire.Map.RoundTrip.{IsRow}

abbrev pub little : ByteOrder
little = record { write = le_bytes; read = from_le; write_le = λ n v h. refl; read_le = λ bs. refl }

unfoldable pub all_bytes : Bytes → Bool
all_bytes [] = true
all_bytes (b ∷ bs) = ltb b 256 && all_bytes bs

unfoldable pub is_text : Bytes → Bool
unfolding all_bytes continues tail_of
is_text s = is_utf8 s && (all_bytes s && leb (length s) 1000)

unfoldable pub no_sign : Bytes → Bool
no_sign [] = true
no_sign (b ∷ bs) = not (b == b'=') && no_sign bs

unfoldable pub absent : Bytes → List Row → Bool
unfolding equal
absent k [] = true
absent k (r ∷ rows) = not (equal k r.key) && absent k rows

unfoldable pub are_rows : List Row → Bool
unfolding no_sign is_text absent
are_rows [] = true
are_rows (r ∷ rows) = (no_sign r.key && is_text (item r)) && (absent r.key rows && are_rows rows)

and-true : (a b : Bool) → (a && b) ≡ true → (a ≡ true) × (b ≡ true)
and-true true b h = (refl, h)
and-true false b h = absurd cc

not-true : (a : Bool) → not a ≡ true → a ≡ false
not-true true h = absurd cc
not-true false h = refl

pub all_bytes-true : (bs : Bytes) → all_bytes bs ≡ true → All (λ b. b < 256) bs
unfolding all_bytes
all_bytes-true [] h = tt
all_bytes-true (b ∷ bs) h =
    let both = and-true (ltb b 256) (all_bytes bs) h in
    let one : ltb b 256 ≡ true = both.0 in (ground arith, all_bytes-true bs both.1)

short_lt : (n : ℕ) → leb n 1000 ≡ true → n < bound 4
short_lt n h = ground arith

pub is_text-true : (s : Bytes) → is_text s ≡ true → IsText s
unfolding is_text
is_text-true s h =
    let one = and-true (is_utf8 s) (all_bytes s && leb (length s) 1000) h in
    let two = and-true (all_bytes s) (leb (length s) 1000) one.1 in
    (one.0, all_bytes-true s two.0, short_lt (length s) two.1)

no_sign-true : (bs : Bytes) → no_sign bs ≡ true → IsKey bs
unfolding no_sign
no_sign-true [] h = tt
no_sign-true (b ∷ bs) h = let both = and-true _ _ h in (not-true _ both.0, no_sign-true bs both.1)

absent-true :
    (k : Bytes) (rows : List Row) → absent k rows ≡ true → All (λ s. equal k s.key ≡ false) rows
unfolding absent
absent-true k [] h = tt
absent-true k (r ∷ rows) h =
    let both = and-true _ _ h in (not-true _ both.0, absent-true k rows both.1)

pub are_rows-true :
    (rows : List Row) → are_rows rows ≡ true → All (IsRow little) rows × Distinct rows
unfolding are_rows
are_rows-true [] h = (tt, tt)
are_rows-true (r ∷ rows) h =
    let both = and-true _ _ h in
    let key = and-true _ _ both.0 in
    let rest = and-true _ _ both.1 in
    let later = are_rows-true rows rest.1 in
    (
      ((no_sign-true r.key key.0, is_text-true (item r) key.1), later.0),
      (absent-true r.key rows rest.0, later.1),
    )
