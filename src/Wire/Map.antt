-- ===== src/Wire/Map.antt =====
-- Maps from texts to texts in rosrust/src/rosmsg.rs, and the headers of connections that they carry,
-- rosrust/src/tcpros/header.rs. A `HashMap` is a list of its rows in an order of iteration, where
-- `insert` replaces the row of a key that is there. The loop that reads rows runs on fuel.
use rosrust.Prelude.{
  Option, none, some, ℕ, zero, suc, ◌+◌, ◌%◌, ◌==◌, List, [], ◌∷◌, ◌++◌, if◌then◌else◌, length,
  equal, Bytes,
}
use rosrust.Wire.Reader.{Error, invalid_data, Read, ok, err, bound}
use rosrust.Wire.Codec.{ByteOrder, u32_msg, encode_str, decode_str, drop, take}
pub mod Rows
pub mod RoundTrip

pub record Row : Type 0 where
  pub key : Bytes
  pub value : Bytes

-- `HashMap::get` and `HashMap::insert`.
unfoldable pub get : Bytes → List Row → Option Bytes
get k [] = none
get k (r ∷ table) = if equal r.key k then some r.value else get k table

unfoldable pub insert : Row → List Row → List Row
insert new [] = new ∷ []
insert new (r ∷ table) =
    let later = insert new table in if equal r.key new.key then new ∷ table else r ∷ later

-- `format!("{}={}", key, value)`.
abbrev pub item : Row → Bytes
item r = r.key ++ (b'=' ∷ r.value)

-- `splitn(2, '=')`, when it gives two parts.
unfoldable pub split_item : Bytes → Option Row
split_item [] = none
split_item (b ∷ bs) =
    let later = split_item bs in
    if b == b'='
    then some (record { key = []; value = bs })
    else elim later [ none ↦ none | some r ↦ some (record { key = b ∷ r.key; value = r.value }) ]

-- The sum of the sizes of the rows, each with the four bytes of its length.
unfoldable pub data_size : List Row → ℕ
data_size [] = 0
data_size (r ∷ rows) = (length (item r) + 4) + data_size rows

-- What a reader of a limited part leaves, with what comes after that part.
abbrev pub after {ℓ} : {A : Type ℓ} → Bytes → Option (Read A) → Option (Read A)
after later none = none
after later (some (ok a unread)) = some (ok a (unread ++ later))
after later (some (err e unread)) = some (err e (unread ++ later))

module _ (o : ByteOrder) where
  abbrev pub write_data_size : ℕ → Bytes
  write_data_size value = (u32_msg o).encode value

  unfoldable pub encode_rows : List Row → Bytes
  unfolding encode_str
  encode_rows [] = []
  encode_rows (r ∷ rows) = encode_str o (item r) ++ encode_rows rows

  -- `data_size as u32` keeps the low 32 bits.
  unfoldable pub encode : List Row → Bytes
  unfolding data_size encode_rows
  encode rows = write_data_size (data_size rows % bound 4) ++ encode_rows rows

  -- The loop, which ends at the first text that is not read; none is that the fuel is used up.
  unfoldable pub decode_rows : ℕ → List Row → Bytes → Option (Read (List Row))
  unfolding decode_str split_item insert
  decode_rows zero output limited = none
  decode_rows (suc fuel) output limited = elim (decode_str o limited) [
    | err _ left ↦ some (ok output left)
    | ok text left ↦ elim (split_item text) [
      | none ↦ some (err invalid_data left)
      | some r ↦ decode_rows fuel (insert r output) left
    ]
  ]

  unfoldable pub decode : Bytes → Option (Read (List Row))
  unfolding decode_rows
  decode input = elim ((u32_msg o).decode input) [
    | err e left ↦ some (err e left)
    | ok n left ↦ after (drop n left) (decode_rows (suc (length (take n left))) [] (take n left))
  ]

-- `match_field` of header.rs, and the errors of tcpros/error.rs that it gives.
pub data HeaderError : Type 0 where
  header_missing_field : Bytes → HeaderError
  header_mismatch : Bytes → Bytes → Bytes → HeaderError

unfoldable pub match_field : List Row → Bytes → Bytes → Option HeaderError
unfolding get
match_field fields field expected = elim (get field fields) [
  | none ↦ some (header_missing_field field)
  | some actual ↦
      if equal actual expected then none else some (header_mismatch field expected actual)
]
