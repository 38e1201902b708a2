-- ===== src/Wire/Codec.antt =====
-- rosrust/src/rosmsg.rs but for maps: the trait `RosMsg` with its implementations, and slices. The
-- package `byteorder` is a parameter. An `f32` or an `f64` is the number with its bits.
use rosrust.Prelude.{
  ℕ, zero, suc, ◌+◌, ◌-◌, ◌*◌, ◌/◌, ◌%◌, ◌<◌, ◌≡◌, Bool, false, true, List, [], ◌∷◌, ◌++◌, arith,
  if◌then◌else◌, ltb, length, All, Bytes,
}
use rosrust.Prelude.Int.{ℤ, pos, negsuc}
use rosrust.Time.{Time, Duration}
use rosrust.Wire.Reader.{
  Read, ok, err, invalid_data, Reader, ◌>>=◌, pure, read_exact, bound, le_bytes, from_le, is_utf8,
}
pub mod Primitive
pub mod RoundTrip

-- `byteorder::LittleEndian`: a number in so many bytes, the lowest first, and back.
pub record ByteOrder : Type 0 where
  pub write : ℕ → ℕ → Bytes
  pub read : Bytes → ℕ
  pub write_le : (n v : ℕ) → v < bound n → write n v ≡ le_bytes n v
  pub read_le : (bs : Bytes) → read bs ≡ from_le bs

-- The trait `RosMsg`.
pub record RosMsg (A : Type 0) : Type 0 where
  pub encode : A → Bytes
  pub decode : Reader A

-- A message type whose values that fit are read back, whatever follows.
pub record IsCodec {A : Type 0} (m : RosMsg A) (Fits : A → Type 0) : Type 0 where
  pub reads_back : (a : A) (rest : Bytes) → Fits a → m.decode (m.encode a ++ rest) ≡ ok a rest

-- The bits of a number of so many bytes with a sign, and the number that bits stand for.
unfoldable pub bits : ℕ → ℤ → ℕ
bits n (pos k) = k
bits n (negsuc k) = bound n - 1 - k

unfoldable pub signed : ℕ → ℕ → ℤ
signed n w = if ltb w (bound n / 2) then pos w else negsuc (bound n - 1 - w)

unfoldable pub drop : ℕ → Bytes → Bytes
drop zero bs = bs
drop (suc n) [] = []
drop (suc n) (b ∷ bs) = drop n bs

unfoldable pub take : ℕ → Bytes → Bytes
take zero bs = []
take (suc n) [] = []
take (suc n) (b ∷ bs) = b ∷ take n bs

module _ (o : ByteOrder) where
  -- The implementations for numbers without a sign, by their bytes.
  abbrev pub unsigned : ℕ → RosMsg ℕ
  unsigned n = record {
    encode = λ v. o.write n v;
    decode = do
      bs ← read_exact n
      pure (o.read bs);
  }

  abbrev pub integer : ℕ → RosMsg ℤ
  integer n = record {
    encode = λ z. o.write n (bits n z);
    decode = do
      w ← (unsigned n).decode
      pure (signed n w);
  }

  abbrev pub u8_msg : RosMsg ℕ
  u8_msg = unsigned 1

  abbrev pub u16_msg : RosMsg ℕ
  u16_msg = unsigned 2

  abbrev pub u32_msg : RosMsg ℕ
  u32_msg = unsigned 4

  abbrev pub u64_msg : RosMsg ℕ
  u64_msg = unsigned 8

  abbrev pub f32_msg : RosMsg ℕ
  f32_msg = unsigned 4

  abbrev pub f64_msg : RosMsg ℕ
  f64_msg = unsigned 8

  abbrev pub i8_msg : RosMsg ℤ
  i8_msg = integer 1

  abbrev pub i16_msg : RosMsg ℤ
  i16_msg = integer 2

  abbrev pub i32_msg : RosMsg ℤ
  i32_msg = integer 4

  abbrev pub i64_msg : RosMsg ℤ
  i64_msg = integer 8

  abbrev pub bool_msg : RosMsg Bool
  bool_msg = record {
    encode = λ b. u8_msg.encode (if b then 1 else 0);
    decode = do
      u ← u8_msg.decode
      pure (ltb 0 u);
  }

-- `encode_fixed_slice` and `decode_fixed_vec`.
unfoldable pub encode_fixed_slice : {A : Type 0} → RosMsg A → List A → Bytes
encode_fixed_slice m [] = []
encode_fixed_slice m (x ∷ xs) = m.encode x ++ encode_fixed_slice m xs

unfoldable pub decode_fixed_vec : {A : Type 0} → RosMsg A → ℕ → Reader (List A)
decode_fixed_vec m zero = pure []
decode_fixed_vec m (suc n) = do x ← m.decode; xs ← decode_fixed_vec m n; pure (x ∷ xs)

module _ (o : ByteOrder) where
  -- `data.len() as u32` keeps the low 32 bits.
  unfoldable pub encode_variable_slice : {A : Type 0} → RosMsg A → List A → Bytes
  unfolding encode_fixed_slice
  encode_variable_slice m xs = (u32_msg o).encode (length xs % bound 4) ++ encode_fixed_slice m xs

  unfoldable pub decode_variable_vec : {A : Type 0} → RosMsg A → Reader (List A)
  unfolding decode_fixed_vec
  decode_variable_vec m = do n ← (u32_msg o).decode; decode_fixed_vec m n

  -- `impl RosMsg for String`, with `encode_str`.
  unfoldable pub encode_str : Bytes → Bytes
  unfolding encode_variable_slice
  encode_str value = encode_variable_slice (u8_msg o) value

  unfoldable pub decode_str : Reader Bytes
  unfolding decode_variable_vec
  decode_str = do
    v ← decode_variable_vec (u8_msg o)
    λ left. if is_utf8 v then ok v left else err invalid_data left

  abbrev pub string_msg : RosMsg Bytes
  string_msg = record { encode = encode_str; decode = decode_str }

  abbrev pub time_msg : RosMsg Time
  time_msg = record {
    encode = λ t. (u32_msg o).encode t.sec ++ (u32_msg o).encode t.nsec;
    decode = do
      sec ← (u32_msg o).decode
      nsec ← (u32_msg o).decode
      pure (record { sec = sec; nsec = nsec });
  }

  abbrev pub duration_msg : RosMsg Duration
  duration_msg = record {
    encode = λ d. (i32_msg o).encode d.sec ++ (i32_msg o).encode d.nsec;
    decode = do
      sec ← (i32_msg o).decode
      nsec ← (i32_msg o).decode
      pure (record { sec = sec; nsec = nsec });
  }

  -- `RosMsg::encode_vec`: the length, as a `u32`, stands before the message; `decode_slice` skips it.
  unfoldable pub encode_vec : {A : Type 0} → RosMsg A → A → Bytes
  encode_vec m a = (u32_msg o).encode (length (m.encode a) % bound 4) ++ m.encode a

unfoldable pub decode_slice : {A : Type 0} → RosMsg A → Reader A
unfolding drop
decode_slice m bytes = m.decode (drop 4 bytes)
