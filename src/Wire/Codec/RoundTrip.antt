-- ===== src/Wire/Codec/RoundTrip.antt =====
-- Slices, texts and whole messages are read back.
use rosrust.Prelude.{
  ℕ, zero, suc, ◌%◌, ◌<◌, ◌≡◌, refl, ap, sym, ◌∙◌, true, List, [], ◌∷◌, ◌++◌, arith, if◌then◌else◌,
  length, append_assoc, append-nil, All, Bytes,
}
use rosrust.Wire.Reader.{Reader, ◌>>=◌, pure, ok, err, invalid_data, bound, is_utf8}
use rosrust.Wire.Reader.Laws.{>>=_ok}
use rosrust.Wire.Codec.{
  ByteOrder, RosMsg, IsCodec, u8_msg, u32_msg, encode_fixed_slice, decode_fixed_vec,
  encode_variable_slice, decode_variable_vec, encode_str, decode_str, string_msg, encode_vec,
  decode_slice, drop, take,
}
use rosrust.Wire.Codec.Primitive.{unsigned-IsCodec, length-write}

fixed_reads :
    {A : Type 0} (m : RosMsg A) {Fits : A → Type 0}
    → IsCodec m Fits
    → (xs : List A) (rest : Bytes) → All Fits xs
    → decode_fixed_vec m (length xs) (encode_fixed_slice m xs ++ rest) ≡ ok xs rest
unfolding encode_fixed_slice decode_fixed_vec
fixed_reads m c [] rest h = refl
fixed_reads {A} m c (x ∷ xs) rest h =
    let next : A → Reader (List A) = λ y. decode_fixed_vec m (length xs) >>= λ ys. pure (y ∷ ys) in
    ap (m.decode >>= next) (append_assoc (m.encode x) (encode_fixed_slice m xs) rest)
    ∙ (>>=_ok m.decode next _ (c.reads_back x (encode_fixed_slice m xs ++ rest) h.0)
        ∙ >>=_ok (decode_fixed_vec m (length xs)) (λ ys. pure (x ∷ ys)) _
            (fixed_reads m c xs rest h.1))

pub take-append : (n : ℕ) (xs ys : Bytes) → length xs ≡ n → take n (xs ++ ys) ≡ xs
unfolding take
take-append zero [] ys h = refl
take-append zero (x ∷ xs) ys h = ground arith
take-append (suc n) [] ys h = ground arith
take-append (suc n) (x ∷ xs) ys h = ap (◌∷◌ x) (take-append n xs ys (omega arith))

pub drop-append : (n : ℕ) (xs ys : Bytes) → length xs ≡ n → drop n (xs ++ ys) ≡ ys
unfolding drop
drop-append zero [] ys h = refl
drop-append zero (x ∷ xs) ys h = ground arith
drop-append (suc n) [] ys h = ground arith
drop-append (suc n) (x ∷ xs) ys h = drop-append n xs ys (omega arith)

-- What Rust's `String` holds, with a length that the wire can carry.
abbrev pub IsText : Bytes → Type 0
IsText s = (is_utf8 s ≡ true) × All (λ b. b < 256) s × (length s < bound 4)

module _ (o : ByteOrder) where
  -- A slice whose items fit, with fewer than 2 ^ 32 of them, is read back as a vector.
  pub variable-IsCodec :
      {A : Type 0} (m : RosMsg A) {Fits : A → Type 0}
      → IsCodec m Fits
      → IsCodec
          (record { encode = encode_variable_slice o m; decode = decode_variable_vec o m })
          (λ xs. All Fits xs × (length xs < bound 4))
  unfolding encode_variable_slice decode_variable_vec
  variable-IsCodec m c = record {
    reads_back = λ xs rest h.
        let size : length xs % bound 4 ≡ length xs = omega (arith, h.1) in
        let head = (u32_msg o).encode (length xs % bound 4) in
        ap ((u32_msg o).decode >>= decode_fixed_vec m)
          (append_assoc head (encode_fixed_slice m xs) rest)
        ∙ (>>=_ok (u32_msg o).decode (decode_fixed_vec m)
              (head ++ (encode_fixed_slice m xs ++ rest))
              ((unsigned-IsCodec o 4).reads_back (length xs % bound 4)
                (encode_fixed_slice m xs ++ rest) (omega (arith, h.1)))
            ∙ (ap (λ n. decode_fixed_vec m n (encode_fixed_slice m xs ++ rest)) size
                ∙ fixed_reads m c xs rest h.0));
  }

  pub string-IsCodec : IsCodec (string_msg o) IsText
  unfolding encode_str decode_str
  string-IsCodec = record {
    reads_back = λ s rest h.
        let check : Bytes → Reader Bytes =
          λ v left. if is_utf8 v then ok v left else err invalid_data left in
        >>=_ok (decode_variable_vec o (u8_msg o)) check _
          ((variable-IsCodec (u8_msg o) (unsigned-IsCodec o 1)).reads_back s rest (h.1, h.2))
        ∙ rw (h.0) refl;
  }

  -- A message with its length before it is read back by `decode_slice`, which skips the length; the
  -- length is that of the message.
  pub decode_slice-encode_vec :
      {A : Type 0} (m : RosMsg A) {Fits : A → Type 0} (a : A)
      → IsCodec m Fits
      → Fits a
      → length (m.encode a) < bound 4
      → (decode_slice m (encode_vec o m a) ≡ ok a [])
        × ((u32_msg o).decode (encode_vec o m a) ≡ ok (length (m.encode a)) (m.encode a))
  unfolding decode_slice encode_vec
  decode_slice-encode_vec m a c h small =
      let size : length (m.encode a) % bound 4 ≡ length (m.encode a) = omega (arith, small) in
      let head = (u32_msg o).encode (length (m.encode a) % bound 4) in
      (
        ap m.decode (
              drop-append 4 head (m.encode a) (length-write o 4 _ (omega (arith, small)))
              ∙ sym (append-nil (m.encode a)))
            ∙ c.reads_back a [] h,
        (unsigned-IsCodec o 4).reads_back _ (m.encode a) (omega (arith, small))
            ∙ ap (λ n. ok n (m.encode a)) size,
      )
