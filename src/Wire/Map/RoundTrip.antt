-- ===== src/Wire/Map/RoundTrip.antt =====
-- A map that is written is read back, and the loop over the rows ends.
use rosrust.Prelude.{
  some, ℕ, zero, suc, ◌+◌, ◌%◌, ◌<◌, ◌≤◌, ◌≡◌, ◌≢◌, refl, ap, ◌∙◌, List, [], ◌∷◌, ◌++◌, arith,
  length, length-append, All, Option-cases, Bool-cases, if◌then◌else◌, inl, inr, append_assoc,
  Bytes,
}
use rosrust.Wire.Reader.{
  Reader, Read, Error, ok, err, pure, ◌>>=◌, unexpected_eof, invalid_data, bound, read_exact,
  is_utf8,
}
use rosrust.Wire.Reader.Laws.{Read-cases}
use rosrust.Wire.Codec.{
  ByteOrder, unsigned, u8_msg, u32_msg, encode_fixed_slice, encode_variable_slice, encode_str,
  decode_fixed_vec, decode_variable_vec, decode_str, drop, take,
}
use rosrust.Wire.Codec.Primitive.{unsigned-IsCodec, length-write}
use rosrust.Wire.Codec.RoundTrip.{IsText, string-IsCodec, drop-append, take-append}
use rosrust.Wire.Map.{
  Row, insert, item, split_item, data_size, encode_rows, encode, decode_rows, decode,
}
use rosrust.Wire.Map.Rows.{IsKey, split_item-item, Distinct, insert_all, insert_all-Distinct}

-- A reader that leaves at least so many bytes fewer than it is given when it reads.
abbrev Takes : {A : Type 0} → ℕ → Reader A → Type 0
Takes {A} n r =
    (input : Bytes) (a : A) (left : Bytes) → r input ≡ ok a left → n + length left ≤ length input

Takes-read_exact : (n : ℕ) → Takes n (read_exact n)
unfolding read_exact
Takes-read_exact zero input a left h = ground arith
Takes-read_exact (suc n) [] a left h = ground arith
Takes-read_exact (suc n) (b ∷ input) a rest h = elim (Read-cases (read_exact n input)) [
  | inl (bs, left, e) ↦ let size = Takes-read_exact n input bs left e in ground arith
  | inr (_, left, e) ↦ ground arith
]

err-ne-ok : {C : Type 0} {x : Error} {a : C} {s t : Bytes} → err x s ≢ ok a t
err-ne-ok h = cc

Takes->>= :
    {A B : Type 0} (m n : ℕ) (r : Reader A) (next : A → Reader B)
    → Takes m r
    → ((a : A) → Takes n (next a))
    → Takes (m + n) (r >>= next)
Takes->>= m n r next p q input b rest h = elim (Read-cases (r input)) [
  | inl (a, left, e) ↦
      let one = p input a left e in let two = q a left b rest (rw (◌>>=◌, e) at h) in omega arith
  | inr (_, left, e) ↦ absurd (err-ne-ok (rw (◌>>=◌, e) at h))
]

Takes-pure : {A : Type 0} (a : A) → Takes 0 (pure a)
Takes-pure x input a left h = ground arith

module _ (o : ByteOrder) where
  Takes-unsigned : (n : ℕ) → Takes n ((unsigned o n).decode)
  Takes-unsigned n input a left h =
      let less =
        Takes->>= n 0 (read_exact n) (λ bs. pure (o.read bs)) (Takes-read_exact n)
          (λ bs. Takes-pure (o.read bs)) input a left h in
      omega arith

  Takes-fixed : (n : ℕ) → Takes 0 (decode_fixed_vec (u8_msg o) n)
  unfolding decode_fixed_vec
  Takes-fixed zero input a left h = Takes-pure [] input a left h
  Takes-fixed (suc n) input a left h =
      let less =
        Takes->>= 1 0 (u8_msg o).decode _ (Takes-unsigned 1)
          (λ x.
            Takes->>= 0 0 (decode_fixed_vec (u8_msg o) n) (λ xs. pure (x ∷ xs)) (Takes-fixed n)
              (λ xs. Takes-pure (x ∷ xs)))
          input a left h in
      omega arith

  Takes-str : Takes 4 (decode_str o)
  unfolding decode_str decode_variable_vec
  Takes-str input a left h =
      Takes->>= 4 0 (decode_variable_vec o (u8_msg o))
        (λ v left. if is_utf8 v then ok v left else err invalid_data left)
        (Takes->>= 4 0 (u32_msg o).decode (decode_fixed_vec (u8_msg o)) (Takes-unsigned 4)
          Takes-fixed)
        Takes-check input a left h
    where
      Takes-check :
          (v : Bytes) → Takes 0 (λ left. if is_utf8 v then ok v left else err invalid_data left)
      Takes-check v input a left h = elim (Bool-cases (is_utf8 v)) [
        | inl e ↦ Takes-pure v input a left (rw e at h)
        | inr e ↦ absurd (err-ne-ok (rw e at h))
      ]

  -- Whatever the bytes, the loop ends within a fuel greater than their number.
  decode_rows_ends :
      (fuel : ℕ) (output : List Row) (limited : Bytes)
      → length limited < fuel
      → (r : Read (List Row)) × (decode_rows o fuel output limited ≡ some r)
  unfolding decode_rows
  decode_rows_ends zero output limited h = absurd (omega arith)
  decode_rows_ends (suc fuel) output limited h = elim (Read-cases (decode_str o limited)) [
    | inr (e, left, k) ↦ (ok output left, rw (decode_rows, k) refl)
    | inl (text, left, k) ↦ elim (Option-cases (split_item text)) [
      | inl e ↦ (err invalid_data left, rw (decode_rows, k, e) refl)
      | inr (r, e) ↦
          let less = Takes-str limited text left k in
          let rest = decode_rows_ends fuel (insert r output) left (omega arith) in
          (rest.0, rw (decode_rows, k, e) rest.1)
    ]
  ]

  -- Reading a map ends on every input: it gives a table or an error.
  pub decode_ends : (input : Bytes) → (r : Read (List Row)) × (decode o input ≡ some r)
  unfolding decode
  decode_ends input = elim (Read-cases ((u32_msg o).decode input)) [
    | inr (e, left, k) ↦ (err e left, rw (decode, k) refl)
    | inl (n, left, k) ↦
        let rest = decode_rows_ends (suc (length (take n left))) [] (take n left) (omega arith) in
        elim (Read-cases rest.0) [
          | inl (output, unread, e) ↦
              (ok output (unread ++ drop n left), rw (decode, k, rest.1, e) refl)
          | inr (x, unread, e) ↦ (err x (unread ++ drop n left), rw (decode, k, rest.1, e) refl)
        ]
  ]

  length-encode_fixed :
      (bs : Bytes) → All (λ b. b < 256) bs → length (encode_fixed_slice (u8_msg o) bs) ≡ length bs
  unfolding encode_fixed_slice
  length-encode_fixed [] h = refl
  length-encode_fixed (b ∷ bs) h =
      let one = length-write o 1 b h.0 in
      let more = length-append (o.write 1 b) (encode_fixed_slice (u8_msg o) bs) in
      let rest = length-encode_fixed bs h.1 in omega arith

  length-encode_str : (s : Bytes) → IsText s → length (encode_str o s) ≡ length s + 4
  unfolding encode_str encode_variable_slice
  length-encode_str s h =
      let small = h.2 in
      let head = length-write o 4 (length s % bound 4) (omega arith) in
      let more =
        length-append ((u32_msg o).encode (length s % bound 4)) (encode_fixed_slice (u8_msg o) s) in
      let rest = length-encode_fixed s h.1 in omega arith

  -- A row whose item is a text, and whose key has no sign that ends it.
  abbrev pub IsRow : Row → Type 0
  IsRow r = IsKey r.key × IsText (item r)

  length-encode_rows :
      (rows : List Row) → All IsRow rows → length (encode_rows o rows) ≡ data_size rows
  unfolding encode_rows data_size
  length-encode_rows [] h = refl
  length-encode_rows (r ∷ rows) h =
      let one = length-encode_str (item r) h.0.1 in
      let more = length-append (encode_str o (item r)) (encode_rows o rows) in
      let rest = length-encode_rows rows h.1 in omega arith

  decode_str_nil : decode_str o [] ≡ err unexpected_eof []
  unfolding decode_str decode_variable_vec read_exact
  decode_str_nil = refl

  decode_rows-encode_rows :
      (fuel : ℕ) (output rows : List Row)
      → length rows < fuel
      → All IsRow rows
      → decode_rows o fuel output (encode_rows o rows) ≡ some (ok (insert_all output rows) [])
  unfolding decode_rows encode_rows insert_all
  decode_rows-encode_rows zero output rows small h = absurd (omega arith)
  decode_rows-encode_rows (suc fuel) output [] small h = rw (decode_rows, decode_str_nil) refl
  decode_rows-encode_rows (suc fuel) output (r ∷ rows) small h =
      let text = (string-IsCodec o).reads_back (item r) (encode_rows o rows) h.0.1 in
      rw (decode_rows, text, split_item-item r.key r.value h.0.0)
        (decode_rows-encode_rows fuel (insert r output) rows (omega arith) h.1)

  length-rows : (rows : List Row) → length rows ≤ data_size rows
  unfolding data_size
  length-rows [] = omega arith
  length-rows (r ∷ rows) = omega (arith, length-rows rows)

  -- A table with distinct keys.
  pub decode-encode :
      (rows : List Row) (rest : Bytes)
      → All IsRow rows
      → Distinct rows
      → data_size rows < bound 4
      → decode o (encode o rows ++ rest) ≡ some (ok rows rest)
  unfolding decode encode
  decode-encode rows rest h d small =
      let size : data_size rows % bound 4 ≡ data_size rows = omega (arith, small) in
      let bytes = encode_rows o rows in
      let same = length-encode_rows rows h in
      let head : (u32_msg o).decode (encode o rows ++ rest) ≡ ok (data_size rows) (bytes ++ rest) =
        ap (u32_msg o).decode
          (append_assoc ((u32_msg o).encode (data_size rows % bound 4)) bytes rest)
        ∙ ((unsigned-IsCodec o 4).reads_back _ (bytes ++ rest) (omega (arith, small))
            ∙ ap (λ n. ok n (bytes ++ rest)) size) in
      let few = length-rows rows in
      let loop = decode_rows-encode_rows (suc (length bytes)) [] rows (omega arith) h in
      rw
        (
          decode,
          head,
          take-append (data_size rows) bytes rest same,
          drop-append (data_size rows) bytes rest same,
          loop,
          insert_all-Distinct rows d,
        )
        refl
