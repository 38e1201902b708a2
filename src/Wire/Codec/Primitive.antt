-- ===== src/Wire/Codec/Primitive.antt =====
-- Numbers and truth values are read back.
use rosrust.Prelude.{
  ℕ, suc, ◌*◌, ◌<◌, ◌≡◌, ap, ◌∙◌, Bool, false, true, ◌++◌, arith, length, ltb, append_assoc, Bytes,
}
use rosrust.Prelude.Int.{ℤ, pos, negsuc}
use rosrust.Wire.Reader.{◌>>=◌, pure, ok, read_exact, bound, from_le}
use rosrust.Wire.Reader.Laws.{>>=_ok, read_exact-append, length-le_bytes, from_le-le_bytes}
use rosrust.Wire.Codec.{
  ByteOrder, RosMsg, IsCodec, bits, signed, unsigned, integer, bool_msg, u32_msg, i32_msg, time_msg,
  duration_msg,
}

-- Half of the numbers of so many bytes and one more, at a numeral.
abbrev pub half : ℕ → ℕ
half n = 128 * bound n

-- The numbers of a type of so many bytes with a sign, less one byte.
abbrev pub FitsSigned : ℕ → ℤ → Type 0
FitsSigned n (pos k) = k < half n
FitsSigned n (negsuc k) = k < half n

bits-lt : (n : ℕ) (z : ℤ) → FitsSigned n z → bits (suc n) z < bound (suc n)
unfolding bits
bits-lt n (pos k) h = omega arith
bits-lt n (negsuc k) h = omega arith

signed-bits : (n : ℕ) (z : ℤ) → FitsSigned n z → signed (suc n) (bits (suc n) z) ≡ z
unfolding bits signed
signed-bits n (pos k) h = ground arith
signed-bits n (negsuc k) h = ground arith

module _ (o : ByteOrder) where
  pub length-write : (n v : ℕ) → v < bound n → length (o.write n v) ≡ n
  length-write n v h = rw (o.write_le n v h) (length-le_bytes n v)

  read-write : (n v : ℕ) → v < bound n → o.read (o.write n v) ≡ v
  read-write n v h =
      o.read_le (o.write n v) ∙ (ap from_le (o.write_le n v h) ∙ from_le-le_bytes n v h)

  pub unsigned-IsCodec : (n : ℕ) → IsCodec (unsigned o n) (λ v. v < bound n)
  unsigned-IsCodec n = record {
    reads_back = λ v rest h.
        >>=_ok (read_exact n) (λ bs. pure (o.read bs)) (o.write n v ++ rest)
          (read_exact-append n (o.write n v) rest (length-write n v h))
        ∙ ap (λ w. ok w rest) (read-write n v h);
  }

  pub integer-IsCodec : (n : ℕ) → IsCodec (integer o (suc n)) (FitsSigned n)
  integer-IsCodec n = record {
    reads_back = λ z rest h.
        >>=_ok (unsigned o (suc n)).decode (λ w. pure (signed (suc n) w))
          (o.write (suc n) (bits (suc n) z) ++ rest)
          ((unsigned-IsCodec (suc n)).reads_back (bits (suc n) z) rest (bits-lt n z h))
        ∙ ap (λ w. ok w rest) (signed-bits n z h);
  }

  pub bool-IsCodec : IsCodec (bool_msg o) (λ _. Unit {0})
  bool-IsCodec = record { reads_back = λ b rest _. reads b rest }
    where
      reads :
          (b : Bool) (rest : Bytes)
          → (bool_msg o).decode ((bool_msg o).encode b ++ rest) ≡ ok b rest
      reads true rest =
          >>=_ok (unsigned o 1).decode (λ u. pure (ltb 0 u)) (o.write 1 1 ++ rest)
            ((unsigned-IsCodec 1).reads_back 1 rest (omega arith))
      reads false rest =
          >>=_ok (unsigned o 1).decode (λ u. pure (ltb 0 u)) (o.write 1 0 ++ rest)
            ((unsigned-IsCodec 1).reads_back 0 rest (omega arith))

  -- Two message types one after the other, as the fields of a record are.
  pair_reads :
      {A B C : Type 0} (m : RosMsg A) (n : RosMsg B) (make : A → B → C) {P : A → Type 0}
      {Q : B → Type 0}
      → IsCodec m P
      → IsCodec n Q
      → (a : A) (b : B) (rest : Bytes) → P a
      → Q b
      → (m.decode >>= λ x. n.decode >>= λ y. pure (make x y)) ((m.encode a ++ n.encode b) ++ rest)
        ≡ ok (make a b) rest
  pair_reads m n make hm hn a b rest p q =
      ap (m.decode >>= λ x. n.decode >>= λ y. pure (make x y))
        (append_assoc (m.encode a) (n.encode b) rest)
      ∙ (>>=_ok m.decode (λ x. n.decode >>= λ y. pure (make x y)) _
            (hm.reads_back a (n.encode b ++ rest) p)
          ∙ >>=_ok n.decode (λ y. pure (make a y)) _ (hn.reads_back b rest q))

  pub time-IsCodec : IsCodec (time_msg o) (λ t. (t.sec < bound 4) × (t.nsec < bound 4))
  time-IsCodec = record {
    reads_back = λ t rest h.
        pair_reads (u32_msg o) (u32_msg o) (λ s n. record { sec = s; nsec = n })
          (unsigned-IsCodec 4) (unsigned-IsCodec 4) t.sec t.nsec rest h.0 h.1;
  }

  pub duration-IsCodec : IsCodec (duration_msg o) (λ d. FitsSigned 3 d.sec × FitsSigned 3 d.nsec)
  duration-IsCodec = record {
    reads_back = λ d rest h.
        pair_reads (i32_msg o) (i32_msg o) (λ s n. record { sec = s; nsec = n }) (integer-IsCodec 3)
          (integer-IsCodec 3) d.sec d.nsec rest h.0 h.1;
  }
