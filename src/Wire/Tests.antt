-- ===== src/Wire/Tests.antt =====
-- Runs of the theorems on the wire format.
use rosrust.Prelude.{◌≡◌, refl, true, List, [], ◌∷◌, ◌++◌, some, codes, length, arith}
use rosrust.Wire.Reader.{Read, ok, le_bytes}
use rosrust.Wire.Codec.{
  string_msg, u32_msg, encode_vec, decode_slice, encode_variable_slice, encode_str,
  encode_fixed_slice,
}
use rosrust.Wire.Codec.RoundTrip.{string-IsCodec, decode_slice-encode_vec}
use rosrust.Wire.Map.{Row, encode, decode, data_size}
use rosrust.Wire.Map.RoundTrip.{decode-encode, decode_ends}
use rosrust.Wire.Sample.{little, is_text, is_text-true, are_rows, are_rows-true}

abbrev rows : List Row
rows =
    record { key = codes "topic"; value = codes "/chatter" }
    ∷ record { key = codes "type"; value = codes "a=b" }
    ∷ []

rows_pass : are_rows rows ≡ true
unfolding are_rows
rows_pass = refl

rows_small : data_size rows ≡ 30
unfolding data_size
rows_small = refl

decode-encode_example : decode little (encode little rows ++ (7 ∷ [])) ≡ some (ok rows (7 ∷ []))
decode-encode_example =
    decode-encode little rows (7 ∷ []) (are_rows-true rows rows_pass).0
      (are_rows-true rows rows_pass).1 (omega (arith, rows_small))

decode_ends_example : (r : Read (List Row)) × (decode little (9 ∷ 0 ∷ 0 ∷ 0 ∷ 1 ∷ []) ≡ some r)
decode_ends_example = decode_ends little (9 ∷ 0 ∷ 0 ∷ 0 ∷ 1 ∷ [])

hello_text : is_text (codes "hello") ≡ true
unfolding is_text
hello_text = refl

hello_length : length ((string_msg little).encode (codes "hello")) ≡ 9
unfolding encode_str encode_variable_slice encode_fixed_slice le_bytes
hello_length = refl

decode_slice-encode_vec_example :
    (decode_slice (string_msg little) (encode_vec little (string_msg little) (codes "hello"))
      ≡ ok (codes "hello") [])
    × ((u32_msg little).decode (encode_vec little (string_msg little) (codes "hello"))
        ≡ ok
            (length ((string_msg little).encode (codes "hello")))
            ((string_msg little).encode (codes "hello")))
decode_slice-encode_vec_example =
    decode_slice-encode_vec little (string_msg little) (codes "hello") (string-IsCodec little)
      (is_text-true (codes "hello") hello_text) (omega (arith, hello_length))
