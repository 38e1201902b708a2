-- ===== src/Tcpros/Header.antt =====
-- Headers as the ends of a connection read them, with the errors of rosrust/src/tcpros/error.rs.
use rosrust.Prelude.{Option, none, some, List, [], ◌++◌, ◌≡◌, refl, ◌<◌, All, Bytes}
use rosrust.Wire.Reader.{Error, unexpected_eof, Read, ok, err, bound}
use rosrust.Wire.Codec.{ByteOrder}
use rosrust.Wire.Map.{Row, HeaderError, data_size, encode, decode, header_missing_field, get}
use rosrust.Wire.Map.Rows.{Distinct}
use rosrust.Wire.Map.RoundTrip.{IsRow, decode-encode}

pub data Failure : Type 0 where
  io : Error → Failure
  header : HeaderError → Failure
  service_response_interruption : Failure

pub data Answer {ℓ} (A : Type ℓ) : Type ℓ where
  accepted : A → Bytes → Answer A
  refused : Failure → Answer A

-- What a message type gives: its definition, and the names by which the two ends know it.
pub record Message : Type 0 where
  pub msg_definition : Bytes
  pub md5sum : Bytes
  pub msg_type : Bytes

-- The `?` after a check.
infixl 5 ◌also◌
abbrev pub ◌also◌ : Option HeaderError → Option HeaderError → Option HeaderError
none also second = second
some e also second = some e

-- The `?` of a check before the rest of a function.
abbrev pub after {ℓ} : {A : Type ℓ} → Option HeaderError → Answer A → Answer A
after none rest = rest
after (some e) rest = refused (header e)

-- `fields.get("callerid")`, which must be there.
abbrev pub require : Bytes → List Row → Bytes → Answer Bytes
require field fields left = elim (get field fields) [
  | none ↦ refused (header (header_missing_field field))
  | some value ↦ accepted value left
]

module _ (o : ByteOrder) where
  -- `header::decode`; its loop has fuel for every input, so the first case is none.
  unfoldable pub read_header : Bytes → Read (List Row)
  read_header input = elim (decode o input) [ none ↦ err unexpected_eof [] | some r ↦ r ]

  -- A table that the wire can carry.
  abbrev pub IsHeader : List Row → Type 0
  IsHeader rows = All (IsRow o) rows × Distinct rows × (data_size rows < bound 4)

  pub read_header-encode :
      (rows : List Row) (rest : Bytes)
      → IsHeader rows
      → read_header (encode o rows ++ rest) ≡ ok rows rest
  unfolding read_header encode
  read_header-encode rows rest h = rw (read_header, decode-encode o rows rest h.0 h.1 h.2) refl
