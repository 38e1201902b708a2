-- ===== src/Tcpros/Service/Call.antt =====
-- A call of a service gives the client what the handler gives.
use rosrust.Prelude.{
  ℕ, ◌%◌, ◌<◌, ◌≡◌, refl, sym, ap, ◌∙◌, [], ◌++◌, arith, length, ltb, append_assoc, append-nil,
  Bytes,
}
use rosrust.Wire.Reader.{ok, pure, bound}
use rosrust.Wire.Reader.Laws.{>>=_ok}
use rosrust.Wire.Codec.{ByteOrder, RosMsg, IsCodec, u8_msg, u32_msg, encode_vec, encode_str}
use rosrust.Wire.Codec.Primitive.{unsigned-IsCodec}
use rosrust.Wire.Codec.RoundTrip.{IsText, string-IsCodec}
use rosrust.Tcpros.Header.{accepted}
use rosrust.Tcpros.Service.{
  ServiceResult, response, failure, failed_to_parse, skip_length, reply, handle_request_loop,
  read_verification_byte, request_body, response_body,
}

module _ (o : ByteOrder) {Q R : Type 0} (q : RosMsg Q) (r : RosMsg R) where
  -- A result that the wire can carry.
  abbrev pub Sendable : (R → Type 0) → ServiceResult R → Type 0
  Sendable Fits (response res) = Fits res × (length (r.encode res) < bound 4)
  Sendable Fits (failure message) = IsText message

  skip_length-encode_vec :
      {A : Type 0} (m : RosMsg A) (a : A) (rest : Bytes)
      → skip_length o (encode_vec o m a ++ rest) ≡ m.encode a ++ rest
  unfolding encode_vec
  skip_length-encode_vec m a rest =
      let n = length (m.encode a) % bound 4 in
      let head : (u32_msg o).decode (((u32_msg o).encode n ++ m.encode a) ++ rest)
          ≡ ok n (m.encode a ++ rest) =
        ap (u32_msg o).decode (append_assoc ((u32_msg o).encode n) (m.encode a) rest)
        ∙ (unsigned-IsCodec o 4).reads_back n (m.encode a ++ rest) (omega arith) in
      rw (skip_length, head) refl

  verified :
      (b : ℕ) (rest : Bytes)
      → b < 256
      → read_verification_byte o ((u8_msg o).encode b ++ rest) ≡ ok (ltb 0 b) rest
  unfolding read_verification_byte
  verified b rest h =
      >>=_ok (u8_msg o).decode (λ v. pure (ltb 0 v)) ((u8_msg o).encode b ++ rest)
        ((unsigned-IsCodec o 1).reads_back b rest h)

  reads_reply :
      {Fits : R → Type 0} (result : ServiceResult R) (args : Q) (left later : Bytes)
      (handler : Q → ServiceResult R) (stream : Bytes)
      → IsCodec r Fits
      → q.decode stream ≡ ok args left
      → handler args ≡ result
      → Sendable Fits result
      → (unread : Bytes) × (response_body o r (reply o q r handler stream ++ later)
          ≡ accepted result unread)
  unfolding response_body
  reads_reply (response res) args left later handler stream c d e h =
      let sent : reply o q r handler stream ++ later
          ≡ (u8_msg o).encode 1 ++ (encode_vec o r res ++ later) =
        rw (reply, d, e) (append_assoc ((u8_msg o).encode 1) (encode_vec o r res) later) in
      (
        later,
        rw
            (
              sent,
              response_body,
              verified 1 (encode_vec o r res ++ later) (omega arith),
              skip_length-encode_vec r res later,
              c.reads_back res later h.0,
            )
            refl,
      )
  reads_reply (failure message) args left later handler stream c d e h =
      let sent : reply o q r handler stream ++ later
          ≡ (u8_msg o).encode 0 ++ (encode_str o message ++ later) =
        rw (reply, d, e) (append_assoc ((u8_msg o).encode 0) (encode_str o message) later) in
      (
        later,
        rw
            (
              sent,
              response_body,
              verified 0 (encode_str o message ++ later) (omega arith),
              (string-IsCodec o).reads_back message later h,
            )
            refl,
      )

  -- A client that calls a service whose handler's result the wire can carry is given that result: the
  -- response, or the message of the failure.
  pub response_body-handle_request_loop :
      {FitsQ : Q → Type 0} {FitsR : R → Type 0} (handler : Q → ServiceResult R) (args : Q)
      → IsCodec q FitsQ
      → IsCodec r FitsR
      → FitsQ args
      → Sendable FitsR (handler args)
      → (unread : Bytes) × (response_body o r
            (handle_request_loop o q r handler (request_body o q args))
          ≡ accepted (handler args) unread)
  unfolding handle_request_loop request_body
  response_body-handle_request_loop handler args cq cr h k =
      let whole : skip_length o (encode_vec o q args) ≡ q.encode args =
        ap (skip_length o) (sym (append-nil (encode_vec o q args)))
        ∙ (skip_length-encode_vec q args [] ∙ append-nil (q.encode args)) in
      let read : q.decode (q.encode args) ≡ ok args [] =
        ap q.decode (sym (append-nil (q.encode args))) ∙ cq.reads_back args [] h in
      rw whole (
        reads_reply (handler args) args [] ((u8_msg o).encode 0 ++ encode_str o failed_to_parse)
          handler (q.encode args) cr read refl k)
