-- ===== src/Tcpros/Service.antt =====
-- A service call: the headers and the bytes that rosrust/src/tcpros/client.rs and service.rs
-- exchange. What the client sends is in place before the service reads, and the other way round.
use rosrust.Prelude.{
  Option, none, some, ℕ, Bool, true, false, List, [], ◌∷◌, ◌++◌, if◌then◌else◌, ltb, codes, Bytes,
}
use rosrust.Wire.Reader.{Read, Reader, ok, err, ◌>>=◌, pure, read_exact}
use rosrust.Wire.Codec.{
  ByteOrder, RosMsg, u8_msg, u32_msg, bool_msg, encode_vec, encode_str, string_msg,
}
use rosrust.Wire.Map.{Row, HeaderError, get, encode, match_field}
use rosrust.Tcpros.Header.{
  Failure, io, header, service_response_interruption, Answer, accepted, refused, Message, after,
  require, read_header,
}
use rosrust.Tcpros.Topic.{row}
pub mod Call

pub data RequestType : Type 0 where
  probe action : RequestType

-- `ServiceResult`: a response, or the service's message.
pub data ServiceResult (A : Type 0) : Type 0 where
  response : A → ServiceResult A
  failure : Bytes → ServiceResult A

abbrev pub client_fields : Message → Bytes → Bytes → List Row
client_fields t caller_id service =
    row (codes "callerid") caller_id
    ∷ row (codes "service") service
    ∷ row (codes "md5sum") t.md5sum
    ∷ row (codes "type") t.msg_type
    ∷ []

abbrev pub service_fields : Message → Bytes → List Row
service_fields t node_name =
    row (codes "callerid") node_name
    ∷ row (codes "md5sum") t.md5sum
    ∷ row (codes "type") t.msg_type
    ∷ []

abbrev pub failed_to_parse : Bytes
failed_to_parse = codes "Failed to parse passed arguments"

module _ (o : ByteOrder) where
  -- `write_request` and `read_response` of client.rs.
  unfoldable pub write_request : Message → Bytes → Bytes → Bytes
  write_request t caller_id service = encode o (client_fields t caller_id service)

  unfoldable pub read_response : Bytes → Answer Bytes
  read_response stream = elim (read_header o stream) [
    | err e _ ↦ refused (io e)
    | ok fields left ↦ require (codes "callerid") fields left
  ]

  -- `read_request` and `write_response` of service.rs.
  unfoldable pub read_request : Message → Bytes → Bytes → Answer RequestType
  read_request t service stream = elim (read_header o stream) [
    | err e _ ↦ refused (io e)
    | ok fields left ↦
        after (match_field fields (codes "service") service)
          (elim (require (codes "callerid") fields left) [
            | refused e ↦ refused e
            | accepted _ _ ↦ elim (match_field fields (codes "probe") (codes "1")) [
              | none ↦ accepted probe left
              | some _ ↦ after (match_field fields (codes "md5sum") t.md5sum) (accepted action left)
            ]
          ])
  ]

  unfoldable pub write_response : Message → Bytes → Bytes
  write_response t node_name = encode o (service_fields t node_name)

  -- `exchange_headers` of service.rs: the answer for the service, and what it sends.
  unfoldable pub service_exchange : Message → Bytes → Bytes → Bytes → Answer RequestType × Bytes
  unfolding read_request write_response
  service_exchange t service node_name stream = elim (read_request t service stream) [
    | accepted kind left ↦ (accepted kind left, write_response t node_name)
    | refused e ↦ (refused e, [])
  ]

  -- A read whose result is not used, and whose failure is not an error.
  abbrev pub skip_length : Bytes → Bytes
  skip_length stream = elim ((u32_msg o).decode stream) [ ok _ left ↦ left | err _ left ↦ left ]

  -- The answer to one request in `handle_request_loop`.
  abbrev pub reply : {Q R : Type 0} → RosMsg Q → RosMsg R → (Q → ServiceResult R) → Bytes → Bytes
  reply q r handler stream = elim (q.decode stream) [
    | err _ _ ↦ []
    | ok req _ ↦ elim (handler req) [
      | response res ↦ (u8_msg o).encode 1 ++ encode_vec o r res
      | failure message ↦ (u8_msg o).encode 0 ++ encode_str o message
    ]
  ]

  -- `handle_request_loop` of service.rs, as what it sends.
  unfoldable pub handle_request_loop :
      {Q R : Type 0} → RosMsg Q → RosMsg R → (Q → ServiceResult R) → Bytes → Bytes
  handle_request_loop q r handler stream =
      reply q r handler (skip_length stream)
      ++ ((u8_msg o).encode 0 ++ encode_str o failed_to_parse)

  -- `read_verification_byte` of client.rs.
  unfoldable pub read_verification_byte : Reader Bool
  read_verification_byte = do v ← (u8_msg o).decode; pure (ltb 0 v)

  abbrev pub to_answer : {A B : Type 0} → (A → B) → Read A → Answer B
  to_answer f (ok a left) = accepted (f a) left
  to_answer f (err e left) = refused (io e)

  -- `request_body` of client.rs: what it sends after the headers, and what it makes of the answer.
  -- It reads on to the end of the stream before it returns.
  unfoldable pub request_body : {Q : Type 0} → RosMsg Q → Q → Bytes
  unfolding encode_vec
  request_body q args = encode_vec o q args

  unfoldable pub response_body : {R : Type 0} → RosMsg R → Bytes → Answer (ServiceResult R)
  unfolding read_verification_byte
  response_body r stream = elim (read_verification_byte stream) [
    | err _ _ ↦ refused service_response_interruption
    | ok success left ↦
        if success
        then to_answer response (r.decode (skip_length left))
        else to_answer failure ((string_msg o).decode left)
  ]
