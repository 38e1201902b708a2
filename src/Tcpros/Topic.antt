-- ===== src/Tcpros/Topic.antt =====
-- The connection of a subscriber with a publisher: the headers that
-- rosrust/src/tcpros/publisher.rs and subscriber.rs exchange, and the messages that follow. The
-- tables are given in the order of their insertion.
use rosrust.Queue.{LossySender, try_send}
use rosrust.Prelude.{
  if◌then◌else◌, Bool, true, false, Option, none, some, ℕ, zero, suc, ◌+◌, ◌%◌, List, [], ◌∷◌, ◌++◌,
  codes, Bytes,
}
use rosrust.Wire.Reader.{Read, Reader, ok, err, ◌>>=◌, pure, read_exact}
use rosrust.Wire.Codec.{ByteOrder, RosMsg, u32_msg, encode_vec, decode_slice}
use rosrust.Wire.Map.{Row, HeaderError, get, encode, match_field}
use rosrust.Tcpros.Header.{
  Failure, io, header, Answer, accepted, refused, Message, ◌also◌, after, require, read_header,
}
pub mod Handshake
pub mod Stream
pub mod Latching

abbrev pub row : Bytes → Bytes → Row
row k v = record { key = k; value = v }

-- `match_concrete_headers` and `match_wildcard_headers` of publisher.rs.
unfoldable pub match_concrete_headers : Message → List Row → Bytes → Option HeaderError
match_concrete_headers t fields topic =
    match_field fields (codes "md5sum") t.md5sum
    also match_field fields (codes "type") t.msg_type
    also match_field fields (codes "topic") topic

unfoldable pub match_wildcard_headers : List Row → Bytes → Option HeaderError
match_wildcard_headers fields topic =
    match_field fields (codes "md5sum") (codes "*")
    also match_field fields (codes "type") (codes "*")
    also match_field fields (codes "topic") topic

-- The error is that of the first match.
abbrev pub either_match : Option HeaderError → Option HeaderError → Option HeaderError
either_match none wildcard = none
either_match (some e) none = none
either_match (some e) (some _) = some e

-- The fields of `write_request` of subscriber.rs and of `write_response` of publisher.rs.
abbrev pub request_fields : Message → Bytes → Bytes → List Row
request_fields t caller_id topic =
    row (codes "message_definition") t.msg_definition
    ∷ row (codes "callerid") caller_id
    ∷ row (codes "topic") topic
    ∷ row (codes "md5sum") t.md5sum
    ∷ row (codes "type") t.msg_type
    ∷ []

abbrev pub response_fields : Message → Bytes → List Row
response_fields t caller_id =
    row (codes "md5sum") t.md5sum
    ∷ row (codes "type") t.msg_type
    ∷ row (codes "callerid") caller_id
    ∷ []

-- `PublisherStream`: its queue, and the message that the streams of the publisher share.
pub record PublisherStream : Type 0 where
  pub stream : LossySender Bytes
  pub last_message : Bytes
  pub latching : Bool

module _ (o : ByteOrder) where
  unfoldable pub write_request : Message → Bytes → Bytes → Bytes
  write_request t caller_id topic = encode o (request_fields t caller_id topic)

  unfoldable pub write_response : Message → Bytes → Bytes
  write_response t caller_id = encode o (response_fields t caller_id)

  unfoldable pub read_request : Message → Bytes → Bytes → Answer Bytes
  unfolding match_concrete_headers match_wildcard_headers
  read_request t topic stream = elim (read_header o stream) [
    | err e _ ↦ refused (io e)
    | ok fields left ↦
        after
          (either_match (match_concrete_headers t fields topic)
            (match_wildcard_headers fields topic))
          (require (codes "callerid") fields left)
  ]

  -- `exchange_headers` of publisher.rs: the answer for the publisher, and what it sends.
  unfoldable pub publisher_exchange : Message → Bytes → Bytes → Bytes → Answer Bytes × Bytes
  unfolding read_request write_response
  publisher_exchange t topic pub_caller_id stream = elim (read_request t topic stream) [
    | accepted caller_id left ↦ (accepted caller_id left, write_response t pub_caller_id)
    | refused e ↦ (refused e, [])
  ]

  -- `read_response` of subscriber.rs: the caller id, when the publisher names it.
  unfoldable pub read_response : Message → Bytes → Answer (Option Bytes)
  read_response t stream = elim (read_header o stream) [
    | err e _ ↦ refused (io e)
    | ok fields left ↦
        after
          (match_field fields (codes "md5sum") t.md5sum
            also match_field fields (codes "type") t.msg_type)
          (accepted (get (codes "callerid") fields) left)
  ]

  -- `package_to_vector` of subscriber.rs: a message with its length before it.
  unfoldable pub package_to_vector : Reader Bytes
  package_to_vector = do
    length ← (u32_msg o).decode
    body ← read_exact length
    pure ((u32_msg o).encode length ++ body)

  -- The loop of `join_connection`, which puts packages in the queue of the subscriber until one is not
  -- read or not taken. A connection that is closed ends with the bytes that are left; none is that the
  -- fuel is used up. The caller id that goes with each package is left out.
  unfoldable pub join_connection : ℕ → Bytes → LossySender Bytes → Option (LossySender Bytes)
  unfolding package_to_vector try_send
  join_connection zero stream target = none
  join_connection (suc fuel) stream target = elim (package_to_vector stream) [
    | err _ _ ↦ some target
    | ok buffer left ↦ elim ((try_send buffer target).0) [
      | false ↦ some (try_send buffer target).1
      | true ↦ join_connection fuel left (try_send buffer target).1
    ]
  ]

  -- `PublisherStream::send`, and one send after the other.
  unfoldable pub send : {A : Type 0} → RosMsg A → A → PublisherStream → PublisherStream
  unfolding encode_vec try_send
  send m message s =
      let bytes = encode_vec o m message in
      record s {
        stream = (try_send bytes s.stream).1;
        last_message = if s.latching then bytes else s.last_message;
      }

  unfoldable pub send_all : {A : Type 0} → RosMsg A → List A → PublisherStream → PublisherStream
  unfolding send
  send_all m [] s = s
  send_all m (a ∷ messages) s = send_all m messages (send m a s)

  -- `process_subscriber`: the caller id of the target that is added, if one is, and what it is sent
  -- before. A connection takes what is written to it, and the thread of the stream fork is there.
  unfoldable pub process_subscriber : Message → Bytes → Bytes → Bytes → Bytes → Option Bytes × Bytes
  unfolding publisher_exchange
  process_subscriber t topic stream last_message pub_caller_id =
      let (caller, response) = publisher_exchange t topic pub_caller_id stream in
      elim caller [
        | accepted caller_id _ ↦ (some caller_id, response ++ last_message)
        | refused _ ↦ (none, response)
      ]

-- What the thread of the stream fork writes on a connection that takes all, of the messages that wait.
abbrev pub written : List Bytes → Bytes
written [] = []
written (buffer ∷ buffers) = buffer ++ written buffers

-- `handle_data`: the messages that the callback is called with. One that is not read is left out.
unfoldable pub handle_data : {A : Type 0} → RosMsg A → List Bytes → List A
unfolding decode_slice
handle_data m [] = []
handle_data m (buffer ∷ data_) = elim (decode_slice m buffer) [
  | ok value _ ↦ value ∷ handle_data m data_
  | err _ _ ↦ handle_data m data_
]
