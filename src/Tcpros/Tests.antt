-- ===== src/Tcpros/Tests.antt =====
-- Runs of the theorems on connections.
use rosrust.Prelude.{
  ◌≡◌, refl, suc, Bool, true, false, ◌⊎◌, List, [], ◌∷◌, ◌++◌, some, codes, length, arith, Bytes,
}
use rosrust.Wire.Reader.{le_bytes}
use rosrust.Wire.Codec.{string_msg, encode_str, encode_variable_slice, encode_fixed_slice}
use rosrust.Wire.Codec.RoundTrip.{string-IsCodec}
use rosrust.Wire.Map.{Row, HeaderError, data_size}
use rosrust.Wire.Sample.{little, is_text, is_text-true, are_rows, are_rows-true}
use mathlib.Core.List.{Perm}
use rosrust.Tcpros.Fork.{SubscriberInfo, ForkThread, write_each, publish_buffer_and_prune_targets}
use rosrust.Tcpros.Fork.Pruning.{IsNamed, reached, publish-Perm}
use rosrust.Tcpros.Header.{Message, accepted, refused, header, IsHeader}
use rosrust.Tcpros.Topic.{
  request_fields, response_fields, write_request, read_request, join_connection, PublisherStream,
  send_all, written, write_response, process_subscriber, handle_data,
}
use rosrust.Tcpros.Topic.Handshake.{agrees, read_request-write_request}
use rosrust.Tcpros.Topic.Latching.{process_subscriber-send_all}
use rosrust.Prelude.{if◌then◌else◌, none}
use rosrust.Wire.Codec.{encode_vec}
use rosrust.Tcpros.Topic.Stream.{handle_data-send_all}
use rosrust.Queue.{LossySender, lossy_channel}
use rosrust.Queue.Newest.{Newest}
use rosrust.Tcpros.Service.{
  ServiceResult, response, handle_request_loop, request_body, response_body,
}
use rosrust.Tcpros.Service.Call.{response_body-handle_request_loop}

abbrev text_type : Message
text_type = record {
  msg_definition = codes "string data";
  md5sum = codes "992c";
  msg_type = codes "std_msgs/String";
}

abbrev request : List Row
request = request_fields text_type (codes "/talker") (codes "/chatter")

abbrev answer : List Row
answer = response_fields text_type (codes "/hub")

request_pass : are_rows request ≡ true
unfolding are_rows
request_pass = refl

answer_pass : are_rows answer ≡ true
unfolding are_rows
answer_pass = refl

request_size : data_size request ≡ 111
unfolding data_size
request_size = refl

answer_size : data_size answer ≡ 56
unfolding data_size
answer_size = refl

request-IsHeader : IsHeader little request
request-IsHeader = (
  (are_rows-true request request_pass).0,
  (are_rows-true request request_pass).1,
  omega (arith, request_size),
)

answer-IsHeader : IsHeader little answer
answer-IsHeader = (
  (are_rows-true answer answer_pass).0,
  (are_rows-true answer answer_pass).1,
  omega (arith, answer_size),
)

read_request-write_request_example :
    ((agrees text_type (codes "/chatter") text_type (codes "/other") ≡ true)
      × (read_request little text_type
            (codes "/other")
            (write_request little text_type (codes "/talker") (codes "/chatter") ++ [])
          ≡ accepted (codes "/talker") []))
    ⊎ ((e : HeaderError) × (agrees text_type (codes "/chatter") text_type (codes "/other") ≡ false)
        × (read_request little text_type
              (codes "/other")
              (write_request little text_type (codes "/talker") (codes "/chatter") ++ [])
            ≡ refused (header e)))
read_request-write_request_example =
    read_request-write_request little text_type text_type (codes "/talker") (codes "/chatter")
      (codes "/other") [] request-IsHeader

abbrev words : List Bytes
words = codes "hello" ∷ codes "world" ∷ []

hello_text : is_text (codes "hello") ≡ true
unfolding is_text
hello_text = refl

world_text : is_text (codes "world") ≡ true
unfolding is_text
world_text = refl

lengths :
    (length ((string_msg little).encode (codes "hello")) ≡ 9)
    × (length ((string_msg little).encode (codes "world")) ≡ 9)
unfolding encode_str encode_variable_slice encode_fixed_slice le_bytes
lengths = (refl, refl)

abbrev talker : PublisherStream
talker = record { stream = lossy_channel 5; last_message = []; latching = true }

handle_data-send_all_example :
    (kept : List Bytes) × (received : LossySender Bytes) × (handled : List Bytes) × Newest 5 kept
      words
    × (join_connection little
          (suc (length words))
          (written (send_all little (string_msg little) words talker).stream.data_)
          (lossy_channel 1)
        ≡ some received)
    × (handle_data (string_msg little) received.data_ ≡ handled)
    × Newest 1 handled kept
handle_data-send_all_example =
    handle_data-send_all little (string_msg little) 5 1 talker words (string-IsCodec little)
      (
        (is_text-true (codes "hello") hello_text, omega (arith, lengths)),
        ((is_text-true (codes "world") world_text, omega (arith, lengths)), tt),
      )
      refl

process_subscriber-send_all_example :
    process_subscriber little text_type
      (codes "/chatter")
      (write_request little text_type (codes "/talker") (codes "/chatter") ++ [])
      (send_all little
        (string_msg little)
        ((codes "hello" ∷ []) ++ codes "world" ∷ [])
        talker).last_message
      (codes "/hub")
    ≡ (if agrees text_type (codes "/chatter") text_type (codes "/chatter")
        then (
          some (codes "/talker"),
          write_response little text_type (codes "/hub")
              ++ encode_vec little (string_msg little) (codes "world"),
        )
        else (none, []))
process_subscriber-send_all_example =
    process_subscriber-send_all little (string_msg little) text_type text_type (codes "/talker")
      (codes "/chatter") (codes "/chatter") (codes "/hub") [] (codes "hello" ∷ []) (codes "world")
      talker request-IsHeader refl

abbrev greet : Bytes → ServiceResult Bytes
greet name = response (codes "world")

response_body-handle_request_loop_example :
    (unread : Bytes) × (response_body little (string_msg little) (
        handle_request_loop little
          (string_msg little)
          (string_msg little)
          greet
          (request_body little (string_msg little) (codes "hello")))
      ≡ accepted (greet (codes "hello")) unread)
response_body-handle_request_loop_example =
    response_body-handle_request_loop little (string_msg little) (string_msg little) greet
      (codes "hello") (string-IsCodec little) (string-IsCodec little)
      (is_text-true (codes "hello") hello_text)
      (is_text-true (codes "world") world_text, omega (arith, lengths))

-- Streams that keep what is written to them; the write to one that is closed fails.
abbrev Stream : Type 0
Stream = Bool × List Bytes

abbrev write_open : Bytes → Stream → Bool × Stream
write_open buffer (is_open, written) = (is_open, (is_open, buffer ∷ written))

abbrev peer : Bytes → Bool → SubscriberInfo Stream
peer name is_open = record { caller_id = name; stream = (is_open, []) }

abbrev peers : ForkThread Stream
peers = record {
  targets = peer (codes "a") true ∷ peer (codes "b") false ∷ peer (codes "c") true ∷ [];
  target_names = codes "a" ∷ codes "b" ∷ codes "c" ∷ [];
}

publish-Perm_example :
    Perm
      (publish_buffer_and_prune_targets write_open (codes "hi") peers).targets
      (reached (write_each write_open (codes "hi") peers.targets))
    × IsNamed (publish_buffer_and_prune_targets write_open (codes "hi") peers)
publish-Perm_example = publish-Perm write_open (codes "hi") peers refl
