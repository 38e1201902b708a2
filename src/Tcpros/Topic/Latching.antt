-- ===== src/Tcpros/Topic/Latching.antt =====
-- The last message of a latching topic: rosrust/src/tcpros/publisher.rs.
use rosrust.Prelude.{
  Option, some, none, ◌≡◌, refl, ap, ◌∙◌, inl, inr, true, List, [], ◌∷◌, ◌++◌, Bytes, if◌then◌else◌,
}
use rosrust.Wire.Codec.{ByteOrder, RosMsg, encode_vec}
use rosrust.Tcpros.Header.{Message, Answer, IsHeader, accepted, refused}
use rosrust.Tcpros.Topic.{
  PublisherStream, send, send_all, request_fields, write_request, write_response, read_request,
  publisher_exchange, process_subscriber,
}
use rosrust.Tcpros.Topic.Handshake.{agrees, read_request-write_request}

module _ (o : ByteOrder) {A : Type 0} (m : RosMsg A) where
  send_all-latching :
      (messages : List A) (s : PublisherStream) → (send_all o m messages s).latching ≡ s.latching
  unfolding send_all send
  send_all-latching [] s = refl
  send_all-latching (a ∷ messages) s = send_all-latching messages (send o m a s)

  send_all-append :
      (messages : List A) (a : A) (s : PublisherStream)
      → send_all o m (messages ++ a ∷ []) s ≡ send o m a (send_all o m messages s)
  unfolding send_all
  send_all-append [] a s = refl
  send_all-append (b ∷ messages) a s = send_all-append messages a (send o m b s)

  last-latching :
      (messages : List A) (a : A) (s : PublisherStream)
      → s.latching ≡ true
      → (send_all o m (messages ++ a ∷ []) s).last_message ≡ encode_vec o m a
  unfolding send
  last-latching messages a s h =
      let on = send_all-latching messages s ∙ h in rw (send_all-append messages a s, send, on) refl

  -- What the answer to a request leads to.
  abbrev answered : Message → Bytes → Bytes → Answer Bytes → Option Bytes × Bytes
  answered p pub_caller_id last (accepted caller_id _) =
      (some caller_id, write_response o p pub_caller_id ++ last)
  answered p pub_caller_id last (refused _) = (none, [])

  process_subscriber-read_request :
      (p : Message) (topic stream last pub_caller_id : Bytes)
      → process_subscriber o p topic stream last pub_caller_id
        ≡ answered p pub_caller_id last (read_request o p topic stream)
  unfolding process_subscriber publisher_exchange
  process_subscriber-read_request p topic stream last pub_caller_id =
      both (read_request o p topic stream)
    where
      both :
          (x : Answer Bytes)
          → let (caller, response) = elim x as (λ _. Answer Bytes × Bytes) [
            | accepted caller_id left ↦ (accepted caller_id left, write_response o p pub_caller_id)
            | refused e ↦ (refused e, [])
          ] in
            elim caller as (λ _. Option Bytes × Bytes) [
              | accepted caller_id _ ↦ (some caller_id, response ++ last)
              | refused _ ↦ (none, response)
            ]
            ≡ answered p pub_caller_id last x
      both (accepted caller_id left) = refl
      both (refused e) = refl

  -- After messages were sent on a latching stream, a subscriber that connects with the publisher is sent
  -- the last of them right after the response, before it is added, if type and topic agree or it takes any
  -- type on the topic. Otherwise it is sent nothing and is not added.
  pub process_subscriber-send_all :
      (t p : Message) (caller_id sub_topic topic pub_caller_id rest : Bytes) (messages : List A)
      (a : A) (s : PublisherStream)
      → IsHeader o (request_fields t caller_id sub_topic)
      → s.latching ≡ true
      → process_subscriber o p topic
          (write_request o t caller_id sub_topic ++ rest)
          (send_all o m (messages ++ a ∷ []) s).last_message
          pub_caller_id
        ≡ (if agrees t sub_topic p topic
            then (some caller_id, write_response o p pub_caller_id ++ encode_vec o m a)
            else (none, []))
  process_subscriber-send_all t p caller_id sub_topic topic pub_caller_id rest messages a s h on =
      let last = (send_all o m (messages ++ a ∷ []) s).last_message in
      let stream = write_request o t caller_id sub_topic ++ rest in
      let leads = process_subscriber-read_request p topic stream last pub_caller_id in
      elim (read_request-write_request o t p caller_id sub_topic topic rest h) [
        | inl (same, e) ↦
            leads
            ∙ (ap (answered p pub_caller_id last) e ∙ rw (last-latching messages a s on, same) refl)
        | inr (_, same, e) ↦ leads ∙ (ap (answered p pub_caller_id last) e ∙ rw same refl)
      ]
