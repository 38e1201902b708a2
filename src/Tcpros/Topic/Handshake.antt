-- ===== src/Tcpros/Topic/Handshake.antt =====
-- What the two ends of a topic make of each other's headers.
use rosrust.Prelude.{
  Option, none, some, Bool, true, false, ◌&&◌, ◌||◌, ◌≡◌, ◌≢◌, ◌⊎◌, refl, sym, ◌∙◌, List, ◌++◌,
  codes, equal, equal_refl, Bool-cases, inl, inr, Bytes,
}
use rosrust.Wire.Codec.{ByteOrder}
use rosrust.Wire.Map.{Row, HeaderError, header_mismatch, get, match_field}
use rosrust.Tcpros.Header.{
  header, Answer, accepted, refused, Message, ◌also◌, after, require, IsHeader, read_header-encode,
}
use rosrust.Tcpros.Topic.{
  match_concrete_headers, match_wildcard_headers, either_match, request_fields, response_fields,
  write_request, write_response, read_request, publisher_exchange, read_response,
}

-- The subscriber's message type and topic are the publisher's, or it takes any type on the topic.
abbrev pub agrees : Message → Bytes → Message → Bytes → Bool
agrees s sub_topic p pub_topic =
    (equal s.md5sum p.md5sum && equal s.msg_type p.msg_type && equal sub_topic pub_topic)
    || (equal s.md5sum (codes "*") && equal s.msg_type (codes "*") && equal sub_topic pub_topic)

true-ne-false : true ≢ false
true-ne-false h = cc

check : Bool → HeaderError → Option HeaderError
check true e = none
check false e = some e

checked :
    (fields : List Row) (field expected actual : Bytes)
    → get field fields ≡ some actual
    → match_field fields field expected
      ≡ check (equal actual expected) (header_mismatch field expected actual)
unfolding match_field check
checked fields field expected actual h = elim (Bool-cases (equal actual expected)) [
  | inl e ↦ rw (match_field, h, e) refl
  | inr e ↦ rw (match_field, h, e) refl
]

second_row :
    (x : HeaderError) (c d e : Bool) (u v w : HeaderError)
    → ((d && e && c) ≡ true
        → either_match (some x) (check d u also check e v also check c w) ≡ none)
      × ((d && e && c) ≡ false
          → (f : HeaderError) × (either_match (some x) (check d u also check e v also check c w)
              ≡ some f))
unfolding check
second_row x true true true u v w = (λ h. refl, λ h. absurd cc)
second_row x false true true u v w = (λ h. absurd cc, λ h. (x, refl))
second_row x c false e u v w = (λ h. absurd cc, λ h. (x, refl))
second_row x c true false u v w = (λ h. absurd cc, λ h. (x, refl))

-- Five checks in two rows of three.
two_rows :
    (a b c d e : Bool) (x y z u v w : HeaderError)
    → (((a && b && c) || (d && e && c)) ≡ true
        → either_match
            (check a x also check b y also check c z)
            (check d u also check e v also check c w)
          ≡ none)
      × (((a && b && c) || (d && e && c)) ≡ false
          → (f : HeaderError) × (either_match
                (check a x also check b y also check c z)
                (check d u also check e v also check c w)
              ≡ some f))
unfolding check
two_rows true true true d e x y z u v w = (λ h. refl, λ h. absurd cc)
two_rows false b c d e x y z u v w = second_row x c d e u v w
two_rows true false c d e x y z u v w = second_row y c d e u v w
two_rows true true false d e x y z u v w = second_row z false d e u v w

request_gets :
    (s : Message) (c t : Bytes)
    → (get (codes "md5sum") (request_fields s c t) ≡ some s.md5sum)
      × (get (codes "type") (request_fields s c t) ≡ some s.msg_type)
      × (get (codes "topic") (request_fields s c t) ≡ some t)
      × (get (codes "callerid") (request_fields s c t) ≡ some c)
unfolding get equal
request_gets s c t = (refl, refl, refl, refl)

response_gets :
    (s : Message) (c : Bytes)
    → (get (codes "md5sum") (response_fields s c) ≡ some s.md5sum)
      × (get (codes "type") (response_fields s c) ≡ some s.msg_type)
      × (get (codes "callerid") (response_fields s c) ≡ some c)
unfolding get equal
response_gets s c = (refl, refl, refl)

module _ (o : ByteOrder) where
  -- A publisher accepts a subscriber's request, and learns the caller id, exactly when the message
  -- type and the topic are its own or the subscriber takes any type on the topic; any other request is
  -- refused by a header error.
  pub read_request-write_request :
      (s p : Message) (caller_id sub_topic pub_topic rest : Bytes)
      → IsHeader o (request_fields s caller_id sub_topic)
      → ((agrees s sub_topic p pub_topic ≡ true)
          × (read_request o p pub_topic (write_request o s caller_id sub_topic ++ rest)
              ≡ accepted caller_id rest))
        ⊎ ((e : HeaderError) × (agrees s sub_topic p pub_topic ≡ false)
            × (read_request o p pub_topic (write_request o s caller_id sub_topic ++ rest)
                ≡ refused (header e)))
  unfolding read_request write_request match_concrete_headers match_wildcard_headers
  read_request-write_request s p caller_id sub_topic pub_topic rest h =
      let fields = request_fields s caller_id sub_topic in
      let read = read_header-encode o fields rest h in
      let gets = request_gets s caller_id sub_topic in
      let one = checked fields (codes "md5sum") p.md5sum s.md5sum gets.0 in
      let two = checked fields (codes "type") p.msg_type s.msg_type gets.1 in
      let three = checked fields (codes "topic") pub_topic sub_topic gets.2 in
      let four = checked fields (codes "md5sum") (codes "*") s.md5sum gets.0 in
      let five = checked fields (codes "type") (codes "*") s.msg_type gets.1 in
      let both =
        two_rows (equal s.md5sum p.md5sum) (equal s.msg_type p.msg_type) (equal sub_topic pub_topic)
          (equal s.md5sum (codes "*")) (equal s.msg_type (codes "*"))
          (header_mismatch (codes "md5sum") p.md5sum s.md5sum)
          (header_mismatch (codes "type") p.msg_type s.msg_type)
          (header_mismatch (codes "topic") pub_topic sub_topic)
          (header_mismatch (codes "md5sum") (codes "*") s.md5sum)
          (header_mismatch (codes "type") (codes "*") s.msg_type)
          (header_mismatch (codes "topic") pub_topic sub_topic) in
      elim (Bool-cases (agrees s sub_topic p pub_topic)) [
        | inl a ↦ inl (
          a,
          rw (read_request, read, one, two, three, four, five, both.0 a, require, gets.3) refl,
        )
        | inr a ↦
            let fails = both.1 a in
            inr (fails.0, a, rw (read_request, read, one, two, three, four, five, fails.1) refl)
      ]

  both_checks :
      (a b : Bool) (x y : HeaderError) {A : Type 0} (answer : Answer A)
      → (a && b ≡ true → after (check a x also check b y) answer ≡ answer)
        × (a && b ≡ false
            → (e : HeaderError) × (after (check a x also check b y) answer ≡ refused (header e)))
  unfolding check
  both_checks true true x y answer = (λ h. refl, λ h. absurd cc)
  both_checks false b x y answer = (λ h. absurd cc, λ h. (x, refl))
  both_checks true false x y answer = (λ h. absurd cc, λ h. (y, refl))

  read_response-write_response :
      (s p : Message) (pub_caller_id rest : Bytes)
      → IsHeader o (response_fields p pub_caller_id)
      → (equal p.md5sum s.md5sum && equal p.msg_type s.msg_type ≡ true
          → read_response o s (write_response o p pub_caller_id ++ rest)
            ≡ accepted (some pub_caller_id) rest)
        × (equal p.md5sum s.md5sum && equal p.msg_type s.msg_type ≡ false
            → (e : HeaderError) × (read_response o s (write_response o p pub_caller_id ++ rest)
                ≡ refused (header e)))
  unfolding read_response write_response
  read_response-write_response s p pub_caller_id rest h =
      let fields = response_fields p pub_caller_id in
      let read = read_header-encode o fields rest h in
      let gets = response_gets p pub_caller_id in
      let one = checked fields (codes "md5sum") s.md5sum p.md5sum gets.0 in
      let two = checked fields (codes "type") s.msg_type p.msg_type gets.1 in
      let both =
        both_checks (equal p.md5sum s.md5sum) (equal p.msg_type s.msg_type)
          (header_mismatch (codes "md5sum") s.md5sum p.md5sum)
          (header_mismatch (codes "type") s.msg_type p.msg_type)
          (accepted (some pub_caller_id) rest) in
      (
        λ a. rw (read_response, read, one, two, gets.2) (both.0 a),
        λ a. let fails = both.1 a in (fails.0, rw (read_response, read, one, two, gets.2) fails.1),
      )

  -- When a subscriber and a publisher have the same message type and topic, the exchange of headers
  -- succeeds on both sides, each learns the other's caller id, and both are left at the bytes that
  -- follow.
  pub exchange_headers_both :
      (t : Message) (caller_id pub_caller_id topic rest later : Bytes)
      → IsHeader o (request_fields t caller_id topic)
      → IsHeader o (response_fields t pub_caller_id)
      → (publisher_exchange o t topic pub_caller_id (write_request o t caller_id topic ++ rest)
          ≡ (accepted caller_id rest, write_response o t pub_caller_id))
        × (read_response o t (write_response o t pub_caller_id ++ later)
            ≡ accepted (some pub_caller_id) later)
  unfolding publisher_exchange
  exchange_headers_both t caller_id pub_caller_id topic rest later h k =
      let same : agrees t topic t topic ≡ true =
        rw (equal_refl t.md5sum, equal_refl t.msg_type, equal_refl topic) refl in
      (
        elim (read_request-write_request t t caller_id topic topic rest h) [
          | inl (_, heard) ↦ rw (publisher_exchange, heard) refl
          | inr (_, differs, _) ↦ absurd (true-ne-false (sym same ∙ differs))
        ],
        (read_response-write_response t t pub_caller_id later k).0
            (rw (equal_refl t.md5sum, equal_refl t.msg_type) refl),
      )
