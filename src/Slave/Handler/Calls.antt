-- ===== src/Slave/Handler/Calls.antt =====
-- What a peer gets of a node's publications: rosrust/src/api/slave, with the client of
-- rosrust/src/rosxmlrpc.
use rosrust.Prelude.{
  ℕ, ◌≡◌, refl, ap, sym, ◌∙◌, Bool-cases, inl, inr, Option, none, some, Option-cases, [], ◌∷◌, ◌++◌,
  Bytes, equal, equal_iff, equal_refl, codes,
}
use rosrust.Prelude.Int.{pos}
use rosrust.Rpc.{Value, Values, of_list, ok, CallResult, request_tree_with_tree}
use rosrust.Rpc.RoundTrip.{request_tree-answer}
use rosrust.Slave.{Table, find, write}
use rosrust.Slave.Publications
use rosrust.Slave.Publications.{
  Publisher, PublishError, add, stream, publisher_new, get_port, put, open_,
}
use rosrust.Slave.Handler.{
  Surroundings, Node, handle, request_topic, unwrap_array_case, second_text, protocols_argument,
  has_tcpros,
}

module _ {A : Type 0} where
  find-write :
      (k : Bytes) (a b : A) (table : Table A)
      → find k table ≡ some b
      → find k (write k a table) ≡ some a
  find-write k a b [] h = cc
  find-write k a b ((j, c) ∷ table) h = elim (Bool-cases (equal j k)) [
    | inl e ↦ rw (e, e) refl
    | inr e ↦ rw (e, e) (find-write k a b table (rw e at h))
  ]

  find-append :
      (k : Bytes) (a : A) (table : Table A)
      → find k table ≡ none
      → find k (table ++ ((k, a) ∷ [])) ≡ some a
  find-append k a [] h = rw (equal_refl k) refl
  find-append k a ((j, c) ∷ table) h = elim (Bool-cases (equal j k)) [
    | inl e ↦ let g : some c ≡ none = rw e at h in cc
    | inr e ↦ rw e (find-append k a table (rw e at h))
  ]

put-ok :
    (topic : Bytes) (r : Publications.Result Publisher) (place : Publisher → Table Publisher)
    (mapping : Table Publisher)
    → put topic r place ≡ Publications.ok mapping
    → (p : Publisher) × (r ≡ Publications.ok p) × (place p ≡ mapping)
put-ok topic (Publications.ok p) place mapping h = (p, refl, cc)
put-ok topic (Publications.err e) place mapping h = cc

abbrev type_of : Publications.Result Publisher → Bytes
type_of (Publications.ok p) = p.topic.msg_type
type_of (Publications.err _) = []

stream-ok :
    (msg_type : Bytes) (queue_size : ℕ) (p q : Publisher)
    → stream msg_type queue_size p ≡ Publications.ok q
    → q.topic.msg_type ≡ msg_type
unfolding stream
stream-ok msg_type queue_size p q h = elim (Bool-cases (equal p.topic.msg_type msg_type)) [
  | inl e ↦ sym (ap type_of (rw (e, stream) at h)) ∙ (equal_iff p.topic.msg_type msg_type).0 e
  | inr e ↦
      let g : Publications.err (PublishError.message_type_mismatch p.topic.msg_type msg_type)
          ≡ Publications.ok q =
        rw (e, stream) at h in
      cc
]

open-ok :
    (queue_size : ℕ) (msg_type : Bytes) (r : Publications.Result Publisher) (q : Publisher)
    → open_ queue_size msg_type r ≡ Publications.ok q
    → q.topic.msg_type ≡ msg_type
open-ok queue_size msg_type (Publications.ok p) q h = stream-ok msg_type queue_size p q h
open-ok queue_size msg_type (Publications.err e) q h = cc

-- The publisher of a topic after it was added.
find-add :
    (bind : Bytes → Option ℕ) (hostname topic msg_type : Bytes) (queue_size : ℕ)
    (mapping mapping' : Table Publisher)
    → add bind hostname topic msg_type queue_size mapping ≡ Publications.ok mapping'
    → (p : Publisher) × (find topic mapping' ≡ some p) × (p.topic.msg_type ≡ msg_type)
unfolding add publisher_new
find-add bind hostname topic msg_type queue_size mapping mapping' h =
    elim (Option-cases (find topic mapping)) [
      | inl e ↦
          let put_ok =
            put-ok topic
              (open_ queue_size msg_type
                (publisher_new bind (hostname ++ codes ":0") msg_type topic queue_size))
              (λ r. mapping ++ ((topic, r) ∷ [])) mapping' (rw (e, add) at h) in
          (
            put_ok.0,
            rw⁻¹ (put_ok.2) (find-append topic put_ok.0 mapping e),
            open-ok queue_size msg_type
                (publisher_new bind (hostname ++ codes ":0") msg_type topic queue_size) put_ok.0
                put_ok.1,
          )
      | inr (q, e) ↦
          let put_ok =
            put-ok topic (stream msg_type queue_size q) (λ r. write topic r mapping) mapping'
              (rw (e, add) at h) in
          (
            put_ok.0,
            rw⁻¹ (put_ok.2) (find-write topic put_ok.0 q mapping e),
            stream-ok msg_type queue_size q put_ok.0 put_ok.1,
          )
    ]

-- When a node has added a publication, a peer that asks it for the topic by TCPROS, the way that the
-- subscriptions of a node do, is given the node's host name and the port of the topic's publisher,
-- whose message type is the one that was added.
pub request-add :
    (show : Values → Bytes) (bind : Bytes → Option ℕ) (env : Surroundings) (node : Node)
    (topic msg_type caller_id : Bytes) (queue_size : ℕ) (mapping : Table Publisher)
    → add bind env.hostname topic msg_type queue_size node.publications ≡ Publications.ok mapping
    → (p : Publisher) × (find topic mapping ≡ some p)
      × (p.topic.msg_type ≡ msg_type)
      × (request_tree_with_tree show (
            CallResult.values
              (handle env
                (codes "requestTopic")
                (of_list (
                  Value.string caller_id
                  ∷ Value.string topic
                  ∷ Value.array
                      (of_list (Value.array (of_list (Value.string (codes "TCPROS") ∷ [])) ∷ []))
                  ∷ []))
                (record node { publications = mapping })).0)
          ≡ ok (
              Value.array (
                of_list (
                  Value.string (codes "TCPROS")
                  ∷ Value.string env.hostname
                  ∷ Value.int (pos p.port)
                  ∷ []))))
unfolding handle request_topic unwrap_array_case second_text protocols_argument has_tcpros get_port
    equal
request-add show bind env node topic msg_type caller_id queue_size mapping h =
    let added = find-add bind env.hostname topic msg_type queue_size node.publications mapping h in
    (
      added.0,
      added.1,
      added.2,
      request_tree-answer show _ _
          ∙ rw
              (request_topic, unwrap_array_case, second_text, protocols_argument, get_port, added.1)
              refl,
    )
