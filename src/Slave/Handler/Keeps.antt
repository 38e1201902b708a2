-- ===== src/Slave/Handler/Keeps.antt =====
-- What no call from outside changes: rosrust/src/api/slave/handler.rs.
use rosrust.Prelude.{
  ℕ, ◌≡◌, refl, ap, sym, ◌∙◌, Bool, true, Bool-cases, inl, inr, if-cases, if◌then◌else◌, Option,
  none, some, Option-cases, List, [], ◌∷◌, Bytes, equal, codes,
}
use rosrust.Prelude.Int.{pos}
use rosrust.Rpc.{Value, Values, Response, ResponseError, ok, err}
use rosrust.Slave.{Topic, Table, find, write, table_values, collect}
use rosrust.Slave.Subscriptions.{
  as_u16, Subscriber, Network, ConnectError, connect_to, connect_to_publisher, connect_each,
  limit_publishers_to, update_publishers, add_publishers, topics_of, subscribed_topics,
  is_connected_to,
}
use rosrust.Slave.Handler.{
  acts, Surroundings, Node, handle, shutdown, publisher_update, update_arguments, second_text,
  unwrap_array_case, updated,
}

-- A step that leaves the topic of a subscription as it is.
abbrev Stays : Subscriber → Option ConnectError × Subscriber → Type 0
Stays s (_, s') = s'.topic ≡ s.topic

connect_to-Stays :
    (net : Network) (publisher hostname : Bytes) (port : ℕ) (s : Subscriber)
    → Stays s (connect_to net publisher hostname port s)
unfolding connect_to
connect_to-Stays net publisher hostname port s =
    elim (Option-cases (net.to_socket_addrs hostname port)) [
      | inl e ↦ rw (Stays, connect_to, e) refl
      | inr (addresses, e) ↦ rw (Stays, connect_to, e) refl
    ]

connect_to_publisher-Stays :
    (net : Network) (name publisher topic : Bytes) (s : Subscriber)
    → Stays s (connect_to_publisher net name publisher topic s)
unfolding connect_to_publisher
connect_to_publisher-Stays net name publisher topic s =
    if-cases (Stays s) (is_connected_to publisher s) _ _ (λ _. refl)
      (λ _. elim (Option-cases (net.request_topic publisher name topic)) [
        | inl e ↦ rw (Stays, e) refl
        | inr (a, e) ↦
            rw (Stays, e)
              (if-cases (Stays s) (equal a.protocol (codes "TCPROS")) _ _
                (λ _. connect_to-Stays net publisher a.hostname (as_u16 a.port) s) (λ _. refl))
      ])

then-Stays :
    (s s' : Subscriber) (e : Option ConnectError) (r : Option ConnectError × Subscriber)
    → s'.topic ≡ s.topic
    → Stays s' r
    → Stays s (elim e [ none ↦ (r.0, r.1) | some error ↦ (some error, s') ])
then-Stays s s' none r h k = k ∙ h
then-Stays s s' (some e) r h k = h

connect_each-Stays :
    (net : Network) (name topic : Bytes) (publishers : List Bytes) (s : Subscriber)
    → Stays s (connect_each net name topic publishers s)
unfolding connect_each
connect_each-Stays net name topic [] s = refl
connect_each-Stays net name topic (publisher ∷ publishers) s =
    then-Stays s (connect_to_publisher net name publisher topic s).1
      (connect_to_publisher net name publisher topic s).0
      (connect_each net name topic publishers (connect_to_publisher net name publisher topic s).1)
      (connect_to_publisher-Stays net name publisher topic s)
      (connect_each-Stays net name topic publishers
        (connect_to_publisher net name publisher topic s).1)

topics-write :
    (k : Bytes) (a b : Subscriber) (table : Table Subscriber)
    → find k table ≡ some b
    → a.topic ≡ b.topic
    → topics_of (table_values (write k a table)) ≡ topics_of (table_values table)
topics-write k a b [] h e = refl
topics-write k a b ((j, c) ∷ table) h e = elim (Bool-cases (equal j k)) [
  | inl f ↦
      let g : some c ≡ some b = rw f at h in
      let same : c ≡ b = cc in
      rw f (
        ap (λ (t : Topic). t ∷ topics_of (table_values table))
          (e ∙ sym (ap (λ (s : Subscriber). s.topic) same)))
  | inr f ↦ rw f (ap (λ (ts : List Topic). c.topic ∷ ts) (topics-write k a b table (rw f at h) e))
]

add_publishers-topics :
    (net : Network) (topic name : Bytes) (publishers : List Bytes) (mapping : Table Subscriber)
    → subscribed_topics (add_publishers net topic name publishers mapping).1
      ≡ subscribed_topics mapping
unfolding add_publishers subscribed_topics update_publishers limit_publishers_to
add_publishers-topics net topic name publishers mapping = elim (Option-cases (find topic mapping)) [
  | inl e ↦ rw (add_publishers, e) refl
  | inr (s, e) ↦
      rw (add_publishers, e)
        (topics-write topic _ s mapping e (
          connect_each-Stays net name topic (collect publishers)
            (limit_publishers_to (collect publishers) s)))
]

-- A step that leaves the publications and the topics of the subscriptions as they are.
pub record Keeps (A : Type 0) (node : Node) (r : A × Node) : Type 0 where
  pub publications : r.1.publications ≡ node.publications
  pub topics : subscribed_topics r.1.subscriptions ≡ subscribed_topics node.subscriptions

same : {A : Type 0} (a : A) (node : Node) → Keeps A node (a, node)
same a node = record { publications = refl; topics = refl }

shutdown-Keeps :
    (env : Surroundings) (params : Values) (node : Node)
    → Keeps (Response Value) node (shutdown env params node)
unfolding shutdown
shutdown-Keeps env params node =
    elim (second_text (codes "Missing argument 'message'") (unwrap_array_case params))
      as (λ r. Keeps (Response Value) node (elim r [
        | err e ↦ (err e, node)
        | ok _ ↦
            if env.can_shut_down
            then (ok (Value.int (pos 0)), record node { is_shutting_down = true })
            else (err (ResponseError.server (codes "Failed to shut down")), node)
      ])) [
        | err e ↦ same _ node
        | ok _ ↦
            if-cases (Keeps (Response Value) node) env.can_shut_down _ _
              (λ _. record { publications = refl; topics = refl }) (λ _. same _ node)
      ]

updated-Keeps :
    (env : Surroundings) (node : Node) (r : Option ConnectError × Table Subscriber)
    → subscribed_topics r.1 ≡ subscribed_topics node.subscriptions
    → Keeps (Response Value) node (updated env node r)
updated-Keeps env node (none, mapping) h = record { publications = refl; topics = h }
updated-Keeps env node (some e, mapping) h = record { publications = refl; topics = h }

publisher_update-Keeps :
    (env : Surroundings) (params : Values) (node : Node)
    → Keeps (Response Value) node (publisher_update env params node)
unfolding publisher_update
publisher_update-Keeps env params node =
    elim (update_arguments params)
      as (λ r. Keeps (Response Value) node (elim r [
        | err e ↦ (err e, node)
        | ok (topic, publishers) ↦
            updated env node (add_publishers env.net topic env.name publishers node.subscriptions)
      ])) [
        | err e ↦ same _ node
        | ok (topic, publishers) ↦
            updated-Keeps env node
              (add_publishers env.net topic env.name publishers node.subscriptions)
              (add_publishers-topics env.net topic env.name publishers node.subscriptions)
      ]

-- A call whose answer is the handler's.
acts-Keeps :
    (node : Node) (r : Response Value × Node) (msg : Bytes)
    → Keeps (Response Value) node r
    → Keeps Values node (acts r msg)
acts-Keeps node (response, node') msg h = record {
  publications = h.publications;
  topics = h.topics;
}

-- A test of the method's name, and then the others.
unless :
    (node : Node) (c : Bool) (v : Values) (r : Values × Node)
    → Keeps Values node r
    → Keeps Values node (if c then (v, node) else r)
unless node c v r h = if-cases (Keeps Values node) c (v, node) r (λ _. same v node) (λ _. h)

-- A call by a peer, of whatever method and with whatever arguments, leaves the publications of a node
-- as they are, and the topics that it subscribes to.
pub handle-Keeps :
    (env : Surroundings) (method : Bytes) (params : Values) (node : Node)
    → Keeps Values node (handle env method params node)
unfolding handle
handle-Keeps env method params node = unless node (equal method (codes "getBusStats")) _ _ (
    unless node (equal method (codes "getBusInfo")) _ _ (
      unless node (equal method (codes "getMasterUri")) _ _ (
        if-cases (Keeps Values node) (equal method (codes "shutdown")) _ _
          (λ _. acts-Keeps node _ (codes "Shutdown") (shutdown-Keeps env params node))
          (λ _. unless node (equal method (codes "getPid")) _ _ (
            unless node (equal method (codes "getSubscriptions")) _ _ (
              unless node (equal method (codes "getPublications")) _ _ (
                unless node (equal method (codes "paramUpdate")) _ _ (
                  if-cases (Keeps Values node) (equal method (codes "publisherUpdate")) _ _
                    (λ _.
                      acts-Keeps node _ (codes "Publishers updated")
                        (publisher_update-Keeps env params node))
                    (λ _.
                      unless node (equal method (codes "requestTopic")) _ _ (same _ node))))))))))
