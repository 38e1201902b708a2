-- ===== src/Slave/Subscriptions/Updates.antt =====
-- What an update of the publishers makes of a subscription:
-- rosrust/src/api/slave/subscriptions.rs and rosrust/src/tcpros/subscriber.rs.
use rosrust.Prelude.{
  ◌≡◌, refl, ap, true, not, ◌&&◌, ◌||◌, Bool-cases, inl, inr, Option, none, some, List, [], ◌∷◌,
  ◌++◌, equal_iff, if-cases, if◌then◌else◌, ℕ, Bytes, equal, codes, arith,
}
use rosrust.Slave.{contains, set_insert, collect, difference, set_remove}
use rosrust.Slave.Sets.{contains-insert, contains-collect, contains-remove, contains-difference}
use rosrust.Slave.Subscriptions.{
  as_u16, Subscriber, Network, ConnectError, connect_to, is_connected_to, remove_each,
  limit_publishers_to, connect_to_publisher, connect_each, update_publishers,
}

contains-remove_each :
    (x : Bytes) (items s : List Bytes)
    → contains x (remove_each items s) ≡ (contains x s && not (contains x items))
contains-remove_each x [] s = ground arith
contains-remove_each x (item ∷ items) s =
    ground (arith, contains-remove_each x items (set_remove item s), contains-remove x item s)

-- A limited subscription is connected to what it was connected to among the publishers.
contains-limit :
    (x : Bytes) (publishers : List Bytes) (s : Subscriber)
    → contains x (limit_publishers_to publishers s).connected_publishers
      ≡ (contains x s.connected_publishers && contains x publishers)
unfolding limit_publishers_to
contains-limit x publishers s = ground (
  arith,
  contains-remove_each x (difference s.connected_publishers publishers) s.connected_publishers,
  contains-difference x s.connected_publishers publishers,
)

-- What a connection, or the attempt, does to the publishers.
abbrev Connects : List Bytes → Subscriber → Option ConnectError × Subscriber → Type 0
Connects publishers s (none, s') =
    (x : Bytes)
    → contains x s'.connected_publishers
      ≡ (contains x publishers || contains x s.connected_publishers)
Connects publishers s (some e, s') =
    (x : Bytes)
    → ((contains x s'.connected_publishers
          && (contains x publishers || contains x s.connected_publishers))
        ≡ contains x s'.connected_publishers)
      × ((contains x s.connected_publishers && contains x s'.connected_publishers)
          ≡ contains x s.connected_publishers)

kept :
    (publishers : List Bytes) (s : Subscriber) (e : ConnectError)
    → Connects publishers s (some e, s)
kept publishers s e = λ x. (ground arith, ground arith)

connect_to-Connects :
    (net : Network) (publisher hostname : Bytes) (port : ℕ) (s : Subscriber)
    → Connects (publisher ∷ []) s (connect_to net publisher hostname port s)
unfolding connect_to
connect_to-Connects net publisher hostname port s =
    elim (net.to_socket_addrs hostname port)
      as (λ found. Connects (publisher ∷ []) s (elim found [
        | none ↦ (some ConnectError.io, s)
        | some addresses ↦ (
          none,
          record s {
            publishers_stream = s.publishers_stream ++ addresses;
            connected_publishers = set_insert publisher s.connected_publishers;
          },
        )
      ])) [
        | none ↦ kept (publisher ∷ []) s ConnectError.io
        | some addresses ↦ λ x. ground (arith, contains-insert x publisher s.connected_publishers)
      ]

already :
    (publisher : Bytes) (s : Subscriber)
    → contains publisher s.connected_publishers ≡ true
    → Connects (publisher ∷ []) s (none, s)
already publisher s h x = elim (Bool-cases (equal publisher x)) [
  | inl e ↦
      let same : contains publisher s.connected_publishers ≡ contains x s.connected_publishers =
        ap (λ (w : Bytes). contains w s.connected_publishers) ((equal_iff publisher x).0 e) in
      ground (arith, h, e, same)
  | inr e ↦ ground (arith, e)
]

connect_to_publisher-Connects :
    (net : Network) (name publisher topic : Bytes) (s : Subscriber)
    → Connects (publisher ∷ []) s (connect_to_publisher net name publisher topic s)
unfolding connect_to_publisher is_connected_to
connect_to_publisher-Connects net name publisher topic s =
    if-cases (Connects (publisher ∷ []) s) (contains publisher s.connected_publishers) _ _
      (already publisher s)
      (λ _.
        elim (net.request_topic publisher name topic)
          as (λ found. Connects (publisher ∷ []) s (elim found [
            | none ↦ (some ConnectError.no_answer, s)
            | some a ↦
                if equal a.protocol (codes "TCPROS")
                then connect_to net publisher a.hostname (as_u16 a.port) s
                else (some (ConnectError.bad_protocol a.protocol), s)
          ])) [
            | none ↦ kept (publisher ∷ []) s ConnectError.no_answer
            | some a ↦
                if-cases (Connects (publisher ∷ []) s) (equal a.protocol (codes "TCPROS")) _ _
                  (λ _. connect_to-Connects net publisher a.hostname (as_u16 a.port) s)
                  (λ _. kept (publisher ∷ []) s (ConnectError.bad_protocol a.protocol))
          ])

-- A publisher and then the others, if it did not fail.
then_others :
    (publisher : Bytes) (publishers : List Bytes) (s s' : Subscriber) (e : Option ConnectError)
    (r : Option ConnectError × Subscriber)
    → Connects (publisher ∷ []) s (e, s')
    → Connects publishers s' r
    → Connects
        (publisher ∷ publishers)
        s
        (elim e [ none ↦ (r.0, r.1) | some error ↦ (some error, s') ])
then_others publisher publishers s s' none (none, s'') h k = λ x. ground (arith, h x, k x)
then_others publisher publishers s s' none (some e, s'') h k =
    λ x. (ground (arith, h x, k x), ground (arith, h x, k x))
then_others publisher publishers s s' (some e) r h k =
    λ x. (ground (arith, h x), ground (arith, h x))

connect_each-Connects :
    (net : Network) (name topic : Bytes) (publishers : List Bytes) (s : Subscriber)
    → Connects publishers s (connect_each net name topic publishers s)
unfolding connect_each
connect_each-Connects net name topic [] s = λ x. refl
connect_each-Connects net name topic (publisher ∷ publishers) s =
    then_others publisher publishers s (connect_to_publisher net name publisher topic s).1
      (connect_to_publisher net name publisher topic s).0
      (connect_each net name topic publishers (connect_to_publisher net name publisher topic s).1)
      (connect_to_publisher-Connects net name publisher topic s)
      (connect_each-Connects net name topic publishers
        (connect_to_publisher net name publisher topic s).1)

-- What an update must do: with no error, exactly the publishers given are connected; after an error,
-- none but those, and among them all that were connected before.
abbrev pub Updates : List Bytes → Subscriber → Option ConnectError × Subscriber → Type 0
Updates publishers s (none, s') =
    (x : Bytes) → contains x s'.connected_publishers ≡ contains x publishers
Updates publishers s (some e, s') =
    (x : Bytes)
    → ((contains x s'.connected_publishers && contains x publishers)
        ≡ contains x s'.connected_publishers)
      × ((contains x s.connected_publishers
            && contains x publishers
            && contains x s'.connected_publishers)
          ≡ (contains x s.connected_publishers && contains x publishers))

Updates-limited :
    (publishers : List Bytes) (s : Subscriber) (r : Option ConnectError × Subscriber)
    → Connects (collect publishers) (limit_publishers_to (collect publishers) s) r
    → Updates publishers s r
Updates-limited publishers s (none, s') h =
    λ x. ground (arith, h x, contains-limit x (collect publishers) s, contains-collect x publishers)
Updates-limited publishers s (some e, s') h = λ x. (
  ground (arith, (h x).0, contains-limit x (collect publishers) s, contains-collect x publishers),
  ground (arith, (h x).1, contains-limit x (collect publishers) s, contains-collect x publishers),
)

-- After an update of a topic's publishers without an error, the subscription is connected to exactly
-- the publishers given. After an error it is connected to none but those, and still to those of them
-- that it was connected to.
pub update_publishers-Updates :
    (net : Network) (name topic : Bytes) (publishers : List Bytes) (s : Subscriber)
    → Updates publishers s (update_publishers net name topic publishers s)
unfolding update_publishers
update_publishers-Updates net name topic publishers s =
    Updates-limited publishers s (update_publishers net name topic publishers s) (
      connect_each-Connects net name topic (collect publishers)
        (limit_publishers_to (collect publishers) s))
