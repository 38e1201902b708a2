-- ===== src/Slave/Subscriptions.antt =====
-- The subscriptions of a node: rosrust/src/api/slave/subscriptions.rs, and the publishers of a
-- subscription, rosrust/src/tcpros/subscriber.rs. What a publisher answers to `requestTopic`, and the
-- addresses of a host, are parameters; the addresses are handed to the thread that connects. The texts
-- of the log are left out.
use rosrust.Prelude.{
  ℕ, ◌-◌, ◌%◌, Bool, true, false, Option, none, some, List, [], ◌∷◌, ◌++◌, if◌then◌else◌, Bytes,
  equal, codes, length,
}
use rosrust.Prelude.Int.{ℤ, pos, negsuc}
use rosrust.Slave.{
  Topic, Table, contains, set_insert, set_remove, collect, difference, find, write, table_remove,
  table_values,
}
pub mod Updates

pub record Subscriber : Type 0 where
  pub publishers_stream : List Bytes
  pub topic : Topic
  pub connected_publishers : List Bytes

-- Why a publisher was not connected to.
pub data ConnectError : Type 0 where
  no_answer : ConnectError
  bad_protocol : Bytes → ConnectError
  io : ConnectError

-- The answer to `requestTopic`: a protocol, a host name and a port.
pub record Answer : Type 0 where
  pub protocol : Bytes
  pub hostname : Bytes
  pub port : ℤ

pub record Network : Type 0 where
  pub request_topic : Bytes → Bytes → Bytes → Option Answer
  pub to_socket_addrs : Bytes → ℕ → Option (List Bytes)

-- `Subscriber::new`, without its threads.
abbrev pub subscriber_new : Bytes → Bytes → Subscriber
subscriber_new topic msg_type = record {
  publishers_stream = [];
  topic = record { name = topic; msg_type = msg_type };
  connected_publishers = [];
}

unfoldable pub connect_to :
    Network → Bytes → Bytes → ℕ → Subscriber → Option ConnectError × Subscriber
connect_to net publisher hostname port s = elim (net.to_socket_addrs hostname port) [
  | none ↦ (some ConnectError.io, s)
  | some addresses ↦ (
    none,
    record s {
      publishers_stream = s.publishers_stream ++ addresses;
      connected_publishers = set_insert publisher s.connected_publishers;
    },
  )
]

unfoldable pub is_connected_to : Bytes → Subscriber → Bool
is_connected_to publisher s = contains publisher s.connected_publishers

abbrev pub remove_each : List Bytes → List Bytes → List Bytes
remove_each [] set = set
remove_each (item ∷ items) set = remove_each items (set_remove item set)

unfoldable pub limit_publishers_to : List Bytes → Subscriber → Subscriber
limit_publishers_to publishers s = record s {
  connected_publishers =
      remove_each (difference s.connected_publishers publishers) s.connected_publishers;
}

-- `as u16`.
abbrev pub as_u16 : ℤ → ℕ
as_u16 (pos n) = n % 65_536
as_u16 (negsuc n) = 65_535 - n % 65_536

unfoldable pub connect_to_publisher :
    Network → Bytes → Bytes → Bytes → Subscriber → Option ConnectError × Subscriber
unfolding is_connected_to connect_to
connect_to_publisher net caller_id publisher topic s =
    if is_connected_to publisher s
    then (none, s)
    else elim (net.request_topic publisher caller_id topic) [
      | none ↦ (some ConnectError.no_answer, s)
      | some a ↦
          if equal a.protocol (codes "TCPROS")
          then connect_to net publisher a.hostname (as_u16 a.port) s
          else (some (ConnectError.bad_protocol a.protocol), s)
    ]

-- The loop of `add_publishers`, which ends at the first error.
unfoldable pub connect_each :
    Network → Bytes → Bytes → List Bytes → Subscriber → Option ConnectError × Subscriber
unfolding connect_to_publisher
connect_each net name topic [] s = (none, s)
connect_each net name topic (publisher ∷ publishers) s =
    let (e, s') = connect_to_publisher net name publisher topic s in
    let (e', s'') = connect_each net name topic publishers s' in
    elim e [ none ↦ (e', s'') | some error ↦ (some error, s') ]

-- What `add_publishers` does to a subscription that is there.
unfoldable pub update_publishers :
    Network → Bytes → Bytes → List Bytes → Subscriber → Option ConnectError × Subscriber
unfolding connect_each limit_publishers_to
update_publishers net name topic publishers s =
    let publisher_set = collect publishers in
    connect_each net name topic publisher_set (limit_publishers_to publisher_set s)

unfoldable pub add_publishers :
    Network → Bytes → Bytes → List Bytes → Table Subscriber → Option ConnectError × Table Subscriber
unfolding update_publishers
add_publishers net topic name publishers mapping = elim (find topic mapping) [
  | none ↦ (none, mapping)
  | some s ↦
      let (e, s') = update_publishers net name topic publishers s in (e, write topic s' mapping)
]

abbrev pub topics_of : List Subscriber → List Topic
topics_of [] = []
topics_of (s ∷ subscribers) = s.topic ∷ topics_of subscribers

unfoldable pub subscribed_topics : Table Subscriber → List Topic
subscribed_topics mapping = topics_of (table_values mapping)

-- `SubscriptionsTracker::add`: none is the error of a duplicate.
unfoldable pub add_subscription : Bytes → Bytes → Table Subscriber → Option (Table Subscriber)
add_subscription topic msg_type mapping = elim (find topic mapping) [
  | none ↦ some (mapping ++ ((topic, subscriber_new topic msg_type) ∷ []))
  | some _ ↦ none
]

unfoldable pub remove_subscription : Bytes → Table Subscriber → Table Subscriber
remove_subscription topic mapping = table_remove topic mapping

unfoldable pub publisher_uris : Bytes → Table Subscriber → List Bytes
publisher_uris topic mapping = elim (find topic mapping) [
  | none ↦ []
  | some s ↦ s.connected_publishers
]

unfoldable pub publisher_count : Bytes → Table Subscriber → ℕ
publisher_count topic mapping = elim (find topic mapping) [
  | none ↦ 0
  | some s ↦ length s.connected_publishers
]
