-- ===== src/Slave/Publications.antt =====
-- The publications of a node: rosrust/src/api/slave/publications.rs, and the publisher of a topic,
-- rosrust/src/tcpros/publisher.rs, without its thread. The queue of a publisher is shared by its
-- streams. The port that the system gives to a new listener, if it gives one, is a parameter.
use rosrust.Prelude.{
  ℕ, not, Option, none, some, List, [], ◌∷◌, ◌++◌, if◌then◌else◌, Bytes, equal, codes,
}
use rosrust.Prelude.Int.{ℤ, pos}
use rosrust.Queue.{LossySender, lossy_channel, set_queue_size_max}
use rosrust.Slave.{Topic, Table, find, write, table_remove, table_values}

pub record Publisher : Type 0 where
  pub subscriptions : LossySender Bytes
  pub port : ℕ
  pub topic : Topic
  pub last_message : Bytes
  pub queue_size : ℕ

pub data PublishError : Type 0 where
  io : PublishError
  message_type_mismatch : Bytes → Bytes → PublishError

pub data Result (A : Type 0) : Type 0 where
  ok : A → Result A
  err : PublishError → Result A

-- `Publisher::new`, for messages of this type.
unfoldable pub publisher_new : (Bytes → Option ℕ) → Bytes → Bytes → Bytes → ℕ → Result Publisher
publisher_new bind address msg_type topic queue_size = elim (bind address) [
  | none ↦ err PublishError.io
  | some port ↦ ok (record {
    subscriptions = lossy_channel queue_size;
    port = port;
    topic = record { name = topic; msg_type = msg_type };
    last_message = [];
    queue_size = queue_size;
  })
]

-- `Publisher::stream` and `PublisherStream::new`, for messages of this type: the publisher, whose queue
-- may now be longer.
unfoldable pub stream : Bytes → ℕ → Publisher → Result Publisher
stream msg_type queue_size p =
    if not (equal p.topic.msg_type msg_type)
    then err (PublishError.message_type_mismatch p.topic.msg_type msg_type)
    else ok (record p {
      subscriptions =
          set_queue_size_max queue_size (set_queue_size_max p.queue_size p.subscriptions);
    })

abbrev names_of : {A : Type 0} → Table A → List Bytes
names_of [] = []
names_of ((name, _) ∷ table) = name ∷ names_of table

abbrev topics_of : List Publisher → List Topic
topics_of [] = []
topics_of (p ∷ publishers) = p.topic ∷ topics_of publishers

unfoldable pub get_topic_names : Table Publisher → List Bytes
get_topic_names mapping = names_of mapping

unfoldable pub get_topics : Table Publisher → List Topic
get_topics mapping = topics_of (table_values mapping)

unfoldable pub get_port : Bytes → Table Publisher → Option ℤ
get_port topic mapping = elim (find topic mapping) [ none ↦ none | some p ↦ some (pos p.port) ]

abbrev pub put : Bytes → Result Publisher → (Publisher → Table Publisher) → Result (Table Publisher)
put topic (ok p) place = ok (place p)
put topic (err e) place = err e

abbrev pub open_ : ℕ → Bytes → Result Publisher → Result Publisher
open_ queue_size msg_type (ok p) = stream msg_type queue_size p
open_ queue_size msg_type (err e) = err e

-- `PublicationsTracker::add`. A publisher that is made has the type that its first stream asks for.
unfoldable pub add :
    (Bytes → Option ℕ) → Bytes → Bytes → Bytes → ℕ → Table Publisher → Result (Table Publisher)
unfolding publisher_new stream
add bind hostname topic msg_type queue_size mapping = elim (find topic mapping) [
  | some p ↦ put topic (stream msg_type queue_size p) (λ q. write topic q mapping)
  | none ↦
      put topic
        (open_ queue_size msg_type
          (publisher_new bind (hostname ++ codes ":0") msg_type topic queue_size))
        (λ q. mapping ++ ((topic, q) ∷ []))
]

unfoldable pub remove : Bytes → Table Publisher → Table Publisher
remove topic mapping = table_remove topic mapping
