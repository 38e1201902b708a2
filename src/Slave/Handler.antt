-- ===== src/Slave/Handler.antt =====
-- The methods that a node serves to its master and its peers: rosrust/src/api/slave/handler.rs. Which
-- of them a call names is looked up in the order of their registration. Whether the signal to shut down
-- can be sent, the process id and the text of an error are parameters.
use rosrust.Prelude.{
  Bool, true, false, ◌||◌, Option, none, some, List, [], ◌∷◌, ◌++◌, if◌then◌else◌, Bytes, equal,
  codes,
}
use rosrust.Prelude.Int.{ℤ, pos}
use rosrust.Rpc.{
  Value, Values, nil, cons, to_list, of_list, Response, ok, err, ResponseError, ◌>>=◌, answer,
  on_missing,
}
use rosrust.Slave.{Topic, Table}
use rosrust.Slave.Subscriptions.{
  Subscriber, Network, ConnectError, add_publishers, subscribed_topics,
}
use rosrust.Slave.Publications.{Publisher, get_topics, get_port}
pub mod Calls
pub mod Keeps

pub record Surroundings : Type 0 where
  pub net : Network
  pub master_uri : Bytes
  pub hostname : Bytes
  pub name : Bytes
  pub pid : ℤ
  pub can_shut_down : Bool
  pub show_error : ConnectError → Bytes

pub record Node : Type 0 where
  pub subscriptions : Table Subscriber
  pub publications : Table Publisher
  pub is_shutting_down : Bool

unfoldable pub unwrap_array_case : Values → Values
unwrap_array_case (cons (Value.array items) _) = items
unwrap_array_case params = params

abbrev client_error : {A : Type 0} → Bytes → Response A
client_error text = err (ResponseError.client text)

abbrev server_error : {A : Type 0} → Bytes → Response A
server_error text = err (ResponseError.server text)

-- The first argument, which may be anything, and then a text: the text, and the arguments left.
unfoldable pub second_text : Bytes → Values → Response (Bytes × Values)
second_text missing nil = client_error (codes "Missing argument 'caller_id'")
second_text missing (cons _ (cons (Value.string text) args)) = ok (text, args)
second_text missing (cons _ _) = client_error missing

unfoldable pub shutdown : Surroundings → Values → Node → Response Value × Node
unfolding unwrap_array_case second_text
shutdown env params node =
    elim (second_text (codes "Missing argument 'message'") (unwrap_array_case params)) [
      | err e ↦ (err e, node)
      | ok _ ↦
          if env.can_shut_down
          then (ok (Value.int (pos 0)), record node { is_shutting_down = true })
          else (server_error (codes "Failed to shut down"), node)
    ]

abbrev topic_value : Topic → Value
topic_value t = Value.array (of_list (Value.string t.name ∷ Value.string t.msg_type ∷ []))

abbrev topic_values : List Topic → Values
topic_values [] = nil
topic_values (t ∷ topics) = cons (topic_value t) (topic_values topics)

-- The argument `publishers`, and its texts.
abbrev texts : Values → Response (List Bytes)
texts nil = ok []
texts (cons (Value.string x) vs) = texts vs >>= λ xs. ok (x ∷ xs)
texts (cons _ vs) = client_error (codes "Publishers need to be strings")

unfoldable pub publishers_argument : Values → Response (List Bytes)
publishers_argument (cons (Value.array publishers) _) = texts publishers
publishers_argument _ = client_error (codes "Missing argument 'publishers'")

unfoldable pub update_arguments : Values → Response (Bytes × List Bytes)
unfolding unwrap_array_case second_text publishers_argument
update_arguments params =
    second_text (codes "Missing argument 'topic'") (unwrap_array_case params) >>= λ p.
    publishers_argument p.1 >>= λ publishers. ok (p.0, publishers)

-- The answer of `publisherUpdate` after `add_publishers`.
abbrev pub updated :
    Surroundings → Node → Option ConnectError × Table Subscriber → Response Value × Node
updated env node (none, mapping) = (ok (Value.int (pos 0)), record node { subscriptions = mapping })
updated env node (some e, mapping) = (
  server_error (codes "Failed to handle publishers: " ++ env.show_error e),
  record node { subscriptions = mapping },
)

unfoldable pub publisher_update : Surroundings → Values → Node → Response Value × Node
unfolding update_arguments add_publishers
publisher_update env params node = elim (update_arguments params) [
  | err e ↦ (err e, node)
  | ok (topic, publishers) ↦
      updated env node (add_publishers env.net topic env.name publishers node.subscriptions)
]

-- The loop over the protocols.
unfoldable pub has_tcpros : Values → Bool
has_tcpros nil = false
has_tcpros (cons (Value.array (cons (Value.string name) _)) protocols) =
    equal name (codes "TCPROS") || has_tcpros protocols
has_tcpros (cons _ protocols) = has_tcpros protocols

unfoldable pub protocols_argument : Values → Response Values
protocols_argument (cons (Value.array protocols) _) = ok protocols
protocols_argument (cons _ _) =
    client_error (codes "Protocols need to be provided as [ [String, XmlRpcLegalValue] ]")
protocols_argument nil = client_error (codes "Missing argument 'protocols'")

-- The answer of `requestTopic`, given the port of the topic.
abbrev offered : Bytes → Values → Option ℤ → Response Value
offered ip protocols none = client_error (codes "Requested topic not published by node")
offered ip protocols (some port) =
    if has_tcpros protocols
    then ok (
        Value.array
          (of_list (Value.string (codes "TCPROS") ∷ Value.string ip ∷ Value.int port ∷ [])))
    else server_error (codes "No matching protocols available")

unfoldable pub request_topic : Surroundings → Values → Node → Response Value
unfolding unwrap_array_case second_text protocols_argument has_tcpros get_port
request_topic env params node =
    second_text (codes "Missing argument 'topic'") (unwrap_array_case params) >>= λ p.
    protocols_argument p.1 >>= λ protocols.
    offered env.hostname protocols (get_port p.0 node.publications)

abbrev not_implemented : Response Value
not_implemented = server_error (codes "Method not implemented")

-- A handler that only reads.
abbrev reads : Node → Response Value → Bytes → Values × Node
reads node response msg = (answer response msg, node)

abbrev pub acts : Response Value × Node → Bytes → Values × Node
acts (response, node) msg = (answer response msg, node)

-- The methods that `SlaveHandler::new` registers.
unfoldable pub handle : Surroundings → Bytes → Values → Node → Values × Node
unfolding shutdown publisher_update request_topic subscribed_topics get_topics
handle env method params node =
    if equal method (codes "getBusStats")
    then reads node not_implemented (codes "Bus stats")
    else if equal method (codes "getBusInfo")
    then reads node not_implemented (codes "Bus info")
    else if equal method (codes "getMasterUri")
    then reads node (ok (Value.string env.master_uri)) (codes "Master URI")
    else if equal method (codes "shutdown")
    then acts (shutdown env params node) (codes "Shutdown")
    else if equal method (codes "getPid")
    then reads node (ok (Value.int env.pid)) (codes "PID")
    else if equal method (codes "getSubscriptions")
    then reads node (ok (Value.array (topic_values (subscribed_topics node.subscriptions))))
        (codes "List of subscriptions")
    else if equal method (codes "getPublications")
    then reads node (ok (Value.array (topic_values (get_topics node.publications))))
        (codes "List of publications")
    else if equal method (codes "paramUpdate")
    then reads node (ok (Value.int (pos 0))) (codes "Parameter updated")
    else if equal method (codes "publisherUpdate")
    then acts (publisher_update env params node) (codes "Publishers updated")
    else if equal method (codes "requestTopic")
    then reads node (request_topic env params node) (codes "Chosen protocol")
    else (on_missing, node)
