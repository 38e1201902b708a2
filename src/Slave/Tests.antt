-- ===== src/Slave/Tests.antt =====
-- Witnesses and tests of the node's methods.
use rosrust.Prelude.{
  ℕ, ◌≡◌, refl, Bool, true, false, Option, none, some, [], ◌∷◌, Bytes, codes, equal,
}
use rosrust.Prelude.Int.{pos}
use rosrust.Rpc.{Value, Values, of_list, ok, CallResult, request_tree_with_tree}
use rosrust.Slave.{Table, find}
use rosrust.Slave.Subscriptions.{Subscriber, Network, Answer, subscriber_new, update_publishers}
use rosrust.Slave.Subscriptions.Updates.{Updates, update_publishers-Updates}
use rosrust.Slave.Publications
use rosrust.Slave.Publications.{Publisher, add, get_port}
use rosrust.Slave.Handler.{Surroundings, Node, handle}
use rosrust.Slave.Handler.Calls.{request-add}
use rosrust.Slave.Handler.Keeps.{Keeps, handle-Keeps}

abbrev show : Values → Bytes
show _ = []

-- A network in which every publisher answers but the one named "b".
abbrev reply : Bool → Option Answer
reply true = none
reply false = some (record { protocol = codes "TCPROS"; hostname = codes "host"; port = pos 9000 })

abbrev net : Network
net = record {
  request_topic = λ publisher caller topic. reply (equal publisher (codes "b"));
  to_socket_addrs = λ host port. some (host ∷ []);
}

abbrev chatter : Subscriber
chatter = record (subscriber_new (codes "/chatter") (codes "std_msgs/String")) {
  connected_publishers = codes "a" ∷ codes "c" ∷ [];
}

update_publishers-Updates_example :
    Updates
      (codes "c" ∷ codes "b" ∷ [])
      chatter
      (update_publishers net (codes "/me") (codes "/chatter") (codes "c" ∷ codes "b" ∷ []) chatter)
update_publishers-Updates_example =
    update_publishers-Updates net (codes "/me") (codes "/chatter") (codes "c" ∷ codes "b" ∷ [])
      chatter

abbrev env : Surroundings
env = record {
  net = net;
  master_uri = codes "http://master:11311/";
  hostname = codes "robot";
  name = codes "/me";
  pid = pos 4242;
  can_shut_down = true;
  show_error = λ e. codes "failed";
}

abbrev node : Node
node = record {
  subscriptions = (codes "/chatter", chatter) ∷ [];
  publications = [];
  is_shutting_down = false;
}

abbrev bind : Bytes → Option ℕ
bind address = some 7000

abbrev published : Table Publisher
published = elim (add bind env.hostname (codes "/scan") (codes "LaserScan") 3 node.publications) [
  | Publications.ok mapping ↦ mapping
  | Publications.err _ ↦ []
]

abbrev wanted : Values
wanted = of_list (
    Value.string (codes "/you")
    ∷ Value.string (codes "/scan")
    ∷ Value.array (of_list (Value.array (of_list (Value.string (codes "TCPROS") ∷ [])) ∷ []))
    ∷ [])

request-add_example :
    (p : Publisher) × (find (codes "/scan") published ≡ some p)
    × (p.topic.msg_type ≡ codes "LaserScan")
    × (request_tree_with_tree show (
          CallResult.values
            (handle env (codes "requestTopic") wanted (record node { publications = published })).0)
        ≡ ok (
            Value.array (
              of_list (
                Value.string (codes "TCPROS")
                ∷ Value.string (codes "robot")
                ∷ Value.int (pos p.port)
                ∷ []))))
unfolding add equal
request-add_example =
    request-add show bind env node (codes "/scan") (codes "LaserScan") (codes "/you") 3 published
      refl

handle-Keeps_example : Keeps Values node (handle env (codes "publisherUpdate") wanted node)
handle-Keeps_example = handle-Keeps env (codes "publisherUpdate") wanted node
