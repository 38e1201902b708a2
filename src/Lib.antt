-- ===== src/Lib.antt =====
-- Verification of rosrust, a client library of the Robot Operating System, and of its action
-- protocol in rosrust_actionlib.
--
-- The parts of the program that are modelled, and where:
--   * Prelude: numbers, tests, lists, texts as bytes, and integers, that the other files share.
--   * Naming models rosrust/src/api/naming. Naming/Path.antt is path.rs and error.rs: `from_str`,
--     `process_name`, `parent`, `display`, the addition of paths. Naming/Mapper.antt is mapper.rs:
--     `add` and `translate` on the tree of remappings. Naming/Resolver.antt is mod.rs: `new`, `map`,
--     `resolve`, `translate`.
--   * Time models rosrust/src/time.rs with its casts: a `u32` is a number below 2 ^ 32, an `i32` and
--     an `i64` are integers, whose range is a hypothesis or a conclusion where it matters.
--   * Action models rosrust_actionlib/src. Action/Goal.antt is goal_status.rs and the records of
--     lib.rs. Action/CommState.antt is the table of states in action_client/comm_state_machine.rs,
--     Action/Client.antt the machine in the same file, with `cancel` and `get_terminal_state` of
--     client_goal_handle.rs; the calls of the handlers are kept in a list. Action/Client/Manager.antt
--     is goal_manager.rs, where a flag says whether a handle still holds a goal. Of action_server,
--     Action/Server/Command.antt is `ActionCommand`, Action/Server/State.antt is status_tracker.rs,
--     Action/Server/List.antt is status_list.rs, Action/Server/Handle.antt is the handle of
--     server_goal_handle.rs with the publishing of mod.rs and status_list.rs, and
--     Action/Server/Coordinator.antt is goal_coordinator.rs.
--     Action/Simple.antt is the simple client of action_client/simple_action_client.rs: its goals, with
--     what their callbacks were called with, are numbered in the order in which they were sent.
--   * Wire models rosrust/src/rosmsg.rs. Wire/Reader.antt is what reads and writes bytes,
--     Wire/Codec.antt the trait `RosMsg` with its implementations, Wire/Map.antt the maps and
--     `match_field` of tcpros/header.rs.
--   * Tcpros models rosrust/src/tcpros: Tcpros/Header.antt is header.rs and error.rs, Tcpros/Topic.antt
--     what publisher.rs and subscriber.rs say to each other, Tcpros/Service.antt what client.rs and
--     service.rs do. A side of a connection is a function from the bytes that it reads to what it makes
--     of them and to the bytes that it sends.
--     The messages of a topic wait in two queues of Queue: that of the publisher's stream, and that of
--     the subscriber. Tcpros/Fork.antt is the thread of util/streamfork.rs that writes to the
--     subscribers.
--   * Codegen models rosrust_codegen/src. Codegen/Scan.antt has the regular expressions of msg.rs,
--     Codegen/Field.antt the types of fields, Codegen/Line.antt the lines of a description,
--     Codegen/Msg.antt the messages, Codegen/Checksums.antt `calculate_md5` of helpers.rs, and
--     Codegen/Collect.antt `get_message_map` and `generate_message_definition` of the same file, with
--     `get_message` in Codegen/Collect/Folders.antt.
--   * Clock models rosrust/src/api/clock.rs, a thread that waits being the number of its parker.
--   * Queue models rosrust/src/util/lossy_channel.rs, the channel being a list.
--   * CommandLine models rosrust/src/api/resolve.rs.
--   * Rpc models rosrust/src/rosxmlrpc: the answers of a server, and what a client reads in them.
--   * Slave models rosrust/src/api/slave. Slave/Subscriptions.antt is subscriptions.rs with the set of
--     publishers in tcpros/subscriber.rs, Slave/Publications.antt is publications.rs with the making of
--     a publisher and of its streams in tcpros/publisher.rs, and Slave/Handler.antt is handler.rs.
--   * Diagnostics models rosrust_diagnostics/src. Diagnostics.antt is lib.rs and status.rs,
--     Diagnostics/Composite.antt the tasks that have no state, Diagnostics/Updater.antt is updater.rs,
--     Diagnostics/Timestamp.antt and Diagnostics/Frequency.antt the two tasks that have one. A task is
--     its name and a function on statuses; the two with a state give back the new one.
--
-- The wire format is what the parts meet in: the headers of Tcpros are maps of Wire, and a message
-- of a topic or a service is any `RosMsg` of Wire, of which a theorem assumes that it is read back.
--
-- A node's handler works on the tables of Slave and answers with Rpc, by which a peer's subscription asks
-- for the port that Tcpros connects to.
--
-- The client and the server share no state: they meet in the states of a goal, which the server
-- publishes and the client's table reads. Within the server the list and the handles share the
-- trackers of goals: these live in a store, a function from numbers to trackers, and the list and a
-- handle hold a number. A `BTreeMap` is an association list in the order of its keys.
--
-- What other packages give is a parameter: the numbers of the states in the message package, which
-- are different for different states; the clock's readings; whether a publisher takes a message;
-- the callbacks of the server, functions on its state that may fail, of which a theorem may assume
-- that they keep an invariant. A handler of the server reads the clock at most twice here: once for
-- the state, and once for the stamp of a message. A mutex is a step that is not interrupted. The
-- packages byteorder and md5 are parameters too, the first with the order of its bytes.
--
-- Fuel: the printing of a number has 20 digits, enough for every `usize`; the trimming of a prefix,
-- which is not empty, has the length of the text. The loop over the rows of a
-- map has one more than the bytes of its part, as each row takes four; the loop over the messages whose
-- checksums are computed has one more than the messages, as each turn but the last adds a checksum; the
-- loop over the packages of a connection has one more than the messages sent. The first two are proved
-- to be enough for every input. The loop of `get_message_map` need not end: a service that names itself
-- is looked up for ever. It is proved to end where no message contains itself, with one more fuel than
-- the names that it comes to look at.
--
-- Numbers of type `f64` are a record of their operations in Time/Seconds.antt, of which a theorem may
-- assume what `min` and `max` do to limits, which holds for NaN too.
--
-- Not modelled: sockets and threads, the master's and the parameter server's calls, and macros,
-- which are input and output; the real clock; the routines of rosmsg.rs that copy the memory of a
-- vector; the caller ids that go with a subscriber's packages; the table of services of a node, and the
-- code that is generated for messages.
pub mod Prelude
pub mod Naming
pub mod Time
pub mod Action
pub mod Wire
pub mod Tcpros
pub mod Codegen
pub mod Clock
pub mod Queue
pub mod Rpc
pub mod Slave
pub mod Diagnostics
pub mod CommandLine
