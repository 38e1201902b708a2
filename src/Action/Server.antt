-- ===== src/Action/Server.antt =====
-- The server side of actions: rosrust_actionlib/src/action_server.
pub mod Command
pub mod Agreement
pub mod State
pub mod List
pub mod Handle
pub mod Coordinator
mod Tests
