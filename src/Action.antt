-- ===== src/Action.antt =====
-- The actions of rosrust_actionlib: the messages both sides share, the client and the server.
pub mod Goal
pub mod CommState
pub mod Client
pub mod Simple
pub mod Server
