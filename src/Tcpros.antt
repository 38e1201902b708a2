-- ===== src/Tcpros.antt =====
-- Connections between nodes: rosrust/src/tcpros, with the queues of rosrust/src/util. What is sent
-- over a connection is the bytes that the other side reads.
pub mod Fork
pub mod Header
pub mod Topic
pub mod Service
mod Tests
