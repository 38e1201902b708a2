-- ===== src/Wire.antt =====
-- The binary form of messages: rosrust/src/rosmsg.rs and rosrust/src/tcpros/header.rs.
pub mod Reader
pub mod Codec
pub mod Map
pub mod Sample
mod Tests
