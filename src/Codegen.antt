-- ===== src/Codegen.antt =====
-- The descriptions of messages and their checksums: rosrust_codegen/src/msg.rs and helpers.rs. A text
-- is the list of its characters' codes.
pub mod Scan
pub mod Field
pub mod Line
pub mod Msg
pub mod Checksums
pub mod Collect
mod Tests
