-- ===== src/Naming.antt =====
-- Graph resource names: rosrust/src/api/naming.
pub mod Path
pub mod Mapper
pub mod Resolver
mod Tests
