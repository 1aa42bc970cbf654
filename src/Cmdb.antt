-- ===== src/Cmdb.antt =====
-- Relationships of configuration items: src/sn/cmdb.
pub mod Models
pub mod Lookup
pub mod Traverse
mod Tests
