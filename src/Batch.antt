-- ===== src/Batch.antt =====
-- src/sn/batch/BatchOperations.ts: sequential creates and updates.
pub mod Loop
pub mod References
pub mod Create
pub mod Update
pub mod Queries
mod Tests
