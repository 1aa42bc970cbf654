-- ===== src/Policy.antt =====
-- The permission policy: src/policy.
pub mod Types
pub mod Ladder
pub mod Env
pub mod Floor
pub mod Classify
pub mod ScanScript
pub mod Refusal
mod Tests
