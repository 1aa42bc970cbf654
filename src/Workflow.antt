-- ===== src/Workflow.antt =====
-- Legacy workflows: src/sn/workflow.
pub mod Models
pub mod Structure
pub mod Explore
pub mod Paths
pub mod PostDominators
pub mod Build
pub mod Merges
pub mod OutlineItems
pub mod Outline
pub mod BackEdges
mod Tests
