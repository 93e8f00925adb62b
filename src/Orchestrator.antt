-- ===== src/Orchestrator.antt =====
-- pkg/orchestrator: stages with dependencies, ordered and executed.
pub mod Types
pub mod Graph
pub mod Loader
pub mod Plan
pub mod Execution
pub mod Core
