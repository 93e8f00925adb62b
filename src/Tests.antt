-- ===== src/Tests.antt =====
-- Small inputs, and the theorems at them.
pub mod Samples
pub mod Graphs
pub mod Plans
pub mod Migrations
pub mod Executions
pub mod Texts
pub mod Stores
pub mod Tasks
pub mod Commands
