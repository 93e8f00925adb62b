-- ===== src/Migration.antt =====
-- internal/migration: planning and running migrations.
pub mod Types
pub mod Planning
pub mod Files
pub mod TaskEnv
pub mod Up
pub mod Down
pub mod Planned
pub mod UpSteps
pub mod UpLoop
pub mod UpRuns
pub mod UpAgain
pub mod DownSteps
pub mod DownRuns
pub mod DownAll
pub mod DryRun
