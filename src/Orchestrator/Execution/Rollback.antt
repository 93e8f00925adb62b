-- ===== src/Orchestrator/Execution/Rollback.antt =====
-- What ExecuteStagesDown rolls back before it ends.
use apirun.Prelude.{List}
use apirun.Orchestrator.Execution.{Orchestrator, Execution}
