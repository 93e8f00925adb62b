-- ===== src/Orchestrator/Core.antt =====
-- NewOrchestrator, initialize and LoadFromFile of pkg/orchestrator/orchestrator_core.go.
pub mod Loads
use apirun.Prelude.{String, [], Result, ok, err}
use apirun.Orchestrator.Types.{StageOrchestration, ExecutionContext}
use apirun.Orchestrator.Graph.{GraphError, new_dependency_graph, build_graph}
use apirun.Orchestrator.Loader.{LoadError, Platform, load_stage_orchestration}
use apirun.Orchestrator.Execution.{Orchestrator}

pub data InitError : Type 0 where
  load_failed : LoadError → InitError
  -- failed to initialize orchestrator: failed to build dependency graph
  graph_failed : GraphError → InitError

-- An orchestrator with its context.
pub record Loaded : Type 0 where
  pub orchestrator : Orchestrator
  pub context : ExecutionContext

unfoldable pub new_orchestrator : StageOrchestration → Loaded
new_orchestrator config = record {
  orchestrator = record { config = config; graph = new_dependency_graph };
  context = record { stage_results = []; global_env = config.global.env; skipped_stages = [] };
}

unfoldable pub initialize : Loaded → Result InitError Loaded
initialize l = elim (build_graph l.orchestrator.config.stages l.orchestrator.graph) [
  | err e ↦ err (graph_failed e)
  | ok g ↦ ok (record l { orchestrator = record l.orchestrator { graph = g } })
]

unfoldable pub load_from_file : Platform → String → Result InitError Loaded
load_from_file p path = elim (load_stage_orchestration p path) [
  | err e ↦ err (load_failed e)
  | ok config ↦ initialize (new_orchestrator config)
]
