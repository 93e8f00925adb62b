-- ===== src/Orchestrator/Types.antt =====
-- pkg/orchestrator/types.go. A nil map is an empty one: the program only ranges over it, looks
-- names up in it and tests its length. Durations are in nanoseconds. The time stamps of a stage's
-- result are left out: nothing reads them back.
use apirun.Prelude.{String, Bool, List, Map, ℤ}

pub record EnvFromStage : Type 0 where
  pub stage : String
  pub vars : List String

pub record Stage : Type 0 where
  pub name : String
  pub config_path : String
  pub depends_on : List String
  pub env : Map String
  pub env_from_stages : List EnvFromStage
  pub condition : String
  pub on_failure : String
  pub timeout : ℤ

pub record Global : Type 0 where
  pub env : Map String
  pub wait_between_stages : ℤ

pub record StageOrchestration : Type 0 where
  pub api_version : String
  pub kind : String
  pub stages : List Stage
  pub global : Global

pub record StageResult : Type 0 where
  pub name : String
  pub success : Bool
  pub error : String
  pub extracted_env : Map String

pub record ExecutionContext : Type 0 where
  pub stage_results : Map StageResult
  pub global_env : Map String
  pub skipped_stages : Map String
