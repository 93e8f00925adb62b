-- ===== src/Orchestrator/Execution.antt =====
-- pkg/orchestrator/orchestrator_execution.go: running one stage, and rolling back stages one by one.
-- The files, the operations on paths, text/template, the migrator of a stage and sleeping are
-- parameters; what the migrators answer may depend on the runs so far, which the execution records.
pub mod Stages
pub mod DownSteps
pub mod Rollback
pub mod Batch
pub mod Skipping
pub mod BatchResults
pub mod Alone
pub mod StageEnv
use apirun.Prelude.{
  ℕ, zero, suc, String, Bool, true, false, ◌&&◌, not, Option, none, some, List, [], ◌∷◌, Map,
  lookup, insert, insert_all, snoc, joined, ℤ, pos, ltb_ℤ, Result, ok, err, ◌>>=◌, wrap, ◌==◌,
  if◌then◌else◌,
}
use apirun.Env.{Env, EnvError, Layer, global_layer, local_layer, new_env, set_string}
use apirun.Orchestrator.Types.{
  EnvFromStage, Stage, Global, StageOrchestration, StageResult, ExecutionContext,
}
use apirun.Orchestrator.Graph.{DependencyGraph, or_nil}
use apirun.Orchestrator.Graph.Dependents.{get_all_dependents}
use apirun.Orchestrator.Plan.{PlanError, get_stage_by_name, get_down_order}

pub record StageConfig : Type 0 where
  pub migrate_dir : String
  -- the fields auth, env and store
  pub settings : String

pub data ExecError : Type 0 where
  plan_failed : PlanError → ExecError
  stage_missing not_executed migration_failed interrupted config_unreadable : String → ExecError
  env_failed config_failed stage_failed : String → ExecError → ExecError

pub data StageRun : Type 0 where
  ran_up ran_down : String → StageRun

pub record Execution : Type 0 where
  pub context : ExecutionContext
  pub trace : List StageRun

pub record Orchestrator : Type 0 where
  pub config : StageOrchestration
  pub graph : DependencyGraph

-- What the orchestrator uses of the operating system, the templates and the migrator: `message` is
-- the text of an error, and `migrate_up` answers the variables that the executions extracted.
pub record Runner : Type 0 where
  pub read_config : String → Result String StageConfig
  pub dir : String → String
  pub is_abs : String → Bool
  pub join : String → String → String
  pub trim : String → String
  pub evaluate_template : ExecutionContext → String → Bool
  pub message : ExecError → String
  pub migrate_up : List StageRun → Stage → Env → StageConfig → List (Map String) × Option String
  pub migrate_down : List StageRun → Stage → Env → StageConfig → Option String
  pub sleep : List StageRun → ℤ → Option String

-- _ = stageEnv.SetString(…): an error leaves the environment as it is.
abbrev pub or_same : Env → Result EnvError Env → Env
or_same e (ok e') = e'
or_same e (err f) = e

unfoldable pub set_all : Layer → Map String → Env → Env
set_all l [] e = e
set_all l ((k, v) ∷ m) e = set_all l m (or_same e (set_string l k v e))

-- The loop over `envFromStage.Vars`.
unfoldable pub set_vars : Map String → List String → Env → Env
set_vars extracted [] e = e
set_vars extracted (name ∷ vars) e = set_vars extracted vars (elim (lookup name extracted) [
  | none ↦ e
  | some v ↦ or_same e (set_string local_layer name v e)
])

unfoldable pub set_from_stages : Map StageResult → List EnvFromStage → Env → Result ExecError Env
set_from_stages results [] e = ok e
set_from_stages results (from ∷ stages) e = elim (lookup from.stage results) [
  | none ↦ err (not_executed from.stage)
  | some result ↦ set_from_stages results stages (set_vars result.extracted_env from.vars e)
]

-- buildStageEnvironmentForDown
unfoldable pub build_stage_environment_for_down : ExecutionContext → Stage → Env
build_stage_environment_for_down ctx stage =
    set_all local_layer stage.env (set_all global_layer ctx.global_env new_env)

-- buildStageEnvironment
unfoldable pub build_stage_environment : ExecutionContext → Stage → Result ExecError Env
build_stage_environment ctx stage =
    set_from_stages ctx.stage_results stage.env_from_stages
      (set_all local_layer stage.env (set_all global_layer ctx.global_env new_env))

-- o.context.SkippedStages[dependent] = …, for each dependent
unfoldable pub skip_all : String → List String → Map String → Map String
skip_all name [] skipped = skipped
skip_all name (dependent ∷ dependents) skipped =
    skip_all name dependents
      (insert dependent (joined "dependency " (joined name " failed")) skipped)

-- handleStageFailure, as the error that it returns and the context that it leaves
unfoldable pub handle_stage_failure :
    DependencyGraph → Stage → ExecError → ExecutionContext → Option ExecError × ExecutionContext
handle_stage_failure g stage e ctx =
    if stage.on_failure == "continue"
    then (none, ctx)
    else if stage.on_failure == "skip_dependents"
    then (
      none,
      record ctx {
        skipped_stages =
            skip_all stage.name (or_nil (get_all_dependents g stage.name)) ctx.skipped_stages;
      },
    )
    else (some (stage_failed stage.name e), ctx)

abbrev pub handled : DependencyGraph → Stage → ExecError → Execution → Option ExecError × Execution
handled g stage e x =
    let (result, ctx) = handle_stage_failure g stage e x.context in
    (result, record x { context = ctx })

abbrev put_result : StageResult → ExecutionContext → ExecutionContext
put_result r ctx = record ctx { stage_results = insert r.name r ctx.stage_results }

-- The variables of all executions; a later one overwrites an earlier one.
unfoldable pub collect_extracted : List (Map String) → Map String → Map String
collect_extracted [] env = env
collect_extracted (m ∷ maps) env = collect_extracted maps (insert_all m env)

module _ (r : Runner) where
  -- evaluateCondition
  unfoldable pub evaluate_condition : ExecutionContext → String → Bool
  evaluate_condition ctx condition =
      let c = r.trim condition in
      if c == ""
      then true
      else if c == "true"
      then true
      else if c == "false"
      then false
      else r.evaluate_template ctx c

  -- loadStageConfig
  unfoldable pub load_stage_config : String → Result ExecError StageConfig
  load_stage_config path = elim (r.read_config path) [
    | err e ↦ err (config_unreadable e)
    | ok c ↦
        if c.migrate_dir == ""
        then ok c
        else if r.is_abs c.migrate_dir
        then ok c
        else ok (record c { migrate_dir = r.join (r.dir path) c.migrate_dir })
  ]

  -- A stage's environment and configuration, or the error that executeStage returns and the one
  -- that it puts into the result.
  unfoldable pub prepare_stage :
      Stage → ExecutionContext → Result (ExecError × ExecError) (Env × StageConfig)
  prepare_stage stage ctx = elim (build_stage_environment ctx stage) [
    | err e ↦ err (env_failed stage.name e, e)
    | ok env ↦ elim (load_stage_config stage.config_path) [
      | err e ↦ err (config_failed stage.name e, e)
      | ok c ↦ ok (env, c)
    ]
  ]

  abbrev failed_result : String → String → StageResult
  failed_result name text = record {
    name = name;
    success = false;
    error = text;
    extracted_env = [];
  }

  abbrev passed_result : String → Map String → StageResult
  passed_result name env = record { name = name; success = true; error = ""; extracted_env = env }

  abbrev finish : StageResult → Option ExecError → Execution → Option ExecError × Execution
  finish result e x = (e, record x { context = put_result result x.context })

  -- executeStage behind the checks on skipping
  unfoldable pub run_stage : Stage → Execution → Option ExecError × Execution
  run_stage stage x = elim (prepare_stage stage x.context) [
    | err (e, cause) ↦ finish (failed_result stage.name (r.message cause)) (some e) x
    | ok (env, c) ↦
        let (extracted, failure) = r.migrate_up x.trace stage env c in
        let x' : Execution = record x { trace = snoc x.trace (ran_up stage.name) } in
        elim failure [
          | some e ↦
              finish (failed_result stage.name (r.message (migration_failed e)))
                (some (migration_failed e)) x'
          | none ↦ finish (passed_result stage.name (collect_extracted extracted [])) none x'
        ]
  ]

  -- executeStage
  unfoldable pub execute_stage : Stage → Execution → Option ExecError × Execution
  execute_stage stage x = elim (lookup stage.name x.context.skipped_stages) [
    | some reason ↦ finish (failed_result stage.name (joined "skipped: " reason)) none x
    | none ↦
        if not (stage.condition == "") && not (evaluate_condition x.context stage.condition)
        then finish (passed_result stage.name []) none x
        else run_stage stage x
  ]

  -- executeStageDown
  unfoldable pub execute_stage_down : Stage → Execution → Option ExecError × Execution
  execute_stage_down stage x = elim (load_stage_config stage.config_path) [
    | err e ↦ (some (config_failed stage.name e), x)
    | ok c ↦
        let failure =
          r.migrate_down x.trace stage (build_stage_environment_for_down x.context stage) c in
        let x' : Execution = record x { trace = snoc x.trace (ran_down stage.name) } in
        elim failure [ none ↦ (none, x') | some e ↦ (some (migration_failed e), x') ]
  ]

  -- The wait behind a stage or a batch that is not the last one.
  unfoldable pub wait_between : Orchestrator → Bool → Execution → Option ExecError
  wait_between o last x =
      if not last && ltb_ℤ (pos 0) o.config.global.wait_between_stages
      then elim (r.sleep x.trace o.config.global.wait_between_stages) [
        | none ↦ none
        | some e ↦ some (interrupted e)
      ]
      else none

  abbrev is_nil : List String → Bool
  is_nil [] = true
  is_nil (n ∷ ns) = false

  -- The loop of ExecuteStagesDown.
  unfoldable pub down_stages : Orchestrator → List String → Execution → Option ExecError × Execution
  down_stages o [] x = (none, x)
  down_stages o (name ∷ names) x = elim (get_stage_by_name o.config.stages name) [
    | none ↦ (some (stage_missing name), x)
    | some stage ↦
        let (failure, x') = execute_stage_down stage x in
        let rest = down_stages o names x' in
        elim failure [
          | some e ↦ handled o.graph stage e x'
          | none ↦ elim (wait_between o (is_nil names) x') [ none ↦ rest | some e ↦ (some e, x') ]
        ]
  ]

  -- ExecuteStagesDown; `none` means that a search ran out of fuel.
  unfoldable pub execute_stages_down :
      Orchestrator
      → List String
      → String
      → String
      → Execution
      → Option (Option ExecError × Execution)
  execute_stages_down o visits from to x = elim (get_down_order o.graph visits from to) [
    | none ↦ none
    | some (err e) ↦ some (some (plan_failed e), x)
    | some (ok names) ↦ some (down_stages o names x)
  ]
