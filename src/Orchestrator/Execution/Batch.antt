-- ===== src/Orchestrator/Execution/Batch.antt =====
-- executeBatch and ExecuteStages of pkg/orchestrator/orchestrator_execution.go. The stages of a
-- batch run in goroutines: each of them goes through phases, one for each section in which it reads
-- or writes the shared context, and any interleaving of their steps may happen. The relations say what
-- a run may do, not that it goes on: locks, the capacity of errCh and the WaitGroup are left out.
use apirun.Prelude.{
  String, ◌≡◌, ◌≢◌, Bool, true, false, ◌&&◌, not, Option, none, some, List, [], ◌∷◌, ◌++◌, All, map,
  lookup, snoc, ok, err, if◌then◌else◌, ◌==◌, joined,
}
use apirun.Env.{Env}
use apirun.Orchestrator.Types.{Stage, StageResult}
use apirun.Orchestrator.Plan.{PlanError, get_stage_by_name, get_filtered_batches}
use apirun.Orchestrator.Execution.{
  Orchestrator, Runner, Execution, ExecError, StageConfig, ran_up, plan_failed, stage_missing,
  migration_failed, failed_result, passed_result, put_result, collect_extracted, evaluate_condition,
  prepare_stage, execute_stage, handled, wait_between,
}

-- Where a goroutine of executeBatch stands in executeStage, and behind it in handleStageFailure.
pub data Phase : Type 0 where
  waiting checked conditioned : Phase
  ready : Env → StageConfig → Phase
  storing : StageResult → Option ExecError → Phase
  failing : ExecError → Phase
  done : Phase

pub record Routine : Type 0 where
  pub stage : Stage
  pub phase : Phase

-- The shared context, and what the goroutines sent to errCh, the first one first.
pub record BatchState : Type 0 where
  pub routines : List Routine
  pub shared : Execution
  pub errors : List ExecError

abbrev pub all_sent : Option ExecError → List ExecError
all_sent none = []
all_sent (some e) = e ∷ []

abbrev pub after_store : Option ExecError → Phase
after_store none = done
after_store (some e) = failing e

module _ (r : Runner) (o : Orchestrator) where
  -- One step of one goroutine: its next phase, what it sends and the context it leaves.
  unfoldable pub advance : Stage → Phase → Execution → Phase × Option ExecError × Execution
  advance stage waiting x = elim (lookup stage.name x.context.skipped_stages) [
    | some reason ↦ (storing (failed_result r stage.name (joined "skipped: " reason)) none, none, x)
    | none ↦ (checked, none, x)
  ]
  advance stage checked x =
      if not (stage.condition == "") && not (evaluate_condition r x.context stage.condition)
      then (storing (passed_result r stage.name []) none, none, x)
      else (conditioned, none, x)
  advance stage conditioned x = elim (prepare_stage r stage x.context) [
    | err (e, cause) ↦ (storing (failed_result r stage.name (r.message cause)) (some e), none, x)
    | ok (env, c) ↦ (ready env c, none, x)
  ]
  advance stage (ready env c) x =
      let (extracted, failure) = r.migrate_up x.trace stage env c in
      let x' : Execution = record x { trace = snoc x.trace (ran_up stage.name) } in
      elim failure [
        | some e ↦ (
          storing (failed_result r stage.name (r.message (migration_failed e)))
              (some (migration_failed e)),
          none,
          x',
        )
        | none ↦
            (storing (passed_result r stage.name (collect_extracted extracted [])) none, none, x')
      ]
  advance stage (storing result e) x =
      (after_store e, none, record x { context = put_result result x.context })
  advance stage (failing e) x = let (sent, x') = handled o.graph stage e x in (done, sent, x')
  advance stage done x = (done, none, x)

  -- A step of a batch: any goroutine that is not done advances.
  pub data Step : BatchState → BatchState → Type 0 where
    step :
        (before later : List Routine) (t : Routine) (x : Execution) (errors : List ExecError)
        → t.phase ≢ done
        → Step
            (record { routines = before ++ t ∷ later; shared = x; errors = errors })
            (record {
              routines =
                  before
                  ++ record { stage = t.stage; phase = (advance t.stage t.phase x).0 } ∷ later;
              shared = (advance t.stage t.phase x).2;
              errors = errors ++ all_sent (advance t.stage t.phase x).1;
            })

  pub data Steps : BatchState → BatchState → Type 0 where
    here : {b : BatchState} → Steps b b
    next : {b c d : BatchState} → Step b c → Steps c d → Steps b d

  abbrev pub launched : List Stage → Execution → BatchState
  launched stages x = record {
    routines = map (λ s. record { stage = s; phase = waiting }) stages;
    shared = x;
    errors = [];
  }

  abbrev pub first_sent : List ExecError → Option ExecError
  first_sent [] = none
  first_sent (e ∷ errors) = some e

  -- The stages of the names, which are all found.
  abbrev pub Found : List String → List Stage → Type 0
  Found [] [] = Unit
  Found [] (s ∷ stages) = ⊥
  Found (n ∷ names) [] = ⊥
  Found (n ∷ names) (s ∷ stages) =
      (get_stage_by_name o.config.stages n ≡ some s) × Found names stages

  -- A batch of one stage runs without a goroutine.
  unfoldable pub run_alone : Stage → Execution → Option ExecError × Execution
  run_alone stage x =
      let (failure, x') = execute_stage r stage x in
      elim failure [ none ↦ (none, x') | some e ↦ handled o.graph stage e x' ]

  -- executeBatch. When a stage is missing, it returns while the goroutines launched so far go on.
  pub data BatchRuns : List String → Execution → Option ExecError × Execution → Type 0 where
    alone :
        {name : String} {x : Execution} (stage : Stage)
        → get_stage_by_name o.config.stages name ≡ some stage
        → BatchRuns (name ∷ []) x (run_alone stage x)
    together :
        {names : List String} {x : Execution} (stages : List Stage) (b : BatchState)
        → ((name : String) → names ≢ name ∷ [])
        → Found names stages
        → Steps (launched stages x) b
        → All (λ t. t.phase ≡ done) b.routines
        → BatchRuns names x (first_sent b.errors, b.shared)
    missing :
        {x : Execution} (found : List String) (name : String) (later : List String)
        (stages : List Stage) (b : BatchState)
        → Found found stages
        → get_stage_by_name o.config.stages name ≡ none
        → Steps (launched stages x) b
        → BatchRuns (found ++ name ∷ later) x (some (stage_missing name), b.shared)

  abbrev pub is_last : List (List String) → Bool
  is_last [] = true
  is_last (b ∷ bs) = false

  -- The loop of ExecuteStages over its batches.
  pub data StagesRun : List (List String) → Execution → Option ExecError × Execution → Type 0 where
    finished : {x : Execution} → StagesRun [] x (none, x)
    failed :
        {batch : List String} {batches : List (List String)} {x x' : Execution} (e : ExecError)
        → BatchRuns batch x (some e, x')
        → StagesRun (batch ∷ batches) x (some e, x')
    woken :
        {batch : List String} {batches : List (List String)} {x x' : Execution} (e : ExecError)
        → BatchRuns batch x (none, x')
        → wait_between r o (is_last batches) x' ≡ some e
        → StagesRun (batch ∷ batches) x (some e, x')
    continued :
        {batch : List String} {batches : List (List String)} {x x' : Execution}
        {out : Option ExecError × Execution}
        → BatchRuns batch x (none, x')
        → wait_between r o (is_last batches) x' ≡ none
        → StagesRun batches x' out
        → StagesRun (batch ∷ batches) x out

  -- ExecuteStages
  pub data ExecuteStages (visits visits' : List String) (from to : String) (x : Execution)
      : Option ExecError × Execution → Type 0 where
    unplanned :
        (e : PlanError)
        → get_filtered_batches o.graph visits visits' from to ≡ some (err e)
        → ExecuteStages visits visits' from to x (some (plan_failed e), x)
    planned :
        (batches : List (List String)) {out : Option ExecError × Execution}
        → get_filtered_batches o.graph visits visits' from to ≡ some (ok batches)
        → StagesRun batches x out
        → ExecuteStages visits visits' from to x out
