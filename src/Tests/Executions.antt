-- ===== src/Tests/Executions.antt =====
-- Running and rolling back stages at small inputs.
use apirun.Prelude.{
  or_else, String, ◌≡◌, ◌↔◌, refl, true, false, none, some, List, [], ◌∷◌, pos, ok, lookup, ◌==◌,
  elem, insert, if◌then◌else◌, ◌≢◌, arith, eq_iff,
}
use apirun.Orchestrator.Types.{Stage, ExecutionContext}
use apirun.Orchestrator.Graph.{
  build_graph, add_stages, add_stage, add_all_dependencies, add_dependencies, add_dependency,
  edges_of,
}
use apirun.Orchestrator.Graph.Dependents.{get_all_dependents, collect, collect_each}
use apirun.Orchestrator.Graph.Reachable.{DependsOn, get_all_dependents-DependsOn}
use apirun.Orchestrator.Execution.{
  Orchestrator, Runner, Execution, migration_failed, handle_stage_failure, execute_stage,
}
use apirun.Orchestrator.Plan.{get_stage_by_name}
use apirun.Orchestrator.Execution.{
  handled, skip_all, run_stage, prepare_stage, build_stage_environment, set_from_stages, set_all,
  load_stage_config, evaluate_condition, wait_between, collect_extracted,
}
use apirun.Orchestrator.Execution.Batch.{
  all_sent, Steps, launched, run_alone, BatchRuns, alone, StagesRun, finished, continued, done,
}
use apirun.Orchestrator.Execution.Skipping.{up_runs, StagesRun-skips}
use apirun.Orchestrator.Execution.BatchResults.{HasResult, BatchRuns-HasResult}
use apirun.Orchestrator.Execution.Alone.{run_alone-Steps}
use apirun.Orchestrator.Graph.Reachable.{direct}
use apirun.Env.{Env, set_string, str, lookup_var}
use apirun.Prelude.{keys, Distinct}
use apirun.Orchestrator.Execution.{set_vars, build_stage_environment}
use apirun.Orchestrator.Execution.StageEnv.{from_stages, build_stage_environment-lookup_var}
use apirun.Tests.Samples.{stage, layered, layered_graph, circular_graph}

-- The migrations of the stage "app" fail.
abbrev runner : Runner
runner = record {
  read_config = λ p. ok (record { migrate_dir = "migration"; settings = "" });
  dir = λ p. p;
  is_abs = λ p. false;
  join = λ p q. q;
  trim = λ s. s;
  evaluate_template = λ ctx s. false;
  message = λ e. "failed";
  migrate_up = λ trace s env c. ([], if s.name == "app" then some "refused" else none);
  migrate_down = λ trace s env c. if s.name == "app" then some "refused" else none;
  sleep = λ trace d. none;
}

abbrev orchestrator : Orchestrator
orchestrator = record {
  config = record {
    api_version = "apirun/v1";
    kind = "StageOrchestration";
    stages = layered;
    global = record { env = []; wait_between_stages = pos 0 };
  };
  graph = layered_graph;
}

abbrev start : Execution
start = record {
  context = record {
    stage_results = [];
    global_env = [];
    skipped_stages = ("web", "dependency app failed") ∷ [];
  };
  trace = [];
}

abbrev lenient : Stage
lenient = record (stage "base" []) { on_failure = "skip_dependents" }

program : Unit {0}
unfolding build_graph add_stages add_stage add_all_dependencies add_dependencies add_dependency
    edges_of lookup insert elem
program = tt

get_all_dependents-DependsOn_example :
    (result : List String) × (get_all_dependents circular_graph "a" ≡ some result)
    × ((b : String) → (elem b result ≡ true) ↔ DependsOn circular_graph "a" b)
get_all_dependents-DependsOn_example = get_all_dependents-DependsOn circular_graph "a"

-- The stage "base" has failed, and "web" depends on it.
abbrev marked_run : Execution
marked_run = (handled layered_graph lenient (migration_failed "refused") start).1

abbrev web : Stage
web = stage "web" ("app" ∷ "base" ∷ [])

run_program : Unit {0}
unfolding program get_stage_by_name handle_stage_failure get_all_dependents collect collect_each
    skip_all execute_stage run_alone run_stage prepare_stage build_stage_environment set_from_stages
    set_all load_stage_config evaluate_condition wait_between collect_extracted
run_program = tt

web_alone :
    BatchRuns runner orchestrator
      ("web" ∷ [])
      marked_run
      (none, (run_alone runner orchestrator web marked_run).1)
unfolding run_program
web_alone = alone web refl

web_runs :
    StagesRun runner orchestrator
      (("web" ∷ []) ∷ [])
      marked_run
      (none, (run_alone runner orchestrator web marked_run).1)
unfolding run_program
web_runs = continued web_alone refl finished

web-DependsOn : DependsOn layered_graph "base" "web"
unfolding program
web-DependsOn = direct refl

StagesRun-skips_example :
    up_runs "web" (run_alone runner orchestrator web marked_run).1 ≡ up_runs "web" start
StagesRun-skips_example =
    StagesRun-skips runner orchestrator lenient (migration_failed "refused") start
      (("web" ∷ []) ∷ []) (none, (run_alone runner orchestrator web marked_run).1) "web" refl
      web-DependsOn web_runs

web_found : (n : String) → elem n ("web" ∷ []) ≡ true → get_stage_by_name layered n ≢ none
unfolding elem get_stage_by_name
web_found n e f = ground (arith, eq_iff "web" n)

web_elem : elem "web" ("web" ∷ []) ≡ true
unfolding program
web_elem = refl

BatchRuns-HasResult_example : HasResult "web" (run_alone runner orchestrator web marked_run).1
BatchRuns-HasResult_example =
    BatchRuns-HasResult runner orchestrator web_alone web_found "web" web_elem

run_alone-Steps_run :
    Steps runner orchestrator (launched runner orchestrator (web ∷ []) start) (record {
      routines = record { stage = web; phase = done } ∷ [];
      shared = (run_alone runner orchestrator web start).1;
      errors = all_sent (run_alone runner orchestrator web start).0;
    })
run_alone-Steps_run = run_alone-Steps runner orchestrator web start

run_alone-Steps_example :
    Steps runner orchestrator (launched runner orchestrator (web ∷ []) start) (record {
      routines = record { stage = web; phase = done } ∷ [];
      shared = (run_alone runner orchestrator web start).1;
      errors = all_sent (run_alone runner orchestrator web start).0;
    })
run_alone-Steps_example = run_alone-Steps runner orchestrator web start

-- The stage "db" has extracted a variable that "app" asks for.
abbrev after_db : ExecutionContext
after_db = record {
  stage_results =
      (
        "db",
        record { name = "db"; success = true; error = ""; extracted_env = ("url", "db:5432") ∷ [] },
      )
      ∷ [];
  global_env = ("url", "none") ∷ ("host", "example.org") ∷ [];
  skipped_stages = [];
}

abbrev asking : Stage
asking = record (stage "app" ("db" ∷ [])) {
  env = ("host", "localhost") ∷ [];
  env_from_stages = record { stage = "db"; vars = "url" ∷ [] } ∷ [];
}

abbrev asked_env : Env
asked_env = record {
  auth = [];
  global = ("url", str "none") ∷ ("host", str "example.org") ∷ [];
  local = ("host", str "localhost") ∷ ("url", str "db:5432") ∷ [];
  sealed = false;
}

asked : build_stage_environment after_db asking ≡ ok asked_env
unfolding run_program set_vars set_string insert
asked = refl

asking-Distinct : Distinct (keys asking.env)
unfolding program
asking-Distinct = (refl, tt)

globals-Distinct : Distinct (keys after_db.global_env)
unfolding program
globals-Distinct = (refl, (refl, tt))

build_stage_environment-lookup_var_example :
    lookup_var (λ s. s) "url" asked_env
    ≡ or_else
        (from_stages after_db.stage_results asking.env_from_stages "url")
        (or_else (lookup "url" asking.env) (lookup "url" after_db.global_env))
build_stage_environment-lookup_var_example =
    build_stage_environment-lookup_var (λ s. s) after_db asking asked_env asking-Distinct
      globals-Distinct asked "url"
