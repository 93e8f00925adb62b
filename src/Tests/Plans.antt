-- ===== src/Tests/Plans.antt =====
-- Configurations, execution plans and retries at small inputs.
use apirun.Prelude.{
  ℕ, zero, suc, String, ◌≡◌, ◌↔◌, refl, List, [], ◌∷◌, elem, ok, Option, none, some, insert, lookup,
  keep, Distinct, any, pos, contains, has_prefix,
}
use apirun.Prelude.Sorting.{sort_by, insert_sorted, str_leb}
use mathlib.Core.List.{reverse}
use apirun.Orchestrator.Graph.{
  add_stage, edges_of, add_dependency, add_dependencies, add_stages, add_all_dependencies,
  build_graph, names,
}
use apirun.Orchestrator.Graph.WellFormed.{IsWellFormed, build_graph-IsWellFormed}
use apirun.Orchestrator.Graph.Cycle.{
  index_of, continue, visit_unless, dfs_neighbors, leave, dfs_detect_cycle, detect_from,
  detect_cycle,
}
use apirun.Orchestrator.Graph.Kahn.{
  in_degrees, reduce_neighbors, process_batch, sort_loop, kahn, topological_sort,
}
use apirun.Orchestrator.Graph.Batches.{
  reduce_all, mark_processed, mark_batch, next_batch, batch_loop, get_batches,
}
use apirun.Orchestrator.Loader.{
  valid_on_failure, validate_stage, validate_stages, check_dependencies, check_all_dependencies,
  validate_stage_list,
}
use apirun.Orchestrator.Loader.Valid.{IsValidStages, validate_iff}
use apirun.Orchestrator.Plan.{
  select_range, filter_stages_in_range, filter_stages_in_range_down, restrict_batches, plan_batches,
  get_filtered_batches, get_down_order,
}
use apirun.Orchestrator.Plan.UpPlan.{IsPlan, get_filtered_batches-IsPlan}
use apirun.Orchestrator.Plan.DownPlan.{Descends, get_down_order-Descends}
use apirun.Prelude.{◌⊎◌, err, true, false, joined}
use apirun.Orchestrator.Types.{StageOrchestration}
use apirun.Orchestrator.Loader.{LoadError, Platform, load_stage_orchestration}
use apirun.Orchestrator.Core.{load_failed, Loaded, load_from_file}
use apirun.Orchestrator.Core.Loads.{Starts, load_from_file-Starts}
use apirun.Retry.{
  DbError, Config, other, with_retry, retry_loop, is_retryable_error, calculate_delay,
}
use apirun.Retry.Attempts.{Succeeds, with_retry-ok_iff}
use apirun.Tests.Samples.{layered, layered_graph}

program : Unit {0}
unfolding build_graph add_stages add_stage add_all_dependencies add_dependencies add_dependency
    edges_of insert lookup elem keep sort_by str_leb insert_sorted index_of continue visit_unless
    dfs_neighbors leave dfs_detect_cycle detect_from detect_cycle in_degrees reduce_neighbors
    process_batch sort_loop kahn topological_sort reduce_all mark_processed mark_batch next_batch
    batch_loop get_batches valid_on_failure validate_stage validate_stages check_dependencies
    check_all_dependencies validate_stage_list select_range filter_stages_in_range
    filter_stages_in_range_down restrict_batches plan_batches get_filtered_batches get_down_order
program = tt

valid : validate_stage_list layered ≡ ok tt
unfolding program
valid = refl

planned :
    get_filtered_batches layered_graph (names layered_graph) (names layered_graph) "docs" "app"
    ≡ some (ok (("docs" ∷ []) ∷ ("app" ∷ []) ∷ []))
unfolding program
planned = refl

planned_down :
    get_down_order layered_graph (names layered_graph) "app" "base"
    ≡ some (ok ("app" ∷ "docs" ∷ []))
unfolding program
planned_down = refl

layered-IsWellFormed : IsWellFormed layered_graph
unfolding program
layered-IsWellFormed = build_graph-IsWellFormed layered refl

validate_iff_example : (validate_stage_list layered ≡ ok tt) ↔ IsValidStages layered
validate_iff_example = validate_iff layered

two-Distinct : Distinct ("base" ∷ "app" ∷ "web" ∷ [])
unfolding elem
two-Distinct = (refl, (refl, (refl, tt)))

get_filtered_batches-IsPlan_example :
    (order : List String) × (topological_sort layered_graph (names layered_graph) ≡ some (ok order))
    × IsPlan layered_graph
        (filter_stages_in_range order "docs" "app")
        (("docs" ∷ []) ∷ ("app" ∷ []) ∷ [])
get_filtered_batches-IsPlan_example =
    get_filtered_batches-IsPlan layered_graph layered-IsWellFormed (names layered_graph)
      (names layered_graph) (λ m. refl) (λ m. refl) "docs" "app" (("docs" ∷ []) ∷ ("app" ∷ []) ∷ [])
      planned

get_down_order-Descends_example :
    (order : List String) × (topological_sort layered_graph (names layered_graph) ≡ some (ok order))
    × ("app" ∷ "docs" ∷ [] ≡ filter_stages_in_range_down (reverse order) "app" "base")
    × Descends layered_graph ("app" ∷ "docs" ∷ [])
get_down_order-Descends_example =
    get_down_order-Descends layered_graph layered-IsWellFormed (names layered_graph) (λ m. refl)
      "app" "base" ("app" ∷ "docs" ∷ []) planned_down

-- Two attempts fail, and the next one succeeds.
abbrev settings : Config
settings = record {
  max_retries = pos 3;
  initial_delay = pos 100;
  max_delay = pos 500;
  scale = λ d n. d;
  retryable_errors = "locked" ∷ [];
  to_lower = λ s. s;
}

abbrev flaky : ℕ → Option DbError × ℕ
flaky zero = (some (record { kind = other; message = "database is locked" }), 1)
flaky (suc zero) = (some (record { kind = other; message = "locked" }), 2)
flaky (suc (suc n)) = (none, suc (suc (suc n)))

with_retry-ok_iff_example :
    (with_retry settings flaky (λ d n. (none, n)) 0 ≡ (none, 3))
    ↔ Succeeds settings flaky (λ d n. (none, n)) 4 0 0 3
with_retry-ok_iff_example = with_retry-ok_iff settings flaky (λ d n. (none, n)) 0 3

retried : with_retry settings flaky (λ d n. (none, n)) 0 ≡ (none, 3)
unfolding with_retry retry_loop is_retryable_error any contains has_prefix calculate_delay
retried = refl

counts : (n : ℕ) → (flaky n).1 ≡ suc n
counts zero = refl
counts (suc zero) = refl
counts (suc (suc n)) = refl

-- The decoded file is `layered`.
abbrev platform : Platform
platform = record {
  clean = λ path. path;
  dir = λ path. "stages";
  is_abs = λ path. false;
  join = λ base path. joined base (joined "/" path);
  exists = λ path. true;
  read_orchestration = λ path. ok (record {
    api_version = "";
    kind = "";
    stages = layered;
    global = record { env = []; wait_between_stages = pos 0 };
  });
}

load_from_file-Starts_example :
    ((e : LoadError) × (load_stage_orchestration platform "stages.yaml" ≡ err e)
      × (load_from_file platform "stages.yaml" ≡ err (load_failed e)))
    ⊎ ((config : StageOrchestration) × (load_stage_orchestration platform "stages.yaml" ≡ ok config)
        × (l : Loaded) × (load_from_file platform "stages.yaml" ≡ ok l)
        × Starts config l)
load_from_file-Starts_example = load_from_file-Starts platform "stages.yaml"
