-- ===== src/Orchestrator/Plan.antt =====
-- The execution plan of pkg/orchestrator/orchestrator_utils.go: the stages in a range, in batches
-- for up and one by one, in reverse order, for down.
pub mod Slice
pub mod UpPlan
pub mod DownPlan
use apirun.Prelude.{
  ℕ, zero, suc, String, Bool, true, false, ◌&&◌, Option, none, some, List, [], ◌∷◌, length, elem,
  take, drop, keep, leb, map, ◌==◌, Result, ok, err, if◌then◌else◌,
}
use mathlib.Core.List.{reverse}
use apirun.Orchestrator.Types.{Stage}
use apirun.Orchestrator.Graph.{DependencyGraph, GraphError}
use apirun.Orchestrator.Graph.Cycle.{index_of}
use apirun.Orchestrator.Graph.Kahn.{topological_sort}
use apirun.Orchestrator.Graph.Batches.{get_batches}

-- getStageByName: the first stage of that name.
unfoldable pub get_stage_by_name : List Stage → String → Option Stage
get_stage_by_name [] name = none
get_stage_by_name (stage ∷ stages) name =
    let rest = get_stage_by_name stages name in if stage.name == name then some stage else rest

-- order[start:end], after the tests that both ends were found and `start < end`.
unfoldable pub select_range : List String → Option ℕ → Option ℕ → List String
select_range order none end = []
select_range order (some start) none = []
select_range order (some start) (some end) =
    if leb end start then [] else drop start (take end order)

abbrev pub after : Option ℕ → Option ℕ
after none = none
after (some i) = some (suc i)

-- `start` and `fromFound`; `end` and `toFound`. The loops stop at the first match.
abbrev pub range_start : List String → String → Option ℕ
range_start order from = if from == "" then some 0 else index_of from order

abbrev pub range_end : List String → String → Option ℕ
range_end order to = if to == "" then some (length order) else after (index_of to order)

abbrev pub range_end_down : List String → String → Option ℕ
range_end_down order to = if to == "" then some (length order) else index_of to order

-- filterStagesInRange
unfoldable pub filter_stages_in_range : List String → String → String → List String
filter_stages_in_range order from to =
    if from == "" && to == ""
    then order
    else select_range order (range_start order from) (range_end order to)

-- filterStagesInRangeDown: the last stage is left out.
unfoldable pub filter_stages_in_range_down : List String → String → String → List String
filter_stages_in_range_down order from to =
    if from == "" && to == ""
    then order
    else select_range order (range_start order from) (range_end_down order to)

pub data PlanError : Type 0 where
  batches_failed sort_failed : GraphError → PlanError

-- The loops over the batches: batches left empty are dropped.
unfoldable pub restrict_batches : List String → List (List String) → List (List String)
restrict_batches stages [] = []
restrict_batches stages (batch ∷ batches) =
    let rest = restrict_batches stages batches in
    elim (keep (λ stage. elem stage stages) batch) [ [] ↦ rest | s ∷ ss ↦ (s ∷ ss) ∷ rest ]

-- The end of getFilteredBatches, with the two orders at hand.
unfoldable pub plan_batches : List (List String) → List String → List (List String)
plan_batches batches [] = []
plan_batches batches (s ∷ ss) = restrict_batches (s ∷ ss) batches

-- getFilteredBatches; the outer `none` means that a search ran out of fuel. The two searches may
-- visit the nodes in different orders.
unfoldable pub get_filtered_batches :
    DependencyGraph
    → List String
    → List String
    → String
    → String
    → Option (Result PlanError (List (List String)))
get_filtered_batches g visits visits' from to = elim (get_batches g visits) [
  | none ↦ none
  | some (err e) ↦ some (err (batches_failed e))
  | some (ok batches) ↦ elim (topological_sort g visits') [
    | none ↦ none
    | some (err e) ↦ some (err (sort_failed e))
    | some (ok order) ↦ some (ok (plan_batches batches (filter_stages_in_range order from to)))
  ]
]

-- The swap loop turns the order round.
abbrev pub down_order : List String → List String
down_order order = reverse order

-- The stages that ExecuteStagesDown rolls back, in order; also the branch "down" of
-- GetExecutionPlan, before it makes each stage a batch.
unfoldable pub get_down_order :
    DependencyGraph → List String → String → String → Option (Result PlanError (List String))
get_down_order g visits from to = elim (topological_sort g visits) [
  | none ↦ none
  | some (err e) ↦ some (err (sort_failed e))
  | some (ok order) ↦ some (ok (filter_stages_in_range_down (down_order order) from to))
]

unfoldable pub singletons : List String → List (List String)
singletons stages = map (λ stage. stage ∷ []) stages

-- GetExecutionPlan
unfoldable pub get_execution_plan :
    DependencyGraph
    → List String
    → List String
    → String
    → String
    → String
    → Option (Result PlanError (List (List String)))
get_execution_plan g visits visits' from to direction =
    if direction == "down"
    then (elim (get_down_order g visits from to) [
      | none ↦ none
      | some (err e) ↦ some (err e)
      | some (ok stages) ↦ some (ok (singletons stages))
    ])
    else get_filtered_batches g visits visits' from to
