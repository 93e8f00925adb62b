-- ===== src/Tests/Graphs.antt =====
-- The graph and the plans of small orchestrations.
use apirun.Prelude.{
  String, ◌≡◌, ◌≢◌, ◌⊎◌, refl, List, [], ◌∷◌, elem, ok, err, some, insert, lookup, keep, concat,
}
use apirun.Prelude.Sorting.{sort_by, insert_sorted, str_leb}
use apirun.Orchestrator.Graph.{
  circular_dependency, new_dependency_graph, add_stage, edges_of, add_dependency, add_dependencies,
  add_stages, add_all_dependencies, build_graph, names,
}
use apirun.Orchestrator.Graph.WellFormed.{IsWellFormed, build_graph-IsWellFormed}
use apirun.Orchestrator.Graph.Cycle.{
  found, clear, out_of_fuel, index_of, continue, visit_unless, dfs_neighbors, leave,
  dfs_detect_cycle, detect_from, detect_cycle,
}
use apirun.Orchestrator.Graph.Kahn.{
  in_degrees, reduce_neighbors, process_batch, sort_loop, kahn, topological_sort,
}
use apirun.Orchestrator.Graph.Batches.{
  reduce_all, mark_processed, mark_batch, next_batch, batch_loop, get_batches,
}
use apirun.Orchestrator.Graph.CycleSound.{IsCycle}
use apirun.Orchestrator.Graph.Order.{
  IsTopological, topological_sort-IsTopological, topological_sort_total,
}
use apirun.Orchestrator.Graph.BatchOrder.{BatchesPlaced, get_batches-concat, get_batches_total}
use apirun.Orchestrator.Graph.CycleFuel.{detect_cycle-ne-out_of_fuel}
use apirun.Tests.Samples.{layered, circular, layered_graph, circular_graph}

program : Unit {0}
unfolding build_graph add_stages add_stage add_all_dependencies add_dependencies add_dependency
    edges_of insert lookup elem keep sort_by str_leb insert_sorted index_of continue visit_unless
    dfs_neighbors leave dfs_detect_cycle detect_from detect_cycle in_degrees reduce_neighbors
    process_batch sort_loop kahn topological_sort reduce_all mark_processed mark_batch next_batch
    batch_loop get_batches
program = tt

built : build_graph layered new_dependency_graph ≡ ok layered_graph
unfolding program
built = refl

built_circular : build_graph circular new_dependency_graph ≡ ok circular_graph
unfolding program
built_circular = refl

sorted :
    topological_sort layered_graph (names layered_graph)
    ≡ some (ok ("base" ∷ "docs" ∷ "app" ∷ "web" ∷ []))
unfolding program
sorted = refl

batched :
    get_batches layered_graph (names layered_graph)
    ≡ some (ok (("base" ∷ "docs" ∷ []) ∷ ("app" ∷ []) ∷ ("web" ∷ []) ∷ []))
unfolding program
batched = refl

detected : detect_cycle circular_graph ("b" ∷ "a" ∷ "c" ∷ []) ≡ found ("b" ∷ "a" ∷ "c" ∷ "b" ∷ [])
unfolding program
detected = refl

clear_layered : detect_cycle layered_graph (names layered_graph) ≡ clear
unfolding program
clear_layered = refl

layered-IsWellFormed : IsWellFormed layered_graph
layered-IsWellFormed = build_graph-IsWellFormed layered built

build_graph-IsWellFormed_example : IsWellFormed circular_graph
build_graph-IsWellFormed_example = build_graph-IsWellFormed circular built_circular

detect_cycle-ne-out_of_fuel_example : detect_cycle layered_graph (names layered_graph) ≢ out_of_fuel
detect_cycle-ne-out_of_fuel_example =
    detect_cycle-ne-out_of_fuel layered_graph layered-IsWellFormed (names layered_graph) (λ m e. e)

topological_sort-IsTopological_example :
    IsTopological layered_graph ("base" ∷ "docs" ∷ "app" ∷ "web" ∷ [])
topological_sort-IsTopological_example =
    topological_sort-IsTopological layered_graph layered-IsWellFormed (names layered_graph)
      ("base" ∷ "docs" ∷ "app" ∷ "web" ∷ []) sorted

topological_sort_total_example :
    ((order : List String) × (topological_sort circular_graph (names circular_graph)
        ≡ some (ok order)))
    ⊎ ((cycle : List String) × (topological_sort circular_graph (names circular_graph)
          ≡ some (err (circular_dependency cycle)))
        × IsCycle circular_graph cycle)
topological_sort_total_example =
    topological_sort_total circular_graph (build_graph-IsWellFormed circular built_circular)
      (names circular_graph) (λ m. refl)

get_batches-concat_example :
    (topological_sort layered_graph (names layered_graph)
      ≡ some (ok (concat (("base" ∷ "docs" ∷ []) ∷ ("app" ∷ []) ∷ ("web" ∷ []) ∷ []))))
    × BatchesPlaced layered_graph [] (("base" ∷ "docs" ∷ []) ∷ ("app" ∷ []) ∷ ("web" ∷ []) ∷ [])
get_batches-concat_example =
    get_batches-concat layered_graph layered-IsWellFormed (names layered_graph)
      (names layered_graph) (λ m. refl) (λ m. refl)
      (("base" ∷ "docs" ∷ []) ∷ ("app" ∷ []) ∷ ("web" ∷ []) ∷ []) batched

get_batches_total_example :
    ((order : List String) × (topological_sort layered_graph (names layered_graph)
          ≡ some (ok order)))
      × ((batches : List (List String)) × (get_batches layered_graph (names layered_graph)
            ≡ some (ok batches)))
    ⊎ ((cycle : List String) × (get_batches layered_graph (names layered_graph)
          ≡ some (err (circular_dependency cycle)))
        × IsCycle layered_graph cycle)
get_batches_total_example =
    get_batches_total layered_graph layered-IsWellFormed (names layered_graph) (names layered_graph)
      (λ m. refl) (λ m. refl)
