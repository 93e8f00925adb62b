-- ===== src/Orchestrator/Graph/Batches.antt =====
-- GetBatches of pkg/orchestrator/dependency.go: the stages in groups that may run concurrently.
use apirun.Prelude.{
  ℕ, zero, suc, String, ◌&&◌, not, Option, none, some, List, [], ◌∷◌, length, elem, snoc, keep, ltb,
  is_zero_ℤ, Result, ok, err, if◌then◌else◌,
}
use apirun.Prelude.Sorting.{sort_strings}
use apirun.Orchestrator.Graph.{
  DependencyGraph, GraphError, circular_dependency, no_next_batch, names, edges_of,
}
use apirun.Orchestrator.Graph.Cycle.{found, clear, out_of_fuel, detect_cycle}
use apirun.Orchestrator.Graph.Kahn.{Degrees, in_degrees, reduce}

pub record BatchState : Type 0 where
  pub degree : Degrees
  pub processed : List String
  pub batches : List (List String)

-- inDegree[neighbor]-- for each neighbor
unfoldable pub reduce_all : List String → Degrees → Degrees
reduce_all [] d = d
reduce_all (n ∷ ns) d = reduce_all ns (reduce d n)

-- processed[name] = true: the set keeps one entry for a name.
unfoldable pub mark_processed : String → List String → List String
mark_processed name processed = if elem name processed then processed else snoc processed name

unfoldable pub mark_batch : DependencyGraph → List String → BatchState → BatchState
mark_batch g [] s = s
mark_batch g (name ∷ batch) s = mark_batch g batch (record s {
  degree = reduce_all (edges_of g name) s.degree;
  processed = mark_processed name s.processed;
})

-- The names with no unprocessed dependency, sorted.
unfoldable pub next_batch : DependencyGraph → BatchState → List String
next_batch g s =
    sort_strings (keep (λ name. is_zero_ℤ (s.degree name) && not (elem name s.processed)) (names g))

-- The loop `for len(processed) < len(dg.nodes)`; `none` means that the fuel ran out.
unfoldable pub batch_loop :
    ℕ → DependencyGraph → BatchState → Option (Result GraphError (List (List String)))
batch_loop zero g s = none
batch_loop (suc fuel) g s =
    let batch = next_batch g s in
    let rest =
      batch_loop fuel g (mark_batch g batch (record s { batches = snoc s.batches batch })) in
    if ltb (length s.processed) (length g.nodes)
    then elim batch [ [] ↦ some (err no_next_batch) | _ ↦ rest ]
    else some (ok s.batches)

abbrev pub batch_start : DependencyGraph → BatchState
batch_start g = record { degree = in_degrees g; processed = []; batches = [] }

-- GetBatches
unfoldable pub get_batches :
    DependencyGraph → List String → Option (Result GraphError (List (List String)))
get_batches g order = elim (detect_cycle g order) [
  | found cycle ↦ some (err (circular_dependency cycle))
  | clear ↦ batch_loop (suc (length g.nodes)) g (batch_start g)
  | out_of_fuel ↦ none
]
