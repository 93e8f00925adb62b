-- ===== src/Orchestrator/Graph/Kahn.antt =====
-- TopologicalSort of pkg/orchestrator/dependency.go: Kahn's algorithm, batch by batch.
use apirun.Prelude.{
  ℕ, zero, suc, String, Option, none, some, List, [], ◌∷◌, ◌==◌, length, lookup, snoc, keep, eqb, ℤ,
  pos, pred_ℤ, is_zero_ℤ, Result, ok, err, if◌then◌else◌,
}
use apirun.Prelude.Sorting.{sort_strings}
use apirun.Orchestrator.Graph.{
  DependencyGraph, GraphError, circular_dependency, contains_cycles, names, edges_of,
}
use apirun.Orchestrator.Graph.Cycle.{found, clear, out_of_fuel, detect_cycle}

-- The map `inDegree`, with the zero value for a missing name.
abbrev pub Degrees : Type 0
Degrees = String → ℤ

unfoldable pub in_degrees : DependencyGraph → Degrees
in_degrees g name = elim (lookup name g.nodes) [ none ↦ pos 0 | some node ↦ pos node.in_degree ]

-- inDegree[name]--
abbrev pub reduce : Degrees → String → Degrees
reduce d name = λ m. if name == m then pred_ℤ (d m) else d m

pub record KahnState : Type 0 where
  pub degree : Degrees
  pub queue : List String
  pub result : List String

-- The loop over the neighbors of one node.
unfoldable pub reduce_neighbors : List String → KahnState → KahnState
reduce_neighbors [] s = s
reduce_neighbors (n ∷ ns) s =
    let d = reduce s.degree n in
    reduce_neighbors ns
      (record s { degree = d; queue = if is_zero_ℤ (d n) then snoc s.queue n else s.queue })

-- The loop over the nodes of one batch.
unfoldable pub process_batch : DependencyGraph → List String → KahnState → KahnState
process_batch g [] s = s
process_batch g (current ∷ batch) s =
    process_batch g batch
      (reduce_neighbors (edges_of g current) (record s { result = snoc s.result current }))

-- The loop `for len(queue) > 0`; `none` means that the fuel ran out.
unfoldable pub sort_loop : ℕ → DependencyGraph → KahnState → Option (List String)
sort_loop zero g s = none
sort_loop (suc fuel) g s = elim s.queue [
  | [] ↦ some s.result
  | q ∷ qs ↦ sort_loop fuel g (process_batch g (sort_strings s.queue) (record s { queue = [] }))
]

abbrev pub sort_start : DependencyGraph → KahnState
sort_start g =
    let d = in_degrees g in
    record {
      degree = d;
      queue = sort_strings (keep (λ name. is_zero_ℤ (d name)) (names g));
      result = [];
    }

-- The part behind the search for a cycle.
unfoldable pub kahn : DependencyGraph → Option (Result GraphError (List String))
kahn g = elim (sort_loop (suc (length g.nodes)) g (sort_start g)) [
  | none ↦ none
  | some result ↦
      some (if eqb (length result) (length g.nodes) then ok result else err contains_cycles)
]

-- TopologicalSort
unfoldable pub topological_sort :
    DependencyGraph → List String → Option (Result GraphError (List String))
topological_sort g order = elim (detect_cycle g order) [
  | found cycle ↦ some (err (circular_dependency cycle))
  | clear ↦ kahn g
  | out_of_fuel ↦ none
]
