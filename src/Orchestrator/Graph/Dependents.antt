-- ===== src/Orchestrator/Graph/Dependents.antt =====
-- GetStagesByNames, GetDependents and GetAllDependents of pkg/orchestrator/dependency.go.
use apirun.Prelude.{
  ℕ, zero, suc, String, Option, none, some, List, [], ◌∷◌, length, elem, lookup, snoc,
  if◌then◌else◌,
}
use apirun.Orchestrator.Types.{Stage}
use apirun.Orchestrator.Graph.{DependencyGraph, edges_of}

unfoldable pub get_stages_by_names : DependencyGraph → List String → List Stage
get_stages_by_names g [] = []
get_stages_by_names g (name ∷ names) =
    let rest = get_stages_by_names g names in
    elim (lookup name g.nodes) [ none ↦ rest | some node ↦ node.stage ∷ rest ]

-- A copy of the edges of the stage, empty where there is no entry.
unfoldable pub get_dependents : DependencyGraph → String → List String
get_dependents g name = edges_of g name

-- The captured variables `visited` and `result` of the closure `collect`.
pub record Collected : Type 0 where
  pub visited : List String
  pub result : List String

-- The loop over the direct dependents.
unfoldable pub collect_each :
    (String → Collected → Option Collected) → List String → Collected → Option Collected
collect_each collect [] s = some s
collect_each collect (dep ∷ deps) s = elim (collect dep (record s { result = snoc s.result dep })) [
  | none ↦ none
  | some s' ↦ collect_each collect deps s'
]

-- `none` means that the fuel ran out.
unfoldable pub collect : ℕ → DependencyGraph → String → Collected → Option Collected
collect zero g name s = none
collect (suc fuel) g name s =
    let rest =
      collect_each (collect fuel g) (edges_of g name)
        (record s { visited = snoc s.visited name }) in
    if elem name s.visited then some s else rest

-- GetAllDependents
unfoldable pub get_all_dependents : DependencyGraph → String → Option (List String)
get_all_dependents g name =
    elim (collect (suc (suc (length g.edges))) g name (record { visited = []; result = [] })) [
      | none ↦ none
      | some s ↦ some s.result
    ]
