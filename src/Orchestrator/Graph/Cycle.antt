-- ===== src/Orchestrator/Graph/Cycle.antt =====
-- DetectCycle and dfsDetectCycle of pkg/orchestrator/dependency.go: a depth-first search for a
-- circular dependency. Go visits the nodes of its map in an order of its own, so the order is an
-- argument. The depth is bounded by fuel: see Graph/CycleFuel.antt.
use apirun.Prelude.{
  ℕ, zero, suc, String, Bool, true, false, Option, none, some, List, [], ◌∷◌, ◌==◌, length, drop,
  snoc, if◌then◌else◌,
}
use apirun.Orchestrator.Graph.{DependencyGraph, edges_of}

-- The flags Visited and InStack of every node.
pub record Flags : Type 0 where
  pub visited : String → Bool
  pub in_stack : String → Bool

abbrev pub mark : (String → Bool) → String → Bool → String → Bool
mark f name b = λ m. if name == m then b else f m

abbrev pub reset : Flags
reset = record { visited = λ m. false; in_stack = λ m. false }

pub data Search : Type 0 where
  found : List String → Search
  clear out_of_fuel : Search

-- for i, name := range path { if name == neighbor { … break } }
unfoldable pub index_of : String → List String → Option ℕ
index_of name [] = none
index_of name (x ∷ xs) =
    let rest = index_of name xs in
    if x == name then some 0 else elim rest [ none ↦ none | some i ↦ some (suc i) ]

-- A call's outcome: a cycle ends the loop around it.
unfoldable pub continue : Search × Flags → (Flags → Search × Flags) → Search × Flags
continue (found cycle, s) rest = (found cycle, s)
continue (clear, s) rest = rest s
continue (out_of_fuel, s) rest = (out_of_fuel, s)

unfoldable pub visit_unless :
    (String → Flags → Search × Flags) → String → (Flags → Search × Flags) → Flags → Search × Flags
visit_unless visit name rest s = if s.visited name then rest s else continue (visit name s) rest

-- The loop over the neighbors of the last node of `path`.
unfoldable pub dfs_neighbors :
    (String → Flags → Search × Flags) → List String → List String → Flags → Search × Flags
dfs_neighbors visit path [] s = (clear, s)
dfs_neighbors visit path (n ∷ ns) s =
    let rest = λ (s' : Flags). dfs_neighbors visit path ns s' in
    let next = visit_unless visit n rest s in
    if s.in_stack n
    then elim (index_of n path) [ none ↦ next | some i ↦ (found (snoc (drop i path) n), s) ]
    else next

unfoldable pub leave : String → Search × Flags → Search × Flags
leave name (clear, s) = (clear, record s { in_stack = mark s.in_stack name false })
leave name (found cycle, s) = (found cycle, s)
leave name (out_of_fuel, s) = (out_of_fuel, s)

abbrev pub enter : String → Flags → Flags
enter name s = record { visited = mark s.visited name true; in_stack = mark s.in_stack name true }

-- dfsDetectCycle
unfoldable pub dfs_detect_cycle :
    ℕ → DependencyGraph → List String → String → Flags → Search × Flags
dfs_detect_cycle zero g path name s = (out_of_fuel, s)
dfs_detect_cycle (suc fuel) g path name s = leave name (
    dfs_neighbors (dfs_detect_cycle fuel g (snoc path name)) (snoc path name) (edges_of g name)
      (enter name s))

-- The loop over the nodes.
unfoldable pub detect_from :
    (String → Flags → Search × Flags) → List String → Flags → Search × Flags
detect_from visit [] s = (clear, s)
detect_from visit (name ∷ order) s = visit_unless visit name (detect_from visit order) s

-- DetectCycle
unfoldable pub detect_cycle : DependencyGraph → List String → Search
detect_cycle g order = (detect_from (dfs_detect_cycle (length g.nodes) g []) order reset).0
