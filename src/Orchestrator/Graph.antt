-- ===== src/Orchestrator/Graph.antt =====
-- DependencyGraph of pkg/orchestrator/dependency.go: its nodes and edges and how they are built.
-- The flags Visited and InStack of a node are the state of one search (Graph/Cycle.antt): every
-- search resets them before it reads them.
pub mod Cycle
pub mod Kahn
pub mod Batches
pub mod Dependents
pub mod WellFormed
pub mod Pending
pub mod KahnInvariant
pub mod KahnLoop
pub mod CycleSound
pub mod CycleFuel
pub mod CycleComplete
pub mod Order
pub mod BatchOrder
pub mod Built
pub mod Reachable
use apirun.Prelude.{
  ℕ, suc, String, Option, none, some, List, [], ◌∷◌, Map, lookup, insert, keys, snoc, Result, ok,
  err, wrap, ◌>>=◌,
}
use apirun.Orchestrator.Types.{Stage}

pub record GraphNode : Type 0 where
  pub name : String
  pub stage : Stage
  pub in_degree : ℕ

pub record DependencyGraph : Type 0 where
  pub nodes : Map GraphNode
  pub edges : Map (List String)

pub data GraphError : Type 0 where
  stage_not_found : String → GraphError
  failed_dependency : String → String → GraphError → GraphError
  circular_dependency : List String → GraphError
  contains_cycles no_next_batch : GraphError

abbrev pub new_dependency_graph : DependencyGraph
new_dependency_graph = record { nodes = []; edges = [] }

-- AddStage
unfoldable pub add_stage : Stage → DependencyGraph → DependencyGraph
add_stage stage g = elim (lookup stage.name g.nodes) [
  | none ↦ record {
    nodes = insert stage.name (record { name = stage.name; stage = stage; in_degree = 0 }) g.nodes;
    edges = insert stage.name [] g.edges;
  }
  | some node ↦ g
]

abbrev pub or_nil : Option (List String) → List String
or_nil none = []
or_nil (some deps) = deps

-- dg.edges[name], the zero value of a slice where there is no entry
unfoldable pub edges_of : DependencyGraph → String → List String
edges_of g name = or_nil (lookup name g.edges)

-- AddDependency
unfoldable pub add_dependency :
    String → String → DependencyGraph → Result GraphError DependencyGraph
add_dependency from to g = elim (lookup from g.nodes) [
  | none ↦ err (stage_not_found from)
  | some _ ↦ elim (lookup to g.nodes) [
    | none ↦ err (stage_not_found to)
    | some node ↦ ok (record {
      nodes = insert to (record node { in_degree = suc node.in_degree }) g.nodes;
      edges = insert from (snoc (edges_of g from) to) g.edges;
    })
  ]
]

-- The loop over `stage.DependsOn`.
unfoldable pub add_dependencies :
    String → List String → DependencyGraph → Result GraphError DependencyGraph
add_dependencies name [] g = ok g
add_dependencies name (dep ∷ deps) g =
    wrap (failed_dependency dep name) (add_dependency dep name g) >>= add_dependencies name deps

-- The first pass of BuildGraph.
unfoldable pub add_stages : List Stage → DependencyGraph → DependencyGraph
add_stages [] g = g
add_stages (stage ∷ stages) g = add_stages stages (add_stage stage g)

-- The second pass.
unfoldable pub add_all_dependencies :
    List Stage → DependencyGraph → Result GraphError DependencyGraph
add_all_dependencies [] g = ok g
add_all_dependencies (stage ∷ stages) g =
    add_dependencies stage.name stage.depends_on g >>= add_all_dependencies stages

-- BuildGraph
unfoldable pub build_graph : List Stage → DependencyGraph → Result GraphError DependencyGraph
build_graph stages g = add_all_dependencies stages (add_stages stages g)

abbrev pub names : DependencyGraph → List String
names g = keys g.nodes
