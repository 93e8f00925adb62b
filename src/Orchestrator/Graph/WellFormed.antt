-- ===== src/Orchestrator/Graph/WellFormed.antt =====
-- What BuildGraph establishes: every edge ends at a node, and in-degrees count the edges.
use apirun.Prelude.{
  ℕ, suc, ◌+◌, String, ◌≡◌, refl, true, List, [], ◌∷◌, ◌++◌, arith, if◌then◌else◌, elem, elem-snoc,
  elem-keys, elem-keys-insert, Distinct, Distinct-insert, keys, lookup, insert, lookup-insert, Map,
  ◌==◌, eq_iff, pos, ok, wrap, none, some, snoc, Option-cases, inl, inr, ok-injective, wrap-eq-ok,
  >>=-eq-ok, subst,
}
use apirun.Orchestrator.Types.{Stage}
use apirun.Orchestrator.Graph.{
  DependencyGraph, failed_dependency, GraphNode, new_dependency_graph, names, edges_of, or_nil,
  add_stage, add_dependency, add_dependencies, add_stages, add_all_dependencies, build_graph,
}
use apirun.Orchestrator.Graph.Kahn.{in_degrees}

unfoldable pub count : String → List String → ℕ
count m [] = 0
count m (x ∷ xs) = (if x == m then 1 else 0) + count m xs

-- How many edges lead to `m` from names that are not done.
unfoldable pub pending : List String → String → Map (List String) → ℕ
pending done m [] = 0
pending done m ((a, bs) ∷ es) = (if elem a done then 0 else count m bs) + pending done m es

pub record IsWellFormed (g : DependencyGraph) : Type 0 where
  pub distinct_nodes : Distinct (names g)
  pub distinct_edges : Distinct (keys g.edges)
  pub same_names : (a : String) → elem a (names g) ≡ elem a (keys g.edges)
  pub targets : (a b : String) → elem b (edges_of g a) ≡ true → elem b (names g) ≡ true
  pub counted : (m : String) → in_degrees g m ≡ pos (pending [] m g.edges)

count-append : (m : String) (xs ys : List String) → count m (xs ++ ys) ≡ count m xs + count m ys
unfolding count
count-append m [] ys = omega arith
count-append m (x ∷ xs) ys = omega (arith, count-append m xs ys)

pending-insert :
    (m k : String) (v : List String) (es : Map (List String))
    → pending [] m (insert k v es) + count m (or_nil (lookup k es)) ≡ pending [] m es + count m v
unfolding pending insert lookup elem count
pending-insert m k v [] = omega arith
pending-insert m k v ((a, bs) ∷ es) = ground (arith, pending-insert m k v es)

pub IsWellFormed-new : IsWellFormed new_dependency_graph
unfolding pending in_degrees lookup edges_of elem
IsWellFormed-new = record {
  distinct_nodes = tt;
  distinct_edges = tt;
  same_names = λ a. refl;
  targets = λ a b h. h;
  counted = λ m. refl;
}

module _ (g : DependencyGraph) (w : IsWellFormed g) where
  module _ (stage : Stage) where
    added-IsWellFormed :
        lookup stage.name g.nodes ≡ none
        → IsWellFormed (record {
          nodes =
              insert stage.name
                (record { name = stage.name; stage = stage; in_degree = 0 })
                g.nodes;
          edges = insert stage.name [] g.edges;
        })
    unfolding in_degrees edges_of count elem
    added-IsWellFormed absent = record {
      distinct_nodes = Distinct-insert _ _ g.nodes w.distinct_nodes;
      distinct_edges = Distinct-insert _ _ g.edges w.distinct_edges;
      same_names = λ a. ground (
        arith,
        elem-keys-insert a stage.name (record { name = stage.name; stage = stage; in_degree = 0 })
            g.nodes,
        elem-keys-insert a stage.name [] g.edges,
        w.same_names a,
      );
      targets = λ a b h. ground (
        arith,
        lookup-insert stage.name a [] g.edges,
        eq_iff stage.name a,
        elem-keys-insert b stage.name (record { name = stage.name; stage = stage; in_degree = 0 })
            g.nodes,
        w.targets a b,
      );
      counted = λ m. ground (
        arith,
        lookup-insert stage.name m (record { name = stage.name; stage = stage; in_degree = 0 })
            g.nodes,
        eq_iff stage.name m,
        w.counted m,
        pending-insert m stage.name [] g.edges,
        elem-keys stage.name g.nodes,
        elem-keys stage.name g.edges,
        w.same_names stage.name,
      );
    }

    add_stage-IsWellFormed : IsWellFormed (add_stage stage g)
    unfolding add_stage
    add_stage-IsWellFormed = elim (Option-cases (lookup stage.name g.nodes)) [
      | inl e ↦ rw (e, add_stage) (added-IsWellFormed e)
      | inr (node, e) ↦ rw (e, add_stage) w
    ]

  module _ (from to : String) where
    linked-IsWellFormed :
        (source node : GraphNode)
        → lookup from g.nodes ≡ some source
        → lookup to g.nodes ≡ some node
        → IsWellFormed (record {
          nodes = insert to (record node { in_degree = suc node.in_degree }) g.nodes;
          edges = insert from (snoc (edges_of g from) to) g.edges;
        })
    unfolding in_degrees edges_of count elem
    linked-IsWellFormed source node sourced targeted =
        let node' : GraphNode = record node { in_degree = suc node.in_degree } in
        record {
          distinct_nodes = Distinct-insert _ _ g.nodes w.distinct_nodes;
          distinct_edges = Distinct-insert _ _ g.edges w.distinct_edges;
          same_names = λ a. ground (
            arith,
            elem-keys-insert a to node' g.nodes,
            elem-keys-insert a from (snoc (edges_of g from) to) g.edges,
            w.same_names a,
            eq_iff from a,
            eq_iff to a,
            elem-keys from g.nodes,
            elem-keys to g.nodes,
          );
          targets = λ a b h. ground (
            arith,
            lookup-insert from a (snoc (edges_of g from) to) g.edges,
            eq_iff from a,
            elem-keys-insert b to node' g.nodes,
            w.targets a b,
            elem-snoc b to (edges_of g from),
            eq_iff to b,
          );
          counted = λ m. ground (
            arith,
            lookup-insert to m node' g.nodes,
            eq_iff to m,
            w.counted m,
            pending-insert m from (snoc (edges_of g from) to) g.edges,
            count-append m (edges_of g from) (to ∷ []),
          );
        }

    add_dependency-IsWellFormed :
        {h : DependencyGraph} → add_dependency from to g ≡ ok h → IsWellFormed h
    unfolding add_dependency
    add_dependency-IsWellFormed e = elim (Option-cases (lookup from g.nodes)) [
      | inl f ↦ cc (rw (f, add_dependency) at e)
      | inr (source, f) ↦ elim (Option-cases (lookup to g.nodes)) [
        | inl t ↦ cc (rw (f, t, add_dependency) at e)
        | inr (node, t) ↦
            subst IsWellFormed (ok-injective (rw (f, t, add_dependency) at e))
              (linked-IsWellFormed source node f t)
      ]
    ]

add_stages-IsWellFormed :
    (stages : List Stage) (g : DependencyGraph)
    → IsWellFormed g
    → IsWellFormed (add_stages stages g)
unfolding add_stages
add_stages-IsWellFormed [] g w = w
add_stages-IsWellFormed (stage ∷ stages) g w =
    add_stages-IsWellFormed stages (add_stage stage g) (add_stage-IsWellFormed g w stage)

add_dependencies-IsWellFormed :
    (name : String) (deps : List String) (g : DependencyGraph) {h : DependencyGraph}
    → IsWellFormed g
    → add_dependencies name deps g ≡ ok h
    → IsWellFormed h
unfolding add_dependencies
add_dependencies-IsWellFormed name [] g w e = subst IsWellFormed (ok-injective e) w
add_dependencies-IsWellFormed name (dep ∷ deps) g w e =
    let (g', added, rest) =
      >>=-eq-ok (wrap (failed_dependency dep name) (add_dependency dep name g))
        (add_dependencies name deps) e in
    add_dependencies-IsWellFormed name deps g'
      (add_dependency-IsWellFormed g w dep name
        (wrap-eq-ok (failed_dependency dep name) (add_dependency dep name g) added))
      rest

add_all_dependencies-IsWellFormed :
    (stages : List Stage) (g : DependencyGraph) {h : DependencyGraph}
    → IsWellFormed g
    → add_all_dependencies stages g ≡ ok h
    → IsWellFormed h
unfolding add_all_dependencies
add_all_dependencies-IsWellFormed [] g w e = subst IsWellFormed (ok-injective e) w
add_all_dependencies-IsWellFormed (stage ∷ stages) g w e =
    let (g', added, rest) =
      >>=-eq-ok (add_dependencies stage.name stage.depends_on g) (add_all_dependencies stages) e in
    add_all_dependencies-IsWellFormed stages g'
      (add_dependencies-IsWellFormed stage.name stage.depends_on g w added) rest

-- A graph that BuildGraph returns for a list of stages is well formed: names of nodes are
-- pairwise different, nodes and edges have the same keys, every edge ends at a node, and the
-- in-degree of each node is the number of edges that lead to it.
pub build_graph-IsWellFormed :
    (stages : List Stage) {g : DependencyGraph}
    → build_graph stages new_dependency_graph ≡ ok g
    → IsWellFormed g
unfolding build_graph
build_graph-IsWellFormed stages e =
    add_all_dependencies-IsWellFormed stages (add_stages stages new_dependency_graph)
      (add_stages-IsWellFormed stages new_dependency_graph IsWellFormed-new) e
