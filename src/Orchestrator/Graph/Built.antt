-- ===== src/Orchestrator/Graph/Built.antt =====
-- The graph that BuildGraph builds: its nodes are the stages and its edges their `depends_on`.
use apirun.Prelude.{
  suc, String, ◌≡◌, refl, true, false, Bool, ◌||◌, ◌&&◌, List, [], ◌∷◌, arith, elem, elem-snoc, any,
  elem-keys, elem-keys-insert, keys, lookup, insert, lookup-insert, ◌==◌, eq_iff, ok, wrap, snoc,
  Option-cases, inl, inr, ok-injective, wrap-eq-ok, >>=-eq-ok, subst,
}
use apirun.Orchestrator.Types.{Stage}
use apirun.Orchestrator.Graph.{
  DependencyGraph, failed_dependency, GraphNode, new_dependency_graph, names, edges_of, add_stage,
  add_dependency, add_dependencies, add_stages, add_all_dependencies, build_graph,
}

-- A stage has this name.
unfoldable pub has_stage : List Stage → String → Bool
has_stage stages a = any (λ s. s.name == a) stages

-- A stage named `b` lists `a` among the stages that it depends on.
unfoldable pub depends : List Stage → String → String → Bool
depends stages b a = any (λ s. s.name == b && elem a s.depends_on) stages

-- How a step changes the names and the edges of the graph.
record Adds (g h : DependencyGraph) (node : String → Bool) (edge : String → String → Bool)
    : Type 0 where
  named : (a : String) → elem a (names h) ≡ (elem a (names g) || node a)
  same_names : (a : String) → elem a (names h) ≡ elem a (keys h.edges)
  linked : (a b : String) → elem b (edges_of h a) ≡ (elem b (edges_of g a) || edge a b)

abbrev Matched : DependencyGraph → Type 0
Matched g = (a : String) → elem a (names g) ≡ elem a (keys g.edges)

add_stage-Adds :
    (stage : Stage) (g : DependencyGraph)
    → Matched g
    → Adds g (add_stage stage g) (λ a. stage.name == a) (λ a b. false)
unfolding add_stage edges_of elem
add_stage-Adds stage g m =
    let node : GraphNode = record { name = stage.name; stage = stage; in_degree = 0 } in
    record {
      named = λ a. ground (
        arith,
        elem-keys-insert a stage.name node g.nodes,
        elem-keys stage.name g.nodes,
        eq_iff stage.name a,
      );
      same_names = λ a. ground (
        arith,
        elem-keys-insert a stage.name node g.nodes,
        elem-keys-insert a stage.name [] g.edges,
        m a,
      );
      linked = λ a b. ground (
        arith,
        lookup-insert stage.name a [] g.edges,
        eq_iff stage.name a,
        m stage.name,
        elem-keys stage.name g.nodes,
        elem-keys stage.name g.edges,
      );
    }

add_dependency-Adds :
    (from to : String) (g : DependencyGraph) {h : DependencyGraph}
    → Matched g
    → add_dependency from to g ≡ ok h
    → Adds g h (λ a. false) (λ a b. from == a && to == b)
unfolding add_dependency edges_of
add_dependency-Adds from to g m e = elim (Option-cases (lookup from g.nodes)) [
  | inl f ↦ cc (rw (f, add_dependency) at e)
  | inr (source, f) ↦ elim (Option-cases (lookup to g.nodes)) [
    | inl t ↦ cc (rw (f, t, add_dependency) at e)
    | inr (node, t) ↦
        let node' : GraphNode = record node { in_degree = suc node.in_degree } in
        let deps = snoc (edges_of g from) to in
        subst (λ h. Adds g h (λ a. false) (λ a b. from == a && to == b))
          (ok-injective (rw (f, t, add_dependency) at e))
          (record {
            named = λ a.
                ground
                  (arith, elem-keys-insert a to node' g.nodes, eq_iff to a, elem-keys to g.nodes);
            same_names = λ a. ground (
              arith,
              elem-keys-insert a to node' g.nodes,
              elem-keys-insert a from deps g.edges,
              m a,
              eq_iff to a,
              eq_iff from a,
              elem-keys to g.nodes,
              elem-keys from g.nodes,
            );
            linked = λ a b. ground (
              arith,
              lookup-insert from a deps g.edges,
              eq_iff from a,
              elem-snoc b to (edges_of g from),
            );
          })
  ]
]

add_stages-Adds :
    (stages : List Stage) (g : DependencyGraph)
    → Matched g
    → Adds g (add_stages stages g) (has_stage stages) (λ a b. false)
unfolding add_stages has_stage any
add_stages-Adds [] g m = record {
  named = λ a. ground arith;
  same_names = m;
  linked = λ a b. ground arith;
}
add_stages-Adds (stage ∷ stages) g m =
    let x = add_stage-Adds stage g m in
    let y = add_stages-Adds stages (add_stage stage g) x.same_names in
    record {
      named = λ a. ground (arith, x.named a, y.named a);
      same_names = y.same_names;
      linked = λ a b. ground (arith, x.linked a b, y.linked a b);
    }

add_dependencies-Adds :
    (name : String) (deps : List String) (g : DependencyGraph) {h : DependencyGraph}
    → Matched g
    → add_dependencies name deps g ≡ ok h
    → Adds g h (λ a. false) (λ a b. name == b && elem a deps)
unfolding add_dependencies elem
add_dependencies-Adds name [] g m e =
    subst (λ h. Adds g h (λ a. false) (λ a b. name == b && false)) (ok-injective e)
      (record { named = λ a. ground arith; same_names = m; linked = λ a b. ground arith })
add_dependencies-Adds name (dep ∷ deps) g m e =
    let (g', added, rest) =
      >>=-eq-ok (wrap (failed_dependency dep name) (add_dependency dep name g))
        (add_dependencies name deps) e in
    let x =
      add_dependency-Adds dep name g m
        (wrap-eq-ok (failed_dependency dep name) (add_dependency dep name g) added) in
    let y = add_dependencies-Adds name deps g' x.same_names rest in
    record {
      named = λ a. ground (arith, x.named a, y.named a);
      same_names = y.same_names;
      linked = λ a b. ground (arith, x.linked a b, y.linked a b);
    }

add_all_dependencies-Adds :
    (stages : List Stage) (g : DependencyGraph) {h : DependencyGraph}
    → Matched g
    → add_all_dependencies stages g ≡ ok h
    → Adds g h (λ a. false) (λ a b. depends stages b a)
unfolding add_all_dependencies depends any
add_all_dependencies-Adds [] g m e =
    subst (λ h. Adds g h (λ a. false) (λ a b. false)) (ok-injective e)
      (record { named = λ a. ground arith; same_names = m; linked = λ a b. ground arith })
add_all_dependencies-Adds (stage ∷ stages) g m e =
    let (g', added, rest) =
      >>=-eq-ok (add_dependencies stage.name stage.depends_on g) (add_all_dependencies stages) e in
    let x = add_dependencies-Adds stage.name stage.depends_on g m added in
    let y = add_all_dependencies-Adds stages g' x.same_names rest in
    record {
      named = λ a. ground (arith, x.named a, y.named a);
      same_names = y.same_names;
      linked = λ a b. ground (arith, x.linked a b, y.linked a b);
    }

-- The graph says of the stages what the configuration says.
pub record Mirrors (stages : List Stage) (g : DependencyGraph) : Type 0 where
  pub named : (a : String) → elem a (names g) ≡ has_stage stages a
  pub linked : (a b : String) → elem b (edges_of g a) ≡ depends stages b a

-- The nodes of the graph that BuildGraph returns are the names of the stages, and it has an edge
-- from `a` to `b` exactly when a stage named `b` lists `a` in `depends_on`.
pub build_graph-Mirrors :
    (stages : List Stage) {g : DependencyGraph}
    → build_graph stages new_dependency_graph ≡ ok g
    → Mirrors stages g
unfolding build_graph elem edges_of lookup
build_graph-Mirrors stages {g} e =
    let x = add_stages-Adds stages new_dependency_graph (λ a. refl) in
    let y =
      add_all_dependencies-Adds stages (add_stages stages new_dependency_graph) x.same_names e in
    record {
      named = λ a. ground (arith, x.named a, y.named a);
      linked = λ a b. ground (arith, x.linked a b, y.linked a b);
    }

add_dependency_ok :
    (from to : String) (g : DependencyGraph)
    → elem from (names g) ≡ true
    → elem to (names g) ≡ true
    → (h : DependencyGraph) × (add_dependency from to g ≡ ok h)
unfolding add_dependency
add_dependency_ok from to g f t = elim (Option-cases (lookup from g.nodes)) [
  | inl e ↦ absurd (ground (arith, elem-keys from g.nodes))
  | inr (source, e) ↦ elim (Option-cases (lookup to g.nodes)) [
    | inl e' ↦ absurd (ground (arith, elem-keys to g.nodes))
    | inr (node, e') ↦ (
      record {
        nodes = insert to (record node { in_degree = suc node.in_degree }) g.nodes;
        edges = insert from (snoc (edges_of g from) to) g.edges;
      },
      rw (e, e', add_dependency),
    )
  ]
]

add_dependencies_ok :
    (name : String) (deps : List String) (g : DependencyGraph)
    → Matched g
    → elem name (names g) ≡ true
    → ((a : String) → elem a deps ≡ true → elem a (names g) ≡ true)
    → (h : DependencyGraph) × (add_dependencies name deps g ≡ ok h)
unfolding add_dependencies elem
add_dependencies_ok name [] g m n known = (g, refl)
add_dependencies_ok name (dep ∷ deps) g m n known =
    let (g', e) = add_dependency_ok dep name g (known dep (ground (arith, eq_iff dep dep))) n in
    let x = add_dependency-Adds dep name g m e in
    let (h, e') =
      add_dependencies_ok name deps g' x.same_names (ground (arith, x.named name))
        (λ a d. ground (arith, x.named a, known a)) in
    (h, rw (e, add_dependencies) e')

add_all_dependencies_ok :
    (stages : List Stage) (g : DependencyGraph)
    → Matched g
    → ((a : String) → has_stage stages a ≡ true → elem a (names g) ≡ true)
    → ((a b : String) → depends stages b a ≡ true → elem a (names g) ≡ true)
    → (h : DependencyGraph) × (add_all_dependencies stages g ≡ ok h)
unfolding add_all_dependencies has_stage depends any
add_all_dependencies_ok [] g m n known = (g, refl)
add_all_dependencies_ok (stage ∷ stages) g m n known =
    let here = eq_iff stage.name stage.name in
    let (g', e) =
      add_dependencies_ok stage.name stage.depends_on g m (n stage.name (ground (arith, here)))
        (λ a d. known a stage.name (ground (arith, here))) in
    let x = add_dependencies-Adds stage.name stage.depends_on g m e in
    let (h, e') =
      add_all_dependencies_ok stages g' x.same_names (λ a s. ground (arith, x.named a, n a))
        (λ a b d. ground (arith, x.named a, known a b)) in
    (h, rw (e, add_all_dependencies) e')

-- BuildGraph succeeds when every stage that some stage depends on is there.
pub build_graph_ok :
    (stages : List Stage)
    → ((a b : String) → depends stages b a ≡ true → has_stage stages a ≡ true)
    → (g : DependencyGraph) × (build_graph stages new_dependency_graph ≡ ok g)
unfolding build_graph elem
build_graph_ok stages known =
    let x = add_stages-Adds stages new_dependency_graph (λ a. refl) in
    add_all_dependencies_ok stages (add_stages stages new_dependency_graph) x.same_names
      (λ a s. ground (arith, x.named a)) (λ a b d. ground (arith, x.named a, known a b d))
