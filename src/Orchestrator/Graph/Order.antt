-- ===== src/Orchestrator/Graph/Order.antt =====
-- What TopologicalSort returns.
use apirun.Prelude.{
  ℕ, zero, suc, ◌-◌, ◌≤◌, ◌<◌, String, ◌≡◌, ◌↔◌, ◌⊎◌, refl, true, false, ◌||◌, Bool-cases, List, [],
  ◌∷◌, ◌++◌, arith, if◌then◌else◌, elem, elem-snoc, elem-keys, ◌==◌, eq_iff, some, snoc, eqb, ltb,
  Distinct, ok, err, some-ok-injective, eqb_iff, elem_of_length, length-le_of_subset, subst, length,
  length-keys, inl, inr,
}
use apirun.Orchestrator.Graph.{DependencyGraph, circular_dependency, edges_of, names}
use apirun.Orchestrator.Graph.WellFormed.{IsWellFormed, pending}
use apirun.Orchestrator.Graph.Pending.{IsEdge, Placed, pending-zero}
use apirun.Orchestrator.Graph.Cycle.{Search, found, clear, out_of_fuel, detect_cycle}
use apirun.Orchestrator.Graph.CycleSound.{Walk, IsCycle, detect_cycle-IsCycle}
use apirun.Orchestrator.Graph.CycleFuel.{detect_cycle-ne-out_of_fuel}
use apirun.Orchestrator.Graph.CycleComplete.{Finished, detect_cycle-Finished}
use apirun.Orchestrator.Graph.Kahn.{KahnState, sort_loop, sort_start, kahn, topological_sort}
use apirun.Orchestrator.Graph.KahnInvariant.{IsKahn}
use apirun.Orchestrator.Graph.KahnLoop.{kahn_ends}

-- An order of all stages in which each stands behind all that it depends on.
pub record IsTopological (g : DependencyGraph) (order : List String) : Type 0 where
  pub distinct : Distinct order
  pub complete : (a : String) → elem a order ≡ elem a (names g)
  pub placed : Placed g [] order

-- A graph without cycles: `rank` grows along every edge.
abbrev pub IsRanked : DependencyGraph → (String → ℕ) → Type 0
IsRanked g rank = (a b : String) → IsEdge g a b → rank a < rank b

-- An order in which a loop over the map of nodes may visit them.
abbrev pub Visits : DependencyGraph → List String → Type 0
Visits g order = (m : String) → elem m order ≡ elem m (names g)

pub Search-cases :
    (s : Search) → ((cycle : List String) × (s ≡ found cycle)) ⊎ ((s ≡ clear) ⊎ (s ≡ out_of_fuel))
Search-cases (found cycle) = inl (cycle, refl)
Search-cases clear = inr (inl refl)
Search-cases out_of_fuel = inr (inr refl)

module _ (g : DependencyGraph) (w : IsWellFormed g) where
  end-IsTopological :
      (s : KahnState) → IsKahn g [] s → length s.result ≡ length g.nodes → IsTopological g s.result
  end-IsTopological s k e = record {
    distinct = k.distinct_result;
    complete = λ a. ground (
      arith,
      k.result_names a,
      elem_of_length s.result (names g) k.distinct_result k.result_names
          (omega (arith, length-keys g.nodes)) a,
    );
    placed = k.placed;
  }

  kahn-IsTopological : (order : List String) → kahn g ≡ some (ok order) → IsTopological g order
  unfolding kahn
  kahn-IsTopological order e =
      let (s, run, _, k) = kahn_ends g w in
      elim (Bool-cases (eqb (length s.result) (length g.nodes))) [
        | inl same ↦
            subst (IsTopological g) (some-ok-injective (rw (run, same, kahn) at e))
              (end-IsTopological s k ((eqb_iff (length s.result) (length g.nodes)).0 same))
        | inr other ↦ cc (rw (run, other, kahn) at e)
      ]

  -- Without a cycle, every stage gets its place.
  all_placed :
      (rank : String → ℕ)
      → IsRanked g rank
      → (s : KahnState) → IsKahn g [] s
      → s.queue ≡ []
      → (n : ℕ) (m : String) → rank m < n
      → elem m (names g) ≡ true
      → elem m s.result ≡ true
  unfolding edges_of elem
  all_placed rank ranked s k e zero m below h = absurd (omega arith)
  all_placed rank ranked s k e (suc n) m below h =
      let idle : elem m s.queue ≡ false = rw e in
      let sources : pending s.result m g.edges ≡ 0 =
        pending-zero s.result m g.edges w.distinct_edges (λ a edge.
          all_placed rank ranked s k e n a (omega (arith, ranked a m edge))
            (ground (arith, w.same_names a, elem-keys a g.edges))) in
      ground (arith, k.ready m)

  pub sorted_run :
      (rank : String → ℕ)
      → IsRanked g rank
      → (order : List String) × (sort_loop (suc (length g.nodes)) g (sort_start g) ≡ some order)
        × (length order ≡ length g.nodes)
  sorted_run rank ranked =
      let (s, run, idle, k) = kahn_ends g w in
      let all = λ (m : String). all_placed rank ranked s k idle (suc (rank m)) m (omega arith) in
      (
        s.result,
        run,
        omega (
          arith,
          length-keys g.nodes,
          length-le_of_subset s.result (names g) k.distinct_result k.result_names,
          length-le_of_subset (names g) s.result w.distinct_nodes all,
        ),
      )

  kahn_complete :
      (rank : String → ℕ) → IsRanked g rank → (order : List String) × (kahn g ≡ some (ok order))
  unfolding kahn
  kahn_complete rank ranked =
      let (order, run, full) = sorted_run rank ranked in
      let same : eqb (length order) (length g.nodes) ≡ true =
        (eqb_iff (length order) (length g.nodes)).1 full in
      (order, rw (run, same, kahn))

  -- An order that TopologicalSort returns holds each stage of the graph exactly once, and every
  -- stage stands behind all the stages that it depends on, in whatever order the search for a
  -- cycle visits the nodes.
  pub topological_sort-IsTopological :
      (visits order : List String)
      → topological_sort g visits ≡ some (ok order)
      → IsTopological g order
  unfolding topological_sort
  topological_sort-IsTopological visits order e = elim (Search-cases (detect_cycle g visits)) [
    | inl (cycle, f) ↦ cc (rw (f, topological_sort) at e)
    | inr (inl c) ↦ kahn-IsTopological order (rw (c, topological_sort) at e)
    | inr (inr o) ↦ cc (rw (o, topological_sort) at e)
  ]

-- The number of names before `a`.
unfoldable pub position : String → List String → ℕ
position a [] = 0
position a (x ∷ xs) = if x == a then 0 else suc (position a xs)

Placed-before :
    (g : DependencyGraph) (before xs : List String) (a b : String)
    → Placed g before xs
    → IsEdge g a b
    → elem b xs ≡ true
    → (elem a before || ltb (position a xs) (position b xs)) ≡ true
unfolding position elem
Placed-before g before [] a b p e h = ground arith
Placed-before g before (x ∷ xs) a b p e h = ground (
  arith,
  p.0 a,
  eq_iff x b,
  eq_iff x a,
  elem-snoc a x before,
  Placed-before g (snoc before x) xs a b p.1 e,
)

-- In a topological order every edge leads to a later position, so the graph has no cycle.
pub position-IsRanked :
    (g : DependencyGraph) (order : List String)
    → IsWellFormed g
    → IsTopological g order
    → IsRanked g (λ a. position a order)
unfolding elem
position-IsRanked g order w t a b e =
    ground (arith, Placed-before g [] order a b t.placed e, t.complete b, w.targets a b e)

-- The number of names from the last `a` of the list to its end.
height : String → List String → ℕ
height a [] = 0
height a (x ∷ xs) = if elem a xs then height a xs else if x == a then suc (length xs) else 0

height-le : (a : String) (xs : List String) → height a xs ≤ length xs
unfolding height
height-le a [] = omega arith
height-le a (x ∷ xs) = ground (arith, height-le a xs)

height-lt :
    (g : DependencyGraph) (a b : String) (xs : List String)
    → Finished g xs
    → elem a xs ≡ true
    → IsEdge g a b
    → (elem b xs ≡ true) × (height b xs < height a xs)
unfolding height elem
height-lt g a b [] f h e = ground arith
height-lt g a b (x ∷ xs) f h e =
    ground (arith, eq_iff x a, f.0 b, height-le b xs, height-lt g a b xs f.1)

-- A rank grows along a walk.
Walk-rank :
    (g : DependencyGraph) (rank : String → ℕ)
    → IsRanked g rank
    → (x : String) (inner : List String) (y : String) → Walk g (x ∷ (inner ++ y ∷ []))
    → rank x < rank y
Walk-rank g rank r x [] y w = r x y w.0
Walk-rank g rank r x (z ∷ zs) y w = omega (arith, r x z w.0, Walk-rank g rank r z zs y w.1)

pub not-IsCycle_of_IsRanked :
    (g : DependencyGraph) (rank : String → ℕ)
    → IsRanked g rank
    → (cycle : List String) → ¬ IsCycle g cycle
not-IsCycle_of_IsRanked g rank r cycle c =
    absurd
      (omega (arith, Walk-rank g rank r c.start c.inner c.start (subst (Walk g) c.shape c.walk)))

module _ (g : DependencyGraph) (w : IsWellFormed g) (visits : List String)
    (v : Visits g visits) where
  -- A search in a graph without cycles reports none.
  pub ranked-clear : (rank : String → ℕ) → IsRanked g rank → detect_cycle g visits ≡ clear
  ranked-clear rank ranked = elim (Search-cases (detect_cycle g visits)) [
    | inl (cycle, f) ↦
        absurd (not-IsCycle_of_IsRanked g rank ranked cycle (detect_cycle-IsCycle g visits cycle f))
    | inr (inl c) ↦ c
    | inr (inr o) ↦ absurd (detect_cycle-ne-out_of_fuel g w visits (λ m. ground (arith, v m)) o)
  ]

  -- A graph whose edges all lead to a higher rank, so that it has no cycle, is sorted: with every
  -- order in which the search visits nodes, TopologicalSort returns an order.
  pub topological_sort_complete :
      (rank : String → ℕ)
      → IsRanked g rank
      → (order : List String) × (topological_sort g visits ≡ some (ok order))
  unfolding topological_sort
  topological_sort_complete rank ranked =
      let (order, e) = kahn_complete g w rank ranked in
      (order, rw (ranked-clear rank ranked, topological_sort) e)

  -- TopologicalSort returns an order exactly when the graph has no cycle, that is, when some rank
  -- grows along all of its edges.
  pub topological_sort-ok_iff :
      ((order : List String) × (topological_sort g visits ≡ some (ok order)))
      ↔ ((rank : String → ℕ) × IsRanked g rank)
  topological_sort-ok_iff = (
    (λ (order, e). (
      (λ a. position a order),
      position-IsRanked g order w (topological_sort-IsTopological g w visits order e),
    )),
    (λ (rank, ranked). topological_sort_complete rank ranked),
  )

  pub clear-IsRanked : detect_cycle g visits ≡ clear → (rank : String → ℕ) × IsRanked g rank
  unfolding edges_of elem
  clear-IsRanked c =
      let (finished, closed, all) = detect_cycle-Finished g visits c in
      (
        (λ a. length finished - height a finished),
        λ a b e.
            let known : elem a (names g) ≡ true =
              ground (arith, w.same_names a, elem-keys a g.edges) in
            omega (
              arith,
              height-le a finished,
              height-le b finished,
              (height-lt g a b finished closed (all a (ground (arith, v a))) e).1,
            ),
      )

  -- TopologicalSort always returns: an order of the stages, or an error that names a cycle of the
  -- graph. Its other error, "graph contains cycles" behind Kahn's loop, never occurs.
  pub topological_sort_total :
      ((order : List String) × (topological_sort g visits ≡ some (ok order)))
      ⊎ ((cycle : List String) × (topological_sort g visits
            ≡ some (err (circular_dependency cycle)))
          × IsCycle g cycle)
  unfolding topological_sort
  topological_sort_total = elim (Search-cases (detect_cycle g visits)) [
    | inl (cycle, f) ↦ inr (cycle, rw (f, topological_sort), detect_cycle-IsCycle g visits cycle f)
    | inr (inl c) ↦
        let (rank, ranked) = clear-IsRanked c in
        let (order, e) = kahn_complete g w rank ranked in inl (order, rw (c, topological_sort) e)
    | inr (inr o) ↦ absurd (detect_cycle-ne-out_of_fuel g w visits (λ m. ground (arith, v m)) o)
  ]
