-- ===== src/Orchestrator/Graph/CycleSound.antt =====
-- What DetectCycle reports is a cycle.
use apirun.Prelude.{
  ℕ, zero, suc, String, ◌≡◌, Bool-cases, List, [], ◌∷◌, ◌++◌, arith, ◌==◌, eq_iff, some, snoc, drop,
  All, All-of_elem, subst, length, Option-cases, inl, inr,
}
use apirun.Orchestrator.Graph.{DependencyGraph, edges_of}
use apirun.Orchestrator.Graph.Pending.{IsEdge}
use apirun.Orchestrator.Graph.Cycle.{
  Flags, Search, found, clear, out_of_fuel, index_of, continue, visit_unless, dfs_neighbors, leave,
  enter, dfs_detect_cycle, detect_from, detect_cycle, reset,
}

-- Each name of the list depends on the one before it.
abbrev pub Walk : DependencyGraph → List String → Type 0
Walk g [] = Unit
Walk g (x ∷ []) = Unit
Walk g (x ∷ y ∷ ys) = IsEdge g x y × Walk g (y ∷ ys)

-- A walk that ends where it began, over at least one edge.
pub record IsCycle (g : DependencyGraph) (cycle : List String) : Type 0 where
  pub start : String
  pub inner : List String
  pub shape : cycle ≡ start ∷ (inner ++ start ∷ [])
  pub walk : Walk g cycle

abbrev Sound : DependencyGraph → Search → Type 0
Sound g (found cycle) = IsCycle g cycle
Sound g clear = Unit
Sound g out_of_fuel = Unit

module _ (g : DependencyGraph) where
  Walk-tail : (x : String) (xs : List String) → Walk g (x ∷ xs) → Walk g xs
  Walk-tail x [] w = tt
  Walk-tail x (y ∷ ys) w = w.1

  Walk-snoc :
      (path : List String) (c n : String)
      → Walk g (snoc path c)
      → IsEdge g c n
      → Walk g (snoc (snoc path c) n)
  Walk-snoc [] c n w e = (e, tt)
  Walk-snoc (x ∷ []) c n w e = (w.0, (e, tt))
  Walk-snoc (x ∷ y ∷ ys) c n w e = (w.0, Walk-snoc (y ∷ ys) c n w.1 e)

  -- To cut a walk at the place of its last name leaves a cycle.
  cut-IsCycle :
      (n : String) (path : List String) (i : ℕ)
      → index_of n path ≡ some i
      → Walk g (snoc path n)
      → IsCycle g (snoc (drop i path) n)
  unfolding index_of
  cut-IsCycle n [] i e w = cc
  cut-IsCycle n (x ∷ xs) i e w = elim (Bool-cases (x == n)) [
    | inl same ↦
        let here : i ≡ 0 = ground arith in
        rw here (record { start = x; inner = xs; shape = cc ((eq_iff x n).0 same); walk = w })
    | inr other ↦ elim (Option-cases (index_of n xs)) [
      | inl absent ↦ absurd (ground arith)
      | inr (j, later) ↦
          let there : i ≡ suc j = ground arith in
          rw there (cut-IsCycle n xs j later (Walk-tail x (snoc xs n) w))
    ]
  ]

  continue-Sound :
      (r : Search × Flags) (rest : Flags → Search × Flags)
      → Sound g r.0
      → ((s : Flags) → Sound g (rest s).0)
      → Sound g (continue r rest).0
  unfolding continue
  continue-Sound (found cycle, s) rest h k = h
  continue-Sound (clear, s) rest h k = k s
  continue-Sound (out_of_fuel, s) rest h k = tt

  visit_unless-Sound :
      (visit : String → Flags → Search × Flags) (n : String) (rest : Flags → Search × Flags)
      (s : Flags)
      → ((s' : Flags) → Sound g (visit n s').0)
      → ((s' : Flags) → Sound g (rest s').0)
      → Sound g (visit_unless visit n rest s).0
  unfolding visit_unless
  visit_unless-Sound visit n rest s h k = elim (Bool-cases (s.visited n)) [
    | inl seen ↦ rw seen (k s)
    | inr new ↦ rw new (continue-Sound (visit n s) rest (h s) k)
  ]

  dfs_neighbors-Sound :
      (visit : String → Flags → Search × Flags) (path : List String) (c : String)
      → Walk g (snoc path c)
      → ((n : String) (s : Flags) → IsEdge g c n → Sound g (visit n s).0)
      → (ns : List String) → All (λ n. IsEdge g c n) ns
      → (s : Flags) → Sound g (dfs_neighbors visit (snoc path c) ns s).0
  unfolding dfs_neighbors
  dfs_neighbors-Sound visit path c w h [] a s = tt
  dfs_neighbors-Sound visit path c w h (n ∷ ns) a s =
      let rest = dfs_neighbors visit (snoc path c) ns in
      let next =
        visit_unless-Sound visit n rest s (λ s'. h n s' a.0)
          (dfs_neighbors-Sound visit path c w h ns a.1) in
      elim (Bool-cases (s.in_stack n)) [
        | inl back ↦ elim (Option-cases (index_of n (snoc path c))) [
          | inl absent ↦ rw (back, absent) next
          | inr (i, e) ↦ rw (back, e) (cut-IsCycle n (snoc path c) i e (Walk-snoc path c n w a.0))
        ]
        | inr other ↦ rw other next
      ]

  leave-Sound : (name : String) (r : Search × Flags) → Sound g r.0 → Sound g (leave name r).0
  unfolding leave
  leave-Sound name (found cycle, s) h = h
  leave-Sound name (clear, s) h = h
  leave-Sound name (out_of_fuel, s) h = h

  dfs_detect_cycle-Sound :
      (fuel : ℕ) (path : List String) (name : String) (s : Flags)
      → Walk g (snoc path name)
      → Sound g (dfs_detect_cycle fuel g path name s).0
  unfolding dfs_detect_cycle
  dfs_detect_cycle-Sound zero path name s w = tt
  dfs_detect_cycle-Sound (suc fuel) path name s w = leave-Sound name _ (
      dfs_neighbors-Sound (dfs_detect_cycle fuel g (snoc path name)) path name w
        (λ n s' e. dfs_detect_cycle-Sound fuel (snoc path name) n s' (Walk-snoc path name n w e))
        (edges_of g name) (All-of_elem (IsEdge g name) (edges_of g name) (λ n e. e)) (enter name s))

  detect_from-Sound :
      (fuel : ℕ) (order : List String) (s : Flags)
      → Sound g (detect_from (dfs_detect_cycle fuel g []) order s).0
  unfolding detect_from
  detect_from-Sound fuel [] s = tt
  detect_from-Sound fuel (name ∷ order) s =
      visit_unless-Sound (dfs_detect_cycle fuel g []) name
        (detect_from (dfs_detect_cycle fuel g []) order) s
        (λ s'. dfs_detect_cycle-Sound fuel [] name s' tt) (detect_from-Sound fuel order)

  -- In whatever order the nodes are visited, a list that DetectCycle reports is a cycle: a walk
  -- along the edges of the graph, with at least one edge, from a stage back to itself.
  pub detect_cycle-IsCycle :
      (order cycle : List String) → detect_cycle g order ≡ found cycle → IsCycle g cycle
  unfolding detect_cycle
  detect_cycle-IsCycle order cycle e =
      subst (Sound g) e (detect_from-Sound (length g.nodes) order reset)
