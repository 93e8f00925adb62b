-- ===== src/Orchestrator/Graph/CycleComplete.antt =====
-- If DetectCycle reports no cycle there is none: the nodes finish behind all their neighbors.
use apirun.Prelude.{
  ℕ, zero, suc, String, ◌≡◌, ◌≢◌, refl, true, false, ◌||◌, Bool-cases, List, [], ◌∷◌, arith, elem,
  elem-snoc, eq_iff, none, snoc, length, Option-cases, inl, inr, ◌∙◌,
}
use apirun.Orchestrator.Graph.{DependencyGraph, edges_of}
use apirun.Orchestrator.Graph.Pending.{IsEdge}
use apirun.Orchestrator.Graph.Cycle.{
  Flags, Search, found, clear, out_of_fuel, index_of, continue, visit_unless, dfs_neighbors, leave,
  enter, dfs_detect_cycle, detect_from, detect_cycle, reset,
}

-- The finished nodes, the last one first: every neighbor of a node stands behind it.
abbrev pub Finished : DependencyGraph → List String → Type 0
Finished g [] = Unit
Finished g (x ∷ xs) = ((b : String) → IsEdge g x b → elem b xs ≡ true) × Finished g xs

-- The flags of a search that stands at the end of `path`.
record IsColored (g : DependencyGraph) (path finished : List String) (s : Flags) : Type 0 where
  stacked : (m : String) → s.in_stack m ≡ elem m path
  seen : (m : String) → s.visited m ≡ (elem m path || elem m finished)
  closed : Finished g finished

-- From a state with the finished nodes `before` a search leads to one in which `xs` are finished.
record Finishes (g : DependencyGraph) (path before xs : List String) (s : Flags) : Type 0 where
  finished : List String
  colored : IsColored g path finished s
  kept : (m : String) → elem m before ≡ true → elem m finished ≡ true
  reached : (m : String) → elem m xs ≡ true → elem m finished ≡ true

-- The state satisfies `P` if the search found nothing.
abbrev Clears : (Flags → Type 0) → Search × Flags → Type 0
Clears P (found cycle, s) = Unit
Clears P (clear, s) = P s
Clears P (out_of_fuel, s) = Unit

index_of-elem : (n : String) (xs : List String) → elem n xs ≡ true → index_of n xs ≢ none
unfolding elem index_of
index_of-elem n [] h e = cc
index_of-elem n (x ∷ xs) h e = ground (arith, index_of-elem n xs)

continue-Clears :
    (P Q : Flags → Type 0) (r : Search × Flags) (rest : Flags → Search × Flags)
    → Clears P r
    → ((s : Flags) → P s → Clears Q (rest s))
    → Clears Q (continue r rest)
unfolding continue
continue-Clears P Q (found cycle, s) rest h k = tt
continue-Clears P Q (clear, s) rest h k = k s h
continue-Clears P Q (out_of_fuel, s) rest h k = tt

module _ (g : DependencyGraph) (path : List String) where
  -- What a visit of `n` must do.
  abbrev VisitClears : (String → Flags → Search × Flags) → String → Type 0
  VisitClears visit n =
      (s : Flags) (before : List String)
      → IsColored g path before s
      → s.visited n ≡ false
      → Clears (Finishes g path before (n ∷ [])) (visit n s)

  extend-Finishes :
      (before middle : List String) (n : String) (ns : List String) (s : Flags)
      → ((m : String) → elem m before ≡ true → elem m middle ≡ true)
      → elem n middle ≡ true
      → Finishes g path middle ns s
      → Finishes g path before (n ∷ ns) s
  unfolding elem
  extend-Finishes before middle n ns s sub here f = record {
    finished = f.finished;
    colored = f.colored;
    kept = λ m e. f.kept m (sub m e);
    reached = λ m. ground (arith, eq_iff n m, f.kept n, f.reached m);
  }

  Clears-mono :
      (P Q : Flags → Type 0) (r : Search × Flags)
      → ((s : Flags) → P s → Q s)
      → Clears P r
      → Clears Q r
  Clears-mono P Q (found cycle, s) f h = tt
  Clears-mono P Q (clear, s) f h = f s h
  Clears-mono P Q (out_of_fuel, s) f h = tt

  -- A loop that goes on with `rest` after `n`.
  module _ (visit : String → Flags → Search × Flags) (n : String) (ns : List String)
      (rest : Flags → Search × Flags) (deep : VisitClears visit n)
      (more : (s : Flags) (before : List String)
        → IsColored g path before s
        → Clears (Finishes g path before ns) (rest s)) where
    visit_unless-Clears :
        (s : Flags) (before : List String)
        → IsColored g path before s
        → s.in_stack n ≡ false
        → Clears (Finishes g path before (n ∷ ns)) (visit_unless visit n rest s)
    unfolding visit_unless elem
    visit_unless-Clears s before c off = elim (Bool-cases (s.visited n)) [
      | inl seen ↦ rw seen (
          Clears-mono _ _ (rest s)
            (λ t.
              extend-Finishes before before n ns t (λ m e. e)
                (ground (arith, c.seen n, c.stacked n)))
            (more s before c))
      | inr new ↦ rw new (
          continue-Clears _ _ (visit n s) rest (deep s before c new) (λ t f.
            Clears-mono _ _ (rest t)
              (λ u.
                extend-Finishes before f.finished n ns u f.kept
                  (f.reached n (ground (arith, eq_iff n n))))
              (more t f.finished f.colored)))
    ]

  dfs_neighbors-Clears :
      (visit : String → Flags → Search × Flags)
      → ((n : String) → VisitClears visit n)
      → (ns : List String) (s : Flags) (before : List String) → IsColored g path before s
      → Clears (Finishes g path before ns) (dfs_neighbors visit path ns s)
  unfolding dfs_neighbors elem
  dfs_neighbors-Clears visit deep [] s before c = record {
    finished = before;
    colored = c;
    kept = λ m e. e;
    reached = λ m e. cc;
  }
  dfs_neighbors-Clears visit deep (n ∷ ns) s before c =
      let next =
        visit_unless-Clears visit n ns (dfs_neighbors visit path ns) (deep n)
          (dfs_neighbors-Clears visit deep ns) s before c in
      elim (Bool-cases (s.in_stack n)) [
        | inl back ↦ elim (Option-cases (index_of n path)) [
          | inl absent ↦ absurd (index_of-elem n path (ground (arith, c.stacked n)) absent)
          | inr (i, e) ↦ rw (back, e) tt
        ]
        | inr off ↦ rw off (next off)
      ]

  detect_from-Clears :
      (visit : String → Flags → Search × Flags)
      → path ≡ []
      → ((n : String) → VisitClears visit n)
      → (ns : List String) (s : Flags) (before : List String) → IsColored g path before s
      → Clears (Finishes g path before ns) (detect_from visit ns s)
  unfolding detect_from elem
  detect_from-Clears visit top deep [] s before c = record {
    finished = before;
    colored = c;
    kept = λ m e. e;
    reached = λ m e. cc;
  }
  detect_from-Clears visit top deep (n ∷ ns) s before c =
      visit_unless-Clears visit n ns (detect_from visit ns) (deep n)
        (detect_from-Clears visit top deep ns) s before c (c.stacked n ∙ rw top refl)

module _ (g : DependencyGraph) where
  leave-Clears :
      (path before : List String) (n : String) (r : Search × Flags)
      → elem n path ≡ false
      → Clears (Finishes g (snoc path n) before (edges_of g n)) r
      → Clears (Finishes g path before (n ∷ [])) (leave n r)
  unfolding leave elem
  leave-Clears path before n (found cycle, s) off f = tt
  leave-Clears path before n (out_of_fuel, s) off f = tt
  leave-Clears path before n (clear, s) off f = record {
    finished = n ∷ f.finished;
    colored = record {
      stacked = λ m. ground (arith, f.colored.stacked m, elem-snoc m n path, eq_iff n m);
      seen = λ m. ground (arith, f.colored.seen m, elem-snoc m n path, eq_iff n m);
      closed = (f.reached, f.colored.closed);
    };
    kept = λ m. ground (arith, f.kept m);
    reached = λ m. ground arith;
  }

  enter-IsColored :
      (path before : List String) (n : String) (s : Flags)
      → IsColored g path before s
      → IsColored g (snoc path n) before (enter n s)
  enter-IsColored path before n s c = record {
    stacked = λ m. ground (arith, c.stacked m, elem-snoc m n path);
    seen = λ m. ground (arith, c.seen m, elem-snoc m n path);
    closed = c.closed;
  }

  dfs_detect_cycle-Clears :
      (fuel : ℕ) (path : List String) (n : String)
      → VisitClears g path (dfs_detect_cycle fuel g path) n
  unfolding dfs_detect_cycle
  dfs_detect_cycle-Clears zero path n s before c new = tt
  dfs_detect_cycle-Clears (suc fuel) path n s before c new =
      leave-Clears path before n _ (ground (arith, c.seen n)) (
        dfs_neighbors-Clears g (snoc path n) (dfs_detect_cycle fuel g (snoc path n))
          (dfs_detect_cycle-Clears fuel (snoc path n)) (edges_of g n) (enter n s) before
          (enter-IsColored path before n s c))

  reset-IsColored : IsColored g [] [] reset
  unfolding elem
  reset-IsColored = record { stacked = λ m. refl; seen = λ m. refl; closed = tt }

  Finished-of_clear :
      (r : Search × Flags) (order : List String)
      → Clears (Finishes g [] [] order) r
      → r.0 ≡ clear
      → (finished : List String) × Finished g finished
        × ((m : String) → elem m order ≡ true → elem m finished ≡ true)
  Finished-of_clear (found cycle, s) order f e = cc
  Finished-of_clear (out_of_fuel, s) order f e = cc
  Finished-of_clear (clear, s) order f e = (f.finished, f.colored.closed, f.reached)

  -- Without a report, all nodes of the search can be listed so that the neighbors of each one
  -- stand behind it.
  pub detect_cycle-Finished :
      (order : List String)
      → detect_cycle g order ≡ clear
      → (finished : List String) × Finished g finished
        × ((m : String) → elem m order ≡ true → elem m finished ≡ true)
  unfolding detect_cycle
  detect_cycle-Finished order e =
      let visit = dfs_detect_cycle (length g.nodes) g [] in
      Finished-of_clear (detect_from visit order reset) order
        (detect_from-Clears g [] visit refl (dfs_detect_cycle-Clears (length g.nodes) []) order
          reset [] reset-IsColored)
        e
