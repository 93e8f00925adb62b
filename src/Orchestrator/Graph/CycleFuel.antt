-- ===== src/Orchestrator/Graph/CycleFuel.antt =====
-- The depth-first search of DetectCycle never runs out of fuel: each call marks a new node.
use apirun.Prelude.{
  ℕ, zero, suc, ◌≤◌, String, ◌≡◌, ◌≢◌, true, false, not, Bool-cases, List, [], ◌∷◌, arith, elem,
  eq_iff, snoc, keep, subst, length, length-keys, length-keep-le, Option-cases, inl, inr,
}
use apirun.Orchestrator.Graph.{DependencyGraph, edges_of, names}
use apirun.Orchestrator.Graph.WellFormed.{IsWellFormed}
use apirun.Orchestrator.Graph.Cycle.{
  Flags, Search, found, clear, out_of_fuel, index_of, continue, visit_unless, dfs_neighbors, leave,
  enter, dfs_detect_cycle, detect_from, detect_cycle, reset,
}

abbrev Enough : Search → Type 0
Enough (found cycle) = Unit
Enough clear = Unit
Enough out_of_fuel = ⊥

-- The flags Visited are only ever set.
abbrev Grows : Flags → Flags → Type 0
Grows s t = (m : String) → s.visited m ≡ true → t.visited m ≡ true

record Fine (s : Flags) (r : Search × Flags) : Type 0 where
  enough : Enough r.0
  grows : Grows s r.1

unvisited : List String → Flags → ℕ
unvisited xs s = length (keep (λ m. not (s.visited m)) xs)

unvisited-le : (xs : List String) (s : Flags) → unvisited xs s ≤ length xs
unfolding unvisited
unvisited-le xs s = length-keep-le (λ m. not (s.visited m)) xs

unvisited_mono : (xs : List String) (s t : Flags) → Grows s t → unvisited xs t ≤ unvisited xs s
unfolding unvisited keep
unvisited_mono [] s t h = omega arith
unvisited_mono (x ∷ xs) s t h = ground (arith, h x, unvisited_mono xs s t h)

enter-Grows : (name : String) (s : Flags) → Grows s (enter name s)
enter-Grows name s m h = ground arith

unvisited-enter :
    (xs : List String) (name : String) (s : Flags)
    → elem name xs ≡ true
    → s.visited name ≡ false
    → suc (unvisited xs (enter name s)) ≤ unvisited xs s
unfolding unvisited keep elem
unvisited-enter [] name s h n = ground arith
unvisited-enter (x ∷ xs) name s h n = ground (
  arith,
  eq_iff x name,
  eq_iff name x,
  unvisited-enter xs name s,
  unvisited_mono xs s (enter name s) (enter-Grows name s),
)

module _ (g : DependencyGraph) (w : IsWellFormed g) (fuel : ℕ) where
  abbrev Fits : Flags → Type 0
  Fits s = unvisited (names g) s ≤ fuel

  Fits-of_Grows : (s t : Flags) → Grows s t → Fits s → Fits t
  Fits-of_Grows s t h f = omega (arith, unvisited_mono (names g) s t h)

  continue-Fine :
      (s : Flags) (r : Search × Flags) (rest : Flags → Search × Flags)
      → Fits s
      → Fine s r
      → ((t : Flags) → Fits t → Fine t (rest t))
      → Fine s (continue r rest)
  unfolding continue
  continue-Fine s (found cycle, t) rest f h k = h
  continue-Fine s (out_of_fuel, t) rest f h k = h
  continue-Fine s (clear, t) rest f h k =
      let k' = k t (Fits-of_Grows s t h.grows f) in
      record { enough = k'.enough; grows = λ m e. k'.grows m (h.grows m e) }

  module _ (visit : String → Flags → Search × Flags)
      (deep : (n : String) (s : Flags)
        → elem n (names g) ≡ true
        → s.visited n ≡ false
        → Fits s
        → Fine s (visit n s)) where
    visit_unless-Fine :
        (n : String) (rest : Flags → Search × Flags) (s : Flags)
        → elem n (names g) ≡ true
        → Fits s
        → ((t : Flags) → Fits t → Fine t (rest t))
        → Fine s (visit_unless visit n rest s)
    unfolding visit_unless
    visit_unless-Fine n rest s e f k = elim (Bool-cases (s.visited n)) [
      | inl seen ↦ rw seen (k s f)
      | inr new ↦ rw new (continue-Fine s (visit n s) rest f (deep n s e new f) k)
    ]

    dfs_neighbors-Fine :
        (path ns : List String)
        → ((m : String) → elem m ns ≡ true → elem m (names g) ≡ true)
        → (s : Flags) → Fits s
        → Fine s (dfs_neighbors visit path ns s)
    unfolding dfs_neighbors elem
    dfs_neighbors-Fine path [] sub s f = record { enough = tt; grows = λ m e. e }
    dfs_neighbors-Fine path (n ∷ ns) sub s f =
        let next =
          visit_unless-Fine n (dfs_neighbors visit path ns) s (sub n (ground (arith, eq_iff n n))) f
            (dfs_neighbors-Fine path ns (λ m e. sub m (ground arith))) in
        elim (Bool-cases (s.in_stack n)) [
          | inl back ↦ elim (Option-cases (index_of n path)) [
            | inl absent ↦ rw (back, absent) next
            | inr (i, e) ↦ rw (back, e) (record { enough = tt; grows = λ m h. h })
          ]
          | inr other ↦ rw other next
        ]

    detect_from-Fine :
        (order : List String)
        → ((m : String) → elem m order ≡ true → elem m (names g) ≡ true)
        → (s : Flags) → Fits s
        → Fine s (detect_from visit order s)
    unfolding detect_from elem
    detect_from-Fine [] sub s f = record { enough = tt; grows = λ m e. e }
    detect_from-Fine (n ∷ order) sub s f =
        visit_unless-Fine n (detect_from visit order) s (sub n (ground (arith, eq_iff n n))) f
          (detect_from-Fine order (λ m e. sub m (ground arith)))

leave-Fine : (name : String) (s : Flags) (r : Search × Flags) → Fine s r → Fine s (leave name r)
unfolding leave
leave-Fine name s (found cycle, t) h = h
leave-Fine name s (clear, t) h = record { enough = tt; grows = h.grows }
leave-Fine name s (out_of_fuel, t) h = h

module _ (g : DependencyGraph) (w : IsWellFormed g) where
  dfs_detect_cycle-Fine :
      (fuel : ℕ) (path : List String) (name : String) (s : Flags)
      → elem name (names g) ≡ true
      → s.visited name ≡ false
      → unvisited (names g) s ≤ fuel
      → Fine s (dfs_detect_cycle fuel g path name s)
  unfolding dfs_detect_cycle
  dfs_detect_cycle-Fine zero path name s e n f =
      absurd (omega (arith, unvisited-enter (names g) name s e n))
  dfs_detect_cycle-Fine (suc fuel) path name s e n f =
      let inner =
        dfs_neighbors-Fine g w fuel (dfs_detect_cycle fuel g (snoc path name))
          (λ m t. dfs_detect_cycle-Fine fuel (snoc path name) m t) (snoc path name)
          (edges_of g name) (w.targets name) (enter name s)
          (omega (arith, unvisited-enter (names g) name s e n)) in
      leave-Fine name s _
        (record { enough = inner.enough; grows = λ m h. inner.grows m (enter-Grows name s m h) })

  -- Whatever the order in which the nodes are visited, the search has enough fuel: DetectCycle
  -- reports a cycle or that there is none.
  pub detect_cycle-ne-out_of_fuel :
      (order : List String)
      → ((m : String) → elem m order ≡ true → elem m (names g) ≡ true)
      → detect_cycle g order ≢ out_of_fuel
  unfolding detect_cycle
  detect_cycle-ne-out_of_fuel order sub e =
      let visit = dfs_detect_cycle (length g.nodes) g [] in
      let fine =
        detect_from-Fine g w (length g.nodes) visit
          (λ m t. dfs_detect_cycle-Fine (length g.nodes) [] m t) order sub reset
          (omega (arith, unvisited-le (names g) reset, length-keys g.nodes)) in
      subst Enough e fine.enough
