-- ===== src/Orchestrator/Graph/KahnLoop.antt =====
-- Kahn's algorithm as a whole: it ends within its fuel, in an order in which every stage stands
-- behind what it depends on.
use apirun.Prelude.{
  ℕ, zero, suc, ◌+◌, ◌≤◌, ◌<◌, String, ◌≡◌, refl, Option, List, [], ◌∷◌, arith, elem, length,
  length-append, is_zero_ℤ, some, inl, inr, length-le_of_subset, length-keys, keep, elem-keep,
  Distinct-keep, ap, List-cases,
}
use apirun.Prelude.Sorting.{str_leb, sort_strings, elem-sort_by, Distinct-sort_by, length-sort_by}
use apirun.Orchestrator.Graph.{DependencyGraph, names}
use apirun.Orchestrator.Graph.WellFormed.{IsWellFormed}
use apirun.Orchestrator.Graph.Kahn.{in_degrees, KahnState, process_batch, sort_loop, sort_start}
use apirun.Orchestrator.Graph.KahnInvariant.{IsKahn, next, next-IsKahn, next-Reduced}

module _ (g : DependencyGraph) (w : IsWellFormed g) where
  pub process_batch-IsKahn :
      (batch : List String) (s : KahnState)
      → IsKahn g batch s
      → IsKahn g [] (process_batch g batch s)
  unfolding process_batch
  process_batch-IsKahn [] s k = k
  process_batch-IsKahn (c ∷ batch) s k =
      process_batch-IsKahn batch (next g c s) (next-IsKahn g w c batch s k)

  pub length-process_batch :
      (batch : List String) (s : KahnState)
      → IsKahn g batch s
      → length (process_batch g batch s).result ≡ length s.result + length batch
  unfolding process_batch
  length-process_batch [] s k = omega arith
  length-process_batch (c ∷ batch) s k = omega (
    arith,
    length-process_batch batch (next g c s) (next-IsKahn g w c batch s k),
    length-append s.result (c ∷ []),
    ap length (next-Reduced g w c batch s k).result,
  )

  pub length-result-le :
      (batch : List String) (s : KahnState) → IsKahn g batch s → length s.result ≤ length g.nodes
  length-result-le batch s k = omega (
    arith,
    length-le_of_subset s.result (names g) k.distinct_result k.result_names,
    length-keys g.nodes,
  )

  -- The queue becomes the next batch.
  pub rotate-IsKahn :
      (s : KahnState) → IsKahn g [] s → IsKahn g (sort_strings s.queue) (record s { queue = [] })
  unfolding elem
  rotate-IsKahn s k = record {
    degrees = k.degrees;
    result_names = k.result_names;
    result_done = k.result_done;
    distinct_result = k.distinct_result;
    distinct_batch = Distinct-sort_by str_leb s.queue k.distinct_queue;
    distinct_queue = tt;
    apart = λ m e. refl;
    ready = λ m. ground (arith, k.ready m, elem-sort_by str_leb m s.queue);
    placed = k.placed;
  }

  pub sort_start-IsKahn : IsKahn g [] (sort_start g)
  unfolding elem
  sort_start-IsKahn =
      let zero_degree = λ (m : String). is_zero_ℤ (in_degrees g m) in
      record {
        degrees = w.counted;
        result_names = λ m e. cc;
        result_done = λ m e. cc;
        distinct_result = tt;
        distinct_batch = tt;
        distinct_queue =
            Distinct-sort_by str_leb _ (Distinct-keep zero_degree (names g) w.distinct_nodes);
        apart = λ m e. cc;
        ready = λ m. ground (
          arith,
          elem-sort_by str_leb m (keep zero_degree (names g)),
          elem-keep zero_degree m (names g),
          w.counted m,
        );
        placed = tt;
      }

  -- A run of the loop that has ended with an empty queue.
  abbrev pub Ended : Option (List String) → Type 0
  Ended o = (s : KahnState) × (o ≡ some s.result) × (s.queue ≡ []) × IsKahn g [] s

  sort_loop_ends :
      (fuel : ℕ) (s : KahnState)
      → IsKahn g [] s
      → length g.nodes < fuel + length s.result
      → Ended (sort_loop fuel g s)
  unfolding sort_loop
  sort_loop_ends zero s k h = absurd (omega (arith, length-result-le [] s k))
  sort_loop_ends (suc fuel) s k h = elim (List-cases s.queue) [
    | inl e ↦ (s, rw (e, sort_loop), e, k)
    | inr (q, qs, e) ↦
        let batch = sort_strings s.queue in
        let s₁ : KahnState = record s { queue = [] } in
        let k₁ = rotate-IsKahn s k in
        rw (e, sort_loop)
          (sort_loop_ends fuel (process_batch g batch s₁) (process_batch-IsKahn batch s₁ k₁) (
            omega (
              arith,
              h,
              length-process_batch batch s₁ k₁,
              length-sort_by str_leb s.queue,
              ap length e,
            )))
  ]

  -- Kahn's loop ends within its fuel.
  pub kahn_ends : Ended (sort_loop (suc (length g.nodes)) g (sort_start g))
  kahn_ends = sort_loop_ends (suc (length g.nodes)) (sort_start g) sort_start-IsKahn (omega arith)
