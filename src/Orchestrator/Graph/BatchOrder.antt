-- ===== src/Orchestrator/Graph/BatchOrder.antt =====
-- What GetBatches returns, beside what TopologicalSort returns.
use apirun.Prelude.{
  ℕ, zero, suc, ◌+◌, ◌<◌, String, ◌≡◌, refl, sym, true, false, ◌&&◌, not, List, [], ◌∷◌, ◌++◌,
  arith, elem, elem-keep, Distinct-keep, eq_iff, some, snoc, eqb, eqb_iff, ltb, concat, keep, All,
  All-of_elem, ok, err, length-le_of_subset, some-ok-injective, ◌⊎◌, length, length-keys, inl, inr,
  ap, List-cases, ◌∙◌, pos, is_zero_ℤ,
}
use mathlib.Core.List.{append-nil, append_assoc}
use apirun.Prelude.Sorting.{str_leb, sort_strings, elem-sort_by, Distinct-sort_by, length-sort_by}
use apirun.Prelude.StringOrder.{IsSorted-unique, sort_by-IsSorted}
use apirun.Orchestrator.Graph.{DependencyGraph, circular_dependency, edges_of, names}
use apirun.Orchestrator.Graph.WellFormed.{IsWellFormed, pending, count}
use apirun.Orchestrator.Graph.Pending.{IsEdge, pending-snoc, source_done}
use apirun.Orchestrator.Graph.Kahn.{
  Degrees, reduce, KahnState, process_batch, sort_loop, sort_start, kahn, topological_sort,
}
use apirun.Orchestrator.Graph.KahnInvariant.{IsKahn, next, next-IsKahn, next-Reduced}
use apirun.Orchestrator.Graph.KahnLoop.{
  process_batch-IsKahn, rotate-IsKahn, length-process_batch, length-result-le, sort_start-IsKahn,
}
use apirun.Orchestrator.Graph.Cycle.{detect_cycle}
use apirun.Orchestrator.Graph.CycleSound.{IsCycle, detect_cycle-IsCycle}
use apirun.Orchestrator.Graph.CycleFuel.{detect_cycle-ne-out_of_fuel}
use apirun.Orchestrator.Graph.Order.{
  IsRanked, Visits, Search-cases, sorted_run, ranked-clear, clear-IsRanked,
}
use apirun.Orchestrator.Graph.Batches.{
  BatchState, reduce_all, mark_processed, mark_batch, next_batch, batch_loop, batch_start,
  get_batches,
}

-- Every stage of a batch has all that it depends on in the batches before.
abbrev pub BatchesPlaced : DependencyGraph → List String → List (List String) → Type 0
BatchesPlaced g before [] = Unit
BatchesPlaced g before (batch ∷ batches) =
    All (λ x. (a : String) → IsEdge g a x → elem a before ≡ true) batch
    × BatchesPlaced g (before ++ batch) batches

-- The states of the two algorithms between two batches.
record Agree (g : DependencyGraph) (k : KahnState) (b : BatchState) : Type 0 where
  kahn : IsKahn g [] k
  processed : b.processed ≡ k.result
  degrees : (m : String) → b.degree m ≡ k.degree m
  batches : concat b.batches ≡ k.result
  placed : BatchesPlaced g [] b.batches

concat-snoc {ℓ} :
    {A : Type ℓ} (xss : List (List A)) (xs : List A) → concat (xss ++ xs ∷ []) ≡ concat xss ++ xs
unfolding concat
concat-snoc [] xs = append-nil xs
concat-snoc (ys ∷ yss) xs = simp (concat-snoc yss xs, append_assoc)

BatchesPlaced-snoc :
    (g : DependencyGraph) (before : List String) (bs : List (List String)) (b : List String)
    → BatchesPlaced g before bs
    → All (λ x. (a : String) → IsEdge g a x → elem a (before ++ concat bs) ≡ true) b
    → BatchesPlaced g before (bs ++ b ∷ [])
unfolding concat
BatchesPlaced-snoc g before [] b p h = (rw append-nil at h, tt)
BatchesPlaced-snoc g before (c ∷ cs) b p h =
    (p.0, BatchesPlaced-snoc g (before ++ c) cs b p.1 (rw (← append_assoc) at h))

-- `inDegree` after the loop over the neighbors, whichever algorithm runs it.
reduce_all-count :
    (ns : List String) (d : Degrees) (rest : String → ℕ)
    → ((m : String) → d m ≡ pos (count m ns + rest m))
    → (m : String) → reduce_all ns d m ≡ pos (rest m)
unfolding reduce_all count
reduce_all-count [] d rest h m = ground (arith, h m)
reduce_all-count (n ∷ ns) d rest h m =
    reduce_all-count ns (reduce d n) rest (λ a. ground (arith, h a)) m

module _ (g : DependencyGraph) (w : IsWellFormed g) where
  -- GetBatches finds the names that Kahn's queue holds.
  next_batch-eq :
      (k : KahnState) (b : BatchState) → Agree g k b → next_batch g b ≡ sort_strings k.queue
  unfolding next_batch elem
  next_batch-eq k b a =
      let p = λ (m : String). is_zero_ℤ (b.degree m) && not (elem m b.processed) in
      IsSorted-unique (next_batch g b) (sort_strings k.queue) (sort_by-IsSorted (keep p (names g)))
        (sort_by-IsSorted k.queue)
        (Distinct-sort_by str_leb (keep p (names g)) (Distinct-keep p (names g) w.distinct_nodes))
        (Distinct-sort_by str_leb k.queue a.kahn.distinct_queue)
        (λ m. ground (
          arith,
          elem-sort_by str_leb m (keep p (names g)),
          elem-keep p m (names g),
          elem-sort_by str_leb m k.queue,
          a.kahn.ready m,
          a.kahn.degrees m,
          a.degrees m,
          ap (elem m) a.processed,
        ))

  -- Over one batch the two algorithms stay together.
  mark_batch-Agree :
      (batch : List String) (k : KahnState) (b : BatchState)
      → IsKahn g batch k
      → b.processed ≡ k.result
      → ((m : String) → b.degree m ≡ k.degree m)
      → ((mark_batch g batch b).processed ≡ (process_batch g batch k).result)
        × ((m : String) → (mark_batch g batch b).degree m ≡ (process_batch g batch k).degree m)
        × ((process_batch g batch k).result ≡ k.result ++ batch)
        × ((mark_batch g batch b).batches ≡ b.batches)
  unfolding mark_batch process_batch
  mark_batch-Agree [] k b kahn p d = (p, d, sym (append-nil k.result), refl)
  mark_batch-Agree (c ∷ batch) k b kahn p d =
      let r = next-Reduced g w c batch k kahn in
      let new : elem c k.result ≡ false = unfold elem in ground (arith, kahn.ready c, eq_iff c c) in
      let rest = λ (m : String). pending (snoc k.result c) m g.edges in
      let step : (m : String) → b.degree m ≡ pos (count m (edges_of g c) + rest m) = λ m.
        d m
        ∙ kahn.degrees m
        ∙ ap pos
            (sym (unfold edges_of in pending-snoc k.result c m g.edges w.distinct_edges new)) in
      let marked : mark_processed c b.processed ≡ snoc k.result c =
        unfold mark_processed in rw (p, new) in
      let (p', d', e, f) =
        mark_batch-Agree batch (next g c k)
          (record b {
            degree = reduce_all (edges_of g c) b.degree;
            processed = mark_processed c b.processed;
          })
          (next-IsKahn g w c batch k kahn) (marked ∙ sym r.result)
          (λ m. reduce_all-count (edges_of g c) b.degree rest step m ∙ sym (r.degrees m)) in
      (p', d', e ∙ ap (λ l. l ++ batch) r.result ∙ append_assoc k.result (c ∷ []) batch, f)

  abbrev kahn_round : KahnState → KahnState
  kahn_round k = process_batch g (sort_strings k.queue) (record k { queue = [] })

  abbrev batch_round : BatchState → List String → BatchState
  batch_round b batch = mark_batch g batch (record b { batches = snoc b.batches batch })

  round-Agree :
      (k : KahnState) (b : BatchState)
      → Agree g k b
      → Agree g (kahn_round k) (batch_round b (sort_strings k.queue))
  round-Agree k b a =
      let batch = sort_strings k.queue in
      let started = rotate-IsKahn g w k a.kahn in
      let (p, d, r, f) =
        mark_batch-Agree batch (record k { queue = [] })
          (record b { batches = snoc b.batches batch }) started a.processed a.degrees in
      record {
        kahn = process_batch-IsKahn g w batch (record k { queue = [] }) started;
        processed = p;
        degrees = d;
        batches = rw f (concat-snoc b.batches batch ∙ ap (λ l. l ++ batch) a.batches ∙ sym r);
        placed = rw f (
            BatchesPlaced-snoc g [] b.batches batch a.placed (
              All-of_elem _ batch (λ x e s edge. rw a.batches (
                source_done g k.result x s (unfold elem in ground (arith, started.ready x))
                  edge))));
      }

  -- The queue holds a node that is not done.
  queue_room :
      (k : KahnState) (q : String) (qs : List String)
      → IsKahn g [] k
      → k.queue ≡ q ∷ qs
      → length k.result < length g.nodes
  unfolding elem
  queue_room k q qs kahn e =
      let here : elem q k.queue ≡ true = rw e (ground (arith, eq_iff q q)) in
      let new : (elem q k.result ≡ false) × (elem q (names g) ≡ true) =
        ground (arith, kahn.ready q) in
      omega (
        arith,
        length-keys g.nodes,
        length-le_of_subset (q ∷ k.result) (names g) (new.0, kahn.distinct_result)
            (λ m. ground (arith, eq_iff q m, kahn.result_names m)),
      )

  batch_step :
      (fuel : ℕ) (b : BatchState) (batch : List String)
      → ltb (length b.processed) (length g.nodes) ≡ true
      → next_batch g b ≡ batch
      → 0 < length batch
      → batch_loop (suc fuel) g b ≡ batch_loop fuel g (batch_round b batch)
  unfolding batch_loop
  batch_step fuel b [] room e h = absurd (omega arith)
  batch_step fuel b (x ∷ xs) room e h = ground arith

  batch_loop_agrees :
      (fuel fuel' : ℕ) (k : KahnState) (b : BatchState) (order : List String)
      → Agree g k b
      → sort_loop fuel g k ≡ some order
      → length order ≡ length g.nodes
      → length g.nodes < fuel' + length k.result
      → (batches : List (List String)) × (batch_loop fuel' g b ≡ some (ok batches))
        × (concat batches ≡ order)
        × BatchesPlaced g [] batches
  unfolding sort_loop batch_loop
  batch_loop_agrees zero fuel' k b order a e full h = cc
  batch_loop_agrees (suc fuel) zero k b order a e full h =
      absurd (omega (arith, length-result-le g w [] k a.kahn))
  batch_loop_agrees (suc fuel) (suc fuel') k b order a e full h = elim (List-cases k.queue) [
    | inl idle ↦
        let ended : k.result ≡ order = cc (rw (idle, sort_loop) at e) in
        let all : ltb (length b.processed) (length g.nodes) ≡ false =
          ground (arith, ap length a.processed, ap length ended) in
        (b.batches, rw (all, batch_loop), a.batches ∙ ended, a.placed)
    | inr (q, qs, busy) ↦
        let room : ltb (length b.processed) (length g.nodes) ≡ true =
          ground (arith, ap length a.processed, queue_room k q qs a.kahn busy) in
        let batch = sort_strings k.queue in
        let grown =
          length-process_batch g w batch (record k { queue = [] }) (rotate-IsKahn g w k a.kahn) in
        let some_ready : 0 < length batch =
          omega (arith, length-sort_by str_leb k.queue, ap length busy) in
        rw (batch_step fuel' b batch room (next_batch-eq k b a) some_ready) (
          batch_loop_agrees fuel fuel' (kahn_round k) (batch_round b batch) order
            (round-Agree k b a) (rw (busy, sort_loop) at e) full
            (omega (arith, h, grown, some_ready)))
  ]

  start-Agree : Agree g (sort_start g) (batch_start g)
  unfolding concat
  start-Agree = record {
    kahn = sort_start-IsKahn g w;
    processed = refl;
    degrees = λ m. refl;
    batches = refl;
    placed = tt;
  }

  module _ (visits : List String) (v : Visits g visits) where
    ranked_batches :
        (rank : String → ℕ)
        → IsRanked g rank
        → (batches : List (List String)) × (get_batches g visits ≡ some (ok batches))
          × (kahn g ≡ some (ok (concat batches)))
          × BatchesPlaced g [] batches
    unfolding get_batches kahn
    ranked_batches rank ranked =
        let (order, run, full) = sorted_run g w rank ranked in
        let (batches, e, flat, placed) =
          batch_loop_agrees (suc (length g.nodes)) (suc (length g.nodes)) (sort_start g)
            (batch_start g) order start-Agree run full (omega arith) in
        let same : eqb (length order) (length g.nodes) ≡ true =
          (eqb_iff (length order) (length g.nodes)).1 full in
        (
          batches,
          rw (ranked-clear g w visits v rank ranked, get_batches) e,
          rw (flat, run, same, kahn),
          placed,
        )

module _ (g : DependencyGraph) (w : IsWellFormed g) (visits visits' : List String)
    (v : Visits g visits) (v' : Visits g visits') where
  -- When GetBatches returns batches, TopologicalSort returns their concatenation, and each stage of
  -- a batch has all the stages that it depends on in the batches before. The two may visit the
  -- nodes in different orders.
  pub get_batches-concat :
      (batches : List (List String))
      → get_batches g visits ≡ some (ok batches)
      → (topological_sort g visits' ≡ some (ok (concat batches))) × BatchesPlaced g [] batches
  unfolding get_batches topological_sort
  get_batches-concat batches e = elim (Search-cases (detect_cycle g visits)) [
    | inl (cycle, f) ↦ cc (rw (f, get_batches) at e)
    | inr (inl c) ↦
        let (rank, ranked) = clear-IsRanked g w visits v c in
        let (found_batches, got, sorted, placed) = ranked_batches g w visits v rank ranked in
        let same : found_batches ≡ batches = some-ok-injective (sym got ∙ e) in
        (
          rw (ranked-clear g w visits' v' rank ranked, topological_sort) (rw same at sorted),
          rw same at placed,
        )
    | inr (inr o) ↦ cc (rw (o, get_batches) at e)
  ]

  -- GetBatches always returns: batches whenever TopologicalSort returns an order, and otherwise an
  -- error that names a cycle of the graph. "unable to find next batch" never occurs.
  pub get_batches_total :
      ((order : List String) × (topological_sort g visits' ≡ some (ok order)))
        × ((batches : List (List String)) × (get_batches g visits ≡ some (ok batches)))
      ⊎ ((cycle : List String) × (get_batches g visits ≡ some (err (circular_dependency cycle)))
          × IsCycle g cycle)
  unfolding get_batches topological_sort
  get_batches_total = elim (Search-cases (detect_cycle g visits)) [
    | inl (cycle, f) ↦ inr (cycle, rw (f, get_batches), detect_cycle-IsCycle g visits cycle f)
    | inr (inl c) ↦
        let (rank, ranked) = clear-IsRanked g w visits v c in
        let (batches, got, sorted, placed) = ranked_batches g w visits v rank ranked in
        inl (
          (concat batches, rw (ranked-clear g w visits' v' rank ranked, topological_sort) sorted),
          (batches, got),
        )
    | inr (inr o) ↦ absurd (detect_cycle-ne-out_of_fuel g w visits (λ m. ground (arith, v m)) o)
  ]
