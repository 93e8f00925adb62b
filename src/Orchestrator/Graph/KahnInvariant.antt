-- ===== src/Orchestrator/Graph/KahnInvariant.antt =====
-- The invariant of Kahn's algorithm, kept by the loops of Graph/Kahn.antt.
use apirun.Prelude.{
  ℕ, ◌+◌, String, ◌≡◌, refl, true, false, ◌||◌, ◌&&◌, not, List, [], ◌∷◌, arith, if◌then◌else◌,
  elem, elem-snoc, Distinct, Distinct-snoc, ltb, eqb, pos, is_zero_ℤ, eq_iff, snoc,
}
use apirun.Orchestrator.Graph.{DependencyGraph, edges_of, names}
use apirun.Orchestrator.Graph.WellFormed.{count, pending, IsWellFormed}
use apirun.Orchestrator.Graph.Pending.{
  Placed, count-pos, count-zero, source_done, pending-snoc, Placed-snoc,
}
use apirun.Orchestrator.Graph.Kahn.{reduce, KahnState, reduce_neighbors}

-- What the loop over the neighbors `ns` does, `rest` being the degrees that it leaves.
pub record Reduced (ns : List String) (rest : String → ℕ) (s t : KahnState) : Type 0 where
  pub degrees : (m : String) → t.degree m ≡ pos (rest m)
  pub result : t.result ≡ s.result
  pub queued :
      (m : String) → elem m t.queue ≡ (elem m s.queue || (ltb 0 (count m ns) && eqb (rest m) 0))
  pub distinct : Distinct t.queue

pub reduce_neighbors-Reduced :
    (ns : List String) (s : KahnState) (rest : String → ℕ)
    → ((m : String) → s.degree m ≡ pos (count m ns + rest m))
    → ((m : String) → elem m s.queue ≡ true → count m ns + rest m ≡ 0)
    → Distinct s.queue
    → Reduced ns rest s (reduce_neighbors ns s)
unfolding reduce_neighbors count
reduce_neighbors-Reduced [] s rest d z u = record {
  degrees = λ m. ground (arith, d m);
  result = refl;
  queued = λ m. ground arith;
  distinct = u;
}
reduce_neighbors-Reduced (n ∷ ns) s rest d z u =
    let d₁ = reduce s.degree n in
    let s₁ : KahnState = record s {
      degree = d₁;
      queue = if is_zero_ℤ (d₁ n) then snoc s.queue n else s.queue;
    } in
    let ih =
      reduce_neighbors-Reduced ns s₁ rest (λ m. ground (arith, d m))
        (λ m q. ground (arith, d n, z m, elem-snoc m n s.queue, eq_iff n m, eq_iff n n))
        (ground (arith, d n, eq_iff n n, z n, Distinct-snoc s.queue n u)) in
    record {
      degrees = ih.degrees;
      result = ih.result;
      queued =
          λ m. ground (arith, ih.queued m, d n, z m, elem-snoc m n s.queue, eq_iff n m, eq_iff n n);
      distinct = ih.distinct;
    }

-- Between the nodes of a batch: `batch` is what is left of it.
pub record IsKahn (g : DependencyGraph) (batch : List String) (s : KahnState) : Type 0 where
  pub degrees : (m : String) → s.degree m ≡ pos (pending s.result m g.edges)
  pub result_names : (m : String) → elem m s.result ≡ true → elem m (names g) ≡ true
  pub result_done : (m : String) → elem m s.result ≡ true → pending s.result m g.edges ≡ 0
  pub distinct_result : Distinct s.result
  pub distinct_batch : Distinct batch
  pub distinct_queue : Distinct s.queue
  pub apart : (m : String) → elem m batch ≡ true → elem m s.queue ≡ false
  -- The batch and the queue hold exactly the nodes that are ready.
  pub ready :
      (m : String)
      → (elem m batch || elem m s.queue)
        ≡ (elem m (names g) && (not (elem m s.result) && eqb (pending s.result m g.edges) 0))
  pub placed : Placed g [] s.result

-- One node of a batch.
abbrev pub next : DependencyGraph → String → KahnState → KahnState
next g c s = reduce_neighbors (edges_of g c) (record s { result = snoc s.result c })

module _ (g : DependencyGraph) (w : IsWellFormed g) where
  module _ (c : String) (batch : List String) (s : KahnState) (k : IsKahn g (c ∷ batch) s) where
    c_ready :
        (elem c (names g) ≡ true)
        × (elem c s.result ≡ false)
        × (pending s.result c g.edges ≡ 0)
        × (elem c s.queue ≡ false)
    unfolding elem
    c_ready = ground (arith, k.ready c, eq_iff c c, k.apart c)

    pend :
        (m : String)
        → count m (edges_of g c) + pending (snoc s.result c) m g.edges ≡ pending s.result m g.edges
    unfolding edges_of
    pend m = pending-snoc s.result c m g.edges w.distinct_edges c_ready.1

    pub next-Reduced :
        Reduced
          (edges_of g c)
          (λ m. pending (snoc s.result c) m g.edges)
          (record s { result = snoc s.result c })
          (next g c s)
    unfolding edges_of
    next-Reduced =
        reduce_neighbors-Reduced (edges_of g c) _ _ (λ m. ground (arith, k.degrees m, pend m))
          (λ m q. ground (arith, k.ready m, pend m)) k.distinct_queue

    pub next-IsKahn : IsKahn g batch (next g c s)
    unfolding edges_of elem
    next-IsKahn =
        let r = next-Reduced in
        record {
          degrees = λ m. rw r.result (r.degrees m);
          result_names = λ m.
              rw r.result
                (ground (arith, elem-snoc m c s.result, k.result_names m, eq_iff c m, c_ready.0));
          result_done = λ m. rw r.result (
              ground
                (arith, elem-snoc m c s.result, k.result_done m, eq_iff c m, c_ready.2, pend m));
          distinct_result = rw r.result (Distinct-snoc s.result c k.distinct_result c_ready.1);
          distinct_batch = k.distinct_batch.1;
          distinct_queue = r.distinct;
          apart = λ m. ground (
            arith,
            r.queued m,
            k.apart m,
            k.ready m,
            pend m,
            count-pos m (edges_of g c),
            count-zero m (edges_of g c),
          );
          ready = λ m. rw r.result (
              ground (
                arith,
                r.queued m,
                k.apart m,
                k.ready m,
                pend m,
                count-zero m (edges_of g c),
                w.targets c m,
                k.result_done m,
                elem-snoc m c s.result,
                eq_iff c m,
                c_ready,
                k.distinct_batch.0,
              ));
          placed = rw r.result (
              Placed-snoc g [] s.result c k.placed (λ a e. source_done g s.result c a c_ready.2 e));
        }
