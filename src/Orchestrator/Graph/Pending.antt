-- ===== src/Orchestrator/Graph/Pending.antt =====
-- Edges from names that are not done, and lists in which every name stands behind its sources.
use apirun.Prelude.{
  ◌+◌, ◌≤◌, String, ◌≡◌, refl, true, false, List, [], ◌∷◌, ◌++◌, arith, elem, elem-snoc, elem-keys,
  Distinct, keys, lookup, Map, eq_iff, snoc,
}
use mathlib.Core.List.{append-nil, append_assoc}
use apirun.Orchestrator.Graph.{DependencyGraph, edges_of, or_nil}
use apirun.Orchestrator.Graph.WellFormed.{count, pending}

-- There is an edge from `a` to `b`: stage `b` depends on stage `a`.
abbrev pub IsEdge : DependencyGraph → String → String → Type 0
IsEdge g a b = elem b (edges_of g a) ≡ true

-- Every name of the list has the sources of its edges before it.
abbrev pub Placed : DependencyGraph → List String → List String → Type 0
Placed g before [] = Unit
Placed g before (x ∷ xs) =
    ((a : String) → IsEdge g a x → elem a before ≡ true) × Placed g (snoc before x) xs

pub count-pos : (m : String) (xs : List String) → elem m xs ≡ true → 1 ≤ count m xs
unfolding count elem
count-pos m [] h = ground arith
count-pos m (x ∷ xs) h = ground (arith, count-pos m xs)

pub count-zero : (m : String) (xs : List String) → elem m xs ≡ false → count m xs ≡ 0
unfolding count elem
count-zero m [] h = refl
count-zero m (x ∷ xs) h = ground (arith, count-zero m xs)

count-le-pending :
    (done : List String) (m a : String) (es : Map (List String))
    → elem a done ≡ false
    → count m (or_nil (lookup a es)) ≤ pending done m es
unfolding pending lookup count
count-le-pending done m a [] n = omega arith
count-le-pending done m a ((j, bs) ∷ es) n =
    ground (arith, eq_iff j a, count-le-pending done m a es)

-- With no pending edge into `m`, every source of an edge into it is done.
pub source_done :
    (g : DependencyGraph) (done : List String) (m a : String)
    → pending done m g.edges ≡ 0
    → IsEdge g a m
    → elem a done ≡ true
unfolding edges_of
source_done g done m a z e =
    ground (arith, count-le-pending done m a g.edges, count-pos m (or_nil (lookup a g.edges)))

-- If all sources of edges into `m` are done, no edge is pending.
pub pending-zero :
    (done : List String) (m : String) (es : Map (List String))
    → Distinct (keys es)
    → ((a : String) → elem m (or_nil (lookup a es)) ≡ true → elem a done ≡ true)
    → pending done m es ≡ 0
unfolding pending lookup elem
pending-zero done m [] d h = refl
pending-zero done m ((j, bs) ∷ es) d h = ground (
  arith,
  h j,
  eq_iff j j,
  count-zero m bs,
  pending-zero done m es d.1 (λ a e. ground (arith, h a, eq_iff j a, elem-keys a es)),
)

pending-snoc_absent :
    (done : List String) (c m : String) (es : Map (List String))
    → elem c (keys es) ≡ false
    → pending (snoc done c) m es ≡ pending done m es
unfolding pending elem
pending-snoc_absent done c m [] n = refl
pending-snoc_absent done c m ((j, bs) ∷ es) n =
    ground (arith, elem-snoc j c done, eq_iff c j, eq_iff j c, pending-snoc_absent done c m es)

-- To finish `c` takes its edges off what is pending.
pub pending-snoc :
    (done : List String) (c m : String) (es : Map (List String))
    → Distinct (keys es)
    → elem c done ≡ false
    → count m (or_nil (lookup c es)) + pending (snoc done c) m es ≡ pending done m es
unfolding pending lookup count
pending-snoc done c m [] d n = refl
pending-snoc done c m ((j, bs) ∷ es) d n = ground (
  arith,
  eq_iff j c,
  eq_iff c j,
  elem-snoc j c done,
  pending-snoc_absent done c m es,
  pending-snoc done c m es d.1,
)

pub Placed-snoc :
    (g : DependencyGraph) (before xs : List String) (c : String)
    → Placed g before xs
    → ((a : String) → IsEdge g a c → elem a (before ++ xs) ≡ true)
    → Placed g before (snoc xs c)
Placed-snoc g before [] c p h = ((λ a e. rw append-nil at (h a e)), tt)
Placed-snoc g before (x ∷ xs) c p h = (
  p.0,
  Placed-snoc g (snoc before x) xs c p.1 (λ a e. rw (append_assoc before (x ∷ []) xs) (h a e)),
)
