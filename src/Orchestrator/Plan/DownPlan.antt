-- ===== src/Orchestrator/Plan/DownPlan.antt =====
-- The order in which ExecuteStagesDown rolls stages back.
use apirun.Prelude.{
  String, ◌≡◌, refl, sym, subst, ◌∙◌, Bool, true, false, ◌&&◌, some, List, [], ◌∷◌, ◌++◌, arith,
  elem, elem-snoc, elem-keep, keep, eq_iff, Distinct, Distinct-snoc, Bool-cases, inl, inr, ok,
  some-ok-injective, snoc,
}
use mathlib.Core.List.{reverse, reverse-cons}
use apirun.Orchestrator.Graph.{DependencyGraph}
use apirun.Orchestrator.Graph.WellFormed.{IsWellFormed}
use apirun.Orchestrator.Graph.Pending.{IsEdge, Placed}
use apirun.Orchestrator.Graph.Kahn.{topological_sort}
use apirun.Orchestrator.Graph.Order.{Visits, topological_sort-IsTopological}
use apirun.Orchestrator.Plan.{get_down_order, filter_stages_in_range_down}
use apirun.Orchestrator.Plan.UpPlan.{Sorted-cases}
use apirun.Orchestrator.Plan.Slice.{in_range_down, is_bound, filter_stages_in_range_down-keep}

-- No later stage of the list depends on an earlier one.
abbrev pub Descends : DependencyGraph → List String → Type 0
Descends g [] = Unit
Descends g (x ∷ xs) = ((b : String) → elem b xs ≡ true → ¬ IsEdge g x b) × Descends g xs

pub elem-reverse : (a : String) (xs : List String) → elem a (reverse xs) ≡ elem a xs
unfolding elem
elem-reverse a [] = refl
elem-reverse a (x ∷ xs) =
    rw reverse-cons (ground (arith, elem-snoc a x (reverse xs), elem-reverse a xs))

module _ (g : DependencyGraph) where
  Descends-snoc :
      (xs : List String) (x : String)
      → Descends g xs
      → ((y : String) → elem y xs ≡ true → ¬ IsEdge g y x)
      → Descends g (xs ++ x ∷ [])
  unfolding elem
  Descends-snoc [] x d h = ((λ b e. cc), tt)
  Descends-snoc (y ∷ ys) x d h = (
    (λ b e edge. elim (Bool-cases (elem b ys)) [
      | inl i ↦ d.0 b i edge
      | inr n ↦
          let last : x ≡ b = (eq_iff x b).0 (ground (arith, elem-snoc b x ys)) in
          h y (ground (arith, eq_iff y y)) (rw last edge)
    ]),
    Descends-snoc ys x d.1 (λ z e. h z (ground arith)),
  )

  -- The reverse of an order in which every stage stands behind what it depends on.
  reverse-Descends :
      (before order : List String)
      → Placed g before order
      → Distinct order
      → ((a : String) → elem a before ≡ true → elem a order ≡ false)
      → Descends g (reverse order)
  unfolding elem
  reverse-Descends before [] p d apart = tt
  reverse-Descends before (x ∷ xs) p d apart = rw reverse-cons (
      Descends-snoc (reverse xs) x
        (reverse-Descends (snoc before x) xs p.1 d.1
          (λ a. ground (arith, elem-snoc a x before, apart a, eq_iff x a, d.0)))
        (λ y e edge. absurd (ground (arith, p.0 y edge, apart y, elem-reverse y xs))))

  keep-Descends : (p : String → Bool) (xs : List String) → Descends g xs → Descends g (keep p xs)
  unfolding keep
  keep-Descends p [] d = tt
  keep-Descends p (x ∷ xs) d = elim (Bool-cases (p x)) [
    | inl e ↦ rw e ((λ b h. d.0 b (ground (arith, elem-keep p b xs))), keep-Descends p xs d.1)
    | inr e ↦ rw e (keep-Descends p xs d.1)
  ]

Distinct-reverse : (xs : List String) → Distinct xs → Distinct (reverse xs)
unfolding elem
Distinct-reverse [] d = tt
Distinct-reverse (x ∷ xs) d =
    rw reverse-cons
      (Distinct-snoc (reverse xs) x (Distinct-reverse xs d.1) (elem-reverse x xs ∙ d.0))

range-Descends :
    (g : DependencyGraph) (order : List String) (from to : String)
    → Distinct order
    → Descends g (reverse order)
    → Descends g (filter_stages_in_range_down (reverse order) from to)
range-Descends g order from to d h =
    let down = reverse order in
    rw (filter_stages_in_range_down-keep down from to (Distinct-reverse order d))
      (elim (Bool-cases (is_bound down from && is_bound down to)) [
        | inl b ↦ rw b (keep-Descends g (in_range_down down from to) down h)
        | inr b ↦ rw b tt
      ])

module _ (g : DependencyGraph) (w : IsWellFormed g) (visits : List String) (v : Visits g visits)
    (from to : String) where
  -- The stages that are rolled back are those of the range, and when one is rolled back no stage
  -- that is still to follow depends on it.
  pub get_down_order-Descends :
      (stages : List String)
      → get_down_order g visits from to ≡ some (ok stages)
      → (order : List String) × (topological_sort g visits ≡ some (ok order))
        × (stages ≡ filter_stages_in_range_down (reverse order) from to)
        × Descends g stages
  unfolding get_down_order elem
  get_down_order-Descends stages e = elim (Sorted-cases (topological_sort g visits)) [
    | inl (order, sorted) ↦
        let same : filter_stages_in_range_down (reverse order) from to ≡ stages =
          some-ok-injective (rw (sorted, get_down_order) at e) in
        let t = topological_sort-IsTopological g w visits order sorted in
        let d = reverse-Descends g [] order t.placed t.distinct (λ a h. ground arith) in
        (
          order,
          sorted,
          sym same,
          subst (Descends g) same (range-Descends g order from to t.distinct d),
        )
    | inr (inl b) ↦ cc (rw (b, get_down_order) at e)
    | inr (inr (f, b)) ↦ cc (rw (b, get_down_order) at e)
  ]
