-- ===== src/Orchestrator/Plan/UpPlan.antt =====
-- What getFilteredBatches plans.
use apirun.Prelude.{
  String, ◌≡◌, ◌≢◌, refl, sym, subst, ◌∙◌, Bool, true, ◌&&◌, Option, none, some, List, [], ◌∷◌,
  ◌++◌, arith, elem, elem-keep, keep, keep-append, All, All-keep, All-map, concat, Distinct,
  Bool-cases, List-cases, inl, inr, ◌⊎◌, ap, Result, ok, err, some-ok-injective,
}
use mathlib.Core.List.{append-nil}
use apirun.Orchestrator.Graph.{DependencyGraph}
use apirun.Orchestrator.Graph.WellFormed.{IsWellFormed}
use apirun.Orchestrator.Graph.Pending.{IsEdge}
use apirun.Orchestrator.Graph.Kahn.{topological_sort}
use apirun.Orchestrator.Graph.Batches.{get_batches}
use apirun.Orchestrator.Graph.Order.{Visits, topological_sort-IsTopological}
use apirun.Orchestrator.Graph.BatchOrder.{BatchesPlaced, get_batches-concat}
use apirun.Orchestrator.Plan.{
  filter_stages_in_range, restrict_batches, plan_batches, get_filtered_batches,
}
use apirun.Orchestrator.Plan.Slice.{keep-congr, in_range, is_bound, filter_stages_in_range-keep}

-- Every stage of a batch has those stages that it depends on, and that are to be executed, in the
-- batches before.
abbrev pub RangePlaced : DependencyGraph → List String → List String → List (List String) → Type 0
RangePlaced g stages before [] = Unit
RangePlaced g stages before (batch ∷ batches) =
    All (λ x. (a : String) → IsEdge g a x → elem a stages ≡ true → elem a before ≡ true) batch
    × RangePlaced g stages (before ++ batch) batches

pub Sorted-cases :
    {E A : Type 0} (r : Option (Result E A))
    → ((a : A) × (r ≡ some (ok a))) ⊎ ((r ≡ none) ⊎ ((e : E) × (r ≡ some (err e))))
Sorted-cases none = inr (inl refl)
Sorted-cases (some (ok a)) = inl (a, refl)
Sorted-cases (some (err e)) = inr (inr (e, refl))

module _ (stages : List String) where
  abbrev chosen : String → Bool
  chosen a = elem a stages

  restrict_batches-concat :
      (batches : List (List String))
      → concat (restrict_batches stages batches) ≡ keep chosen (concat batches)
  unfolding restrict_batches concat keep
  restrict_batches-concat [] = refl
  restrict_batches-concat (batch ∷ batches) =
      ground (arith, keep-append chosen batch (concat batches), restrict_batches-concat batches)

  restrict_batches-nonempty :
      (batches : List (List String)) → All (λ b. b ≢ []) (restrict_batches stages batches)
  unfolding restrict_batches
  restrict_batches-nonempty [] = tt
  restrict_batches-nonempty (batch ∷ batches) = elim (List-cases (keep chosen batch)) [
    | inl none_left ↦ rw (none_left, restrict_batches) (restrict_batches-nonempty batches)
    | inr (x, xs, e) ↦ rw (e, restrict_batches) ((λ p. cc), restrict_batches-nonempty batches)
  ]

  restrict_batches-RangePlaced :
      (g : DependencyGraph) (before : List String) (batches : List (List String))
      → BatchesPlaced g before batches
      → RangePlaced g stages (keep chosen before) (restrict_batches stages batches)
  unfolding restrict_batches
  restrict_batches-RangePlaced g before [] p = tt
  restrict_batches-RangePlaced g before (batch ∷ batches) p =
      let rest = restrict_batches-RangePlaced g (before ++ batch) batches p.1 in
      let split = keep-append chosen before batch in
      let here = All-keep _ chosen batch (
        All-map _
          (λ x.
            (a : String) → IsEdge g a x → elem a stages ≡ true → elem a (keep chosen before) ≡ true)
          batch (λ x h a e s. ground (arith, elem-keep chosen a before, h a e)) p.0) in
      elim (List-cases (keep chosen batch)) [
        | inl none_left ↦
            rw (none_left, restrict_batches)
              (subst (λ l. RangePlaced g stages l (restrict_batches stages batches))
                (split
                  ∙ ap (λ l. keep chosen before ++ l) none_left
                  ∙ append-nil (keep chosen before))
                rest)
        | inr (x, xs, e) ↦
            rw (e, restrict_batches)
              (
                rw e at here,
                subst (λ l. RangePlaced g stages l (restrict_batches stages batches))
                    (split ∙ ap (λ l. keep chosen before ++ l) e) rest,
              )
      ]

-- A plan for the stages `stages`, in this order.
pub record IsPlan (g : DependencyGraph) (stages : List String) (plan : List (List String))
    : Type 0 where
  pub listed : concat plan ≡ stages
  pub nonempty : All (λ b. b ≢ []) plan
  pub placed : RangePlaced g stages [] plan

plan_batches-IsPlan :
    (g : DependencyGraph) (stages : List String) (batches : List (List String))
    → keep (λ a. elem a stages) (concat batches) ≡ stages
    → BatchesPlaced g [] batches
    → IsPlan g stages (plan_batches batches stages)
unfolding plan_batches concat keep
plan_batches-IsPlan g [] batches sel p = record { listed = refl; nonempty = tt; placed = tt }
plan_batches-IsPlan g (s ∷ ss) batches sel p = record {
  listed = restrict_batches-concat (s ∷ ss) batches ∙ sel;
  nonempty = restrict_batches-nonempty (s ∷ ss) batches;
  placed = restrict_batches-RangePlaced (s ∷ ss) g [] batches p;
}

keep_nothing : (xs : List String) → keep (λ a. elem a []) xs ≡ []
unfolding keep elem
keep_nothing [] = refl
keep_nothing (x ∷ xs) = keep_nothing xs

-- The names in a range are those of the order that are in the range.
range_chosen :
    (order : List String) (from to : String)
    → Distinct order
    → (selected : List String) → filter_stages_in_range order from to ≡ selected
    → keep (λ a. elem a selected) order ≡ selected
range_chosen order from to d selected e =
    elim (Bool-cases (is_bound order from && is_bound order to)) [
      | inl b ↦
          let is_kept : selected ≡ keep (in_range order from to) order =
            sym e ∙ filter_stages_in_range-keep order from to d ∙ rw b in
          rw is_kept (
            keep-congr _ (in_range order from to) order
              (λ a h. ground (arith, elem-keep (in_range order from to) a order)))
      | inr b ↦
          let is_nil : selected ≡ [] = sym e ∙ filter_stages_in_range-keep order from to d ∙ rw b in
          rw is_nil (keep_nothing order)
    ]

module _ (g : DependencyGraph) (w : IsWellFormed g) (visits visits' : List String)
    (v : Visits g visits) (v' : Visits g visits') (from to : String) where
  -- A plan for an up execution lists, batch after batch, exactly the stages that the range selects
  -- from the order of TopologicalSort, in that order; no batch is empty; and each stage of a batch
  -- has those selected stages that it depends on in the batches before, so that the stages of one
  -- batch may run concurrently.
  pub get_filtered_batches-IsPlan :
      (plan : List (List String))
      → get_filtered_batches g visits visits' from to ≡ some (ok plan)
      → (order : List String) × (topological_sort g visits' ≡ some (ok order))
        × IsPlan g (filter_stages_in_range order from to) plan
  unfolding get_filtered_batches
  get_filtered_batches-IsPlan plan e = elim (Sorted-cases (get_batches g visits)) [
    | inl (batches, b) ↦
        let (sorted, placed) = get_batches-concat g w visits visits' v v' batches b in
        let order = concat batches in
        let t = topological_sort-IsTopological g w visits' order sorted in
        let same : plan_batches batches (filter_stages_in_range order from to) ≡ plan =
          some-ok-injective (rw (b, sorted, get_filtered_batches) at e) in
        (
          order,
          sorted,
          subst (IsPlan g (filter_stages_in_range order from to)) same (
              plan_batches-IsPlan g (filter_stages_in_range order from to) batches
                (range_chosen order from to t.distinct (filter_stages_in_range order from to) refl)
                placed),
        )
    | inr (inl b) ↦ cc (rw (b, get_filtered_batches) at e)
    | inr (inr (f, b)) ↦ cc (rw (b, get_filtered_batches) at e)
  ]
