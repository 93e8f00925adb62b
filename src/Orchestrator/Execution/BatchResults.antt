-- ===== src/Orchestrator/Execution/BatchResults.antt =====
-- Every stage of a batch has a result when the batch is over.
use apirun.Prelude.{
  String, ◌≡◌, ◌≢◌, refl, true, ◌&&◌, not, Option, none, some, List, [], ◌∷◌, ◌++◌, All, All-append,
  All-append_left, All-append_right, All-map, map, lookup, insert, lookup-insert, elem, ◌==◌,
  eq_iff, arith, Bool-cases, Option-cases, Result-cases, inl, inr, ◌∙◌, ap, subst, Map, elem-append,
}
use apirun.Orchestrator.Types.{Stage, StageResult}
use apirun.Orchestrator.Graph.{DependencyGraph}
use apirun.Orchestrator.Plan.{get_stage_by_name}
use apirun.Orchestrator.Execution.{
  Orchestrator, Runner, Execution, ExecError, handle_stage_failure, handled, prepare_stage,
  evaluate_condition, execute_stage,
}
use apirun.Orchestrator.Execution.Stages.{execute_stage-result}
use apirun.Orchestrator.Execution.DownSteps.{get_stage_by_name-name}
use apirun.Orchestrator.Execution.Batch.{
  Phase, waiting, checked, conditioned, ready, storing, failing, done, Routine, BatchState, advance,
  Step, step, Steps, here, next, launched, run_alone, BatchRuns, alone, together, missing, Found,
}

abbrev pub HasResult : String → Execution → Type 0
HasResult name x = (result : StageResult) × (lookup name x.context.stage_results ≡ some result)

-- The result that a goroutine is about to store is its own, and is there once it has stored it.
abbrev Reported : Stage → Phase → Execution → Type 0
Reported stage waiting x = Unit
Reported stage checked x = Unit
Reported stage conditioned x = Unit
Reported stage (ready env c) x = Unit
Reported stage (storing result e) x = result.name ≡ stage.name
Reported stage (failing e) x = HasResult stage.name x
Reported stage done x = HasResult stage.name x

abbrev Later : Execution → Execution → Type 0
Later x y = (name : String) → HasResult name x → HasResult name y

Reported-Later :
    (stage : Stage) (phase : Phase) (x y : Execution)
    → Later x y
    → Reported stage phase x
    → Reported stage phase y
Reported-Later stage waiting x y l p = tt
Reported-Later stage checked x y l p = tt
Reported-Later stage conditioned x y l p = tt
Reported-Later stage (ready env c) x y l p = tt
Reported-Later stage (storing result e) x y l p = p
Reported-Later stage (failing e) x y l p = l stage.name p
Reported-Later stage done x y l p = l stage.name p

handled-results :
    (g : DependencyGraph) (stage : Stage) (e : ExecError) (x : Execution)
    → (handled g stage e x).1.context.stage_results ≡ x.context.stage_results
unfolding handle_stage_failure
handled-results g stage e x = elim (Bool-cases (stage.on_failure == "continue")) [
  | inl c ↦ rw (c, handle_stage_failure) refl
  | inr c ↦ elim (Bool-cases (stage.on_failure == "skip_dependents")) [
    | inl s ↦ rw (c, s, handle_stage_failure) refl
    | inr s ↦ rw (c, s, handle_stage_failure) refl
  ]
]

handled-Later :
    (g : DependencyGraph) (stage : Stage) (e : ExecError) (x : Execution)
    → Later x (handled g stage e x).1
handled-Later g stage e x name (result, h) =
    (result, ap (lookup name) (handled-results g stage e x) ∙ h)

inserted :
    (name : String) (result : StageResult) (results : Map StageResult)
    → lookup name (insert name result results) ≡ some result
inserted name result results =
    ground (arith, lookup-insert name name result results, eq_iff name name)

put-Later :
    (result : StageResult) (name : String) (results : Map StageResult)
    → (r : StageResult) × (lookup name results ≡ some r)
    → (r : StageResult) × (lookup name (insert result.name result results) ≡ some r)
put-Later result name results (r, h) = elim (Bool-cases (result.name == name)) [
  | inl e ↦ (result, lookup-insert result.name name result results ∙ rw e refl)
  | inr e ↦ (r, lookup-insert result.name name result results ∙ rw e h)
]

same_stages :
    (before : List Routine) (t : Routine) (phase : Phase) (later : List Routine)
    → map (λ t. t.stage) (before ++ record { stage = t.stage; phase = phase } ∷ later)
      ≡ map (λ t. t.stage) (before ++ t ∷ later)
same_stages [] t phase later = refl
same_stages (u ∷ before) t phase later = ap (λ l. u.stage ∷ l) (same_stages before t phase later)

module _ (r : Runner) (o : Orchestrator) where
  advance-Reported :
      (stage : Stage) (phase : Phase) (x : Execution)
      → Reported stage phase x
      → Reported stage (advance r o stage phase x).0 (advance r o stage phase x).2
        × Later x (advance r o stage phase x).2
  unfolding advance
  advance-Reported stage waiting x p =
      elim (Option-cases (lookup stage.name x.context.skipped_stages)) [
        | inr (reason, e) ↦ rw (e, advance) (refl, λ n h. h)
        | inl e ↦ rw (e, advance) (tt, λ n h. h)
      ]
  advance-Reported stage checked x p =
      elim (Bool-cases
        (not (stage.condition == "") && not (evaluate_condition r x.context stage.condition))) [
          | inl off ↦ rw (off, advance) (refl, λ n h. h)
          | inr on ↦ rw (on, advance) (tt, λ n h. h)
        ]
  advance-Reported stage conditioned x p = elim (Result-cases (prepare_stage r stage x.context)) [
    | inr ((e, cause), f) ↦ rw (f, advance) (refl, λ n h. h)
    | inl ((env, k), f) ↦ rw (f, advance) (tt, λ n h. h)
  ]
  advance-Reported stage (ready env k) x p =
      elim (Option-cases (r.migrate_up x.trace stage env k).1) [
        | inl f ↦ rw (f, advance) (refl, λ n h. h)
        | inr (e, f) ↦ rw (f, advance) (refl, λ n h. h)
      ]
  advance-Reported stage (storing result none) x p = (
    (
      result,
      subst (λ n. lookup n (insert result.name result x.context.stage_results) ≡ some result) p
          (inserted result.name result x.context.stage_results),
    ),
    λ n h. put-Later result n x.context.stage_results h,
  )
  advance-Reported stage (storing result (some e)) x p = (
    (
      result,
      subst (λ n. lookup n (insert result.name result x.context.stage_results) ≡ some result) p
          (inserted result.name result x.context.stage_results),
    ),
    λ n h. put-Later result n x.context.stage_results h,
  )
  advance-Reported stage (failing e) x p =
      (handled-Later o.graph stage e x stage.name p, handled-Later o.graph stage e x)
  advance-Reported stage done x p = (p, λ n h. h)

  abbrev Sound : BatchState → Type 0
  Sound b = All (λ t. Reported t.stage t.phase b.shared) b.routines

  -- The stages of the goroutines stay the same.
  abbrev stages_of : BatchState → List Stage
  stages_of b = map (λ t. t.stage) b.routines

  Step-Sound : {b c : BatchState} → Step r o b c → Sound b → Sound c × (stages_of c ≡ stages_of b)
  Step-Sound (step before later t x errors running) sound =
      let left = All-append_left _ before (t ∷ later) sound in
      let right = All-append_right _ before (t ∷ later) sound in
      let (p, l) = advance-Reported t.stage t.phase x right.0 in
      let y = (advance r o t.stage t.phase x).2 in
      let keep_all = λ (ts : List Routine) (h : All (λ t. Reported t.stage t.phase x) ts).
        All-map (λ t. Reported t.stage t.phase x) (λ t. Reported t.stage t.phase y) ts
          (λ u q. Reported-Later u.stage u.phase x y l q) h in
      (
        All-append _ before _ (keep_all before left) (p, keep_all later right.1),
        same_stages before t _ later,
      )

  Steps-Sound : {b c : BatchState} → Steps r o b c → Sound b → Sound c × (stages_of c ≡ stages_of b)
  Steps-Sound here sound = (sound, refl)
  Steps-Sound (next s ss) sound =
      let (p, e) = Step-Sound s sound in let (q, f) = Steps-Sound ss p in (q, f ∙ e)

  launched-Sound :
      (stages : List Stage) (x : Execution)
      → Sound (launched r o stages x) × (stages_of (launched r o stages x) ≡ stages)
  launched-Sound [] x = (tt, refl)
  launched-Sound (s ∷ stages) x =
      let (p, e) = launched-Sound stages x in ((tt, p), ap (λ l. s ∷ l) e)

  All-done :
      (ts : List Routine) (x : Execution)
      → All (λ t. Reported t.stage t.phase x) ts
      → All (λ t. t.phase ≡ done) ts
      → All (λ s. HasResult s.name x) (map (λ t. t.stage) ts)
  All-done [] x p d = tt
  All-done (t ∷ ts) x p d = (subst (λ ph. Reported t.stage ph x) d.0 p.0, All-done ts x p.1 d.1)

  Found-results :
      (names : List String) (stages : List Stage) (x : Execution)
      → Found r o names stages
      → All (λ s. HasResult s.name x) stages
      → (name : String) → elem name names ≡ true
      → HasResult name x
  unfolding elem
  Found-results [] [] x f h name e = cc
  Found-results [] (s ∷ stages) x f h name e = absurd f
  Found-results (n ∷ names) [] x f h name e = absurd f
  Found-results (n ∷ names) (s ∷ stages) x f h name e = elim (Bool-cases (n == name)) [
    | inl same ↦
        subst (λ k. HasResult k x)
          (get_stage_by_name-name o.config.stages n s f.0 ∙ (eq_iff n name).0 same) h.0
    | inr other ↦ Found-results names stages x f.1 h.1 name (ground arith)
  ]

  run_alone-result :
      (stage : Stage) (x : Execution) → HasResult stage.name (run_alone r o stage x).1
  unfolding run_alone
  run_alone-result stage x =
      let ((result, h, _), _, _) = execute_stage-result r stage x in
      elim (Option-cases (execute_stage r stage x).0) [
        | inl e ↦ rw (e, run_alone) (result, h)
        | inr (e, f) ↦
            rw (f, run_alone)
              (handled-Later o.graph stage e (execute_stage r stage x).1 stage.name (result, h))
      ]

  -- When executeBatch is over and all stages of the batch exist, each of them has a result,
  -- whatever the steps of the goroutines interleaved to and whether it returns an error.
  pub BatchRuns-HasResult :
      {names : List String} {x : Execution} {out : Option ExecError × Execution}
      → BatchRuns r o names x out
      → ((n : String) → elem n names ≡ true → get_stage_by_name o.config.stages n ≢ none)
      → (name : String) → elem name names ≡ true
      → HasResult name out.1
  unfolding elem
  BatchRuns-HasResult {x = x} (alone {name = n} stage e) known name m =
      let same : n ≡ name = (eq_iff n name).0 (ground arith) in
      subst (λ k. HasResult k (run_alone r o stage x).1)
        (get_stage_by_name-name o.config.stages n stage e ∙ same) (run_alone-result stage x)
  BatchRuns-HasResult {x = x} (together {names = names} stages b n f ss d) known name m =
      let (p, e) = launched-Sound stages x in
      let (q, g) = Steps-Sound ss p in
      Found-results names stages b.shared f
        (subst (All (λ s. HasResult s.name b.shared)) (g ∙ e) (All-done b.routines b.shared q d))
        name m
  BatchRuns-HasResult (missing found missed later stages b f n ss) known name m = absurd (
      known missed (ground (arith, elem-append missed found (missed ∷ later), eq_iff missed missed))
        n)
