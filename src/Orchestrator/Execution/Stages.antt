-- ===== src/Orchestrator/Execution/Stages.antt =====
-- What running a stage and handling its failure do to the results and the marks of other stages.
use apirun.Prelude.{
  String, ◌≡◌, refl, true, false, ◌&&◌, not, Option, none, some, List, [], ◌∷◌, arith, Map, lookup,
  insert, snoc, joined, elem, ◌==◌, eq_iff, if◌then◌else◌, Bool-cases, Option-cases, Result-cases,
  inl, inr, subst, ◌∙◌, ap, lookup-insert,
}
use apirun.Orchestrator.Types.{Stage, StageResult, ExecutionContext}
use apirun.Orchestrator.Graph.{DependencyGraph}
use apirun.Orchestrator.Graph.Reachable.{DependsOn, get_all_dependents-DependsOn}
use apirun.Orchestrator.Execution.{
  ExecError, Execution, Runner, ran_up, skip_all, handle_stage_failure, evaluate_condition,
  prepare_stage, run_stage, execute_stage, failed_result, passed_result, finish, collect_extracted,
  migration_failed,
}

pub lookup-skip_all :
    (name b : String) (dependents : List String) (skipped : Map String)
    → (elem b dependents ≡ true
        → (reason : String) × (lookup b (skip_all name dependents skipped) ≡ some reason))
      × (elem b dependents ≡ false → lookup b (skip_all name dependents skipped) ≡ lookup b skipped)
unfolding skip_all elem
lookup-skip_all name b [] skipped = ((λ e. cc), (λ e. refl))
lookup-skip_all name b (d ∷ ds) skipped =
    let skipped' = insert d (joined "dependency " (joined name " failed")) skipped in
    let (ih, ih') = lookup-skip_all name b ds skipped' in
    elim (Bool-cases (elem b ds)) [
      | inl later ↦ ((λ e. ih later), (λ e. ground arith))
      | inr here ↦ (
        (λ e. (
          joined "dependency " (joined name " failed"),
          ih' here
              ∙ ground
                  (arith, lookup-insert d b (joined "dependency " (joined name " failed")) skipped),
        )),
        (λ e.
            ih' here
            ∙ ground
                (arith, lookup-insert d b (joined "dependency " (joined name " failed")) skipped)),
      )
    ]

-- When a stage with `on_failure: skip_dependents` fails, no error is returned, and exactly the
-- stages that depend on it, directly or through others, are marked as skipped in addition.
pub handle_stage_failure-skips :
    (g : DependencyGraph) (stage : Stage) (e : ExecError) (ctx : ExecutionContext)
    → stage.on_failure ≡ "skip_dependents"
    → ((handle_stage_failure g stage e ctx).0 ≡ none)
      × ((b : String)
          → (DependsOn g stage.name b
              → (reason : String) × (lookup b (handle_stage_failure g stage e ctx).1.skipped_stages
                  ≡ some reason))
            × (¬ DependsOn g stage.name b
                → lookup b (handle_stage_failure g stage e ctx).1.skipped_stages
                  ≡ lookup b ctx.skipped_stages))
unfolding handle_stage_failure
handle_stage_failure-skips g stage e ctx mode =
    let (dependents, found, exact) = get_all_dependents-DependsOn g stage.name in
    let marked = lookup-skip_all stage.name in
    rw (mode, found, handle_stage_failure)
      (
        refl,
        λ b. (
          (λ d. (marked b dependents ctx.skipped_stages).0 ((exact b).1 d)),
          (λ n. (marked b dependents ctx.skipped_stages).1 (elim (Bool-cases (elem b dependents)) [
            | inl e ↦ absurd (n ((exact b).0 e))
            | inr e ↦ e
          ])),
        ),
      )

lookup_here :
    (name : String) (result : StageResult) (results : Map StageResult)
    → lookup name (insert name result results) ≡ some result
lookup_here name result results =
    ground (arith, lookup-insert name name result results, eq_iff name name)

module _ (r : Runner) where
  -- The results behind a stage that left `out`.
  record Recorded (stage : Stage) (x : Execution) (out : Option ExecError × Execution)
      : Type 0 where
    result : StageResult
    present : lookup stage.name out.1.context.stage_results ≡ some result
    honest : (e : ExecError) → out.0 ≡ some e → result.success ≡ false
    others :
        (b : String)
        → (stage.name == b) ≡ false
        → lookup b out.1.context.stage_results ≡ lookup b x.context.stage_results
    marks : out.1.context.skipped_stages ≡ x.context.skipped_stages

  finish-Recorded :
      (stage : Stage) (x x' : Execution) (result : StageResult) (e : Option ExecError)
      → result.name ≡ stage.name
      → x'.context ≡ x.context
      → ((f : ExecError) → e ≡ some f → result.success ≡ false)
      → Recorded stage x (finish r result e x')
  finish-Recorded stage x x' result e named same honest = record {
    result = result;
    present =
        subst (λ n. lookup n (insert result.name result x'.context.stage_results) ≡ some result)
          named (lookup_here result.name result x'.context.stage_results);
    honest = honest;
    others = λ b other.
        lookup-insert result.name b result x'.context.stage_results
        ∙ ap (λ n. if n == b then some result else lookup b x'.context.stage_results) named
        ∙ rw other (ap (λ c. lookup b c.stage_results) same);
    marks = ap (λ c. c.skipped_stages) same;
  }

  run_stage-Recorded : (stage : Stage) (x : Execution) → Recorded stage x (run_stage r stage x)
  unfolding run_stage
  run_stage-Recorded stage x = elim (Result-cases (prepare_stage r stage x.context)) [
    | inr ((e, cause), failed) ↦
        rw (failed, run_stage)
          (finish-Recorded stage x x (failed_result r stage.name (r.message cause)) (some e) refl
            refl (λ f g. refl))
    | inl ((env, c), ready) ↦
        let answer = r.migrate_up x.trace stage env c in
        let x' : Execution = record x { trace = snoc x.trace (ran_up stage.name) } in
        elim (Option-cases answer.1) [
          | inr (e, failed) ↦
              rw (ready, failed, run_stage)
                (finish-Recorded stage x x'
                  (failed_result r stage.name (r.message (migration_failed e)))
                  (some (migration_failed e)) refl refl (λ f g. refl))
          | inl done ↦
              rw (ready, done, run_stage)
                (finish-Recorded stage x x'
                  (passed_result r stage.name (collect_extracted answer.0 [])) none refl refl
                  (λ f g. cc))
        ]
  ]

  execute_stage-Recorded :
      (stage : Stage) (x : Execution) → Recorded stage x (execute_stage r stage x)
  unfolding execute_stage
  execute_stage-Recorded stage x =
      elim (Option-cases (lookup stage.name x.context.skipped_stages)) [
        | inr (reason, marked) ↦
            rw (marked, execute_stage)
              (finish-Recorded stage x x (failed_result r stage.name (joined "skipped: " reason))
                none refl refl (λ f g. cc))
        | inl unmarked ↦
            elim (Bool-cases (
              not (stage.condition == "")
              && not (evaluate_condition r x.context stage.condition))) [
                | inl off ↦
                    rw (unmarked, off, execute_stage)
                      (finish-Recorded stage x x (passed_result r stage.name []) none refl refl
                        (λ f g. cc))
                | inr on ↦ rw (unmarked, on, execute_stage) (run_stage-Recorded stage x)
              ]
      ]

  -- executeStage always puts one result in place, that of its stage, which is not a success when
  -- an error is returned; the results of the other stages and all marks stay as they were.
  pub execute_stage-result :
      (stage : Stage) (x : Execution)
      → ((result : StageResult) × (lookup stage.name
              (execute_stage r stage x).1.context.stage_results
            ≡ some result)
          × ((e : ExecError) → (execute_stage r stage x).0 ≡ some e → result.success ≡ false))
        × ((b : String)
            → (stage.name == b) ≡ false
            → lookup b (execute_stage r stage x).1.context.stage_results
              ≡ lookup b x.context.stage_results)
        × ((execute_stage r stage x).1.context.skipped_stages ≡ x.context.skipped_stages)
  execute_stage-result stage x =
      let d = execute_stage-Recorded stage x in ((d.result, d.present, d.honest), d.others, d.marks)
