-- ===== src/Orchestrator/Execution/Skipping.antt =====
-- A stage that is marked as skipped is not run by ExecuteStages, whatever the goroutines' steps
-- interleave to.
use apirun.Prelude.{
  ℕ, String, ◌≡◌, refl, Bool, false, ◌&&◌, not, Option, none, some, List, [], ◌∷◌, All, All-append,
  All-append_left, All-append_right, map, lookup, snoc, elem, ◌==◌, eq_iff, arith, Bool-cases,
  Option-cases, Result-cases, inl, inr, ◌∙◌, ap, Map,
}
use apirun.Prelude.Ordered.{tally}
use apirun.Orchestrator.Types.{Stage}
use apirun.Orchestrator.Graph.{DependencyGraph, or_nil}
use apirun.Orchestrator.Graph.Dependents.{get_all_dependents}
use apirun.Orchestrator.Execution.{
  Orchestrator, Runner, Execution, ExecError, StageRun, ran_up, ran_down, skip_all,
  handle_stage_failure, handled, prepare_stage, evaluate_condition, run_stage, execute_stage,
}
use apirun.Orchestrator.Graph.Reachable.{DependsOn}
use apirun.Orchestrator.Execution.Stages.{
  lookup-skip_all, execute_stage-result, handle_stage_failure-skips,
}
use apirun.Orchestrator.Execution.Batch.{
  Phase, waiting, checked, conditioned, ready, storing, failing, done, Routine, BatchState, advance,
  Step, step, Steps, here, next, run_alone, BatchRuns, alone, together, missing, StagesRun,
  finished, failed, woken, continued,
}

-- The stage of that name is marked as skipped.
abbrev pub Marked : String → Execution → Type 0
Marked name x = (reason : String) × (lookup name x.context.skipped_stages ≡ some reason)

abbrev pub is_up : String → StageRun → Bool
is_up name (ran_up n) = n == name
is_up name (ran_down n) = false

-- How often the migrations of the stage of that name were run.
abbrev pub up_runs : String → Execution → ℕ
up_runs name x = tally (is_up name) x.trace

-- The mark of `name` stays, and the stage of that name is not run.
record Untouched (name : String) (x x' : Execution) : Type 0 where
  mark : Marked name x'
  runs : up_runs name x' ≡ up_runs name x

-- A goroutine that will not run the stage of that name.
abbrev Calm : String → Stage → Phase → Type 0
Calm name stage waiting = Unit
Calm name stage checked = (stage.name == name) ≡ false
Calm name stage conditioned = (stage.name == name) ≡ false
Calm name stage (ready env c) = (stage.name == name) ≡ false
Calm name stage (storing result e) = Unit
Calm name stage (failing e) = Unit
Calm name stage done = Unit

abbrev CalmRoutine : String → Routine → Type 0
CalmRoutine name t = Calm name t.stage t.phase

tally-snoc :
    (p : StageRun → Bool) (xs : List StageRun) (x : StageRun)
    → p x ≡ false
    → tally p (snoc xs x) ≡ tally p xs
unfolding tally
tally-snoc p [] x e = ground arith
tally-snoc p (y ∷ xs) x e = ground (arith, tally-snoc p xs x e)

module _ (name : String) where
  skip_all-Marked :
      (from : String) (dependents : List String) (skipped : Map String)
      → ((reason : String) × (lookup name skipped ≡ some reason))
      → (reason : String) × (lookup name (skip_all from dependents skipped) ≡ some reason)
  skip_all-Marked from dependents skipped (reason, m) = elim (Bool-cases (elem name dependents)) [
    | inl e ↦ (lookup-skip_all from name dependents skipped).0 e
    | inr e ↦ (reason, (lookup-skip_all from name dependents skipped).1 e ∙ m)
  ]

  handled-Untouched :
      (g : DependencyGraph) (stage : Stage) (e : ExecError) (x : Execution)
      → Marked name x
      → Untouched name x (handled g stage e x).1
  unfolding handle_stage_failure
  handled-Untouched g stage e x m = elim (Bool-cases (stage.on_failure == "continue")) [
    | inl c ↦ record { mark = rw (c, handle_stage_failure) m; runs = refl }
    | inr c ↦ elim (Bool-cases (stage.on_failure == "skip_dependents")) [
      | inl s ↦ record {
        mark =
            rw (c, s, handle_stage_failure)
              (skip_all-Marked stage.name (or_nil (get_all_dependents g stage.name))
                x.context.skipped_stages m);
        runs = refl;
      }
      | inr s ↦ record { mark = rw (c, s, handle_stage_failure) m; runs = refl }
    ]
  ]

  module _ (r : Runner) (o : Orchestrator) where
    advance-Untouched :
        (stage : Stage) (phase : Phase) (x : Execution)
        → Marked name x
        → Calm name stage phase
        → Calm name stage (advance r o stage phase x).0
          × Untouched name x (advance r o stage phase x).2
    unfolding advance
    advance-Untouched stage waiting x m c =
        elim (Option-cases (lookup stage.name x.context.skipped_stages)) [
          | inr (reason, e) ↦ rw (e, advance) (tt, record { mark = m; runs = refl })
          | inl e ↦
              let other : (stage.name == name) ≡ false = elim (Bool-cases (stage.name == name)) [
                | inl same ↦ cc (e, m.1, (eq_iff stage.name name).0 same)
                | inr n ↦ n
              ] in
              rw (e, advance) (other, record { mark = m; runs = refl })
        ]
    advance-Untouched stage checked x m c =
        elim (Bool-cases
          (not (stage.condition == "") && not (evaluate_condition r x.context stage.condition))) [
            | inl off ↦ rw (off, advance) (tt, record { mark = m; runs = refl })
            | inr on ↦ rw (on, advance) (c, record { mark = m; runs = refl })
          ]
    advance-Untouched stage conditioned x m c =
        elim (Result-cases (prepare_stage r stage x.context)) [
          | inr ((e, cause), f) ↦ rw (f, advance) (tt, record { mark = m; runs = refl })
          | inl ((env, k), f) ↦ rw (f, advance) (c, record { mark = m; runs = refl })
        ]
    advance-Untouched stage (ready env k) x m c =
        elim (Option-cases (r.migrate_up x.trace stage env k).1) [
          | inl f ↦
              rw (f, advance)
                (
                  tt,
                  record { mark = m; runs = tally-snoc (is_up name) x.trace (ran_up stage.name) c },
                )
          | inr (e, f) ↦
              rw (f, advance)
                (
                  tt,
                  record { mark = m; runs = tally-snoc (is_up name) x.trace (ran_up stage.name) c },
                )
        ]
    advance-Untouched stage (storing result none) x m c = (tt, record { mark = m; runs = refl })
    advance-Untouched stage (storing result (some e)) x m c = (tt, record { mark = m; runs = refl })
    advance-Untouched stage (failing e) x m c = (tt, handled-Untouched o.graph stage e x m)
    advance-Untouched stage done x m c = (tt, record { mark = m; runs = refl })

    then-Untouched :
        {x y z : Execution} → Untouched name x y → Untouched name y z → Untouched name x z
    then-Untouched u v = record { mark = v.mark; runs = v.runs ∙ u.runs }

    Step-Untouched :
        {b c : BatchState}
        → Step r o b c
        → Marked name b.shared
        → All (CalmRoutine name) b.routines
        → All (CalmRoutine name) c.routines × Untouched name b.shared c.shared
    Step-Untouched (step before later t x errors running) m calm =
        let rest = All-append_right (CalmRoutine name) before (t ∷ later) calm in
        let (p, u) = advance-Untouched t.stage t.phase x m rest.0 in
        (
          All-append (CalmRoutine name) before _
              (All-append_left (CalmRoutine name) before (t ∷ later) calm) (p, rest.1),
          u,
        )

    Steps-Untouched :
        {b c : BatchState}
        → Steps r o b c
        → Marked name b.shared
        → All (CalmRoutine name) b.routines
        → Untouched name b.shared c.shared
    Steps-Untouched here m calm = record { mark = m; runs = refl }
    Steps-Untouched (next s ss) m calm =
        let (p, u) = Step-Untouched s m calm in then-Untouched u (Steps-Untouched ss u.mark p)

    launched-Calm :
        (stages : List Stage)
        → All (CalmRoutine name) (map (λ s. record { stage = s; phase = waiting }) stages)
    launched-Calm [] = tt
    launched-Calm (s ∷ stages) = (tt, launched-Calm stages)

    execute_stage_runs :
        (stage : Stage) (x : Execution)
        → Marked name x
        → up_runs name (execute_stage r stage x).1 ≡ up_runs name x
    unfolding execute_stage run_stage
    execute_stage_runs stage x m =
        elim (Option-cases (lookup stage.name x.context.skipped_stages)) [
          | inr (reason, e) ↦ rw (e, execute_stage) refl
          | inl e ↦
              let other : (stage.name == name) ≡ false = elim (Bool-cases (stage.name == name)) [
                | inl same ↦ cc (e, m.1, (eq_iff stage.name name).0 same)
                | inr n ↦ n
              ] in
              elim (Bool-cases (
                not (stage.condition == "")
                && not (evaluate_condition r x.context stage.condition))) [
                  | inl off ↦ rw (e, off, execute_stage) refl
                  | inr on ↦ elim (Result-cases (prepare_stage r stage x.context)) [
                    | inr ((f, cause), p) ↦ rw (e, on, p, execute_stage, run_stage) refl
                    | inl ((env, k), p) ↦ elim (Option-cases (r.migrate_up x.trace stage env k).1) [
                      | inl f ↦
                          rw (e, on, p, f, execute_stage, run_stage)
                            (tally-snoc (is_up name) x.trace (ran_up stage.name) other)
                      | inr (g, f) ↦
                          rw (e, on, p, f, execute_stage, run_stage)
                            (tally-snoc (is_up name) x.trace (ran_up stage.name) other)
                    ]
                  ]
                ]
        ]

    execute_stage-Untouched :
        (stage : Stage) (x : Execution)
        → Marked name x
        → Untouched name x (execute_stage r stage x).1
    execute_stage-Untouched stage x m = record {
      mark = (m.0, ap (lookup name) (execute_stage-result r stage x).2 ∙ m.1);
      runs = execute_stage_runs stage x m;
    }

    run_alone-Untouched :
        (stage : Stage) (x : Execution) → Marked name x → Untouched name x (run_alone r o stage x).1
    unfolding run_alone
    run_alone-Untouched stage x m =
        let u = execute_stage-Untouched stage x m in
        elim (Option-cases (execute_stage r stage x).0) [
          | inl e ↦ rw (e, run_alone) u
          | inr (e, f) ↦
              rw (f, run_alone)
                (then-Untouched u
                  (handled-Untouched o.graph stage e (execute_stage r stage x).1 u.mark))
        ]

    BatchRuns-Untouched :
        {names : List String} {x : Execution} {out : Option ExecError × Execution}
        → BatchRuns r o names x out
        → Marked name x
        → Untouched name x out.1
    BatchRuns-Untouched {x = x} (alone stage e) m = run_alone-Untouched stage x m
    BatchRuns-Untouched (together stages b n f ss d) m = Steps-Untouched ss m (launched-Calm stages)
    BatchRuns-Untouched (missing found missed later stages b f n ss) m =
        Steps-Untouched ss m (launched-Calm stages)

    StagesRun-Untouched :
        {batches : List (List String)} {x : Execution} {out : Option ExecError × Execution}
        → StagesRun r o batches x out
        → Marked name x
        → Untouched name x out.1
    StagesRun-Untouched finished m = record { mark = m; runs = refl }
    StagesRun-Untouched (failed e b) m = BatchRuns-Untouched b m
    StagesRun-Untouched (woken e b w) m = BatchRuns-Untouched b m
    StagesRun-Untouched (continued b w run) m =
        let u = BatchRuns-Untouched b m in then-Untouched u (StagesRun-Untouched run u.mark)

-- When a stage with `on_failure: skip_dependents` has failed and its failure is handled, no stage
-- that depends on it, directly or through others, is run by any batches that ExecuteStages runs
-- from there on, whatever the steps of their goroutines interleave to and however the run ends.
pub StagesRun-skips :
    (r : Runner) (o : Orchestrator) (stage : Stage) (e : ExecError) (x : Execution)
    (batches : List (List String)) (out : Option ExecError × Execution) (name : String)
    → stage.on_failure ≡ "skip_dependents"
    → DependsOn o.graph stage.name name
    → StagesRun r o batches (handled o.graph stage e x).1 out
    → up_runs name out.1 ≡ up_runs name x
StagesRun-skips r o stage e x batches out name mode depends run =
    let marked = ((handle_stage_failure-skips o.graph stage e x.context mode).1 name).0 depends in
    (StagesRun-Untouched name r o run marked).runs
