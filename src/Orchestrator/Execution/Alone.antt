-- ===== src/Orchestrator/Execution/Alone.antt =====
-- The two ways in which executeBatch runs a stage agree.
use apirun.Prelude.{
  ◌≡◌, ◌≢◌, refl, ◌&&◌, not, Option, none, some, List, [], ◌∷◌, lookup, snoc, ◌==◌, joined,
  Bool-cases, Option-cases, Result-cases, inl, inr, sym, subst,
}
use apirun.Orchestrator.Types.{Stage, StageResult}
use apirun.Orchestrator.Execution.{
  Orchestrator, Runner, Execution, ExecError, ran_up, migration_failed, failed_result,
  passed_result, put_result, collect_extracted, handled, prepare_stage, evaluate_condition,
  run_stage, execute_stage,
}
use apirun.Orchestrator.Execution.Batch.{
  Phase, waiting, checked, conditioned, ready, storing, failing, done, BatchState, all_sent,
  advance, step, Steps, here, next, launched, run_alone,
}

module _ (r : Runner) (o : Orchestrator) (stage : Stage) where
  abbrev at_phase : Phase → Execution → List ExecError → BatchState
  at_phase phase x errors = record {
    routines = record { stage = stage; phase = phase } ∷ [];
    shared = x;
    errors = errors;
  }

  advanced :
      (phase next_phase : Phase) (sent : Option ExecError) (x y : Execution) (d : BatchState)
      → advance r o stage phase x ≡ (next_phase, sent, y)
      → phase ≢ done
      → Steps r o (at_phase next_phase y (all_sent sent)) d
      → Steps r o (at_phase phase x []) d
  advanced phase next_phase sent x y d e running rest =
      next (step [] [] (record { stage = stage; phase = phase }) x [] running)
        (subst (λ a. Steps r o (at_phase a.0 a.2 (all_sent a.1)) d) (sym e) rest)

  -- What a goroutine that stores a result does from there.
  abbrev settled : StageResult → Option ExecError → Execution → Option ExecError × Execution
  settled result none x = (none, record x { context = put_result result x.context })
  settled result (some e) x =
      handled o.graph stage e (record x { context = put_result result x.context })

  abbrev ended : Option ExecError × Execution → BatchState
  ended out = at_phase done out.1 (all_sent out.0)

  from_storing :
      (result : StageResult) (e : Option ExecError) (x : Execution)
      → Steps r o (at_phase (storing result e) x []) (ended (settled result e x))
  unfolding advance
  from_storing result none x = advanced (storing result none) done none x _ _ refl (λ e. cc) here
  from_storing result (some e) x =
      advanced (storing result (some e)) (failing e) none x _ _ refl (λ e. cc)
        (advanced (failing e) done
          (handled o.graph stage e (record x { context = put_result result x.context })).0
          (record x { context = put_result result x.context }) _ _ refl (λ e. cc) here)

  -- executeBatch behind executeStage
  abbrev out_of : Option ExecError × Execution → Option ExecError × Execution
  out_of p = elim p.0 [ none ↦ (none, p.1) | some e ↦ handled o.graph stage e p.1 ]

  from_conditioned :
      (x : Execution) → Steps r o (at_phase conditioned x []) (ended (out_of (run_stage r stage x)))
  unfolding advance run_stage
  from_conditioned x =
      let to = λ (p : Option ExecError × Execution).
        Steps r o (at_phase conditioned x []) (ended (out_of p)) in
      elim (Result-cases (prepare_stage r stage x.context)) [
        | inr ((e, cause), f) ↦
            let result = failed_result r stage.name (r.message cause) in
            let ran : run_stage r stage x
                ≡ (some e, record x { context = put_result result x.context }) =
              rw (f, run_stage) refl in
            subst to (sym ran) (
              advanced conditioned _ none x x _ (rw (f, advance) refl) (λ e. cc)
                (from_storing result (some e) x))
        | inl ((env, k), f) ↦
            let x' : Execution = record x { trace = snoc x.trace (ran_up stage.name) } in
            elim (Option-cases (r.migrate_up x.trace stage env k).1) [
              | inl g ↦
                  let result =
                    passed_result r stage.name
                      (collect_extracted (r.migrate_up x.trace stage env k).0 []) in
                  let ran : run_stage r stage x
                      ≡ (none, record x' { context = put_result result x.context }) =
                    rw (f, g, run_stage) refl in
                  subst to (sym ran) (
                    advanced conditioned (ready env k) none x x _ (rw (f, advance) refl) (λ e. cc)
                      (advanced (ready env k) (storing result none) none x x' _
                        (rw (g, advance) refl) (λ e. cc) (from_storing result none x')))
              | inr (e, g) ↦
                  let result = failed_result r stage.name (r.message (migration_failed e)) in
                  let ran : run_stage r stage x ≡ (
                    some (migration_failed e),
                    record x' { context = put_result result x.context },
                  ) =
                    rw (f, g, run_stage) refl in
                  subst to (sym ran) (
                    advanced conditioned (ready env k) none x x _ (rw (f, advance) refl) (λ e. cc)
                      (advanced (ready env k) (storing result (some (migration_failed e))) none x x'
                        _ (rw (g, advance) refl) (λ e. cc)
                        (from_storing result (some (migration_failed e)) x')))
            ]
      ]

  -- What executeBatch does with a batch of one stage, without a goroutine, is what the goroutine of
  -- that stage does when it runs alone: the same context, and the same error.
  pub run_alone-Steps :
      (x : Execution)
      → Steps r o (launched r o (stage ∷ []) x) (record {
        routines = record { stage = stage; phase = done } ∷ [];
        shared = (run_alone r o stage x).1;
        errors = all_sent (run_alone r o stage x).0;
      })
  unfolding advance run_alone execute_stage
  run_alone-Steps x =
      let to = λ (p : Option ExecError × Execution).
        Steps r o (at_phase waiting x []) (ended (out_of p)) in
      elim (Option-cases (lookup stage.name x.context.skipped_stages)) [
        | inr (reason, e) ↦
            let result = failed_result r stage.name (joined "skipped: " reason) in
            let ran : execute_stage r stage x
                ≡ (none, record x { context = put_result result x.context }) =
              rw (e, execute_stage) refl in
            subst to (sym ran) (
              advanced waiting (storing result none) none x x _ (rw (e, advance) refl) (λ e. cc)
                (from_storing result none x))
        | inl e ↦
            elim (Bool-cases (
              not (stage.condition == "")
              && not (evaluate_condition r x.context stage.condition))) [
                | inl off ↦
                    let result = passed_result r stage.name [] in
                    let ran : execute_stage r stage x
                        ≡ (none, record x { context = put_result result x.context }) =
                      rw (e, off, execute_stage) refl in
                    subst to (sym ran) (
                      advanced waiting checked none x x _ (rw (e, advance) refl) (λ e. cc)
                        (advanced checked (storing result none) none x x _ (rw (off, advance) refl)
                          (λ e. cc) (from_storing result none x)))
                | inr on ↦
                    let ran : execute_stage r stage x ≡ run_stage r stage x =
                      rw (e, on, execute_stage) refl in
                    subst to (sym ran) (
                      advanced waiting checked none x x _ (rw (e, advance) refl) (λ e. cc)
                        (advanced checked conditioned none x x _ (rw (on, advance) refl) (λ e. cc)
                          (from_conditioned x)))
              ]
      ]
