-- ===== src/Orchestrator/Execution/DownSteps.antt =====
-- What ExecuteStagesDown does with one stage, and why it ends.
use apirun.Prelude.{
  String, ◌≡◌, ◌⊎◌, refl, Bool, true, ◌||◌, Option, none, some, List, [], ◌∷◌, ◌++◌, arith, snoc,
  ok, err, not, ◌&&◌, false, ltb_ℤ, pos, ◌==◌, eq_iff, Bool-cases, Option-cases, Result-cases, inl,
  inr, sym, ◌∙◌, ap, map,
}
use apirun.Orchestrator.Types.{Stage, ExecutionContext}
use apirun.Orchestrator.Graph.{DependencyGraph}
use apirun.Orchestrator.Plan.{get_stage_by_name}
use apirun.Orchestrator.Execution.{
  Orchestrator, ExecError, Execution, Runner, ran_down, StageRun, StageConfig, migration_failed,
  stage_failed, handle_stage_failure, load_stage_config, build_stage_environment_for_down,
  execute_stage_down, wait_between, config_failed,
}

-- The failure of a stage that does not stop the run.
abbrev pub is_lenient : Stage → Bool
is_lenient stage = stage.on_failure == "continue" || stage.on_failure == "skip_dependents"

-- The rollback of the stage `name` behind the stages `trace` answers no error.
pub record RolledBack (r : Runner) (o : Orchestrator) (ctx : ExecutionContext)
    (trace : List StageRun) (name : String) : Type 0 where
  pub stage : Stage
  pub has_stage : get_stage_by_name o.config.stages name ≡ some stage
  pub config : StageConfig
  pub configured : load_stage_config r stage.config_path ≡ ok config
  pub passed : r.migrate_down trace stage (build_stage_environment_for_down ctx stage) config ≡ none

-- The configuration of a stage does not load, or its rollback answers an error.
abbrev pub Refused : Runner → ExecutionContext → List StageRun → Stage → Type 0
Refused r ctx trace stage =
    ((e : ExecError) × (load_stage_config r stage.config_path ≡ err e))
    ⊎ ((c : StageConfig) × (e : String) × (load_stage_config r stage.config_path ≡ ok c)
        × (r.migrate_down trace stage (build_stage_environment_for_down ctx stage) c ≡ some e))

-- The stages run behind the rollback of `done`.
abbrev pub behind : List StageRun → List String → List StageRun
behind trace [] = trace
behind trace (name ∷ done) = behind (snoc trace (ran_down name)) done

abbrev pub AllRolledBack :
    Runner → Orchestrator → ExecutionContext → List StageRun → List String → Type 0
AllRolledBack r o ctx trace [] = Unit
AllRolledBack r o ctx trace (name ∷ done) =
    RolledBack r o ctx trace name × AllRolledBack r o ctx (snoc trace (ran_down name)) done

-- The next stage of `rest` is refused, and its failure stops the run or does not.
abbrev pub RefusesNext :
    Runner → Orchestrator → ExecutionContext → List StageRun → Bool → List String → Type 0
RefusesNext r o ctx trace lenient rest =
    (name : String) × (later : List String) × (stage : Stage) × (rest ≡ name ∷ later)
    × (get_stage_by_name o.config.stages name ≡ some stage)
    × Refused r ctx trace stage
    × (is_lenient stage ≡ lenient)

-- The next stage of `rest` is not there.
abbrev pub MissesNext : Orchestrator → List String → Type 0
MissesNext o rest =
    (name : String) × (later : List String) × (rest ≡ name ∷ later)
    × (get_stage_by_name o.config.stages name ≡ none)

-- Why a run ended behind the stages `trace` with the stages `rest` to do.
abbrev pub Cause :
    Runner
    → Orchestrator
    → ExecutionContext
    → List StageRun
    → List String
    → Option ExecError
    → Type 0
Cause r o ctx trace rest none = (rest ≡ []) ⊎ RefusesNext r o ctx trace true rest
Cause r o ctx trace rest (some e) =
    MissesNext o rest
    ⊎ (RefusesNext r o ctx trace false rest
        ⊎ ((woken : String) × (r.sleep trace o.config.global.wait_between_stages ≡ some woken)))

-- The run rolled back the stages `done`, each without an error, and executed these and perhaps the
-- next one; it ended for the reason that its answer has.
pub record Ended (r : Runner) (o : Orchestrator) (names : List String) (x : Execution)
    (out : Option ExecError × Execution) : Type 0 where
  pub done : List String
  pub rest : List String
  pub split : names ≡ done ++ rest
  pub executed : List String
  pub trace : out.1.trace ≡ x.trace ++ map ran_down executed
  pub attempts :
      (executed ≡ done)
      ⊎ ((name : String) × (later : List String) × (rest ≡ name ∷ later)
          × (executed ≡ snoc done name))
  pub passed : AllRolledBack r o x.context x.trace done
  pub cause : Cause r o x.context (behind x.trace done) rest out.0

pub get_stage_by_name-name :
    (stages : List Stage) (name : String) (stage : Stage)
    → get_stage_by_name stages name ≡ some stage
    → stage.name ≡ name
unfolding get_stage_by_name
get_stage_by_name-name [] name stage e = cc
get_stage_by_name-name (s ∷ stages) name stage e = elim (Bool-cases (s.name == name)) [
  | inl here ↦
      let same : s ≡ stage = ground arith in
      ap (λ t. t.name) (sym same) ∙ (eq_iff s.name name).0 here
  | inr there ↦ get_stage_by_name-name stages name stage (ground arith)
]

-- What handleStageFailure returns says whether the failure of the stage stops the run.
pub failure_cases :
    (g : DependencyGraph) (stage : Stage) (e : ExecError) (ctx : ExecutionContext)
    → (((handle_stage_failure g stage e ctx).0 ≡ none) × (is_lenient stage ≡ true))
      ⊎ ((f : ExecError) × ((handle_stage_failure g stage e ctx).0 ≡ some f)
          × (is_lenient stage ≡ false))
unfolding handle_stage_failure
failure_cases g stage e ctx = elim (Bool-cases (stage.on_failure == "continue")) [
  | inl goes_on ↦ inl (rw (goes_on, handle_stage_failure) refl, rw goes_on refl)
  | inr other ↦ elim (Bool-cases (stage.on_failure == "skip_dependents")) [
    | inl skips ↦ inl (rw (other, skips, handle_stage_failure) refl, rw (other, skips) refl)
    | inr stops ↦ inr (
      stage_failed stage.name e,
      rw (other, stops, handle_stage_failure) refl,
      rw (other, stops) refl,
    )
  ]
]

module _ (r : Runner) where
  abbrev pub rolled : String → Execution → Execution
  rolled name x = record x { trace = snoc x.trace (ran_down name) }

  pub down_cases :
      (o : Orchestrator) (name : String) (stage : Stage) (x : Execution)
      → get_stage_by_name o.config.stages name ≡ some stage
      → (((execute_stage_down r stage x).0 ≡ none)
          × ((execute_stage_down r stage x).1 ≡ rolled stage.name x)
          × RolledBack r o x.context x.trace name)
        ⊎ ((e : ExecError) × ((execute_stage_down r stage x).0 ≡ some e)
            × (((execute_stage_down r stage x).1 ≡ x)
                ⊎ ((execute_stage_down r stage x).1 ≡ rolled stage.name x))
            × Refused r x.context x.trace stage)
  unfolding execute_stage_down
  down_cases o name stage x has = elim (Result-cases (load_stage_config r stage.config_path)) [
    | inr (e, failed) ↦ inr (
      config_failed stage.name e,
      rw (failed, execute_stage_down) refl,
      inl (rw (failed, execute_stage_down) refl),
      inl (e, failed),
    )
    | inl (c, ready) ↦
        elim (Option-cases
          (r.migrate_down x.trace stage (build_stage_environment_for_down x.context stage) c)) [
            | inl done ↦ inl (
              rw (ready, done, execute_stage_down) refl,
              rw (ready, done, execute_stage_down) refl,
              record {
                stage = stage;
                has_stage = has;
                config = c;
                configured = ready;
                passed = done;
              },
            )
            | inr (e, failed) ↦ inr (
              migration_failed e,
              rw (ready, failed, execute_stage_down) refl,
              inr (rw (ready, failed, execute_stage_down) refl),
              inr (c, e, ready, failed),
            )
          ]
  ]

  pub wait_cases :
      (o : Orchestrator) (last : Bool) (x : Execution) (e : ExecError)
      → wait_between r o last x ≡ some e
      → (woken : String) × (r.sleep x.trace o.config.global.wait_between_stages ≡ some woken)
  unfolding wait_between
  wait_cases o last x e failed =
      elim (Bool-cases (not last && ltb_ℤ (pos 0) o.config.global.wait_between_stages)) [
        | inr no_wait ↦ absurd (let g = rw (no_wait, wait_between) at failed in cc)
        | inl waits ↦ elim (Option-cases (r.sleep x.trace o.config.global.wait_between_stages)) [
          | inl slept ↦ absurd (let g = rw (waits, slept, wait_between) at failed in cc)
          | inr woken ↦ woken
        ]
      ]
