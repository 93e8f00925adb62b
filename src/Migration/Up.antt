-- ===== src/Migration/Up.antt =====
-- MigrateUp of internal/migration/migrator.go.
use apirun.Prelude.{
  ℕ, String, Bool, Option, none, some, List, [], ◌∷◌, Map, insert_all, snoc, ℤ, pos, Result, ok,
  err, if◌then◌else◌,
}
use apirun.Store.{World, StoreError, current_version, apply, insert_stored_env, record_run}
use apirun.Migration.Types.{
  VersionFile, Migrator, Task, ExecResult, ExecWithVersion, executed_up, Session, MigrateError,
  files_failed, load_failed, execution_failed, sleep_interrupted, version_failed,
  record_apply_failed, store_failed, Outside, Migrated, stop, extracted, is_some, body_to_save,
}
use apirun.Migration.Planning.{get_delay_between_migrations, plan_up}
use apirun.Migration.TaskEnv.{ensure_auth, init_up, render_body}

-- What running one file gives: its result, the variables to store and an error.
pub record UpOutcome : Type 0 where
  pub result : Option ExecWithVersion
  pub to_store : Map String
  pub error : Option MigrateError
  pub after : Session

abbrev pub execution_error : ℕ → Option String → Option MigrateError
execution_error index none = none
execution_error index (some e) = some (version_failed index (execution_failed e))

module _ (o : Outside) where
  -- The record of an up execution; the errors of the store are dropped.
  unfoldable pub record_up : Migrator → ℕ → Option ExecResult → Bool → World → World
  record_up m index none failed w = w
  record_up m index (some r) failed w =
      if m.dry_run
      then w
      else (let w₁ =
            (record_run o.config index "up" r.status_code (body_to_save m r) r.extracted_env failed
              w).1 in
          (insert_stored_env o.config index r.extracted_env w₁).1)

  unfoldable pub execute_file : Migrator → VersionFile → Task → Map String → Session → UpOutcome
  execute_file m f t session_stored s =
      let (env, w₁) = init_up o m t session_stored s.world in
      let (result, error) =
        o.execute_up s.trace t env (render_body t.up_render_body m.render_body_default) in
      record {
        result = some (record { version = f.index; result = result });
        to_store = extracted result;
        error = execution_error f.index error;
        after = record {
          world = record_up m f.index result (is_some error) w₁;
          trace = snoc s.trace (executed_up f.index);
        };
      }

  -- runUpForFile
  unfoldable pub run_up_for_file : Migrator → VersionFile → Map String → Session → UpOutcome
  run_up_for_file m f session_stored s = elim (o.load f) [
    | err e ↦ record {
      result = none;
      to_store = [];
      error = some (version_failed f.index (load_failed e));
      after = s;
    }
    | ok t ↦ execute_file m f t session_stored s
  ]

  -- The recording of a version and the delay behind it; an error ends the run.
  unfoldable pub finish_version : Migrator → ℕ → Session → Option MigrateError × Session
  finish_version m index s =
      if m.dry_run
      then (none, s)
      else (let (r, w) = apply o.config index s.world in
          let s' : Session = record s { world = w } in
          elim r [
            | err e ↦ (some (record_apply_failed index e), s')
            | ok u ↦ elim (o.sleep s.trace (get_delay_between_migrations m)) [
              | none ↦ (none, s')
              | some e ↦ (some (sleep_interrupted e), s')
            ]
          ])

  -- The loop over the plan.
  unfoldable pub up_loop :
      Migrator → List VersionFile → Map String → List (Option ExecWithVersion) → Session → Migrated
  up_loop m [] session_stored results s = record { results = results; error = none; after = s }
  up_loop m (f ∷ plan) session_stored results s =
      let run = run_up_for_file m f session_stored s in
      let results' = snoc results run.result in
      let finished = finish_version m f.index run.after in
      let rest = up_loop m plan (insert_all run.to_store session_stored) results' finished.1 in
      elim run.error [
        | some e ↦ stop results' (version_failed f.index e) run.after
        | none ↦ elim finished.0 [ some e ↦ stop results' e finished.1 | none ↦ rest ]
      ]

  -- The current version: that of the store, or the snapshot of a dry run.
  unfoldable pub start_version : Migrator → World → Result StoreError ℤ × World
  start_version m w =
      if m.dry_run
      then (ok m.dry_run_from, w)
      else (let (r, w') = current_version o.config w in
          elim r [ ok v ↦ (ok (pos v), w') | err e ↦ (err e, w') ])

  -- MigrateUp
  unfoldable pub migrate_up : Migrator → ℤ → World → Migrated
  migrate_up m₀ target w =
      let m = record m₀ { env = ensure_auth o m₀ } in
      let (cur, w') = start_version m w in
      let s : Session = record { world = w'; trace = [] } in
      elim o.files [
        | err e ↦ stop [] (files_failed e) (record { world = w; trace = [] })
        | ok files ↦ elim cur [
          | err e ↦ stop [] (store_failed e) s
          | ok c ↦ up_loop m (plan_up files c target) [] [] s
        ]
      ]
