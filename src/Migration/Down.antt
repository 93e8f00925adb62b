-- ===== src/Migration/Down.antt =====
-- MigrateDown of internal/migration/migrator.go.
use apirun.Prelude.{
  ℕ, Bool, Option, none, some, List, [], ◌∷◌, keep, ltb, leb, snoc, ℤ, pos, negsuc, ltb_ℤ, Result,
  ok, err, if◌then◌else◌,
}
use apirun.Prelude.Sorting.{sort_by}
use apirun.Store.{World, StoreError, list_applied, remove, delete_stored_env, record_run}
use apirun.Migration.Types.{
  VersionFile, Migrator, Task, ExecResult, ExecWithVersion, executed_down, Session, MigrateError,
  files_failed, load_failed, execution_failed, record_remove_failed, store_failed, target_above,
  no_file, Outside, Migrated, stop, is_some, body_to_save,
}
use apirun.Migration.Planning.{file_of_version, simulated}
use apirun.Migration.TaskEnv.{ensure_auth, init_down, render_find}
use apirun.Migration.Up.{start_version}

-- What rolling back one version gives: its result and an error.
pub record DownOutcome : Type 0 where
  pub result : Option ExecWithVersion
  pub error : Option MigrateError
  pub after : Session

-- The applied versions above the target, in descending order.
unfoldable pub to_rollback : List ℕ → ℕ → List ℕ
to_rollback applied target = sort_by (λ a b. leb b a) (keep (λ v. ltb target v) applied)

-- A negative target counts as 0.
abbrev pub down_target : ℤ → ℕ
down_target (pos n) = n
down_target (negsuc n) = 0

module _ (o : Outside) where
  -- The record of a down execution; the errors of the store are dropped.
  unfoldable pub record_down : Migrator → ℕ → Option ExecResult → Bool → World → World
  record_down m version none failed w = w
  record_down m version (some r) failed w =
      if m.dry_run
      then w
      else (record_run o.config version "down" r.status_code (body_to_save m r) [] failed w).1

  -- Remove, and DeleteStoredEnv behind it, whose error is dropped.
  unfoldable pub forget_version : Migrator → ℕ → World → Option MigrateError × World
  forget_version m version w =
      if m.dry_run
      then (none, w)
      else (let (removed, w₁) = remove o.config version w in
          elim removed [
            | err e ↦ (some (record_remove_failed version e), w₁)
            | ok u ↦ (none, (delete_stored_env o.config version w₁).1)
          ])

  unfoldable pub execute_down_file : Migrator → ℕ → Task → Session → DownOutcome
  execute_down_file m version t s =
      let (env, w₁) = init_down o m t version s.world in
      let (result, error) =
        o.execute_down s.trace t env (render_find t.down_find m.render_body_default) in
      let w₂ = record_down m version result (is_some error) w₁ in
      let (unremoved, w₃) = forget_version m version w₂ in
      let trace = snoc s.trace (executed_down version) in
      let ewv = some (record { version = version; result = result }) in
      elim error [
        | some e ↦ record {
          result = ewv;
          error = some (execution_failed e);
          after = record { world = w₂; trace = trace };
        }
        | none ↦ record {
          result = ewv;
          error = unremoved;
          after = record { world = w₃; trace = trace };
        }
      ]

  -- runDownForVersion
  unfoldable pub run_down_for_version : Migrator → ℕ → VersionFile → Session → DownOutcome
  run_down_for_version m version f s = elim (o.load f) [
    | err e ↦ record { result = none; error = some (load_failed e); after = s }
    | ok t ↦ execute_down_file m version t s
  ]

  -- The loop over the versions.
  unfoldable pub down_loop :
      Migrator → List VersionFile → List ℕ → List (Option ExecWithVersion) → Session → Migrated
  down_loop m files [] results s = record { results = results; error = none; after = s }
  down_loop m files (v ∷ versions) results s = elim (file_of_version files v) [
    | none ↦ stop results (no_file v) s
    | some f ↦
        let run = run_down_for_version m v f s in
        let results' = snoc results run.result in
        let rest = down_loop m files versions results' run.after in
        elim run.error [ some e ↦ stop results' e run.after | none ↦ rest ]
  ]

  abbrev pub list_versions : Migrator → World → Result StoreError (List ℕ) × World
  list_versions m w =
      if m.dry_run then (ok (simulated m.dry_run_from), w) else list_applied o.config w

  -- MigrateDown
  unfoldable pub migrate_down : Migrator → ℤ → World → Migrated
  migrate_down m₀ target w =
      let m = record m₀ { env = ensure_auth o m₀ } in
      let t = down_target target in
      let (cur, w₁) = start_version o m w in
      let (applied, w₂) = list_versions m w₁ in
      let s : Session = record { world = w₂; trace = [] } in
      elim o.files [
        | err e ↦ stop [] (files_failed e) (record { world = w; trace = [] })
        | ok files ↦ elim cur [
          | err e ↦ stop [] (store_failed e) (record { world = w₁; trace = [] })
          | ok c ↦
              if ltb_ℤ c (pos t)
              then stop [] (target_above t c) (record { world = w₁; trace = [] })
              else elim applied [
                | err e ↦ stop [] (store_failed e) s
                | ok versions ↦ down_loop m files (to_rollback versions t) [] s
              ]
        ]
      ]
