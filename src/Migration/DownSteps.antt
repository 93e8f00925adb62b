-- ===== src/Migration/DownSteps.antt =====
-- What MigrateDown does with one version.
use apirun.Prelude.{
  ℕ, String, ◌≡◌, ◌⊎◌, refl, Bool, not, Option, none, some, List, [], List-cases, Result, ok, err,
  if◌then◌else◌, eqb, keep, snoc, Bool-cases, Option-cases, Result-cases, inl, inr, ◌∙◌, ap,
}
use apirun.Env.{Env}
use apirun.Store.{
  World, StoreError, remove, delete_version, delete_stored_env, load_stored_env, load_env,
  env_column, Run, last_run,
}
use apirun.Store.Laws.{exec-Effect, query_row_keeps}
use apirun.Migration.Types.{
  VersionFile, Migrator, Task, ExecResult, Event, executed_down, Session, MigrateError, load_failed,
  execution_failed, record_remove_failed, Outside, is_some,
}
use apirun.Migration.Planning.{file_of_version}
use apirun.Migration.TaskEnv.{or_default, render_find, init_down}
use apirun.Migration.Down.{record_down, forget_version, execute_down_file, run_down_for_version}
use apirun.Migration.UpSteps.{Read, Read-query, kept_versions, record_run_versions}

-- The file of a version loads, and its down execution behind the executions `trace` answers no error.
pub record RolledBack (o : Outside) (default : Option Bool) (files : List VersionFile)
    (trace : List Event) (v : ℕ) : Type 0 where
  pub file : VersionFile
  pub has_file : file_of_version files v ≡ some file
  pub task : Task
  pub loaded : o.load file ≡ ok task
  pub env : Env
  pub passed : (o.execute_down trace task env (render_find task.down_find default)).1 ≡ none

-- A version has no file, or the file does not load, or its execution answers an error, or the store
-- refuses to remove the version.
abbrev pub FailsDown : Outside → Option Bool → List VersionFile → List Event → ℕ → Type 0
FailsDown o default files trace v =
    (file_of_version files v ≡ none)
    ⊎ ((f : VersionFile) × (file_of_version files v ≡ some f)
        × (((x : String) × (o.load f ≡ err x))
            ⊎ (((t : Task) × (env : Env) × (x : String) × (o.load f ≡ ok t)
                  × ((o.execute_down trace t env (render_find t.down_find default)).1 ≡ some x))
                ⊎ ((x : StoreError) × (w : World) × ((remove o.config v w).0 ≡ err x)))))

module _ (o : Outside) where
  env_column_same :
      (r : Result StoreError (Option Run)) (w w' : World)
      → Read w w'
      → Read w (env_column o.config (r, w')).1
  env_column_same (ok none) w w' e = e
  env_column_same (ok (some run)) w w' e = e
  env_column_same (err f) w w' e = e

  load_env-Read : (v : ℕ) (d : String) (w : World) → Read w (load_env o.config v d w).1
  unfolding load_env
  load_env-Read v d w =
      env_column_same _ w _ (query_row_keeps o.config w (λ db. last_run v d db.runs)).0

  load_stored_env-Read : (v : ℕ) (w : World) → Read w (load_stored_env o.config v w).1
  unfolding load_stored_env
  load_stored_env-Read v w = Read-query o.config _ w

  pub init_down-Read :
      (m : Migrator) (t : Task) (v : ℕ) (w : World) → Read w (init_down o m t v w).1
  unfolding init_down
  init_down-Read m t v w =
      let (stored, w₁) = load_stored_env o.config v w in
      let first : Read w (load_stored_env o.config v w).1 = load_stored_env-Read v w in
      elim (List-cases (or_default [] (load_stored_env o.config v w).0)) [
        | inl empty ↦
            rw (empty, init_down) (load_env-Read v "up" (load_stored_env o.config v w).1 ∙ first)
        | inr (e, es, given) ↦ rw (given, init_down) first
      ]

  record_down_versions :
      (m : Migrator) (v : ℕ) (r : Option ExecResult) (failed : Bool) (w : World)
      → (record_down o m v r failed w).db.versions ≡ w.db.versions
  unfolding record_down
  record_down_versions m v none failed w = refl
  record_down_versions m v (some r) failed w = elim (Bool-cases m.dry_run) [
    | inl dry ↦ rw dry refl
    | inr wet ↦ rw wet (record_run_versions o _ _ _ _ _ _ _)
  ]

  remove_outcome :
      (v : ℕ) (w : World)
      → (((remove o.config v w).0 ≡ ok tt) × ((remove o.config v w).1.db ≡ delete_version v w.db))
        ⊎ ((e : StoreError) × ((remove o.config v w).0 ≡ err e)
            × ((remove o.config v w).1.db ≡ w.db))
  unfolding remove
  remove_outcome v w = (exec-Effect o.config w (delete_version v)).outcome

  delete_stored_versions :
      (v : ℕ) (w : World) → (delete_stored_env o.config v w).1.db.versions ≡ w.db.versions
  unfolding delete_stored_env
  delete_stored_versions v w = kept_versions _ _ w _ (exec-Effect o.config w _) refl

  forget_cases :
      (m : Migrator) (v : ℕ) (w : World)
      → (((forget_version o m v w).0 ≡ none)
          × ((forget_version o m v w).1.db.versions
              ≡ (if m.dry_run then w.db.versions else keep (λ u. not (eqb u v)) w.db.versions)))
        ⊎ ((x : StoreError) × ((remove o.config v w).0 ≡ err x)
            × ((forget_version o m v w).0 ≡ some (record_remove_failed v x))
            × ((forget_version o m v w).1.db.versions ≡ w.db.versions))
  unfolding forget_version
  forget_cases m v w = elim (Bool-cases m.dry_run) [
    | inl dry ↦ inl (rw (dry, forget_version) (refl, refl))
    | inr wet ↦ elim (remove_outcome v w) [
      | inl (removed, d) ↦ inl (
          rw (wet, removed, forget_version)
            (refl, delete_stored_versions v (remove o.config v w).1 ∙ ap (λ db. db.versions) d))
      | inr (e, failed, d) ↦ inr (
        e,
        failed,
        rw (wet, failed, forget_version) refl,
        rw (wet, failed, forget_version) (ap (λ db. db.versions) d),
      )
    ]
  ]

  -- The file of a version is executed in some environment and the version removed; or the rollback
  -- of this version fails, with or without an execution.
  pub run_down_cases :
      (m : Migrator) (files : List VersionFile) (v : ℕ) (f : VersionFile) (s : Session)
      → file_of_version files v ≡ some f
      → (((run_down_for_version o m v f s).error ≡ none)
          × ((run_down_for_version o m v f s).after.trace ≡ snoc s.trace (executed_down v))
          × ((run_down_for_version o m v f s).after.world.db.versions ≡ (
              if m.dry_run
              then s.world.db.versions
              else keep (λ u. not (eqb u v)) s.world.db.versions))
          × RolledBack o m.render_body_default files s.trace v)
        ⊎ ((e : MigrateError) × ((run_down_for_version o m v f s).error ≡ some e)
            × (((run_down_for_version o m v f s).after.trace ≡ s.trace)
                ⊎ ((run_down_for_version o m v f s).after.trace ≡ snoc s.trace (executed_down v)))
            × ((run_down_for_version o m v f s).after.world.db.versions ≡ s.world.db.versions)
            × FailsDown o m.render_body_default files s.trace v)
  unfolding run_down_for_version execute_down_file
  run_down_cases m files v f s has = elim (Result-cases (o.load f)) [
    | inr (e, failed) ↦ inr (
      load_failed e,
      rw (failed, run_down_for_version) refl,
      rw (failed, run_down_for_version) (inl refl),
      rw (failed, run_down_for_version) refl,
      inr (f, has, inl (e, failed)),
    )
    | inl (t, loaded) ↦
        let start = init_down o m t v s.world in
        let call =
          o.execute_down s.trace t start.0 (render_find t.down_find m.render_body_default) in
        let w₂ = record_down o m v call.0 (is_some call.1) start.1 in
        let kept : w₂.db.versions ≡ s.world.db.versions =
          record_down_versions m v call.0 (is_some call.1) start.1
          ∙ ap (λ db. db.versions) (init_down-Read m t v s.world) in
        elim (Option-cases call.1) [
          | inr (e, failed) ↦ inr (
            execution_failed e,
            rw (loaded, failed, run_down_for_version, execute_down_file) refl,
            rw (loaded, failed, run_down_for_version, execute_down_file) (inr refl),
            rw (loaded, failed, run_down_for_version, execute_down_file) kept,
            inr (f, has, inr (inl (t, start.0, e, loaded, failed))),
          )
          | inl good ↦ elim (forget_cases m v w₂) [
            | inl (e, d) ↦ inl (
              rw (loaded, good, run_down_for_version, execute_down_file) e,
              rw (loaded, good, run_down_for_version, execute_down_file) refl,
              rw (loaded, good, run_down_for_version, execute_down_file)
                  (d ∙ ap (λ vs. if m.dry_run then vs else keep (λ u. not (eqb u v)) vs) kept),
              record {
                file = f;
                has_file = has;
                task = t;
                loaded = loaded;
                env = start.0;
                passed = good;
              },
            )
            | inr (x, refused, failed, d) ↦ inr (
              record_remove_failed v x,
              rw (loaded, good, run_down_for_version, execute_down_file) failed,
              rw (loaded, good, run_down_for_version, execute_down_file) (inr refl),
              rw (loaded, good, run_down_for_version, execute_down_file) (d ∙ kept),
              inr (f, has, inr (inr (x, w₂, refused))),
            )
          ]
        ]
  ]
