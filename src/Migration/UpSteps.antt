-- ===== src/Migration/UpSteps.antt =====
-- What the steps of MigrateUp do to the recorded versions and to the list of executions.
use apirun.Prelude.{
  ℕ, String, ◌≡◌, ◌⊎◌, refl, Bool, Option, none, some, List, [], ◌∷◌, Result, ok, err, Map,
  if◌then◌else◌, any, eqb, ltb, length, snoc, Bool-cases, Option-cases, inl, inr, ◌∙◌, ap,
  Result-cases,
}
use apirun.Env.{Val, Env}
use apirun.Retry.{Config}
use apirun.Store.{
  Db, World, StoreError, insert_version, apply, list_applied, load_stored_env, record_run,
  insert_stored_env, query, max_stored_env_vars,
}
use apirun.Store.Laws.{Effect, exec-Effect, query-Effect}
use apirun.Migration.Types.{
  VersionFile, Migrator, Task, ExecResult, executed_up, Session, version_failed, load_failed,
  sleep_interrupted, record_apply_failed, Outside,
}
use apirun.Migration.Planning.{get_delay_between_migrations}
use apirun.Migration.TaskEnv.{
  or_default, add_missing, add_stored, applied_versions, init_up, render_body,
}
use apirun.Migration.Up.{execution_error, record_up, execute_file, run_up_for_file, finish_version}

-- The world after statements that only read.
abbrev pub Read : World → World → Type 0
Read w w' = w'.db ≡ w.db

pub Read-query : {A : Type 0} (cfg : Config) (f : Db → A) (w : World) → Read w (query cfg f w).1
Read-query cfg f w = elim (query-Effect cfg w f).outcome [ inl (e, d) ↦ d | inr (g, e, d) ↦ d ]

-- A version that Apply records.
abbrev pub add_version : ℕ → List ℕ → List ℕ
add_version v vs = if any (eqb v) vs then vs else snoc vs v

-- The recorded versions behind a run that finished the files `done`.
unfoldable pub settle : Bool → List VersionFile → List ℕ → List ℕ
settle dry_run [] vs = vs
settle dry_run (f ∷ done) vs = settle dry_run done (if dry_run then vs else add_version f.index vs)

pub kept_versions :
    {A : Type 0} (a : A) (db : Db) (w : World) (r : Result StoreError A × World)
    → Effect a db w r
    → db.versions ≡ w.db.versions
    → r.1.db.versions ≡ w.db.versions
kept_versions a db w r x same = elim x.outcome [
  | inl (e, d) ↦ ap (λ db. db.versions) d ∙ same
  | inr (e, f, d) ↦ ap (λ db. db.versions) d
]

module _ (o : Outside) where
  add_stored-Read : (vs : List ℕ) (local : Map Val) (w : World) → Read w (add_stored o vs local w).1
  unfolding add_stored load_stored_env
  add_stored-Read [] local w = refl
  add_stored-Read (v ∷ vs) local w =
      let (r, w') = load_stored_env o.config v w in
      add_stored-Read vs (add_missing (or_default [] r) local) w' ∙ Read-query o.config _ w

  applied_versions-Read : (m : Migrator) (w : World) → Read w (applied_versions o m w).1
  unfolding applied_versions list_applied
  applied_versions-Read m w = elim (Bool-cases m.dry_run) [
    | inl dry ↦ rw dry refl
    | inr wet ↦ rw wet (Read-query o.config _ w)
  ]

  pub init_up-Read :
      (m : Migrator) (t : Task) (session_stored : Map String) (w : World)
      → Read w (init_up o m t session_stored w).1
  unfolding init_up
  init_up-Read m t session_stored w = add_stored-Read _ _ _ ∙ applied_versions-Read m w

  pub record_run_versions :
      (v : ℕ) (d : String) (status : ℕ) (body : Option String) (env : Map String) (failed : Bool)
      (w : World)
      → (record_run o.config v d status body env failed w).1.db.versions ≡ w.db.versions
  unfolding record_run
  record_run_versions v d status body env failed w =
      kept_versions _ _ w _ (exec-Effect o.config w _) refl

  insert_stored_env_versions :
      (v : ℕ) (kv : Map String) (w : World)
      → (insert_stored_env o.config v kv w).1.db.versions ≡ w.db.versions
  unfolding insert_stored_env
  insert_stored_env_versions v kv w = elim (Bool-cases (eqb (length kv) 0)) [
    | inl empty ↦ rw empty refl
    | inr given ↦ elim (Bool-cases (ltb max_stored_env_vars (length kv))) [
      | inl many ↦ rw (given, many) refl
      | inr few ↦ rw (given, few) (kept_versions _ _ w _ (exec-Effect o.config w _) refl)
    ]
  ]

  record_up_versions :
      (m : Migrator) (v : ℕ) (r : Option ExecResult) (failed : Bool) (w : World)
      → (record_up o m v r failed w).db.versions ≡ w.db.versions
  unfolding record_up
  record_up_versions m v none failed w = refl
  record_up_versions m v (some r) failed w = elim (Bool-cases m.dry_run) [
    | inl dry ↦ rw dry refl
    | inr wet ↦ rw wet (insert_stored_env_versions _ _ _ ∙ record_run_versions _ _ _ _ _ _ _)
  ]

  -- A file that is run leaves the recorded versions alone.
  pub run_up_versions :
      (m : Migrator) (f : VersionFile) (session_stored : Map String) (s : Session)
      → (run_up_for_file o m f session_stored s).after.world.db.versions ≡ s.world.db.versions
  unfolding run_up_for_file execute_file
  run_up_versions m f session_stored s = elim (Result-cases (o.load f)) [
    | inl (t, e) ↦
        rw (e, run_up_for_file)
          (record_up_versions m f.index _ _ _
            ∙ ap (λ db. db.versions) (init_up-Read m t session_stored s.world))
    | inr (e, failed) ↦ rw (failed, run_up_for_file) refl
  ]

  -- Running a file: it does not load, or it is executed in some environment, with the error that the
  -- execution answers.
  pub run_up_cases :
      (m : Migrator) (f : VersionFile) (session_stored : Map String) (s : Session)
      → ((x : String) × (o.load f ≡ err x)
          × ((run_up_for_file o m f session_stored s).error
              ≡ some (version_failed f.index (load_failed x)))
          × ((run_up_for_file o m f session_stored s).after.trace ≡ s.trace))
        ⊎ ((t : Task) × (env : Env) × (o.load f ≡ ok t)
            × ((run_up_for_file o m f session_stored s).error
                ≡ execution_error f.index
                    (o.execute_up s.trace t env
                      (render_body t.up_render_body m.render_body_default)).1)
            × ((run_up_for_file o m f session_stored s).after.trace
                ≡ snoc s.trace (executed_up f.index)))
  unfolding run_up_for_file execute_file
  run_up_cases m f session_stored s = elim (Result-cases (o.load f)) [
    | inl (t, e) ↦ inr (
      t,
      (init_up o m t session_stored s.world).0,
      e,
      rw (e, run_up_for_file) refl,
      rw (e, run_up_for_file) refl,
    )
    | inr (x, failed) ↦
        inl (x, failed, rw (failed, run_up_for_file) refl, rw (failed, run_up_for_file) refl)
  ]

  apply_outcome :
      (v : ℕ) (w : World)
      → (((apply o.config v w).0 ≡ ok tt) × ((apply o.config v w).1.db ≡ insert_version v w.db))
        ⊎ ((e : StoreError) × ((apply o.config v w).0 ≡ err e) × ((apply o.config v w).1.db ≡ w.db))
  unfolding apply
  apply_outcome v w = (exec-Effect o.config w (insert_version v)).outcome

  pub finish_trace :
      (m : Migrator) (v : ℕ) (s : Session) → (finish_version o m v s).1.trace ≡ s.trace
  unfolding finish_version
  finish_trace m v s = elim (Bool-cases m.dry_run) [
    | inl dry ↦ rw dry refl
    | inr wet ↦ elim (Result-cases (apply o.config v s.world).0) [
      | inr (e, failed) ↦ rw (wet, failed, finish_version) refl
      | inl (u, applied) ↦ elim (Option-cases (o.sleep s.trace (get_delay_between_migrations m))) [
        | inl slept ↦ rw (wet, applied, slept, finish_version) refl
        | inr (e, woken) ↦ rw (wet, applied, woken, finish_version) refl
      ]
    ]
  ]

  -- Either the version is recorded, and the wait behind it may be interrupted, or Apply fails.
  pub finish_cases :
      (m : Migrator) (v : ℕ) (s : Session)
      → (((finish_version o m v s).1.world.db.versions
            ≡ (if m.dry_run then s.world.db.versions else add_version v s.world.db.versions))
          × (((finish_version o m v s).0 ≡ none)
              ⊎ ((x : String) × (o.sleep s.trace (get_delay_between_migrations m) ≡ some x)
                  × ((finish_version o m v s).0 ≡ some (sleep_interrupted x)))))
        ⊎ ((x : StoreError) × ((apply o.config v s.world).0 ≡ err x)
            × ((finish_version o m v s).0 ≡ some (record_apply_failed v x))
            × ((finish_version o m v s).1.world.db.versions ≡ s.world.db.versions))
  unfolding finish_version
  finish_cases m v s = elim (Bool-cases m.dry_run) [
    | inl dry ↦ inl (rw (dry, finish_version) refl, inl (rw (dry, finish_version) refl))
    | inr wet ↦ elim (apply_outcome v s.world) [
      | inr (e, failed, d) ↦ inr (
        e,
        failed,
        rw (wet, failed, finish_version) refl,
        rw (wet, failed, finish_version) (ap (λ db. db.versions) d),
      )
      | inl (applied, d) ↦ elim (Option-cases (o.sleep s.trace (get_delay_between_migrations m))) [
        | inl slept ↦ inl (
          rw (wet, applied, slept, finish_version) (ap (λ db. db.versions) d),
          inl (rw (wet, applied, slept, finish_version) refl),
        )
        | inr (e, woken) ↦ inl (
          rw (wet, applied, woken, finish_version) (ap (λ db. db.versions) d),
          inr (e, woken, rw (wet, applied, woken, finish_version) refl),
        )
      ]
    ]
  ]
