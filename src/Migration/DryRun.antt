-- ===== src/Migration/DryRun.antt =====
-- A dry run does not change the database.
use apirun.Prelude.{
  ℕ, String, ◌≡◌, refl, Bool, true, Option, none, some, List, [], ◌∷◌, ℤ, pos, ltb_ℤ, Map, snoc,
  insert_all, Bool-cases, Option-cases, Result-cases, inl, inr, ◌∙◌,
}
use apirun.Store.{World}
use apirun.Migration.Types.{
  VersionFile, Migrator, ExecResult, ExecWithVersion, Session, Outside, is_some,
}
use apirun.Migration.Planning.{plan_up, file_of_version}
use apirun.Migration.TaskEnv.{ensure_auth, init_down, render_find}
use apirun.Migration.Up.{
  record_up, execute_file, run_up_for_file, finish_version, up_loop, start_version, migrate_up,
}
use apirun.Migration.Down.{
  record_down, forget_version, execute_down_file, run_down_for_version, down_loop, to_rollback,
  down_target, list_versions, migrate_down,
}
use apirun.Migration.UpSteps.{Read, init_up-Read}
use apirun.Migration.UpRuns.{start_cases, version_at}
use apirun.Migration.DownSteps.{init_down-Read}
use apirun.Migration.DownAll.{list_cases, applied_at}

module _ (o : Outside) (m : Migrator) (dry : m.dry_run ≡ true) where
  record_up-Read :
      (v : ℕ) (r : Option ExecResult) (failed : Bool) (w : World)
      → Read w (record_up o m v r failed w)
  unfolding record_up
  record_up-Read v none failed w = refl
  record_up-Read v (some r) failed w = rw (dry, record_up) refl

  run_up-Read :
      (f : VersionFile) (session_stored : Map String) (s : Session)
      → Read s.world (run_up_for_file o m f session_stored s).after.world
  unfolding run_up_for_file execute_file
  run_up-Read f session_stored s = elim (Result-cases (o.load f)) [
    | inr (e, failed) ↦ rw (failed, run_up_for_file) refl
    | inl (t, e) ↦
        rw (e, run_up_for_file)
          (record_up-Read f.index _ _ _ ∙ init_up-Read o m t session_stored s.world)
  ]

  finish-Read : (v : ℕ) (s : Session) → Read s.world (finish_version o m v s).1.world
  unfolding finish_version
  finish-Read v s = rw (dry, finish_version) refl

  up_loop-Read :
      (plan : List VersionFile) (session_stored : Map String)
      (results : List (Option ExecWithVersion)) (s : Session)
      → Read s.world (up_loop o m plan session_stored results s).after.world
  unfolding up_loop
  up_loop-Read [] session_stored results s = refl
  up_loop-Read (f ∷ plan) session_stored results s =
      let run = run_up_for_file o m f session_stored s in
      let ran = run_up-Read f session_stored s in
      let stored = finish-Read f.index run.after ∙ ran in
      elim (Option-cases run.error) [
        | inr (e, failed) ↦ rw (failed, up_loop) ran
        | inl good ↦ elim (Option-cases (finish_version o m f.index run.after).0) [
          | inr (e, failed) ↦ rw (good, failed, up_loop) stored
          | inl continued ↦
              rw (good, continued, up_loop)
                (up_loop-Read plan (insert_all run.to_store session_stored)
                    (snoc results run.result) (finish_version o m f.index run.after).1
                  ∙ stored)
        ]
      ]

  record_down-Read :
      (v : ℕ) (r : Option ExecResult) (failed : Bool) (w : World)
      → Read w (record_down o m v r failed w)
  unfolding record_down
  record_down-Read v none failed w = refl
  record_down-Read v (some r) failed w = rw (dry, record_down) refl

  forget-Read : (v : ℕ) (w : World) → Read w (forget_version o m v w).1
  unfolding forget_version
  forget-Read v w = rw (dry, forget_version) refl

  run_down-Read :
      (v : ℕ) (f : VersionFile) (s : Session)
      → Read s.world (run_down_for_version o m v f s).after.world
  unfolding run_down_for_version execute_down_file
  run_down-Read v f s = elim (Result-cases (o.load f)) [
    | inr (e, failed) ↦ rw (failed, run_down_for_version) refl
    | inl (t, e) ↦
        let start = init_down o m t v s.world in
        let call =
          o.execute_down s.trace t start.0 (render_find t.down_find m.render_body_default) in
        let kept =
          record_down-Read v call.0 (is_some call.1) start.1 ∙ init_down-Read o m t v s.world in
        elim (Option-cases call.1) [
          | inr (g, failed) ↦ rw (e, failed, run_down_for_version, execute_down_file) kept
          | inl good ↦
              rw (e, good, run_down_for_version, execute_down_file)
                (forget-Read v (record_down o m v call.0 (is_some call.1) start.1) ∙ kept)
        ]
  ]

  down_loop-Read :
      (files : List VersionFile) (versions : List ℕ) (results : List (Option ExecWithVersion))
      (s : Session)
      → Read s.world (down_loop o m files versions results s).after.world
  unfolding down_loop
  down_loop-Read files [] results s = refl
  down_loop-Read files (v ∷ versions) results s = elim (Option-cases (file_of_version files v)) [
    | inl missing ↦ rw (missing, down_loop) refl
    | inr (f, has) ↦
        let run = run_down_for_version o m v f s in
        let ran = run_down-Read v f s in
        elim (Option-cases run.error) [
          | inr (e, failed) ↦ rw (has, failed, down_loop) ran
          | inl good ↦
              rw (has, good, down_loop)
                (down_loop-Read files versions (snoc results run.result) run.after ∙ ran)
        ]
  ]

dry_up :
    (o : Outside) (m : Migrator) (target : ℤ) (w : World)
    → m.dry_run ≡ true
    → Read w (migrate_up o m target w).after.world
unfolding migrate_up start_version plan_up
dry_up o m target w dry =
    let (start, read) = start_cases o m w in
    elim (Result-cases o.files) [
      | inr (e, unlisted) ↦ rw (unlisted, migrate_up) refl
      | inl (files, listed) ↦ elim start [
        | inr (e, failed) ↦ rw (listed, failed, migrate_up) read
        | inl current ↦
            rw (listed, current, migrate_up)
              (up_loop-Read o (record m { env = ensure_auth o m }) dry
                  (plan_up files (version_at m w) target) [] []
                  (record { world = (start_version o m w).1; trace = [] })
                ∙ read)
      ]
    ]

dry_down :
    (o : Outside) (m : Migrator) (target : ℤ) (w : World)
    → m.dry_run ≡ true
    → Read w (migrate_down o m target w).after.world
unfolding migrate_down start_version
dry_down o m target w dry =
    let (start, read) = start_cases o m w in
    let (listed, read') = list_cases o m w (start_version o m w).1 read in
    let t = down_target target in
    elim (Result-cases o.files) [
      | inr (e, unlisted) ↦ rw (unlisted, migrate_down) refl
      | inl (files, found) ↦ elim start [
        | inr (e, failed) ↦ rw (found, failed, migrate_down) read
        | inl current ↦ elim (Bool-cases (ltb_ℤ (version_at m w) (pos t))) [
          | inl beyond ↦ rw (found, current, beyond, migrate_down) read
          | inr within ↦ elim listed [
            | inr (e, failed) ↦ rw (found, current, within, failed, migrate_down) read'
            | inl versions ↦
                rw (found, current, within, versions, migrate_down)
                  (down_loop-Read o (record m { env = ensure_auth o m }) dry files
                      (to_rollback (applied_at m w) t) []
                      (record { world = (list_versions o m (start_version o m w).1).1; trace = [] })
                    ∙ read')
          ]
        ]
      ]
    ]

-- A dry run of MigrateUp or MigrateDown leaves every table of the store as it was, whatever the
-- executions answer and however the run ends.
pub dry_run-Read :
    (o : Outside) (m : Migrator) (target : ℤ) (w : World)
    → m.dry_run ≡ true
    → ((migrate_up o m target w).after.world.db ≡ w.db)
      × ((migrate_down o m target w).after.world.db ≡ w.db)
dry_run-Read o m target w dry = (dry_up o m target w dry, dry_down o m target w dry)
