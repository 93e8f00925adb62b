-- ===== src/Migration/UpRuns.antt =====
-- What a run of MigrateUp leaves, whether it succeeds or fails.
use apirun.Prelude.{
  String, ◌≡◌, ◌⊎◌, refl, some, List, [], ℤ, pos, ok, err, if◌then◌else◌, Bool-cases, inl, inr, ◌∙◌,
  sym, ap, Result-cases, subst,
}
use apirun.Store.{World, StoreError, current_version, max_version}
use apirun.Store.Laws.{query-Effect}
use apirun.Migration.Types.{
  VersionFile, Migrator, MigrateError, files_failed, store_failed, Outside, Migrated,
}
use apirun.Migration.Planning.{plan_up, get_delay_between_migrations}
use apirun.Migration.TaskEnv.{ensure_auth}
use apirun.Migration.Up.{up_loop, start_version, migrate_up}
use apirun.Migration.UpSteps.{Read, settle}
use apirun.Migration.UpLoop.{up_loop-Progress, Progress}

-- The current version that a run starts from.
abbrev pub version_at : Migrator → World → ℤ
version_at m w = if m.dry_run then m.dry_run_from else pos (max_version w.db.versions)

module _ (o : Outside) where
  pub start_cases :
      (m : Migrator) (w : World)
      → (((start_version o m w).0 ≡ ok (version_at m w))
          ⊎ ((e : StoreError) × ((start_version o m w).0 ≡ err e)))
        × Read w (start_version o m w).1
  unfolding start_version current_version
  start_cases m w = elim (Bool-cases m.dry_run) [
    | inl dry ↦ rw dry (inl refl, refl)
    | inr wet ↦
        let x = query-Effect o.config w (λ db. max_version db.versions) in
        elim x.outcome [
          | inl (e, d) ↦ (inl (rw (wet, e, start_version) refl), rw (wet, e, start_version) d)
          | inr (f, e, d) ↦ (inr (f, rw (wet, e, start_version) refl), rw (wet, e, start_version) d)
        ]
  ]

  -- MigrateUp is its loop once the files and the current version are known.
  runs :
      (m : Migrator) (target : ℤ) (w : World) (files : List VersionFile) (c : ℤ) (x : Migrated)
      → o.files ≡ ok files
      → (start_version o m w).0 ≡ ok c
      → x
        ≡ up_loop o
            (record m { env = ensure_auth o m })
            (plan_up files c target)
            []
            []
            (record { world = (start_version o m w).1; trace = [] })
      → migrate_up o m target w ≡ x
  unfolding migrate_up start_version
  runs m target w files c x listed current e = rw (listed, current, migrate_up) (sym e)

  pub migrate_up-Progress :
      (m : Migrator) (target : ℤ) (w : World)
      → (((e : MigrateError) × ((migrate_up o m target w).error ≡ some e))
          × ((migrate_up o m target w).after.trace ≡ [])
          × ((migrate_up o m target w).after.world.db.versions ≡ w.db.versions)
          × (((x : String) × (o.files ≡ err x))
              ⊎ ((x : StoreError) × ((start_version o m w).0 ≡ err x))))
        ⊎ ((files : List VersionFile) × (o.files ≡ ok files)
            × Progress o m
                (plan_up files (version_at m w) target)
                (record { world = w; trace = [] })
                (migrate_up o m target w))
  unfolding migrate_up plan_up start_version get_delay_between_migrations
  migrate_up-Progress m target w =
      let (start, read) = start_cases m w in
      elim (Result-cases o.files) [
        | inr (e, unlisted) ↦ inl (
          rw (unlisted, migrate_up) (files_failed e, refl),
          rw (unlisted, migrate_up) refl,
          rw (unlisted, migrate_up) refl,
          inl (e, unlisted),
        )
        | inl (files, listed) ↦ elim start [
          | inr (e, failed) ↦ inl (
            rw (listed, failed, migrate_up) (store_failed e, refl),
            rw (listed, failed, migrate_up) refl,
            rw (listed, failed, migrate_up) (ap (λ db. db.versions) read),
            inr (e, failed),
          )
          | inl current ↦
              let r =
                up_loop-Progress o (record m { env = ensure_auth o m })
                  (plan_up files (version_at m w) target) [] []
                  (record { world = (start_version o m w).1; trace = [] }) in
              inr (
                files,
                listed,
                subst
                    (λ x.
                      Progress o m (plan_up files (version_at m w) target)
                        (record { world = w; trace = [] }) x)
                    (sym (runs m target w files (version_at m w) _ listed current refl))
                    (record {
                      done = r.done;
                      rest = r.rest;
                      split = r.split;
                      versions = r.versions ∙ ap (λ db. settle m.dry_run r.done db.versions) read;
                      executed = r.executed;
                      trace = r.trace;
                      attempts = r.attempts;
                      passed = r.passed;
                      complete = r.complete;
                      stopped = r.stopped;
                    }),
              )
        ]
      ]
