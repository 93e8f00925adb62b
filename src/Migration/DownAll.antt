-- ===== src/Migration/DownAll.antt =====
-- What MigrateDown does as a whole.
use apirun.Prelude.{
  String, ℕ, ◌≡◌, ◌⊎◌, refl, Bool, true, false, not, ◌&&◌, none, some, List, [], ◌∷◌, ◌++◌, arith,
  ℤ, pos, ltb_ℤ, ok, err, if◌then◌else◌, any, eqb, leb, ltb, keep, Bool-cases, Result-cases, inl,
  inr, ◌∙◌, sym, ap, subst, map, All, All-map,
}
use mathlib.Core.List.{append-nil}
use apirun.Prelude.Sorting.{sort_by}
use apirun.Prelude.Ordered.{any-sort_by}
use apirun.Store.{World, StoreError, list_applied}
use apirun.Store.Laws.{query-Effect}
use apirun.Store.Versions.{any-keep}
use apirun.Migration.Types.{
  VersionFile, Migrator, Migrated, executed_down, MigrateError, files_failed, store_failed,
  target_above, Outside,
}
use apirun.Migration.Planning.{simulated}
use apirun.Migration.TaskEnv.{ensure_auth}
use apirun.Migration.Up.{start_version}
use apirun.Migration.Down.{to_rollback, down_target, list_versions, down_loop, migrate_down}
use apirun.Migration.UpSteps.{Read}
use apirun.Migration.UpRuns.{start_cases, version_at}
use apirun.Migration.DownRuns.{forget_all, Rollback, down_loop-Rollback}

-- The versions that count as applied.
abbrev pub applied_at : Migrator → World → List ℕ
applied_at m w = if m.dry_run then simulated m.dry_run_from else sort_by leb w.db.versions

module _ (o : Outside) (m : Migrator) where
  pub list_cases :
      (w w₁ : World)
      → Read w w₁
      → (((list_versions o m w₁).0 ≡ ok (applied_at m w))
          ⊎ ((e : StoreError) × ((list_versions o m w₁).0 ≡ err e)))
        × Read w (list_versions o m w₁).1
  unfolding list_applied
  list_cases w w₁ same = elim (Bool-cases m.dry_run) [
    | inl dry ↦ rw dry (inl refl, same)
    | inr wet ↦ elim (query-Effect o.config w₁ (λ db. sort_by leb db.versions)).outcome [
      | inl (e, d) ↦ rw wet (inl (e ∙ ap (λ db. ok (sort_by leb db.versions)) same), d ∙ same)
      | inr (f, e, d) ↦ rw wet (inr (f, e), d ∙ same)
    ]
  ]

  -- Why a rollback does not start: the files or the versions cannot be listed, the store does not say
  -- the current version, or the target is above it.
  abbrev pub Unstarted : ℤ → World → Type 0
  Unstarted target w =
      ((x : String) × (o.files ≡ err x))
      ⊎ (((x : StoreError) × ((start_version o m w).0 ≡ err x))
          ⊎ ((ltb_ℤ (version_at m w) (pos (down_target target)) ≡ true)
              ⊎ ((x : StoreError) × ((list_versions o m (start_version o m w).1).0 ≡ err x))))

  -- MigrateDown is its loop once the files and the versions are known.
  runs_down :
      (target : ℤ) (w : World) (files : List VersionFile) (c : ℤ) (applied : List ℕ) (x : Migrated)
      → o.files ≡ ok files
      → (start_version o m w).0 ≡ ok c
      → ltb_ℤ c (pos (down_target target)) ≡ false
      → (list_versions o m (start_version o m w).1).0 ≡ ok applied
      → x
        ≡ down_loop o
            (record m { env = ensure_auth o m })
            files
            (to_rollback applied (down_target target))
            []
            (record { world = (list_versions o m (start_version o m w).1).1; trace = [] })
      → migrate_down o m target w ≡ x
  unfolding migrate_down start_version
  runs_down target w files c applied x found current within versions e =
      rw (found, current, within, versions, migrate_down) (sym e)

  pub migrate_down-Rollback :
      (target : ℤ) (w : World)
      → (((e : MigrateError) × ((migrate_down o m target w).error ≡ some e))
          × ((migrate_down o m target w).after.trace ≡ [])
          × ((migrate_down o m target w).after.world.db.versions ≡ w.db.versions)
          × Unstarted target w)
        ⊎ ((files : List VersionFile) × (o.files ≡ ok files)
            × Rollback o m files
                (to_rollback (applied_at m w) (down_target target))
                (record { world = w; trace = [] })
                (migrate_down o m target w))
  unfolding migrate_down start_version
  migrate_down-Rollback target w =
      let (start, read) = start_cases o m w in
      let (listed, read') = list_cases w (start_version o m w).1 read in
      let above = ltb_ℤ (version_at m w) (pos (down_target target)) in
      elim (Result-cases o.files) [
        | inr (e, unlisted) ↦ inl (
          rw (unlisted, migrate_down) (files_failed e, refl),
          rw (unlisted, migrate_down) refl,
          rw (unlisted, migrate_down) refl,
          inl (e, unlisted),
        )
        | inl (files, found) ↦ elim start [
          | inr (e, failed) ↦ inl (
            rw (found, failed, migrate_down) (store_failed e, refl),
            rw (found, failed, migrate_down) refl,
            rw (found, failed, migrate_down) (ap (λ db. db.versions) read),
            inr (inl (e, failed)),
          )
          | inl current ↦ elim (Bool-cases above) [
            | inl beyond ↦ inl (
              rw (found, current, beyond, migrate_down)
                  (target_above (down_target target) (version_at m w), refl),
              rw (found, current, beyond, migrate_down) refl,
              rw (found, current, beyond, migrate_down) (ap (λ db. db.versions) read),
              inr (inr (inl beyond)),
            )
            | inr within ↦ elim listed [
              | inr (e, failed) ↦ inl (
                rw (found, current, within, failed, migrate_down) (store_failed e, refl),
                rw (found, current, within, failed, migrate_down) refl,
                rw (found, current, within, failed, migrate_down) (ap (λ db. db.versions) read'),
                inr (inr (inr (e, failed))),
              )
              | inl versions ↦
                  let r =
                    down_loop-Rollback o (record m { env = ensure_auth o m }) files
                      (to_rollback (applied_at m w) (down_target target)) []
                      (record {
                        world = (list_versions o m (start_version o m w).1).1;
                        trace = [];
                      }) in
                  inr (
                    files,
                    found,
                    subst
                        (λ x.
                          Rollback o m files (to_rollback (applied_at m w) (down_target target))
                            (record { world = w; trace = [] }) x)
                        (sym (
                          runs_down target w files (version_at m w) (applied_at m w) _ found current
                            within versions refl))
                        (record {
                          done = r.done;
                          rest = r.rest;
                          split = r.split;
                          recorded =
                              r.recorded ∙ ap (λ db. forget_all m.dry_run r.done db.versions) read';
                          executed = r.executed;
                          trace = r.trace;
                          attempts = r.attempts;
                          passed = r.passed;
                          complete = r.complete;
                          stopped = r.stopped;
                        }),
                  )
            ]
          ]
        ]
      ]

keep_same : (p q : ℕ → Bool) (xs : List ℕ) → All (λ x. p x ≡ q x) xs → keep p xs ≡ keep q xs
unfolding keep
keep_same p q [] h = refl
keep_same p q (x ∷ xs) h = ground (arith, h.0, keep_same p q xs h.1)

All-member : (xs : List ℕ) → All (λ v. any (eqb v) xs ≡ true) xs
unfolding any
All-member [] = tt
All-member (v ∷ vs) = (ground arith, All-map _ _ vs (λ u. ground arith) (All-member vs))

any-to_rollback :
    (v target : ℕ) (vs : List ℕ)
    → any (eqb v) (to_rollback (sort_by leb vs) target) ≡ (ltb target v && any (eqb v) vs)
unfolding to_rollback
any-to_rollback v target vs =
    any-sort_by _ (eqb v) (keep (λ u. ltb target u) (sort_by leb vs))
    ∙ any-keep v _ (sort_by leb vs)
    ∙ ap (λ b. ltb target v && b) (any-sort_by leb (eqb v) vs)

-- When MigrateDown returns no error outside of a dry run, it executed the applied versions above
-- the target one after the other, the highest one first, and recorded are exactly the versions that
-- are not above the target, in the order from before.
pub migrate_down_completes :
    (o : Outside) (m : Migrator) (target : ℤ) (w : World)
    → m.dry_run ≡ false
    → (migrate_down o m target w).error ≡ none
    → ((migrate_down o m target w).after.trace
        ≡ map executed_down (to_rollback (sort_by leb w.db.versions) (down_target target)))
      × ((migrate_down o m target w).after.world.db.versions
          ≡ keep (λ v. leb v (down_target target)) w.db.versions)
unfolding forget_all
migrate_down_completes o m target w wet done = elim (migrate_down-Rollback o m target w) [
  | inl ((e, failed), t, v, why) ↦ cc
  | inr (files, found, p) ↦
      let t = down_target target in
      let plan : to_rollback (applied_at m w) t ≡ to_rollback (sort_by leb w.db.versions) t =
        ap
          (λ dry.
            to_rollback (if dry then simulated m.dry_run_from else sort_by leb w.db.versions) t)
          wet in
      let all : p.done ≡ to_rollback (sort_by leb w.db.versions) t =
        sym (p.split ∙ ap (λ l. p.done ++ l) (p.complete done) ∙ append-nil p.done) ∙ plan in
      let ran : p.executed ≡ p.done = elim p.attempts [
        | inl e ↦ e
        | inr (v, later, e, k) ↦ cc (p.complete done)
      ] in
      (
        p.trace ∙ ap (map executed_down) (ran ∙ all),
        p.recorded
            ∙ ap (λ dry. forget_all dry p.done w.db.versions) wet
            ∙ ap (λ l. keep (λ u. not (any (eqb u) l)) w.db.versions) all
            ∙ keep_same _ _ w.db.versions (
                All-map _ _ w.db.versions (λ v h. ground (arith, any-to_rollback v t w.db.versions))
                  (All-member w.db.versions)),
      )
]
