-- ===== src/Migration/UpAgain.antt =====
-- A run of MigrateUp that succeeds leaves nothing to do.
use apirun.Prelude.{
  ℕ, ◌≡◌, refl, Bool, true, false, ◌&&◌, ◌||◌, none, List, [], ◌∷◌, ◌++◌, arith, ℤ, pos, ok,
  if◌then◌else◌, any, eqb, eqb_iff, leb, ltb, keep, Bool-cases, inl, inr, ◌∙◌, sym, ap, All,
  All-map, map,
}
use mathlib.Core.List.{append-nil}
use apirun.Prelude.Sorting.{sort_by, insert_sorted}
use apirun.Store.{World, max_version}
use apirun.Store.Versions.{any-le_max, max-le, any-snoc}
use apirun.Migration.Types.{VersionFile, Migrator, Outside, executed_up}
use apirun.Migration.Planning.{plan_up, index_leb, above, limit_of}
use apirun.Migration.UpSteps.{add_version, settle}
use apirun.Migration.UpRuns.{version_at, migrate_up-Progress}
use apirun.Migration.Up.{migrate_up}

any-add_version :
    (v u : ℕ) (vs : List ℕ) → any (eqb v) (add_version u vs) ≡ (eqb v u || any (eqb v) vs)
any-add_version v u vs = elim (Bool-cases (any (eqb u) vs)) [
  | inl e ↦ rw e (elim (Bool-cases (eqb v u)) [
    | inl same ↦ rw ((eqb_iff v u).0 same) (ground arith)
    | inr other ↦ ground arith
  ])
  | inr n ↦ rw n (any-snoc v u vs)
]

-- The recorded versions are those from before and those of the files.
pub any-settle :
    (v : ℕ) (done : List VersionFile) (vs : List ℕ)
    → any (eqb v) (settle false done vs) ≡ (any (λ f. eqb v f.index) done || any (eqb v) vs)
unfolding settle any
any-settle v [] vs = refl
any-settle v (f ∷ done) vs =
    ground (arith, any-settle v done (add_version f.index vs), any-add_version v f.index vs)

-- When MigrateUp returns no error outside of a dry run, it executed the planned files one after the
-- other, each once, and recorded are exactly the versions from before and those of the plan.
pub migrate_up_completes :
    (o : Outside) (m : Migrator) (target : ℤ) (w : World)
    → m.dry_run ≡ false
    → (migrate_up o m target w).error ≡ none
    → (files : List VersionFile) × (o.files ≡ ok files)
      × ((migrate_up o m target w).after.trace
          ≡ map (λ f. executed_up f.index) (plan_up files (pos (max_version w.db.versions)) target))
      × ((v : ℕ)
          → any (eqb v) (migrate_up o m target w).after.world.db.versions ≡ (
              any (λ f. eqb v f.index) (plan_up files (pos (max_version w.db.versions)) target)
              || any (eqb v) w.db.versions))
migrate_up_completes o m target w wet done = elim (migrate_up-Progress o m target w) [
  | inl ((e, failed), t, v, why) ↦ cc
  | inr (files, listed, p) ↦
      let plan : plan_up files (version_at m w) target
          ≡ plan_up files (pos (max_version w.db.versions)) target =
        ap
          (λ dry.
            plan_up files (if dry then m.dry_run_from else pos (max_version w.db.versions)) target)
          wet in
      let all : p.done ≡ plan_up files (pos (max_version w.db.versions)) target =
        sym (p.split ∙ ap (λ l. p.done ++ l) (p.complete done) ∙ append-nil p.done) ∙ plan in
      let ran : p.executed ≡ p.done = elim p.attempts [
        | inl e ↦ e
        | inr (f, later, e, _) ↦ cc (p.complete done)
      ] in
      (
        files,
        listed,
        p.trace ∙ ap (map (λ f. executed_up f.index)) (ran ∙ all),
        λ v.
            rw (p.versions, wet, all)
              (any-settle v (plan_up files (pos (max_version w.db.versions)) target) w.db.versions),
      )
]

All-uninserted :
    (P : VersionFile → Type 0) (x : VersionFile) (xs : List VersionFile)
    → All P (insert_sorted index_leb x xs)
    → P x × All P xs
unfolding insert_sorted
All-uninserted P x [] h = h
All-uninserted P x (y ∷ ys) h = elim (Bool-cases (index_leb x y)) [
  | inl before ↦ rw before at h
  | inr behind ↦
      let both : P y × All P (insert_sorted index_leb x ys) = rw behind at h in
      let (p, q) = All-uninserted P x ys both.1 in (p, (both.0, q))
]

All-unsorted :
    (P : VersionFile → Type 0) (xs : List VersionFile) → All P (sort_by index_leb xs) → All P xs
unfolding sort_by
All-unsorted P [] h = tt
All-unsorted P (x ∷ xs) h =
    let (p, q) = All-uninserted P x (sort_by index_leb xs) h in (p, All-unsorted P xs q)

All-kept :
    (P : VersionFile → Type 0) (q : VersionFile → Bool) (xs : List VersionFile)
    → All P (keep q xs)
    → All (λ x. q x ≡ true → P x) xs
unfolding keep
All-kept P q [] h = tt
All-kept P q (x ∷ xs) h = elim (Bool-cases (q x)) [
  | inl pass ↦
      let both : P x × All P (keep q xs) = rw pass at h in ((λ e. both.0), All-kept P q xs both.1)
  | inr fail ↦ let rest : All P (keep q xs) = rw fail at h in ((λ e. cc), All-kept P q xs rest)
]

All-any : (xs : List VersionFile) → All (λ f. any (λ g. eqb f.index g.index) xs ≡ true) xs
unfolding any
All-any [] = tt
All-any (f ∷ fs) = (ground arith, All-map _ _ fs (λ g. ground arith) (All-any fs))

keep_nothing :
    (q : VersionFile → Bool) (xs : List VersionFile) → All (λ x. q x ≡ false) xs → keep q xs ≡ []
unfolding keep
keep_nothing q [] h = refl
keep_nothing q (x ∷ xs) h = rw h.0 (keep_nothing q xs h.1)

still_recorded :
    (before after index : ℕ) (within : Bool)
    → leb before after ≡ true
    → ((ltb before index && within) ≡ true → leb index after ≡ true)
    → (ltb after index && within) ≡ false
still_recorded before after index within grown covered =
    elim (Bool-cases (ltb before index && within)) [
      | inl e ↦ let x = covered e in ground arith
      | inr n ↦ ground arith
    ]

-- Behind a run of MigrateUp that returned no error outside of a dry run, with the same files and
-- the same target, planUp chooses no file.
pub migrate_up_again :
    (o : Outside) (m : Migrator) (target : ℤ) (w : World)
    → m.dry_run ≡ false
    → (migrate_up o m target w).error ≡ none
    → (files : List VersionFile) × (o.files ≡ ok files)
      × (plan_up files (pos (max_version (migrate_up o m target w).after.world.db.versions)) target
          ≡ [])
unfolding plan_up sort_by
migrate_up_again o m target w wet done =
    let (files, listed, _, recorded) = migrate_up_completes o m target w wet done in
    let before = max_version w.db.versions in
    let after = (migrate_up o m target w).after.world.db.versions in
    let grown : leb before (max_version after) ≡ true =
      max-le (max_version after) w.db.versions
        (λ v e. any-le_max v after (rw (recorded v) (ground arith))) in
    let nothing : All
        (λ f. (above (pos (max_version after)) f.index && leb f.index (limit_of target)) ≡ false)
        files =
      All-map _ _ files
        (λ f h.
          still_recorded before (max_version after) f.index (leb f.index (limit_of target)) grown
            (λ e. any-le_max f.index after (rw (recorded f.index) (rw (h e) refl))))
        (All-kept _ (λ f. above (pos before) f.index && leb f.index (limit_of target)) files
          (All-unsorted _ _ (All-any (plan_up files (pos before) target)))) in
    (files, listed, rw (keep_nothing _ files nothing) refl)
