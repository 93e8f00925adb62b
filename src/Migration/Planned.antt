-- ===== src/Migration/Planned.antt =====
-- What planUp and MigrateDown choose.
use apirun.Prelude.{ℕ, ◌≡◌, ◌<◌, Bool, ◌&&◌, List, arith, ℤ, pos, leb, ltb, eqb, keep, ◌∙◌}
use apirun.Prelude.Ordered.{Ordered, tally, sort_by-Ordered, tally-sort_by, tally-keep, tally_none}
use apirun.Migration.Types.{VersionFile}
use apirun.Migration.Planning.{plan_up, index_leb, above, limit_of, no_limit}
use apirun.Migration.Down.{to_rollback}

-- planUp plans exactly the files above the current version and up to the limit, each as often as
-- the directory lists it, in the order of their versions.
pub plan_up-tally :
    (files : List VersionFile) (cur target : ℤ)
    → ((p : VersionFile → Bool)
        → tally p (plan_up files cur target)
          ≡ tally (λ f. p f && (above cur f.index && leb f.index (limit_of target))) files)
      × Ordered index_leb (plan_up files cur target)
unfolding plan_up
plan_up-tally files cur target =
    let chosen = keep (λ f. above cur f.index && leb f.index (limit_of target)) files in
    (
      λ p. tally-sort_by index_leb p chosen ∙ tally-keep p _ files,
      sort_by-Ordered index_leb (λ a b. ground arith) (λ a b c. ground arith) chosen,
    )

-- Without a target, a file whose version is above 2^31 - 1 is never planned, whatever the current
-- version is.
pub plan_up_beyond :
    (files : List VersionFile) (cur : ℤ) (version : ℕ)
    → no_limit < version
    → tally (λ f. eqb f.index version) (plan_up files cur (pos 0)) ≡ 0
plan_up_beyond files cur version beyond =
    (plan_up-tally files cur (pos 0)).0 (λ f. eqb f.index version)
    ∙ tally_none _ files (λ f. ground arith)

-- MigrateDown rolls back exactly the applied versions above the target, each as
-- often as it is listed, the highest one first.
pub to_rollback-tally :
    (applied : List ℕ) (target : ℕ)
    → ((p : ℕ → Bool)
        → tally p (to_rollback applied target) ≡ tally (λ v. p v && ltb target v) applied)
      × Ordered (λ a b. leb b a) (to_rollback applied target)
unfolding to_rollback
to_rollback-tally applied target = (
  λ p. tally-sort_by _ p (keep (λ v. ltb target v) applied) ∙ tally-keep p _ applied,
  sort_by-Ordered _ (λ a b. ground arith) (λ a b c. ground arith) _,
)
