-- ===== src/Validation/Counts.antt =====
-- What the validation of a directory reports.
use apirun.Prelude.{
  ℕ, ◌<◌, ◌≡◌, ◌↔◌, refl, sym, ap, ◌∙◌, String, false, Option, none, some, List, [], ◌∷◌, ◌++◌,
  length, map, ltb, All, ok, err, Result-cases, Bool-cases, inl, inr, arith, if◌then◌else◌,
  ok-injective, ||-false,
}
use mathlib.Core.List.{append_assoc, append-nil}
use apirun.Validation.{Fields, Issue, ValidationResult}
use apirun.Validation.Structure.{validate_migration_structure, get}
use apirun.Validation.Rules.{UpOk, DownOk}
use apirun.Validation.Valid.{validate_migration_structure_iff}
use apirun.Validation.Files.{
  Disk, started, with_validity, has_errors, error_count, validate_single_file, validate_each,
  find_migration_files, validate_paths, validate_migration_files, validate_command,
}

module _ (disk : Disk) where
  abbrev pub checked : List String → List ValidationResult
  checked paths = map (validate_single_file disk) paths

  -- The file is read, decoded, and keeps the rules.
  abbrev pub Correct : String → Type 0
  Correct path =
      (content : String) × (migration : Fields) × (disk.read path ≡ ok content)
      × (disk.decode content ≡ ok migration)
      × UpOk (get "up" migration)
      × DownOk (get "down" migration)

  validate_each-results :
      (paths : List String) (x : List ValidationResult × List Issue × List Issue)
      → (validate_each disk paths x).0 ≡ x.0 ++ checked paths
  unfolding validate_each
  validate_each-results [] (results, errors, warnings) = sym (append-nil results)
  validate_each-results (path ∷ paths) (results, errors, warnings) =
      validate_each-results paths _
      ∙ append_assoc results (validate_single_file disk path ∷ []) (checked paths)

  undecoded :
      {P : Type 0} (content other : String) (e : String) (m : Fields)
      → content ≡ other
      → disk.decode content ≡ err e
      → disk.decode other ≡ ok m
      → P
  undecoded content other e m same broken decoded =
      absurd (let clash = sym broken ∙ ap disk.decode same ∙ decoded in cc)

  validity_errors : (r : ValidationResult) → (with_validity disk r).errors ≡ r.errors
  validity_errors r = ground arith

  no_errors : (errors : List Issue) → (ltb 0 (length errors) ≡ false) ↔ (errors ≡ [])
  no_errors [] = (λ h. refl, λ h. refl)
  no_errors (e ∷ errors) = (λ h. ground arith, λ h. cc)

  single_file_iff :
      (path : String)
      → (ltb 0 (length (validate_single_file disk path).errors) ≡ false) ↔ Correct path
  unfolding validate_single_file
  single_file_iff path = elim (Result-cases (disk.read path)) [
    | inr (e, unread) ↦ rw (unread, validate_single_file) (λ h. cc, λ h. cc (h.2))
    | inl (content, read) ↦ elim (Result-cases (disk.decode content)) [
      | inr (e, broken) ↦
          rw (read, broken, validate_single_file)
            (λ h. cc, λ h. undecoded content h.0 e h.1 (ok-injective h.2) broken h.3)
      | inl (migration, decoded) ↦
          let v = validate_migration_structure disk.to_upper migration (started disk path) in
          let rule =
            validate_migration_structure_iff disk.to_upper migration (started disk path) refl in
          rw (read, decoded, validate_single_file)
            (
              λ h.
                  let kept =
                    rule.0
                      (sym (validity_errors v) ∙ (no_errors (with_validity disk v).errors).0 h) in
                  (content, migration, refl, decoded, kept.0, kept.1),
              λ h.
                  let same : content ≡ h.0 = ok-injective h.2 in
                  let again : migration ≡ h.1 =
                    ok-injective (sym decoded ∙ ap disk.decode same ∙ h.3) in
                  (no_errors (with_validity disk v).errors).1
                    (validity_errors v ∙ rule.1 (rw again (h.4), rw again (h.5))),
            )
    ]
  ]

  has_errors_iff : (paths : List String) → (has_errors (checked paths) ≡ false) ↔ All Correct paths
  unfolding has_errors
  has_errors_iff [] = ground arith
  has_errors_iff (path ∷ paths) = (
    λ h.
        let (first, rest) = ||-false _ _ h in
        ((single_file_iff path).0 first, (has_errors_iff paths).0 rest),
    λ h. rw ((single_file_iff path).1 h.0) ((has_errors_iff paths).1 h.1),
  )

  has_errors-error_count : (rs : List ValidationResult) → has_errors rs ≡ ltb 0 (error_count rs)
  unfolding has_errors error_count
  has_errors-error_count [] = ground arith
  has_errors-error_count (r ∷ rs) = ground (arith, has_errors-error_count rs)

  paths_results :
      (dir : String) (paths : List String) → (validate_paths disk dir paths).results ≡ checked paths
  paths_results dir [] = refl
  paths_results dir (path ∷ paths) = validate_each-results (path ∷ paths) ([], [], [])

  some-injective : {a b : ℕ} → ◌≡◌ {A = Option ℕ} (some a) (some b) → a ≡ b
  some-injective e = cc

  -- The command succeeds on a directory that is there, with the migration files `paths`, exactly
  -- when each of them is read, decoded and correct; otherwise it fails with the number of all
  -- errors, which is not 0. The versions of the files play no part in it: two files may have the same.
  pub validate_command_lem :
      (dir : String) (paths : List String)
      → disk.is_missing dir ≡ false
      → find_migration_files disk dir ≡ ok paths
      → ((validate_command disk dir ≡ ok none) ↔ All Correct paths)
        × ((n : ℕ)
            → validate_command disk dir ≡ ok (some n)
            → (n ≡ error_count (checked paths)) × (0 < n))
  unfolding validate_command validate_migration_files
  validate_command_lem dir paths there found =
      let rs : (validate_paths disk dir paths).results ≡ checked paths = paths_results dir paths in
      let run : validate_command disk dir
          ≡ ok (if has_errors (checked paths) then some (error_count (checked paths)) else none) =
        rw (there, found, validate_command, validate_migration_files, rs) refl in
      let rule = has_errors_iff paths in
      rw run (elim (Bool-cases (has_errors (checked paths))) [
        | inr fine ↦
            rw fine ((λ h. rule.0 fine, λ h. refl), λ n h. absurd (let g = ok-injective h in cc))
        | inl wrong ↦ rw wrong (
          (λ h. absurd (let g = ok-injective h in cc), λ h. absurd (let g = rule.1 h in cc)),
          λ n h.
              let same : error_count (checked paths) ≡ n = some-injective (ok-injective h) in
              (sym same, rw (← same) (ground (arith, has_errors-error_count (checked paths)))),
        )
      ])
