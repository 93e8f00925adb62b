-- ===== src/Validation/Files.antt =====
-- files.go and types.go: finding and checking the files of a directory, and the counts. The walk
-- through the directory, reading and decoding a file are parameters.
use apirun.Prelude.{
  ℕ, zero, suc, ◌+◌, String, Bool, true, false, ◌&&◌, ◌||◌, not, Option, none, some, List, [], ◌∷◌,
  ◌++◌, length, keep, map, snoc, eqb, ltb, is_digit, Result, ok, err, if◌then◌else◌,
}
use Prim.Native.Char.{code}
use apirun.Prelude.Sorting.{sort_strings}
use apirun.Migration.Files.{is_yaml}
use apirun.Validation.{Fields, Issue, read_failed, invalid_yaml, ValidationResult, add_error}
use apirun.Validation.Structure.{validate_migration_structure}

pub data Summary : Type 0 where
  no_files : String → Summary
  all_valid : ℕ → Summary
  completed : ℕ → ℕ → ℕ → Summary

pub record ValidationResults : Type 0 where
  pub results : List ValidationResult
  pub summary : Summary

-- HasErrors
unfoldable pub has_errors : List ValidationResult → Bool
has_errors [] = false
has_errors (r ∷ results) = ltb 0 (length r.errors) || has_errors results

-- ErrorCount
unfoldable pub error_count : List ValidationResult → ℕ
error_count [] = 0
error_count (r ∷ results) = length r.errors + error_count results

-- WarningCount
unfoldable pub warning_count : List ValidationResult → ℕ
warning_count [] = 0
warning_count (r ∷ results) = length r.warnings + warning_count results

-- ^\d{3}_.*\.ya?ml$, with so many digits left
unfoldable pub matches_behind : ℕ → String → Bool
matches_behind left String.[] = false
matches_behind zero (String.◌∷◌ c s) = eqb (code c) b'_' && is_yaml s
matches_behind (suc left) (String.◌∷◌ c s) = is_digit (code c) && matches_behind left s

abbrev pub is_migration_filename : String → Bool
is_migration_filename name = matches_behind 3 name

-- An entry that filepath.WalkDir visits.
pub record Visited : Type 0 where
  pub path : String
  pub name : String
  pub is_dir : Bool

pub data FilesError : Type 0 where
  no_directory walk_failed : String → FilesError

pub record Disk : Type 0 where
  pub is_missing : String → Bool
  pub walk : String → Result String (List Visited)
  pub read : String → Result String String
  pub decode : String → Result String Fields
  pub to_upper : String → String

abbrev pub migration_paths : List Visited → List String
migration_paths visited =
    sort_strings
      (map (λ e. e.path) (keep (λ e. not e.is_dir && is_migration_filename e.name) visited))

module _ (disk : Disk) where
  -- findMigrationFiles
  unfoldable pub find_migration_files : String → Result FilesError (List String)
  find_migration_files dir = elim (disk.walk dir) [
    | err e ↦ err (walk_failed e)
    | ok visited ↦ ok (migration_paths visited)
  ]

  abbrev pub started : String → ValidationResult
  started path = record { file = path; errors = []; warnings = []; valid = true }

  abbrev pub with_validity : ValidationResult → ValidationResult
  with_validity r = if ltb 0 (length r.errors) then record r { valid = false } else r

  -- validateSingleFile
  unfoldable pub validate_single_file : String → ValidationResult
  validate_single_file path = elim (disk.read path) [
    | err e ↦ record (add_error (read_failed e) (started path)) { valid = false }
    | ok content ↦ elim (disk.decode content) [
      | err e ↦ record (add_error (invalid_yaml e) (started path)) { valid = false }
      | ok migration ↦
          with_validity (validate_migration_structure disk.to_upper migration (started path))
    ]
  ]

  -- The loop over the files, with the results and all errors and warnings so far.
  unfoldable pub validate_each :
      List String
      → List ValidationResult × List Issue × List Issue
      → List ValidationResult × List Issue × List Issue
  validate_each [] (results, errors, warnings) = (results, errors, warnings)
  validate_each (path ∷ paths) (results, errors, warnings) =
      let r = validate_single_file path in
      validate_each paths (snoc results r, errors ++ r.errors, warnings ++ r.warnings)

  abbrev pub summary_of : ℕ → ℕ → ℕ → Summary
  summary_of files errors warnings =
      if eqb errors 0 && eqb warnings 0 then all_valid files else completed files errors warnings

  abbrev pub summarized : ℕ → List ValidationResult × List Issue × List Issue → ValidationResults
  summarized files (results, errors, warnings) = record {
    results = results;
    summary = summary_of files (length errors) (length warnings);
  }

  abbrev pub validate_paths : String → List String → ValidationResults
  validate_paths dir [] = record { results = []; summary = no_files dir }
  validate_paths dir (path ∷ paths) =
      summarized (length (path ∷ paths)) (validate_each (path ∷ paths) ([], [], []))

  -- validateMigrationFiles
  unfoldable pub validate_migration_files : String → Result FilesError ValidationResults
  validate_migration_files dir =
      if disk.is_missing dir then err (no_directory dir) else elim (find_migration_files dir) [
        | err e ↦ err e
        | ok paths ↦ ok (validate_paths dir paths)
      ]

  -- ValidateCmd.RunE, behind the choice of the directory: whether the command fails, and with how many errors
  unfoldable pub validate_command : String → Result FilesError (Option ℕ)
  validate_command dir = elim (validate_migration_files dir) [
    | err e ↦ err e
    | ok found ↦ ok (if has_errors found.results then some (error_count found.results) else none)
  ]
