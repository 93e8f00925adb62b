-- ===== src/Migration/Files.antt =====
-- listMigrationFiles of internal/migration/versioned.go, with its regular expression
-- ^(\d+)_.*\.(ya?ml)$ as a walk through the name.
use apirun.Prelude.{
  ℕ, ◌+◌, ◌-◌, ◌*◌, ◌^◌, String, Bool, true, false, ◌&&◌, ◌||◌, not, Option, none, some, List, [],
  ◌∷◌, eqb, ltb, is_digit, has_suffix, if◌then◌else◌,
}
use Prim.Native.Char.{code}
use apirun.Prelude.Sorting.{sort_by}
use apirun.Migration.Types.{VersionFile}
use apirun.Migration.Planning.{index_leb}

-- An entry of a directory.
pub record DirEntry : Type 0 where
  pub name : String
  pub is_dir : Bool

-- What `.` matches
unfoldable pub one_line : String → Bool
one_line String.[] = true
one_line (String.◌∷◌ c s) = not (eqb (code c) 10) && one_line s

-- .*\.(ya?ml)$
abbrev pub is_yaml : String → Bool
is_yaml s = one_line s && (has_suffix s ".yaml" || has_suffix s ".yml")

-- The rest of the name, behind digits of the value `acc`, if there were any.
unfoldable pub version_behind : ℕ → Bool → String → Option ℕ
version_behind acc seen String.[] = none
version_behind acc seen (String.◌∷◌ c s) =
    let more = version_behind (acc * 10 + (code c - b'0')) true s in
    if is_digit (code c)
    then more
    else if eqb (code c) b'_' && seen && is_yaml s
    then some acc
    else none

-- Sscanf refuses a number that is no int of 64 bits.
abbrev pub fits : Option ℕ → Option ℕ
fits none = none
fits (some n) = if ltb n (2 ^ 63) then some n else none

unfoldable pub version_of_name : String → Option ℕ
version_of_name name = fits (version_behind 0 false name)

-- The files of a directory with a version; `join` is filepath.Join.
unfoldable pub version_files : (String → String) → List DirEntry → List VersionFile
version_files join [] = []
version_files join (e ∷ entries) =
    let rest = version_files join entries in
    if e.is_dir then rest else elim (version_of_name e.name) [
      | none ↦ rest
      | some index ↦ record { index = index; name = e.name; path = join e.name } ∷ rest
    ]

-- listMigrationFiles, behind the reading of the directory
unfoldable pub list_migration_files : (String → String) → List DirEntry → List VersionFile
list_migration_files join entries = sort_by index_leb (version_files join entries)
