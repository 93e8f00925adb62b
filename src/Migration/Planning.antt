-- ===== src/Migration/Planning.antt =====
-- internal/migration/versioned.go and the settings of a run: which versions it covers.
use apirun.Prelude.{
  ℕ, zero, suc, ◌-◌, ◌^◌, Bool, ◌&&◌, Option, none, some, List, [], ◌∷◌, keep, leb, eqb, snoc, ℤ,
  pos, negsuc, ltb_ℤ, if◌then◌else◌,
}
use apirun.Prelude.Sorting.{sort_by}
use apirun.Migration.Types.{VersionFile, Migrator}

-- getDelayBetweenMigrations
unfoldable pub get_delay_between_migrations : Migrator → ℤ
get_delay_between_migrations m =
    if ltb_ℤ (pos 0) m.delay_between_migrations
    then m.delay_between_migrations
    else pos 1_000_000_000

-- The version limit of a run: 1<<31 - 1 stands for "all".
abbrev pub no_limit : ℕ
no_limit = 2 ^ 31 - 1

abbrev pub limit_of : ℤ → ℕ
limit_of (pos zero) = no_limit
limit_of (pos (suc n)) = suc n
limit_of (negsuc n) = no_limit

-- cur < index, for a current version that a dry run may put below 0
abbrev pub above : ℤ → ℕ → Bool
above cur index = ltb_ℤ cur (pos index)

abbrev pub index_leb : VersionFile → VersionFile → Bool
index_leb a b = leb a.index b.index

-- planUp; sort.Slice may leave files of one version in any order.
unfoldable pub plan_up : List VersionFile → ℤ → ℤ → List VersionFile
plan_up files cur target =
    sort_by index_leb (keep (λ f. above cur f.index && leb f.index (limit_of target)) files)

-- mapFilesByVersion, read at `version`: the last file of that version
unfoldable pub file_of_version : List VersionFile → ℕ → Option VersionFile
file_of_version [] version = none
file_of_version (f ∷ files) version = elim (file_of_version files version) [
  | some later ↦ some later
  | none ↦ if eqb f.index version then some f else none
]

-- for i := 1; i <= n; i++ { applied = append(applied, i) }
unfoldable pub count_up : ℕ → List ℕ
count_up zero = []
count_up (suc n) = snoc (count_up n) (suc n)

abbrev pub simulated : ℤ → List ℕ
simulated (pos n) = count_up n
simulated (negsuc n) = []
