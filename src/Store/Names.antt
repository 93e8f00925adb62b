-- ===== src/Store/Names.antt =====
-- The table names that reach the database.
use apirun.Prelude.{
  ◌≡◌, refl, String, true, false, Bool-cases, inl, inr, ◌==◌, eq_iff, if◌then◌else◌,
}
use apirun.Store.Facade.{TableNames, is_ident, is_ident_rest, ident_or, safe_table_names}

default_idents :
    (is_ident "schema_migrations" ≡ true)
    × (is_ident "migration_runs" ≡ true)
    × (is_ident "stored_env" ≡ true)
unfolding is_ident is_ident_rest
default_idents = (refl, refl, refl)

-- A name that is used: an identifier, the chosen name if that is one.
abbrev pub IsSafe : String → String → String → Type 0
IsSafe chosen default used =
    (is_ident used ≡ true) × (used ≡ (if is_ident chosen then chosen else default))

empty_ident : is_ident "" ≡ false
unfolding is_ident
empty_ident = refl

filled_ident : (name : String) → is_ident name ≡ true → (name == "") ≡ false
filled_ident name h = elim (Bool-cases (name == "")) [
  | inr filled ↦ filled
  | inl empty ↦ absurd (let e = rw ((eq_iff name "").0 empty, empty_ident) at h in cc)
]

ident_or-IsSafe :
    (chosen default : String)
    → is_ident default ≡ true
    → IsSafe chosen default (ident_or chosen default)
ident_or-IsSafe chosen default d = elim (Bool-cases (is_ident chosen)) [
  | inl ident ↦ rw (ident, filled_ident chosen ident) (ident, refl)
  | inr other ↦ rw other (d, refl)
]

-- The table names that a statement is built with are identifiers of letters, digits and underscores,
-- whatever names were chosen: a chosen name if it is such, and else the default for that table.
pub safe_table_names-IsSafe :
    (t : TableNames)
    → IsSafe t.schema_migrations "schema_migrations" (safe_table_names t).schema_migrations
      × IsSafe t.migration_runs "migration_runs" (safe_table_names t).migration_runs
      × IsSafe t.stored_env "stored_env" (safe_table_names t).stored_env
unfolding safe_table_names
safe_table_names-IsSafe t = (
  ident_or-IsSafe t.schema_migrations "schema_migrations" default_idents.0,
  ident_or-IsSafe t.migration_runs "migration_runs" default_idents.1,
  ident_or-IsSafe t.stored_env "stored_env" default_idents.2,
)
