-- ===== src/Store/Postgresql.antt =====
-- internal/store/postgresql/store.go: the operations on PostgreSQL, on the same tables as those on
-- SQLite. The statements differ, and so do the placeholders, which are numbered. A refused INSERT
-- into migration_runs may use up a number of its sequence: `burns` says which refusals do; that the
-- sequence itself ends is not modelled. `now` is the time as the database keeps it.
pub mod Rows
pub mod Refined
use apirun.Prelude.{
  ℕ, zero, suc, ◌+◌, String, Bool, true, false, ◌&&◌, not, Option, none, some, List, [], ◌∷◌,
  length, keep, any, map, Map, eqb, ltb, leb, snoc, ◌==◌, ℤ, pos, negsuc, Result, ok, err,
  if◌then◌else◌,
}
use apirun.Prelude.Sorting.{sort_by}
use apirun.Retry.{DbError, other, Config, plain, with_retry}
use apirun.Store.{
  Run, EnvRow, Db, World, StoreError, database, target_above_current, too_many_variables, Op,
  attempt, no_wait, answer, max_version, env_of, last_run, shown_run, insert_run, delete_version,
  delete_above, exec, query, query_row, found, env_column,
}

-- An argument of a statement.
pub data Arg : Type 0 where
  number : ℕ → Arg
  text : String → Arg

-- INSERT INTO schema_migrations(version) VALUES($1) ON CONFLICT DO NOTHING
abbrev pub insert_unless_conflict : ℕ → Db → Db
insert_unless_conflict v db =
    if any (eqb v) db.versions then db else record db { versions = snoc db.versions v }

-- One clause ($i,$j,$k) for each variable, numbered from `arg_index`.
unfoldable pub values_clauses : ℕ → Map String → List (ℕ × ℕ × ℕ)
values_clauses arg_index [] = []
values_clauses arg_index (e ∷ kv) =
    (arg_index, arg_index + 1, arg_index + 2) ∷ values_clauses (arg_index + 3) kv

-- args = append(args, version, name, value)
unfoldable pub args : ℕ → Map String → List Arg
args version [] = []
args version ((name, value) ∷ kv) = number version ∷ text name ∷ text value ∷ args version kv

-- The argument that the placeholder $n stands for; the first one is $1.
unfoldable pub arg_at : List Arg → ℕ → Option Arg
arg_at [] n = none
arg_at (a ∷ given) zero = none
arg_at (a ∷ given) (suc zero) = some a
arg_at (a ∷ given) (suc (suc n)) = arg_at given (suc n)

abbrev pub row_of : Option Arg → Option Arg → Option Arg → Option EnvRow
row_of (some (number version)) (some (text name)) (some (text value)) =
    some (record { version = version; name = name; value = value })
row_of version name value = none

abbrev pub cons_row : Option EnvRow → Option (List EnvRow) → Option (List EnvRow)
cons_row (some row) (some rows) = some (row ∷ rows)
cons_row row rows = none

-- The rows of the VALUES clauses; none for a placeholder without an argument of its type.
unfoldable pub rows_of : List Arg → List (ℕ × ℕ × ℕ) → Option (List EnvRow)
rows_of given [] = some []
rows_of given ((i, j, k) ∷ clauses) =
    cons_row (row_of (arg_at given i) (arg_at given j) (arg_at given k)) (rows_of given clauses)

-- INSERT … ON CONFLICT (version, name) DO UPDATE SET value = EXCLUDED.value, for one row
unfoldable pub upsert_row : EnvRow → List EnvRow → List EnvRow
upsert_row row [] = row ∷ []
upsert_row row (r ∷ rs) =
    let rest = upsert_row row rs in
    if eqb r.version row.version && r.name == row.name
    then record r { value = row.value } ∷ rs
    else r ∷ rest

unfoldable pub upsert_rows : List EnvRow → List EnvRow → List EnvRow
upsert_rows [] stored = stored
upsert_rows (row ∷ rows) stored = upsert_rows rows (upsert_row row stored)

abbrev pub max_stored_env_entries : ℕ
max_stored_env_entries = 10000

abbrev pub bad_statement : DbError
bad_statement = record { kind = other; message = "there is no parameter" }

-- A refused attempt that has used up a number of the sequence.
abbrev pub burn : (DbError → Bool) → Option DbError × World → Option DbError × World
burn burns (none, w) = (none, w)
burn burns (some e, w) =
    (some e, if burns e then record w { db = record w.db { next_id = suc w.db.next_id } } else w)

-- The columns version and status_code are INTEGER, which has four bytes. The driver refuses an
-- argument that such a column does not hold, before it sends the statement.
abbrev pub above_int4 : ℕ
above_int4 = 2147483648

abbrev pub fits_int4 : ℕ → Bool
fits_int4 n = ltb n above_int4

abbrev pub out_of_range : DbError
out_of_range = record { kind = other; message = "is greater than maximum value for int4" }

abbrev pub refuse : Option DbError × World → Option DbError × World
refuse (none, w) = (some out_of_range, w)
refuse (some e, w) = (some e, w)

module _ (burns : DbError → Bool) (cfg : Config) where
  -- The attempts with an argument that is refused.
  unfoldable pub refused : {A : Type 0} → (Db → A) → Op A
  refused f w = answer f (with_retry cfg (λ u. refuse (attempt (λ db. db) u)) no_wait w)

  -- A statement whose arguments fit into their columns, or do not.
  abbrev pub exec_fitting : Bool → (Db → Db) → Op (Unit {0})
  exec_fitting in_range statement w =
      if in_range then exec cfg statement w else refused (λ db. tt) w

  -- Apply
  unfoldable pub apply : ℕ → Op (Unit {0})
  apply v = exec_fitting (fits_int4 v) (insert_unless_conflict v)

  -- IsApplied
  unfoldable pub is_applied : ℕ → Op Bool
  is_applied v w =
      if fits_int4 v
      then found cfg (query_row cfg (λ db. if any (eqb v) db.versions then some v else none) w)
      else refused (λ db. any (eqb v) db.versions) w

  -- CurrentVersion
  unfoldable pub current_version : Op ℕ
  current_version = query cfg (λ db. max_version db.versions)

  -- ListApplied
  unfoldable pub list_applied : Op (List ℕ)
  list_applied = query cfg (λ db. sort_by leb db.versions)

  -- Remove
  unfoldable pub remove : ℕ → Op (Unit {0})
  remove v = exec_fitting (fits_int4 v) (delete_version v)

  abbrev pub set_version_behind :
      ℤ → Result StoreError ℕ × World → Result StoreError (Unit {0}) × World
  set_version_behind target (err e, w) = (err e, w)
  set_version_behind (negsuc n) (ok current, w) =
      exec_fitting (fits_int4 n) (λ db. record db { versions = [] }) w
  set_version_behind (pos target) (ok current, w) =
      if ltb current target
      then (err (target_above_current (pos target) current), w)
      else if eqb target current
      then (ok tt, w)
      else exec_fitting (fits_int4 target) (delete_above target) w

  -- SetVersion
  unfoldable pub set_version : ℤ → Op (Unit {0})
  set_version target w = set_version_behind target (current_version w)

  -- LoadEnv
  unfoldable pub load_env : ℕ → String → Op (Map String)
  load_env version direction w =
      if fits_int4 version
      then env_column cfg (query_row cfg (λ db. last_run version direction db.runs) w)
      else refused (λ db. []) w

  -- LoadStoredEnv
  unfoldable pub load_stored_env : ℕ → Op (Map String)
  load_stored_env version w =
      if fits_int4 version
      then query cfg (λ db. env_of version db.stored_env) w
      else refused (λ db. []) w

  -- DeleteStoredEnv
  unfoldable pub delete_stored_env : ℕ → Op (Unit {0})
  delete_stored_env version =
      exec_fitting (fits_int4 version)
        (λ db. record db { stored_env = keep (λ r. not (eqb r.version version)) db.stored_env })

  -- RecordRun
  unfoldable pub record_run : ℕ → String → ℕ → Option String → Map String → Bool → Op (Unit {0})
  record_run version direction status body env failed w =
      if fits_int4 version && fits_int4 status
      then answer (λ db. tt)
          (with_retry cfg
            (λ u.
              burn burns (attempt (insert_run version direction status body env failed w.now) u))
            no_wait w)
      else refused (λ db. tt) w

  -- A statement with its arguments put in; one with a missing argument is refused.
  abbrev pub exec_rows : Bool → Option (List EnvRow) → Op (Unit {0})
  exec_rows in_range none w = (err (database (plain bad_statement)), w)
  exec_rows in_range (some rows) w =
      exec_fitting in_range (λ db. record db { stored_env = upsert_rows rows db.stored_env }) w

  -- InsertStoredEnv
  unfoldable pub insert_stored_env : ℕ → Map String → Op (Unit {0})
  insert_stored_env version kv w =
      if eqb (length kv) 0
      then (ok tt, w)
      else if ltb max_stored_env_entries (length kv)
      then (err (too_many_variables (length kv)), w)
      else exec_rows (fits_int4 version) (rows_of (args version kv) (values_clauses 1 kv)) w

  -- ListRuns
  unfoldable pub list_runs : Op (List Run)
  list_runs = query cfg (λ db. map shown_run db.runs)
