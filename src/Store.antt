-- ===== src/Store.antt =====
-- The migration history of internal/store/sqlite/store.go. The tables of the database are lists of
-- rows, and each operation is the meaning of the SQL statement that it sends. A statement that the
-- database refuses changes no table. The refusals, one for each attempt, are a list that the
-- attempts consume; behind its end no attempt fails. The columns body and env_json hold the texts
-- and maps themselves.
pub mod Laws
pub mod Versions
pub mod Variables
pub mod Postgresql
pub mod Facade
pub mod Names
pub mod History
pub mod Shows
pub mod Refinement
use apirun.Prelude.{
  ℕ, zero, suc, String, Bool, true, false, ◌&&◌, not, Option, none, some, List, [], ◌∷◌, ◌++◌,
  length, keep, any, map, Map, eqb, ltb, leb, snoc, ◌==◌, ℤ, pos, negsuc, Result, ok, err, ◌>>=◌,
  if◌then◌else◌,
}
use apirun.Prelude.Sorting.{sort_by}
use apirun.Retry.{
  DbError, ErrorKind, no_rows, Config, RetryError, plain, cancelled_during_retry, failed_after,
  with_retry,
}

-- A row of migration_runs.
pub record Run : Type 0 where
  pub id : ℕ
  pub version : ℕ
  pub direction : String
  pub status_code : ℕ
  pub body : Option String
  pub env : Option (Map String)
  pub failed : Bool
  pub ran_at : String

-- A row of stored_env.
pub record EnvRow : Type 0 where
  pub version : ℕ
  pub name : String
  pub value : String

pub record Db : Type 0 where
  pub versions : List ℕ
  pub runs : List Run
  pub next_id : ℕ
  pub stored_env : List EnvRow

-- `now` is the time that the clock shows, as the dialect writes it.
pub record World : Type 0 where
  pub db : Db
  pub faults : List (Option DbError)
  pub now : String

abbrev pub empty_db : Db
empty_db = record { versions = []; runs = []; next_id = 1; stored_env = [] }

-- One attempt to run a statement.
unfoldable pub attempt_with : List (Option DbError) → (Db → Db) → World → Option DbError × World
attempt_with [] statement w = (none, record w { db = statement w.db })
attempt_with (none ∷ fs) statement w = (none, record w { db = statement w.db; faults = fs })
attempt_with (some e ∷ fs) statement w = (some e, record w { faults = fs })

abbrev pub attempt : (Db → Db) → World → Option DbError × World
attempt statement w = attempt_with w.faults statement w

-- The context is context.Background(), which is never done.
abbrev pub no_wait : ℤ → World → Option DbError × World
no_wait delay w = (none, w)

pub data StoreError : Type 0 where
  database : RetryError → StoreError
  target_above_current : ℤ → ℕ → StoreError
  too_many_variables : ℕ → StoreError

-- A method of the store: it may fail, and it changes the world.
abbrev pub Op : Type 0 → Type 0
Op A = World → Result StoreError A × World

abbrev pub answer :
    {A : Type 0} → (Db → A) → Option RetryError × World → Result StoreError A × World
answer f (none, w) = (ok (f w.db), w)
answer f (some e, w) = (err (database e), w)

abbrev pub no_rows_error : DbError
no_rows_error = record { kind = no_rows; message = "sql: no rows in result set" }

-- errors.Is(scanErr, sql.ErrNoRows), where `scanErr` is the error of the last attempt
abbrev pub is_no_rows : ErrorKind → Bool
is_no_rows no_rows = true
is_no_rows _ = false

unfoldable pub last_is_no_rows : RetryError → Bool
last_is_no_rows (plain e) = is_no_rows e.kind
last_is_no_rows (failed_after n none) = false
last_is_no_rows (failed_after n (some e)) = is_no_rows e.kind
last_is_no_rows (cancelled_during_retry e) = false

abbrev pub scan : {A : Type 0} → (Db → Option A) → Option DbError × World → Option DbError × World
scan row (some e, w) = (some e, w)
scan row (none, w) = elim (row w.db) [ none ↦ (some no_rows_error, w) | some a ↦ (none, w) ]

-- INSERT OR IGNORE INTO schema_migrations(version) VALUES(v)
abbrev pub insert_version : ℕ → Db → Db
insert_version v db = record db {
  versions = if any (eqb v) db.versions then db.versions else snoc db.versions v;
}

-- DELETE FROM schema_migrations WHERE version = v
abbrev pub delete_version : ℕ → Db → Db
delete_version v db = record db { versions = keep (λ u. not (eqb u v)) db.versions }

-- DELETE FROM schema_migrations WHERE version > target
abbrev pub delete_above : ℕ → Db → Db
delete_above target db = record db { versions = keep (λ u. leb u target) db.versions }

-- SELECT COALESCE(MAX(version), 0) FROM schema_migrations
unfoldable pub max_version : List ℕ → ℕ
max_version [] = 0
max_version (v ∷ vs) = let m = max_version vs in if ltb m v then v else m

-- The rows of stored_env behind INSERT OR REPLACE with the key (version, name).
unfoldable pub replace_row : EnvRow → List EnvRow → List EnvRow
replace_row row [] = row ∷ []
replace_row row (r ∷ rs) =
    let rest = replace_row row rs in
    if eqb r.version row.version && r.name == row.name then row ∷ rs else r ∷ rest

unfoldable pub replace_rows : ℕ → Map String → List EnvRow → List EnvRow
replace_rows version [] rows = rows
replace_rows version ((name, value) ∷ kv) rows =
    replace_rows version kv
      (replace_row (record { version = version; name = name; value = value }) rows)

-- env[name] = value for each row of the version
unfoldable pub env_of : ℕ → List EnvRow → Map String
env_of version [] = []
env_of version (r ∷ rs) =
    let rest = env_of version rs in if eqb r.version version then (r.name, r.value) ∷ rest else rest

-- ORDER BY id DESC LIMIT 1: the runs are kept in the order of their ids.
unfoldable pub last_run : ℕ → String → List Run → Option Run
last_run version direction [] = none
last_run version direction (r ∷ rs) = elim (last_run version direction rs) [
  | none ↦ if eqb r.version version && r.direction == direction then some r else none
  | some later ↦ some later
]

-- The map of a row, empty for NULL.
abbrev pub or_empty : Option (Map String) → Map String
or_empty none = []
or_empty (some env) = env

-- ListRuns shows an empty map for NULL.
abbrev pub shown_run : Run → Run
shown_run r = record r { env = some (or_empty r.env) }

-- A map is stored as NULL when it is empty.
abbrev pub env_json : Map String → Option (Map String)
env_json [] = none
env_json (e ∷ env) = some (e ∷ env)

abbrev pub insert_run : ℕ → String → ℕ → Option String → Map String → Bool → String → Db → Db
insert_run version direction status body env failed now db = record db {
  runs = snoc db.runs (record {
    id = db.next_id;
    version = version;
    direction = direction;
    status_code = status;
    body = body;
    env = env_json env;
    failed = failed;
    ran_at = now;
  });
  next_id = suc db.next_id;
}

abbrev pub max_stored_env_vars : ℕ
max_stored_env_vars = 10000

module _ (cfg : Config) where
  unfoldable pub exec : (Db → Db) → Op (Unit {0})
  exec statement w = answer (λ db. tt) (with_retry cfg (attempt statement) no_wait w)

  unfoldable pub query : {A : Type 0} → (Db → A) → Op A
  query f w = answer f (with_retry cfg (attempt (λ db. db)) no_wait w)

  -- QueryRow with Scan: no row is an error of the operation, and is told apart afterwards.
  unfoldable pub query_row : {A : Type 0} → (Db → Option A) → Op (Option A)
  query_row row w =
      let (result, w') = with_retry cfg (λ u. scan row (attempt (λ db. db) u)) no_wait w in
      elim result [
        | none ↦ (ok (row w'.db), w')
        | some e ↦ if last_is_no_rows e then (ok none, w') else (err (database e), w')
      ]

  -- Apply
  unfoldable pub apply : ℕ → Op (Unit {0})
  apply v = exec (insert_version v)

  abbrev pub found :
      {A : Type 0} → Result StoreError (Option A) × World → Result StoreError Bool × World
  found (ok none, w) = (ok false, w)
  found (ok (some a), w) = (ok true, w)
  found (err e, w) = (err e, w)

  -- IsApplied
  unfoldable pub is_applied : ℕ → Op Bool
  is_applied v w = found (query_row (λ db. if any (eqb v) db.versions then some v else none) w)

  -- CurrentVersion
  unfoldable pub current_version : Op ℕ
  current_version = query (λ db. max_version db.versions)

  -- ListApplied
  unfoldable pub list_applied : Op (List ℕ)
  list_applied = query (λ db. sort_by leb db.versions)

  -- Remove
  unfoldable pub remove : ℕ → Op (Unit {0})
  remove v = exec (delete_version v)

  abbrev pub set_version_from :
      ℤ → Result StoreError ℕ × World → Result StoreError (Unit {0}) × World
  set_version_from target (err e, w) = (err e, w)
  set_version_from (negsuc n) (ok current, w) = exec (λ db. record db { versions = [] }) w
  set_version_from (pos target) (ok current, w) =
      if ltb current target
      then (err (target_above_current (pos target) current), w)
      else if eqb target current
      then (ok tt, w)
      else exec (delete_above target) w

  -- SetVersion; no version lies below 0, so a negative target deletes them all.
  unfoldable pub set_version : ℤ → Op (Unit {0})
  set_version target w = set_version_from target (current_version w)

  abbrev pub env_column :
      Result StoreError (Option Run) × World → Result StoreError (Map String) × World
  env_column (ok none, w) = (ok [], w)
  env_column (ok (some run), w) = (ok (or_empty run.env), w)
  env_column (err e, w) = (err e, w)

  -- LoadEnv
  unfoldable pub load_env : ℕ → String → Op (Map String)
  load_env version direction w = env_column (query_row (λ db. last_run version direction db.runs) w)

  -- LoadStoredEnv
  unfoldable pub load_stored_env : ℕ → Op (Map String)
  load_stored_env version = query (λ db. env_of version db.stored_env)

  -- DeleteStoredEnv
  unfoldable pub delete_stored_env : ℕ → Op (Unit {0})
  delete_stored_env version =
      exec (λ db. record db { stored_env = keep (λ r. not (eqb r.version version)) db.stored_env })

  -- RecordRun
  unfoldable pub record_run : ℕ → String → ℕ → Option String → Map String → Bool → Op (Unit {0})
  record_run version direction status body env failed w =
      exec (insert_run version direction status body env failed w.now) w

  -- InsertStoredEnv
  unfoldable pub insert_stored_env : ℕ → Map String → Op (Unit {0})
  insert_stored_env version kv w =
      if eqb (length kv) 0
      then (ok tt, w)
      else if ltb max_stored_env_vars (length kv)
      then (err (too_many_variables (length kv)), w)
      else exec (λ db. record db { stored_env = replace_rows version kv db.stored_env }) w

  -- ListRuns
  unfoldable pub list_runs : Op (List Run)
  list_runs = query (λ db. map shown_run db.runs)
