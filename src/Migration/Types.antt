-- ===== src/Migration/Types.antt =====
-- The data of internal/migration: files, settings, results and errors. Loading a file, executing a
-- task over HTTP and sleeping are parameters; what they answer may depend on the executions so far,
-- which the session records.
use apirun.Prelude.{
  ℕ, String, Bool, true, false, Option, none, some, List, [], Map, ℤ, Result, if◌then◌else◌,
}
use apirun.Env.{Env}
use apirun.Retry.{Config}
use apirun.Store.{World, StoreError}

-- vfile
pub record VersionFile : Type 0 where
  pub index : ℕ
  pub name : String
  pub path : String

pub record AuthEntry : Type 0 where
  pub name : String

pub record Migrator : Type 0 where
  pub env : Option Env
  pub auth : List AuthEntry
  pub save_response_body : Bool
  pub render_body_default : Option Bool
  pub dry_run : Bool
  pub dry_run_from : ℤ
  pub delay_between_migrations : ℤ

-- What a migration reads of a task file; `spec` names the rest of the file.
pub record Task : Type 0 where
  pub spec : String
  pub up_env : Option Env
  pub up_render_body : Option Bool
  pub down_env : Option Env
  -- the field render_body of the optional step `find`
  pub down_find : Option (Option Bool)

-- task.ExecResult; a nil map of extracted variables is an empty one.
pub record ExecResult : Type 0 where
  pub status_code : ℕ
  pub extracted_env : Map String
  pub response_body : String

pub record ExecWithVersion : Type 0 where
  pub version : ℕ
  pub result : Option ExecResult

-- The executions of task files against the API.
pub data Event : Type 0 where
  executed_up executed_down : ℕ → Event

pub record Session : Type 0 where
  pub world : World
  pub trace : List Event

pub data MigrateError : Type 0 where
  files_failed load_failed execution_failed sleep_interrupted : String → MigrateError
  version_failed : ℕ → MigrateError → MigrateError
  record_apply_failed record_remove_failed : ℕ → StoreError → MigrateError
  store_failed : StoreError → MigrateError
  target_above : ℕ → ℤ → MigrateError
  no_file : ℕ → MigrateError

-- What the outside answers: the value of a computed variable, the text of a task file, the answer
-- to an execution behind the executions so far, and whether a sleep is interrupted.
pub record Outside : Type 0 where
  pub config : Config
  pub acquire : String → String
  pub files : Result String (List VersionFile)
  pub load : VersionFile → Result String Task
  pub execute_up : List Event → Task → Env → Option Bool → Option ExecResult × Option String
  pub execute_down :
      List Event → Task → Env → Option (Option Bool) → Option ExecResult × Option String
  pub sleep : List Event → ℤ → Option String

abbrev pub extracted : Option ExecResult → Map String
extracted none = []
extracted (some r) = r.extracted_env

abbrev pub is_some : Option String → Bool
is_some none = false
is_some (some e) = true

-- Results and an error, as the migrator returns both.
pub record Migrated : Type 0 where
  pub results : List (Option ExecWithVersion)
  pub error : Option MigrateError
  pub after : Session

abbrev pub stop : List (Option ExecWithVersion) → MigrateError → Session → Migrated
stop results e s = record { results = results; error = some e; after = s }

abbrev pub body_to_save : Migrator → ExecResult → Option String
body_to_save m r = if m.save_response_body then some r.response_body else none
