-- ===== src/Tests/Migrations.antt =====
-- The store and the migrations at small inputs: two files, a database without faults, and one that
-- refuses an attempt.
use apirun.Prelude.{
  or_else, ℕ, String, ◌≡◌, refl, true, false, ◌||◌, Option, none, some, List, [], ◌∷◌, pos, ok,
  lookup, insert, insert_all, elem, Distinct, any, eqb, leb, keep, if◌then◌else◌, contains,
  has_prefix, map,
}
use apirun.Prelude.Sorting.{sort_by, insert_sorted}
use apirun.Retry.{
  Config, DbError, other, with_retry, retry_loop, is_retryable_error, calculate_delay,
}
use apirun.Env.{clone}
use apirun.Store.{
  World, empty_db, attempt_with, exec, query, query_row, apply, remove, current_version,
  list_applied, set_version, load_env, load_stored_env, delete_stored_env, record_run,
  insert_stored_env, max_version, env_of, replace_row, replace_rows, last_run, last_is_no_rows,
}
use apirun.Store.Variables.{load_stored_env-insert_stored_env}
use apirun.Migration.Types.{VersionFile, Migrator, executed_up, executed_down, Outside}
use apirun.Migration.Planning.{plan_up, file_of_version, count_up, get_delay_between_migrations}
use apirun.Migration.TaskEnv.{
  prepare_task_env, add_missing, add_auth, ensure_auth, add_stored, applied_versions, init_up,
  init_down,
}
use apirun.Migration.Up.{
  record_up, execute_file, run_up_for_file, finish_version, up_loop, start_version, migrate_up,
}
use apirun.Migration.Down.{
  record_down, forget_version, execute_down_file, run_down_for_version, down_loop, to_rollback,
  migrate_down,
}
use apirun.Migration.UpAgain.{migrate_up_completes, migrate_up_again}
use apirun.Migration.DryRun.{dry_run-Read}
use apirun.Env.{Env, str, lazy}
use apirun.Migration.DownAll.{migrate_down_completes}

abbrev settings : Config
settings = record {
  max_retries = pos 1;
  initial_delay = pos 1;
  max_delay = pos 2;
  scale = λ d n. d;
  retryable_errors = "locked" ∷ [];
  to_lower = λ s. s;
}

abbrev file : ℕ → String → VersionFile
file index name = record { index = index; name = name; path = name }

abbrev files : List VersionFile
files = file 1 "001_user.yaml" ∷ file 2 "002_group.yaml" ∷ []

-- Every request succeeds, and extracts one variable.
abbrev outside : Outside
outside = record {
  config = settings;
  acquire = λ s. s;
  files = ok files;
  load = λ f. ok (record {
    spec = f.name;
    up_env = none;
    up_render_body = none;
    down_env = none;
    down_find = none;
  });
  execute_up = λ trace t env render. (
    some (record { status_code = 201; extracted_env = ("id", "7") ∷ []; response_body = "" }),
    none,
  );
  execute_down = λ trace t env find.
      (some (record { status_code = 204; extracted_env = []; response_body = "" }), none);
  sleep = λ trace d. none;
}

abbrev migrator : Migrator
migrator = record {
  env = none;
  auth = [];
  save_response_body = false;
  render_body_default = none;
  dry_run = false;
  dry_run_from = pos 0;
  delay_between_migrations = pos 5;
}

abbrev world_of : List ℕ → List (Option DbError) → World
world_of versions faults = record {
  db = record empty_db { versions = versions };
  faults = faults;
  now = "now";
}

-- The first attempt finds the database locked.
abbrev locked : World
locked = world_of (1 ∷ 2 ∷ 5 ∷ []) (some (record { kind = other; message = "locked" }) ∷ [])

program : Unit {0}
unfolding with_retry retry_loop is_retryable_error calculate_delay contains has_prefix any keep elem
    lookup insert insert_all sort_by insert_sorted attempt_with exec query query_row apply remove
    current_version list_applied set_version load_env load_stored_env delete_stored_env record_run
    insert_stored_env max_version env_of replace_row replace_rows last_run last_is_no_rows clone
    plan_up file_of_version count_up get_delay_between_migrations prepare_task_env add_missing
    add_auth ensure_auth add_stored applied_versions init_up init_down record_up execute_file
    run_up_for_file finish_version up_loop start_version migrate_up record_down forget_version
    execute_down_file run_down_for_version down_loop to_rollback migrate_down
program = tt

set_version-locked : (set_version settings (pos 2) locked).1.db.versions ≡ 1 ∷ 2 ∷ []
unfolding program
set_version-locked = refl

up_succeeds : (migrate_up outside migrator (pos 0) (world_of (1 ∷ []) [])).error ≡ none
unfolding program
up_succeeds = refl

up_versions :
    (migrate_up outside migrator (pos 0) (world_of (1 ∷ []) [])).after.world.db.versions
    ≡ 1 ∷ 2 ∷ []
unfolding program
up_versions = refl

down_succeeds : (migrate_down outside migrator (pos 0) (world_of (1 ∷ 2 ∷ []) [])).error ≡ none
unfolding program
down_succeeds = refl

down_trace :
    (migrate_down outside migrator (pos 0) (world_of (1 ∷ 2 ∷ []) [])).after.trace
    ≡ executed_down 2 ∷ executed_down 1 ∷ []
unfolding program
down_trace = refl

stored :
    insert_stored_env settings 2 (("id", "7") ∷ []) locked
    ≡ (ok tt, (insert_stored_env settings 2 (("id", "7") ∷ []) locked).1)
unfolding program
stored = refl

loaded :
    (load_stored_env settings 2 (insert_stored_env settings 2 (("id", "7") ∷ []) locked).1).0
    ≡ ok (("id", "7") ∷ [])
unfolding program
loaded = refl

one-Distinct : Distinct ("id" ∷ [])
unfolding program
one-Distinct = (refl, tt)

load_stored_env-insert_stored_env_example : lookup "id" (("id", "7") ∷ []) ≡ (
    if eqb 2 2
    then or_else (lookup "id" (("id", "7") ∷ [])) (lookup "id" (env_of 2 locked.db.stored_env))
    else lookup "id" (env_of 2 locked.db.stored_env))
load_stored_env-insert_stored_env_example =
    load_stored_env-insert_stored_env settings locked 2 2 (("id", "7") ∷ []) (("id", "7") ∷ [])
      (insert_stored_env settings 2 (("id", "7") ∷ []) locked).1 one-Distinct stored loaded "id"

abbrev first : World
first = world_of (1 ∷ []) []

abbrev both : World
both = world_of (1 ∷ 2 ∷ []) []

migrate_up_completes_example :
    (fs : List VersionFile) × (outside.files ≡ ok fs)
    × ((migrate_up outside migrator (pos 0) first).after.trace
        ≡ map (λ f. executed_up f.index) (plan_up fs (pos (max_version (1 ∷ []))) (pos 0)))
    × ((v : ℕ)
        → any (eqb v) (migrate_up outside migrator (pos 0) first).after.world.db.versions ≡ (
            any (λ f. eqb v f.index) (plan_up fs (pos (max_version (1 ∷ []))) (pos 0))
            || any (eqb v) (1 ∷ [])))
migrate_up_completes_example = migrate_up_completes outside migrator (pos 0) first refl up_succeeds

migrate_up_again_example :
    (fs : List VersionFile) × (outside.files ≡ ok fs)
    × (plan_up fs
          (pos (max_version (migrate_up outside migrator (pos 0) first).after.world.db.versions))
          (pos 0)
        ≡ [])
migrate_up_again_example = migrate_up_again outside migrator (pos 0) first refl up_succeeds

migrate_down_completes_example :
    ((migrate_down outside migrator (pos 0) both).after.trace
      ≡ map executed_down (to_rollback (sort_by leb (1 ∷ 2 ∷ [])) 0))
    × ((migrate_down outside migrator (pos 0) both).after.world.db.versions
        ≡ keep (λ v. leb v 0) (1 ∷ 2 ∷ []))
migrate_down_completes_example =
    migrate_down_completes outside migrator (pos 0) both refl down_succeeds

abbrev dry_migrator : Migrator
dry_migrator = record migrator { dry_run = true }

dry_run-Read_example :
    ((migrate_up outside dry_migrator (pos 0) first).after.world.db ≡ first.db)
    × ((migrate_down outside dry_migrator (pos 0) first).after.world.db ≡ first.db)
dry_run-Read_example = dry_run-Read outside dry_migrator (pos 0) first refl

abbrev layers : Env
layers = record {
  auth = [];
  global = ("host", str "example.org") ∷ ("token", lazy "basic") ∷ [];
  local = ("host", str "localhost") ∷ [];
  sealed = false;
}

local-Distinct : Distinct ("host" ∷ [])
unfolding program
local-Distinct = (refl, tt)

global-Distinct : Distinct ("host" ∷ "token" ∷ [])
unfolding program
global-Distinct = (refl, (refl, tt))
