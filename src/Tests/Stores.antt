-- ===== src/Tests/Stores.antt =====
-- The stores and the store configuration at small inputs.
use apirun.Prelude.{
  ◌≡◌, refl, true, some, [], ◌∷◌, pos, joined, ◌==◌, trim_left, trim_right, inl, decimal_before,
  elem, none, ok, err, String, ◌⊎◌,
}
use apirun.Retry.{Config, other}
use apirun.Store.{World, empty_db}
use apirun.Store.History.{put_variables, set_to, Accepts, AcceptsInt4, Refines}
use apirun.Store.Refinement.{sqlite_change, sqlite-Refines}
use apirun.Store.Postgresql.Refined.{postgresql_change, postgresql-Refines}
use apirun.Store.Facade.{
  TableNames, StoreConfig, postgres_config, safe_table_names, conv, conv_behind, is_ident,
  is_ident_rest,
}
use apirun.Library.{Texts, no_table_names, open_config, up_connects, down_connects}
use apirun.Library.Agreement.{fresh, NoDir, open_config-agrees}

abbrev settings : Config
settings = record {
  max_retries = pos 1;
  initial_delay = pos 1;
  max_delay = pos 2;
  scale = λ d n. d;
  retryable_errors = "locked" ∷ [];
  to_lower = λ s. s;
}

-- The first attempt finds the database locked.
abbrev locked : World
locked = record {
  db = record empty_db { versions = 1 ∷ 2 ∷ 5 ∷ [] };
  faults = some (record { kind = other; message = "locked" }) ∷ [];
  now = "now";
}

sqlite-Refines_example :
    Refines Accepts
      (sqlite_change settings)
      (put_variables 2 (("id", "7") ∷ ("name", "a") ∷ []))
      locked
unfolding elem
sqlite-Refines_example =
    sqlite-Refines settings 1 refl (put_variables 2 (("id", "7") ∷ ("name", "a") ∷ [])) locked
      (refl, (refl, tt))

-- Each refused statement uses up a number.
postgresql-Refines_example :
    Refines AcceptsInt4 (postgresql_change (λ e. true) settings) (set_to (pos 2)) locked
postgresql-Refines_example =
    postgresql-Refines (λ e. true) settings 1 refl (set_to (pos 2)) locked tt

-- One name is not an identifier, and one is empty.
abbrev chosen : TableNames
chosen = record { schema_migrations = "app_versions"; migration_runs = "runs; --"; stored_env = "" }

safe_names : safe_table_names chosen ≡ record {
  schema_migrations = "app_versions";
  migration_runs = "migration_runs";
  stored_env = "stored_env";
}
unfolding safe_table_names is_ident is_ident_rest
safe_names = refl

placeholders :
    conv "postgresql" "DELETE FROM t WHERE version = ? AND name = ?"
    ≡ "DELETE FROM t WHERE version = $1 AND name = $2"
unfolding conv conv_behind decimal_before
placeholders = refl

abbrev texts : Texts
texts = record {
  equal_fold = λ a b. a == b;
  to_lower = λ s. s;
  join = λ a b. joined a (joined "/" b);
  dir = λ p. p;
  mkdir_all = λ p. none;
}

abbrev on_postgresql : StoreConfig
on_postgresql = record {
  driver = "";
  table_names = no_table_names;
  driver_config = some (
      postgres_config (record {
        dsn = "";
        host = "db";
        port = 0;
        user = "app";
        password = "secret";
        dbname = "history";
        sslmode = "";
      }));
}

open_config-agrees_example :
    (down_connects texts "migration" fresh (some on_postgresql)
      ≡ some (up_connects texts "migration" fresh (some on_postgresql)))
    × ((open_config texts "migration" (some on_postgresql)
          ≡ ok (up_connects texts "migration" fresh (some on_postgresql)))
        ⊎ ((e : String) × (open_config texts "migration" (some on_postgresql) ≡ err e)
            × NoDir texts (up_connects texts "migration" fresh (some on_postgresql)) e))
unfolding trim_left trim_right
open_config-agrees_example =
    open_config-agrees texts "migration" (some on_postgresql)
      (record {
        fold_sqlite = refl;
        fold_postgresql = refl;
        lower_empty = refl;
        lower_sqlite = refl;
        lower_postgresql = refl;
      })
      (inl refl)
