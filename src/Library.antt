-- ===== src/Library.antt =====
-- apirun.go: which store a run of the library, and a command that reads the store, connects to; and
-- buildTableNames and CreateStoreConfig of cmd/apirun/config/store_config.go.
pub mod Agreement
use apirun.Prelude.{
  String, Bool, true, false, ◌&&◌, not, Option, none, some, Result, ok, err, joined, trim_space,
  ◌==◌, if◌then◌else◌,
}
use apirun.Store.Facade.{
  TableNames, PostgresConfig, DriverConfig, sqlite_config, postgres_config, postgres_dsn,
  StoreConfig,
}

-- Whether two texts are equal up to case (strings.EqualFold), strings.ToLower, filepath.Join,
-- filepath.Dir, and the error of os.MkdirAll.
pub record Texts : Type 0 where
  pub equal_fold : String → String → Bool
  pub to_lower : String → String
  pub join : String → String → String
  pub dir : String → String
  pub mkdir_all : String → Option String

-- What a migrator holds before a run: the table names of its store, and whether it is connected.
pub record Held : Type 0 where
  pub table_names : TableNames
  pub connected : Bool

abbrev pub no_table_names : TableNames
no_table_names = record { schema_migrations = ""; migration_runs = ""; stored_env = "" }

abbrev pub inferred_driver : Option DriverConfig → String
inferred_driver (some (postgres_config p)) = "postgresql"
inferred_driver (some (sqlite_config path)) = "sqlite"
inferred_driver none = "sqlite"

module _ (t : Texts) where
  abbrev pub default_path : String → String
  default_path dir = t.join dir "apirun.db"

  -- A SQLite configuration without a path gets the default one.
  abbrev pub with_path : String → Option DriverConfig → Option DriverConfig
  with_path dir none = none
  with_path dir (some (postgres_config p)) = some (postgres_config p)
  with_path dir (some (sqlite_config path)) =
      some (sqlite_config (if trim_space path == "" then default_path dir else path))

  -- The configuration that MigrateUp connects with, made from a given one.
  unfoldable pub up_config : String → StoreConfig → StoreConfig
  up_config dir cfg =
      let driver =
        if trim_space cfg.driver == "" then inferred_driver cfg.driver_config else cfg.driver in
      record cfg {
        driver = driver;
        driver_config =
            if t.equal_fold driver "sqlite"
            then with_path dir cfg.driver_config
            else cfg.driver_config;
      }

  -- The configuration that MigrateDown connects with, made from a given one.
  unfoldable pub down_config : String → StoreConfig → StoreConfig
  down_config dir cfg =
      let driver =
        if trim_space cfg.driver == "" then inferred_driver cfg.driver_config else cfg.driver in
      record cfg {
        driver = driver;
        driver_config =
            if t.equal_fold driver "sqlite"
            then with_path dir cfg.driver_config
            else cfg.driver_config;
      }

  -- SQLite in the directory.
  unfoldable pub default_config : String → TableNames → StoreConfig
  default_config dir names = record {
    driver = "sqlite";
    table_names = names;
    driver_config = some (sqlite_config (default_path dir));
  }

  -- What MigrateUp connects with: without a configuration it keeps the table names of its store.
  abbrev pub up_connects : String → Held → Option StoreConfig → StoreConfig
  up_connects dir held none = default_config dir held.table_names
  up_connects dir held (some cfg) = up_config dir cfg

  -- What MigrateDown connects with: without a configuration, nothing when it is connected.
  abbrev pub down_connects : String → Held → Option StoreConfig → Option StoreConfig
  down_connects dir held none =
      if held.connected then none else some (default_config dir no_table_names)
  down_connects dir held (some cfg) = some (down_config dir cfg)

  abbrev pub given_config : String → Option StoreConfig → StoreConfig
  given_config dir none = default_config dir no_table_names
  given_config dir (some cfg) = cfg

  -- The driver and the path that OpenStoreFromOptions puts into its configuration.
  unfoldable pub filled_config : String → StoreConfig → StoreConfig
  filled_config dir cfg =
      let driver =
        if t.to_lower (trim_space cfg.driver) == ""
        then inferred_driver cfg.driver_config
        else cfg.driver in
      record cfg {
        driver = driver;
        driver_config =
            if driver == "sqlite" then with_path dir cfg.driver_config else cfg.driver_config;
      }

  -- os.MkdirAll, for a path of SQLite.
  abbrev pub make_dir : Option DriverConfig → Option String
  make_dir none = none
  make_dir (some (postgres_config p)) = none
  make_dir (some (sqlite_config path)) = t.mkdir_all (t.dir path)

  -- The configuration that OpenStoreFromOptions connects with, or its error before it connects.
  unfoldable pub open_config : String → Option StoreConfig → Result String StoreConfig
  open_config dir given =
      let cfg = filled_config dir (given_config dir given) in
      if cfg.driver == "sqlite"
      then elim (make_dir cfg.driver_config) [ some e ↦ err e | none ↦ ok cfg ]
      else ok cfg

  -- buildTableNames
  unfoldable pub build_table_names : String → String → String → String → TableNames
  build_table_names prefix schema_migrations migration_runs stored_env =
      let p = trim_space prefix in
      let named = λ (name suffix : String).
        if not (p == "") && trim_space name == "" then joined p suffix else trim_space name in
      record {
        schema_migrations = named schema_migrations "_schema_migrations";
        migration_runs = named migration_runs "_migration_log";
        stored_env = named stored_env "_stored_env";
      }

-- The section `store` of the configuration file.
pub record StoreSection : Type 0 where
  pub disabled : Bool
  pub type : String
  pub sqlite_path : String
  pub postgres : PostgresConfig
  pub table_prefix : String
  pub table_schema_migrations : String
  pub table_migration_runs : String
  pub table_stored_env : String

-- CreateStoreConfig, with both builders; none when the store is disabled or has no type.
unfoldable pub create_store_config : Texts → StoreSection → Option StoreConfig
create_store_config t c =
    let type = t.to_lower (trim_space c.type) in
    let names =
      build_table_names t c.table_prefix c.table_schema_migrations c.table_migration_runs
        c.table_stored_env in
    if c.disabled
    then none
    else if type == ""
    then none
    else if type == "postgresql"
    then some (record {
      driver = "postgresql";
      table_names = names;
      driver_config = some (postgres_config (record c.postgres { dsn = postgres_dsn c.postgres }));
    })
    else some (record {
      driver = "sqlite";
      table_names = names;
      driver_config = some (sqlite_config (trim_space c.sqlite_path));
    })
