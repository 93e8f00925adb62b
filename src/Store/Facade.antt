-- ===== src/Store/Facade.antt =====
-- internal/store/store.go with the configurations of both drivers: the names of the tables, the
-- choice of the connector, and the placeholders. Opening a database and creating its tables are
-- parameters.
use apirun.Prelude.{
  ℕ, suc, String, Bool, true, false, ◌&&◌, ◌||◌, not, Option, none, some, eqb, leb, is_digit,
  joined, decimal, trim_space, ◌==◌, if◌then◌else◌,
}
use Prim.Native.Char.{code}

pub record TableNames : Type 0 where
  pub schema_migrations : String
  pub migration_runs : String
  pub stored_env : String

-- sqlite.Config and postgresql.Config
pub record PostgresConfig : Type 0 where
  pub dsn : String
  pub host : String
  pub port : ℕ
  pub user : String
  pub password : String
  pub dbname : String
  pub sslmode : String

pub data DriverConfig : Type 0 where
  sqlite_config : String → DriverConfig
  postgres_config : PostgresConfig → DriverConfig

-- store.Config
pub record StoreConfig : Type 0 where
  pub driver : String
  pub table_names : TableNames
  pub driver_config : Option DriverConfig

-- What ToMap gives: the entries dsn and path.
pub record ConfigMap : Type 0 where
  pub dsn : Option String
  pub path : Option String

abbrev pub or_default : String → String → String
or_default given default = if trim_space given == "" then default else trim_space given

-- The DSN of a host, when no DSN is given.
unfoldable pub postgres_dsn : PostgresConfig → String
postgres_dsn p =
    let port = if eqb p.port 0 then 5432 else p.port in
    if trim_space p.dsn == "" && not (trim_space p.host == "")
    then joined "postgres://" (
        joined (trim_space p.user) (
          joined ":" (
            joined (trim_space p.password) (
              joined "@" (
                joined (trim_space p.host) (
                  joined ":" (
                    joined (decimal port) (
                      joined "/" (
                        joined (trim_space p.dbname)
                          (joined "?sslmode=" (or_default p.sslmode "disable")))))))))))
    else trim_space p.dsn

unfoldable pub to_map : DriverConfig → ConfigMap
to_map (sqlite_config path) = record { dsn = none; path = some path }
to_map (postgres_config p) = record { dsn = some (postgres_dsn p); path = none }

pub data Kind : Type 0 where
  sqlite postgresql : Kind

abbrev pub filled : Option String → Option String
filled none = none
filled (some s) = if s == "" then none else some s

abbrev pub sqlite_dsn : String → String
sqlite_dsn path = joined "file:" (joined path "?_busy_timeout=5000&_fk=1")

-- Load of each store, on a new one whose DSN is empty
unfoldable pub load : Kind → ConfigMap → String
load sqlite m = elim (filled m.dsn) [
  | some dsn ↦ dsn
  | none ↦ elim (filled m.path) [ some path ↦ sqlite_dsn path | none ↦ "" ]
]
load postgresql m = elim (filled m.dsn) [ some dsn ↦ dsn | none ↦ "" ]

-- The DSN that Connect opens; SQLite falls back to a database in memory.
abbrev pub opened_dsn : Kind → String → String
opened_dsn sqlite dsn = if dsn == "" then ":memory:" else dsn
opened_dsn postgresql dsn = dsn

abbrev pub loaded_dsn : Kind → Option DriverConfig → String
loaded_dsn kind none = opened_dsn kind ""
loaded_dsn kind (some c) = opened_dsn kind (load kind (to_map c))

abbrev pub is_letter_ : ℕ → Bool
is_letter_ c = (leb b'a' c && leb c b'z') || (leb b'A' c && leb c b'Z') || eqb c b'_'

-- identRe, ^[a-zA-Z_][a-zA-Z0-9_]*$
unfoldable pub is_ident_rest : String → Bool
is_ident_rest String.[] = true
is_ident_rest (String.◌∷◌ c s) = (is_letter_ (code c) || is_digit (code c)) && is_ident_rest s

unfoldable pub is_ident : String → Bool
is_ident String.[] = false
is_ident (String.◌∷◌ c s) = is_letter_ (code c) && is_ident_rest s

-- defaultTableNames
abbrev pub default_table_names : TableNames
default_table_names = record {
  schema_migrations = "schema_migrations";
  migration_runs = "migration_runs";
  stored_env = "stored_env";
}

abbrev pub ident_or : String → String → String
ident_or name default = if not (is_ident name) || name == "" then default else name

-- safeTableNames
unfoldable pub safe_table_names : TableNames → TableNames
safe_table_names t = record {
  schema_migrations = ident_or t.schema_migrations default_table_names.schema_migrations;
  migration_runs = ident_or t.migration_runs default_table_names.migration_runs;
  stored_env = ident_or t.stored_env default_table_names.stored_env;
}

-- conv, behind so many placeholders
unfoldable pub conv_behind : ℕ → String → String
conv_behind n String.[] = String.[]
conv_behind n (String.◌∷◌ c s) =
    let numbered = joined "$" (joined (decimal (suc n)) (conv_behind (suc n) s)) in
    let kept = String.◌∷◌ c (conv_behind n s) in if eqb (code c) b'?' then numbered else kept

unfoldable pub conv : String → String → String
conv driver q = if driver == "postgresql" then conv_behind 0 q else q

pub data ConnectError : Type 0 where
  unknown_driver connect_failed ensure_failed : String → ConnectError

-- What a store holds: the connector with the DSN that it opened.
pub record Store : Type 0 where
  pub table_names : TableNames
  pub driver : String
  pub connector : Option (Kind × String)

-- Opening a DSN, and creating tables behind it.
pub record Databases : Type 0 where
  pub open_dsn : Kind → String → Option String
  pub ensure : Kind → String → TableNames → Option String

abbrev pub kind_of : String → Option Kind
kind_of driver =
    if driver == "sqlite"
    then some sqlite
    else if driver == "postgresql"
    then some postgresql
    else none

abbrev pub driver_name : Kind → String
driver_name sqlite = "sqlite"
driver_name postgresql = "postgresql"

module _ (dbs : Databases) where
  -- Connect; a failed creation of the tables closes the connection again, and the error on an unknown
  -- driver names the driver that the store had before.
  unfoldable pub connect : StoreConfig → Store → Option ConnectError × Store
  connect config s = elim (kind_of config.driver) [
    | none ↦ (some (unknown_driver s.driver), s)
    | some kind ↦
        let dsn = loaded_dsn kind config.driver_config in
        let named = record s { driver = driver_name kind } in
        let connected = record named { connector = some (kind, dsn) } in
        elim (dbs.open_dsn kind dsn) [
          | some e ↦ (some (connect_failed e), named)
          | none ↦ elim (dbs.ensure kind dsn (safe_table_names s.table_names)) [
            | some e ↦ (some (ensure_failed e), connected)
            | none ↦ (none, connected)
          ]
        ]
  ]
