-- ===== src/Library/Agreement.antt =====
-- Which store the runs of migrations, and the commands that read their history, connect to.
use apirun.Prelude.{
  ◌≡◌, ◌∙◌, subst, ok, err, Bool-cases, Option-cases, refl, String, Bool, true, false, Option, none,
  some, trim_space, trim_left, trim_right, ◌==◌, inl, inr, if◌then◌else◌, ap, sym, ◌⊎◌,
}
use apirun.Store.Facade.{DriverConfig, sqlite_config, postgres_config, StoreConfig}
use apirun.Library.{
  Texts, Held, no_table_names, inferred_driver, default_path, with_path, up_config, down_config,
  default_config, up_connects, down_connects, given_config, filled_config, make_dir, open_config,
}

-- What strings.EqualFold and strings.ToLower do with the names of the drivers.
pub record DriverTexts (t : Texts) : Type 0 where
  pub fold_sqlite : t.equal_fold "sqlite" "sqlite" ≡ true
  pub fold_postgresql : t.equal_fold "postgresql" "sqlite" ≡ false
  pub lower_empty : t.to_lower "" ≡ ""
  pub lower_sqlite : (t.to_lower (trim_space "sqlite") == "") ≡ false
  pub lower_postgresql : (t.to_lower (trim_space "postgresql") == "") ≡ false

-- No driver, or one of the two that there are.
abbrev pub KnownDriver : Option StoreConfig → Type 0
KnownDriver none = Unit
KnownDriver (some cfg) =
    (trim_space cfg.driver ≡ "") ⊎ ((cfg.driver ≡ "sqlite") ⊎ (cfg.driver ≡ "postgresql"))

inferred-agrees :
    (t : Texts) (c : Option DriverConfig)
    → DriverTexts t
    → t.equal_fold (inferred_driver c) "sqlite" ≡ (inferred_driver c == "sqlite")
inferred-agrees t none d = d.fold_sqlite
inferred-agrees t (some (sqlite_config path)) d = d.fold_sqlite
inferred-agrees t (some (postgres_config p)) d = d.fold_postgresql

-- Both functions put the same driver and paths into a configuration.
abbrev configured : Texts → String → StoreConfig → String → Bool → StoreConfig
configured t dir cfg driver is_sqlite = record cfg {
  driver = driver;
  driver_config = if is_sqlite then with_path t dir cfg.driver_config else cfg.driver_config;
}

-- A new migrator: its store has no table names and is not connected.
abbrev pub fresh : Held
fresh = record { table_names = no_table_names; connected = false }

filled-agrees :
    (t : Texts) (dir : String) (cfg : Option StoreConfig)
    → DriverTexts t
    → KnownDriver cfg
    → filled_config t dir (given_config t dir cfg) ≡ up_connects t dir fresh cfg
unfolding filled_config up_config default_config trim_left trim_right
filled-agrees t dir none d k =
    rw d.lower_sqlite (elim (Bool-cases (trim_space (default_path t dir) == "")) [
      | inl blank_path ↦ rw blank_path refl
      | inr set ↦ rw set refl
    ])
filled-agrees t dir (some cfg) d (inl unnamed) =
    rw (unnamed, d.lower_empty, up_config)
      (ap (configured t dir cfg (inferred_driver cfg.driver_config))
        (sym (inferred-agrees t cfg.driver_config d)))
filled-agrees t dir (some cfg) d (inr (inl named)) =
    rw (named, d.lower_sqlite, up_config) (ap (configured t dir cfg "sqlite") (sym d.fold_sqlite))
filled-agrees t dir (some cfg) d (inr (inr named)) =
    rw (named, d.lower_postgresql, up_config)
      (ap (configured t dir cfg "postgresql") (sym d.fold_postgresql))

down-agrees :
    (t : Texts) (dir : String) (cfg : Option StoreConfig)
    → down_connects t dir fresh cfg ≡ some (up_connects t dir fresh cfg)
unfolding up_config down_config
down-agrees t dir none = refl
down-agrees t dir (some cfg) = refl

-- The directory of the path could not be made.
abbrev pub NoDir : Texts → StoreConfig → String → Type 0
NoDir t cfg e =
    (path : String) × (cfg.driver_config ≡ some (sqlite_config path))
    × (t.mkdir_all (t.dir path) ≡ some e)

made-or-NoDir :
    (t : Texts) (cfg : StoreConfig) (c : Option DriverConfig) (e : String)
    → cfg.driver_config ≡ c
    → make_dir t c ≡ some e
    → NoDir t cfg e
made-or-NoDir t cfg none e same h = cc
made-or-NoDir t cfg (some (postgres_config p)) e same h = cc
made-or-NoDir t cfg (some (sqlite_config path)) e same h = (path, same, h)

opened_cases :
    (t : Texts) (dir : String) (given : Option StoreConfig)
    → (open_config t dir given ≡ ok (filled_config t dir (given_config t dir given)))
      ⊎ ((e : String) × (open_config t dir given ≡ err e)
          × NoDir t (filled_config t dir (given_config t dir given)) e)
unfolding open_config
opened_cases t dir given =
    let cfg = filled_config t dir (given_config t dir given) in
    elim (Bool-cases (cfg.driver == "sqlite")) [
      | inr other ↦ inl (rw (other, open_config) refl)
      | inl is_sqlite ↦ elim (Option-cases (make_dir t cfg.driver_config)) [
        | inl made ↦ inl (rw (is_sqlite, made, open_config) refl)
        | inr (e, failed) ↦ inr (
          e,
          rw (is_sqlite, failed, open_config) refl,
          made-or-NoDir t cfg cfg.driver_config e refl failed,
        )
      ]
    ]

-- With no configuration, or one that names no driver or an existing one, and if strings.EqualFold
-- and strings.ToLower tell the names of the drivers apart from each other and from nothing,
-- MigrateDown and MigrateUp of a new migrator connect with the same driver, database and tables; and
-- so does OpenStoreFromOptions (which the status command calls), unless it fails because
-- os.MkdirAll could not make the directory of the SQLite path that these connect with.
pub open_config-agrees :
    (t : Texts) (dir : String) (cfg : Option StoreConfig)
    → DriverTexts t
    → KnownDriver cfg
    → (down_connects t dir fresh cfg ≡ some (up_connects t dir fresh cfg))
      × ((open_config t dir cfg ≡ ok (up_connects t dir fresh cfg))
          ⊎ ((e : String) × (open_config t dir cfg ≡ err e)
              × NoDir t (up_connects t dir fresh cfg) e))
open_config-agrees t dir cfg d k = (
  down-agrees t dir cfg,
  elim (opened_cases t dir cfg) [
    | inl opened ↦ inl (opened ∙ ap ok (filled-agrees t dir cfg d k))
    | inr (e, failed, no_dir) ↦
        inr (e, failed, subst (λ c. NoDir t c e) (filled-agrees t dir cfg d k) no_dir)
  ],
)
