-- ===== src/Store/History.antt =====
-- What a store of internal/store promises to connector.Connector, with the tables forgotten: the
-- set of the applied versions, the variables of each version, and the runs in their order.
use apirun.Prelude.{
  ℕ, ◌≡◌, ◌≤◌, ◌<◌, ◌⊎◌, String, Bool, true, false, ◌&&◌, ◌||◌, not, Option, none, List, [], map,
  Map, any, eqb, leb, snoc, lookup, or_else, keys, Distinct, length, ℤ, pos, negsuc, ok, err,
  if◌then◌else◌,
}
use apirun.Store.{Run, Db, World, StoreError, Op, env_of, env_json}

-- A run without its number.
pub record Entry : Type 0 where
  pub version : ℕ
  pub direction : String
  pub status_code : ℕ
  pub body : Option String
  pub env : Option (Map String)
  pub failed : Bool
  pub ran_at : String

pub record History : Type 0 where
  pub applied : ℕ → Bool
  pub variables : ℕ → String → Option String
  pub entries : List Entry

-- The methods that change a store.
pub data Change : Type 0 where
  apply_version remove_version drop_variables : ℕ → Change
  set_to : ℤ → Change
  put_variables : ℕ → Map String → Change
  record_entry : ℕ → String → ℕ → Option String → Map String → Bool → Change

abbrev pub entry_of : Run → Entry
entry_of r = record {
  version = r.version;
  direction = r.direction;
  status_code = r.status_code;
  body = r.body;
  env = r.env;
  failed = r.failed;
  ran_at = r.ran_at;
}

-- What the tables show.
unfoldable pub history : Db → History
history db = record {
  applied = λ v. any (eqb v) db.versions;
  variables = λ v name. lookup name (env_of v db.stored_env);
  entries = map entry_of db.runs;
}

-- The change of the history, at a time.
unfoldable pub changed : String → Change → History → History
changed now (apply_version v) h = record h { applied = λ u. eqb u v || h.applied u }
changed now (remove_version v) h = record h { applied = λ u. h.applied u && not (eqb u v) }
changed now (set_to (pos target)) h = record h { applied = λ u. h.applied u && leb u target }
changed now (set_to (negsuc n)) h = record h { applied = λ u. false }
changed now (put_variables v kv) h = record h {
  variables = λ u name.
      if eqb v u then or_else (lookup name kv) (h.variables u name) else h.variables u name;
}
changed now (drop_variables v) h = record h {
  variables = λ u name. if eqb v u then none else h.variables u name;
}
changed now (record_entry version direction status body env failed) h = record h {
  entries = snoc h.entries (record {
    version = version;
    direction = direction;
    status_code = status;
    body = body;
    env = env_json env;
    failed = failed;
    ran_at = now;
  });
}

-- A Go map has each name once.
abbrev pub IsMap : Change → Type 0
IsMap (put_variables v kv) = Distinct (keys kv)
IsMap _ = Unit

-- What the store accepts: a target that is not above the versions, and a bounded map.
abbrev pub Accepts : History → Change → Type 0
Accepts h (set_to (pos target)) = (target ≡ 0) ⊎ ((v : ℕ) × (h.applied v ≡ true) × (target ≤ v))
Accepts h (put_variables v kv) = length kv ≤ 10000
Accepts h _ = Unit

-- The numbers of a change fit into the four bytes of a column of type INTEGER.
abbrev pub FitsInt4 : Change → Type 0
FitsInt4 (apply_version v) = v < 2147483648
FitsInt4 (remove_version v) = v < 2147483648
FitsInt4 (drop_variables v) = v < 2147483648
FitsInt4 (set_to (pos target)) = target < 2147483648
FitsInt4 (set_to (negsuc n)) = n < 2147483648
FitsInt4 (put_variables v kv) = v < 2147483648
FitsInt4 (record_entry v direction status body env failed) =
    (v < 2147483648) × (status < 2147483648)

abbrev pub AcceptsInt4 : History → Change → Type 0
AcceptsInt4 h c = Accepts h c × FitsInt4 c

-- A method makes the whole change, or fails and leaves the history as it was. When the database
-- refuses no attempt, a change that the store accepts is made.
pub record Refines (accepts : History → Change → Type 0) (method : Change → Op (Unit {0}))
    (c : Change) (w : World) : Type 0 where
  pub outcome :
      (((method c w).0 ≡ ok tt) × (history (method c w).1.db ≡ changed w.now c (history w.db)))
      ⊎ ((e : StoreError) × ((method c w).0 ≡ err e) × (history (method c w).1.db ≡ history w.db))
  pub same_clock : (method c w).1.now ≡ w.now
  pub made : w.faults ≡ [] → accepts (history w.db) c → (method c w).0 ≡ ok tt
