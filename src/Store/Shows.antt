-- ===== src/Store/Shows.antt =====
-- What the statements of the stores do to the history that the tables show.
use apirun.Prelude.{
  ℕ, ◌≡◌, refl, ap, String, Bool, ◌&&◌, ◌||◌, not, Option, none, List, [], ◌∷◌, map, Map, any, keep,
  eqb, eqb_iff, leb, snoc, lookup, keys, Distinct, ℤ, pos, negsuc, Bool-cases, inl, inr, arith,
  if◌then◌else◌,
}
use mathlib.Core.Path.{fun_ext}
use apirun.Store.{Run, EnvRow, Db, insert_version, delete_version, insert_run, replace_rows, env_of}
use apirun.Store.Versions.{any-keep, any-snoc, versions_upto}
use apirun.Store.Variables.{lookup-replace_rows}
use apirun.Store.History.{
  apply_version, remove_version, drop_variables, set_to, put_variables, record_entry, entry_of,
  history, changed,
}

&&-swap : (a b c : Bool) → a ≡ (b && c) → a ≡ (c && b)
&&-swap a b c e = ground arith

-- What a statement does to the history, column by column.
any-insert_version :
    (v u : ℕ) (db : Db)
    → any (eqb u) (insert_version v db).versions ≡ (eqb u v || any (eqb u) db.versions)
any-insert_version v u db = elim (Bool-cases (any (eqb v) db.versions)) [
  | inl old ↦ elim (Bool-cases (eqb u v)) [
    | inl e ↦ rw ((eqb_iff u v).0 e) (ground arith)
    | inr n ↦ ground arith
  ]
  | inr new ↦ ground (arith, any-snoc u v db.versions)
]

pub history-insert_version :
    (now : String) (v : ℕ) (db : Db)
    → history (insert_version v db) ≡ changed now (apply_version v) (history db)
unfolding history changed
history-insert_version now v db =
    ap (λ f. record (history db) { applied = f }) (fun_ext (λ u. any-insert_version v u db))

pub history-delete_version :
    (now : String) (v : ℕ) (db : Db)
    → history (delete_version v db) ≡ changed now (remove_version v) (history db)
unfolding history changed
history-delete_version now v db =
    ap (λ f. record (history db) { applied = f })
      (fun_ext (λ u.
        &&-swap _ (not (eqb u v)) (any (eqb u) db.versions)
          (any-keep u (λ x. not (eqb x v)) db.versions)))

pub history-upto :
    (now : String) (t : ℤ) (db : Db)
    → history (record db { versions = versions_upto t db.versions })
      ≡ changed now (set_to t) (history db)
unfolding history changed versions_upto any
history-upto now (pos t) db =
    ap (λ f. record (history db) { applied = f })
      (fun_ext (λ u.
        &&-swap _ (leb u t) (any (eqb u) db.versions) (any-keep u (λ x. leb x t) db.versions)))
history-upto now (negsuc n) db = refl

lookup-env_of-keep :
    (v u : ℕ) (name : String) (rows : List EnvRow)
    → lookup name (env_of u (keep (λ r. not (eqb r.version v)) rows))
      ≡ (if eqb v u then none else lookup name (env_of u rows))
unfolding lookup env_of keep
lookup-env_of-keep v u name [] = ground arith
lookup-env_of-keep v u name (r ∷ rows) =
    ground (arith, lookup-env_of-keep v u name rows, eqb_iff r.version v, eqb_iff v u)

pub history-keep_stored_env :
    (now : String) (v : ℕ) (db : Db)
    → history (record db { stored_env = keep (λ r. not (eqb r.version v)) db.stored_env })
      ≡ changed now (drop_variables v) (history db)
unfolding history changed
history-keep_stored_env now v db =
    ap (λ f. record (history db) { variables = f })
      (fun_ext (λ u. fun_ext (λ name. lookup-env_of-keep v u name db.stored_env)))

pub history-replace_rows :
    (now : String) (v : ℕ) (kv : Map String) (db : Db)
    → Distinct (keys kv)
    → history (record db { stored_env = replace_rows v kv db.stored_env })
      ≡ changed now (put_variables v kv) (history db)
unfolding history changed
history-replace_rows now v kv db d =
    ap (λ f. record (history db) { variables = f })
      (fun_ext (λ u. fun_ext (λ name. lookup-replace_rows v u name kv db.stored_env d)))

map-snoc :
    (r : Run) (rs : List Run) → map entry_of (snoc rs r) ≡ snoc (map entry_of rs) (entry_of r)
map-snoc r [] = refl
map-snoc r (x ∷ rs) = ap (λ l. entry_of x ∷ l) (map-snoc r rs)

module _ (now : String) (version : ℕ) (direction : String) (status : ℕ) (body : Option String)
    (env : Map String) (failed : Bool) where
  pub history-insert_run :
      (db : Db)
      → history (insert_run version direction status body env failed now db)
        ≡ changed now (record_entry version direction status body env failed) (history db)
  unfolding history changed
  history-insert_run db = ap (λ l. record (history db) { entries = l }) (map-snoc _ db.runs)
