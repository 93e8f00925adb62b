-- ===== src/Store/Variables.antt =====
-- The variables that versions store: InsertStoredEnv, LoadStoredEnv and DeleteStoredEnv.
use apirun.Prelude.{
  ℕ, String, ◌≡◌, some, List, [], ◌∷◌, arith, ok, Map, lookup, keys, Distinct, Bool-cases, inl, inr,
  eqb, eqb_iff, ltb, if◌then◌else◌, ◌&&◌, ◌==◌, eq_iff, length, ok-injective, sym, ◌∙◌, or_else,
  lookup-elem,
}
use apirun.Retry.{Config}
use apirun.Store.{
  EnvRow, World, exec, env_of, replace_row, replace_rows, load_stored_env, insert_stored_env,
  max_stored_env_vars,
}
use apirun.Store.Laws.{exec-Effect, query-Effect}

lookup-replace_row :
    (version : ℕ) (name : String) (row : EnvRow) (rows : List EnvRow)
    → lookup name (env_of version (replace_row row rows)) ≡ (
        if eqb row.version version && row.name == name
        then some row.value
        else lookup name (env_of version rows))
unfolding lookup env_of replace_row
lookup-replace_row version name row [] = ground arith
lookup-replace_row version name row (r ∷ rows) =
    elim (Bool-cases (eqb r.version row.version && r.name == row.name)) [
      | inl e ↦
          rw (e, replace_row)
            (ground (arith, eq_iff r.name row.name, eqb_iff r.version row.version))
      | inr n ↦
          rw (n, replace_row)
            (ground (
              arith,
              lookup-replace_row version name row rows,
              eq_iff r.name name,
              eq_iff row.name name,
              eq_iff r.name row.name,
            ))
    ]

pub lookup-replace_rows :
    (version other : ℕ) (name : String) (kv : Map String) (rows : List EnvRow)
    → Distinct (keys kv)
    → lookup name (env_of other (replace_rows version kv rows)) ≡ (
        if eqb version other
        then or_else (lookup name kv) (lookup name (env_of other rows))
        else lookup name (env_of other rows))
unfolding lookup replace_rows
lookup-replace_rows version other name [] rows d = ground arith
lookup-replace_rows version other name ((k, v) ∷ kv) rows d =
    let row : EnvRow = record { version = version; name = k; value = v } in
    ground (
      arith,
      lookup-replace_rows version other name kv (replace_row row rows) d.1,
      lookup-replace_row other name row rows,
      lookup-elem kv k d.0,
      eq_iff k name,
    )

module _ (cfg : Config) (w : World) where
  inserted_rows :
      (version : ℕ) (kv : Map String) (w' : World)
      → insert_stored_env cfg version kv w ≡ (ok tt, w')
      → w'.db.stored_env ≡ replace_rows version kv w.db.stored_env
  unfolding insert_stored_env replace_rows
  inserted_rows version [] w' e = ground arith
  inserted_rows version (x ∷ kv) w' e =
      elim (Bool-cases (ltb max_stored_env_vars (length (x ∷ kv)))) [
        | inl many ↦ ground arith
        | inr few ↦
            elim (exec-Effect cfg w (λ db. record db {
              stored_env = replace_rows version (x ∷ kv) db.stored_env;
            })).outcome [
              | inl (f, d) ↦
                  let last : (exec cfg
                        (λ db. record db {
                          stored_env = replace_rows version (x ∷ kv) db.stored_env;
                        })
                        w).1
                      ≡ w' =
                    ground arith in
                  rw (sym last, d)
              | inr (f, g, d) ↦ ground arith
            ]
      ]

  -- When InsertStoredEnv succeeds, each variable of the map (whose names are different) is stored
  -- for the version with its value there, and every other variable of every version as before:
  -- LoadStoredEnv then either fails or returns exactly these variables.
  pub load_stored_env-insert_stored_env :
      (version other : ℕ) (kv : Map String) (env : Map String) (w' : World)
      → Distinct (keys kv)
      → insert_stored_env cfg version kv w ≡ (ok tt, w')
      → (load_stored_env cfg other w').0 ≡ ok env
      → (name : String)
      → lookup name env ≡ (
          if eqb version other
          then or_else (lookup name kv) (lookup name (env_of other w.db.stored_env))
          else lookup name (env_of other w.db.stored_env))
  unfolding insert_stored_env load_stored_env
  load_stored_env-insert_stored_env version other kv env w' d inserted loaded name =
      let x = query-Effect cfg w' (λ db. env_of other db.stored_env) in
      let read : env_of other w'.db.stored_env ≡ env = elim x.outcome [
        | inl (e, d) ↦ ok-injective (sym e ∙ loaded)
        | inr (f, e, d) ↦ cc
      ] in
      let stored : w'.db.stored_env ≡ replace_rows version kv w.db.stored_env =
        inserted_rows version kv w' inserted in
      rw (sym read, stored) (lookup-replace_rows version other name kv w.db.stored_env d)
