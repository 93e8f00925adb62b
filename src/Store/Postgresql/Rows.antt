-- ===== src/Store/Postgresql/Rows.antt =====
-- The numbered placeholders of InsertStoredEnv and its ON CONFLICT clause.
use apirun.Prelude.{
  ℕ, suc, ◌+◌, ◌≡◌, refl, ap, ◌∙◌, subst, String, some, List, [], ◌∷◌, ◌++◌, Map, length,
  length-append, eqb, eqb_iff, Bool-cases, inl, inr, arith, ◌==◌, eq_iff, ◌&&◌,
}
use mathlib.Core.List.{append_assoc}
use apirun.Store.{EnvRow, replace_row, replace_rows}
use apirun.Store.Postgresql.{
  Arg, number, text, values_clauses, args, arg_at, rows_of, upsert_row, upsert_rows,
}

abbrev pub env_rows : ℕ → Map String → List EnvRow
env_rows version [] = []
env_rows version ((name, value) ∷ kv) =
    record { version = version; name = name; value = value } ∷ env_rows version kv

arg_at-append :
    (pre rest : List Arg) (m n : ℕ)
    → m ≡ length pre + suc n
    → arg_at (pre ++ rest) m ≡ arg_at rest (suc n)
unfolding arg_at
arg_at-append [] rest m n e = ap (λ k. arg_at rest k) (e ∙ omega arith)
arg_at-append (a ∷ pre) rest m n e =
    let f : m ≡ suc (suc (length pre + n)) = omega arith in
    rw f (arg_at-append pre rest (suc (length pre + n)) n (omega arith))

rows_of-from :
    (version : ℕ) (pre : List Arg) (kv : Map String) (i : ℕ)
    → i ≡ length pre + 1
    → rows_of (pre ++ args version kv) (values_clauses i kv) ≡ some (env_rows version kv)
unfolding rows_of values_clauses args arg_at
rows_of-from version pre [] i e = refl
rows_of-from version pre ((name, value) ∷ kv) i e =
    let given = number version ∷ text name ∷ text value ∷ args version kv in
    let three = number version ∷ text name ∷ text value ∷ [] in
    let rest : rows_of (pre ++ given) (values_clauses (i + 3) kv) ≡ some (env_rows version kv) =
      subst (λ l. rows_of l (values_clauses (i + 3) kv) ≡ some (env_rows version kv))
        (append_assoc pre three (args version kv))
        (rows_of-from version (pre ++ three) kv (i + 3) (omega (arith, length-append pre three))) in
    rw (
      arg_at-append pre given i 0 e,
      arg_at-append pre given (i + 1) 1 (omega arith),
      arg_at-append pre given (i + 2) 2 (omega arith),
      rest,
    )

-- Each placeholder of the statement that InsertStoredEnv sends stands for the argument that its
-- column takes: the rows of its VALUES clauses are the version with the names and values of the map,
-- one row for each, in order.
pub rows_of-args :
    (version : ℕ) (kv : Map String)
    → rows_of (args version kv) (values_clauses 1 kv) ≡ some (env_rows version kv)
rows_of-args version kv = rows_of-from version [] kv 1 (omega arith)

upsert_row-replace_row :
    (row : EnvRow) (rows : List EnvRow) → upsert_row row rows ≡ replace_row row rows
unfolding upsert_row replace_row
upsert_row-replace_row row [] = refl
upsert_row-replace_row row (r ∷ rows) =
    elim (Bool-cases (eqb r.version row.version && r.name == row.name)) [
      | inl same ↦
          rw (same, upsert_row, replace_row)
            (ap (λ y. y ∷ rows)
              (ground (arith, eqb_iff r.version row.version, eq_iff r.name row.name)))
      | inr different ↦
          rw (different, upsert_row, replace_row)
            (ap (λ l. r ∷ l) (upsert_row-replace_row row rows))
    ]

pub upsert_rows-replace_rows :
    (version : ℕ) (kv : Map String) (stored : List EnvRow)
    → upsert_rows (env_rows version kv) stored ≡ replace_rows version kv stored
unfolding upsert_rows replace_rows
upsert_rows-replace_rows version [] stored = refl
upsert_rows-replace_rows version ((name, value) ∷ kv) stored =
    let row : EnvRow = record { version = version; name = name; value = value } in
    ap (λ l. upsert_rows (env_rows version kv) l) (upsert_row-replace_row row stored)
    ∙ upsert_rows-replace_rows version kv (replace_row row stored)
