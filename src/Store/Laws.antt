-- ===== src/Store/Laws.antt =====
-- What the statements of the store do to the tables, whatever attempts the database refuses.
use apirun.Prelude.{
  ◌≡◌, ◌⊎◌, refl, Option, none, some, List, [], ◌∷◌, Result, ok, err, Bool-cases, Option-cases, inl,
  inr, ap,
}
use apirun.Retry.{DbError, Config, with_retry}
use apirun.Retry.Outcomes.{Ends, with_retry-Ends}
use apirun.Store.{
  Db, World, StoreError, database, attempt_with, attempt, no_wait, scan, last_is_no_rows, exec,
  query, query_row,
}

abbrev Same : World → World → Type 0
Same w w' = (w'.db ≡ w.db) × (w'.now ≡ w.now)

abbrev Becomes : Db → World → World → Type 0
Becomes db w w' = (w'.db ≡ db) × (w'.now ≡ w.now)

module _ (statement : Db → Db) (w : World) where
  attempt_with_succeeds :
      (fs : List (Option DbError)) (u : World)
      → Same w u
      → (attempt_with fs statement u).0 ≡ none
      → Becomes (statement w.db) w (attempt_with fs statement u).1
  unfolding attempt_with
  attempt_with_succeeds [] u s e = (ap statement s.0, s.1)
  attempt_with_succeeds (none ∷ fs) u s e = (ap statement s.0, s.1)
  attempt_with_succeeds (some f ∷ fs) u s e = cc

  attempt_with_fails :
      (fs : List (Option DbError)) (u : World) (e : DbError)
      → Same w u
      → (attempt_with fs statement u).0 ≡ some e
      → Same w (attempt_with fs statement u).1
  unfolding attempt_with
  attempt_with_fails [] u f s e = cc
  attempt_with_fails (none ∷ fs) u f s e = cc
  attempt_with_fails (some g ∷ fs) u f s e = s

  attempt-Ends :
      (cfg : Config)
      → Ends (Same w) (Becomes (statement w.db) w) (with_retry cfg (attempt statement) no_wait w)
  attempt-Ends cfg =
      with_retry-Ends cfg (attempt statement) no_wait (Same w) (Becomes (statement w.db) w)
        (λ u. attempt_with_succeeds u.faults u) (λ u. attempt_with_fails u.faults u) (λ d u s. s) w
        (refl, refl)

attempt_with-Same :
    (w : World) (fs : List (Option DbError)) (u : World)
    → Same w u
    → Same w (attempt_with fs (λ db. db) u).1
unfolding attempt_with
attempt_with-Same w [] u s = s
attempt_with-Same w (none ∷ fs) u s = s
attempt_with-Same w (some g ∷ fs) u s = s

scan-Same :
    {A : Type 0} (row : Db → Option A) (w : World) (p : Option DbError × World)
    → Same w p.1
    → Same w (scan row p).1
scan-Same row w (some e, u) s = s
scan-Same row w (none, u) s = elim (Option-cases (row u.db)) [
  | inl e ↦ rw (e, scan) s
  | inr (a, e) ↦ rw (e, scan) s
]

-- The tables after a statement that was accepted, or as they were.
pub record Effect {A : Type 0} (a : A) (db : Db) (w : World) (r : Result StoreError A × World)
    : Type 0 where
  pub outcome :
      ((r.0 ≡ ok a) × (r.1.db ≡ db)) ⊎ ((e : StoreError) × (r.0 ≡ err e) × (r.1.db ≡ w.db))
  pub same_clock : r.1.now ≡ w.now

module _ (cfg : Config) (w : World) where
  -- A statement that the store executes changes the tables as a whole, or fails and changes nothing,
  -- however many attempts it takes.
  pub exec-Effect : (statement : Db → Db) → Effect tt (statement w.db) w (exec cfg statement w)
  unfolding exec
  exec-Effect statement = elim (attempt-Ends statement w cfg) [
    | inl (e, d) ↦ record { outcome = inl (rw e refl, rw e d.0); same_clock = rw e d.1 }
    | inr (f, e, d) ↦ record {
      outcome = inr (database f, rw e refl, rw e d.0);
      same_clock = rw e d.1;
    }
  ]

  pub query-Effect : {A : Type 0} (f : Db → A) → Effect (f w.db) w.db w (query cfg f w)
  unfolding query
  query-Effect f = elim (attempt-Ends (λ db. db) w cfg) [
    | inl (e, d) ↦ record { outcome = inl (rw (e, d.0) refl, rw e d.0); same_clock = rw e d.1 }
    | inr (f, e, d) ↦ record {
      outcome = inr (database f, rw e refl, rw e d.0);
      same_clock = rw e d.1;
    }
  ]

  -- Reading a row keeps the tables.
  pub query_row_keeps : {A : Type 0} (row : Db → Option A) → Same w (query_row cfg row w).1
  unfolding query_row
  query_row_keeps row =
      elim (with_retry-Ends cfg (λ u. scan row (attempt (λ db. db) u)) no_wait (Same w) (Same w)
        (λ u s e. scan-Same row w (attempt (λ db. db) u) (attempt_with-Same w u.faults u s))
        (λ u e s f. scan-Same row w (attempt (λ db. db) u) (attempt_with-Same w u.faults u s))
        (λ d u s. s) w (refl, refl)) [
          | inl (e, d) ↦ rw (e, query_row) d
          | inr (f, e, d) ↦ elim (Bool-cases (last_is_no_rows f)) [
            | inl y ↦ rw (e, y, query_row) d
            | inr n ↦ rw (e, n, query_row) d
          ]
        ]
