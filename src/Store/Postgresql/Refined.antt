-- ===== src/Store/Postgresql/Refined.antt =====
-- The store on PostgreSQL and the history that it promises (Store/History).
use apirun.Prelude.{
  ℕ, ◌<◌, ◌≡◌, ◌≢◌, ◌⊎◌, ◌&&◌, Distinct, keys, false, true, arith, refl, sym, ap, ◌∙◌, subst,
  String, Bool, Option, none, some, List, [], ◌∷◌, any, eqb, ltb, Map, length, ℤ, pos, negsuc,
  Result, ok, err, Bool-cases, inl, inr, not, keep, if◌then◌else◌,
}
use apirun.Retry.{DbError, Config, retry_loop, with_retry}
use apirun.Retry.Outcomes.{Ends, with_retry-Ends}
use mathlib.Core.Path.{fun_ext}
use apirun.Store
use apirun.Store.{
  Db, World, StoreError, database, too_many_variables, Op, attempt_with, attempt, no_wait, answer,
  insert_version, delete_version, insert_run, replace_rows, max_version, exec, query, record_run,
  max_stored_env_vars,
}
use apirun.Store.Laws.{Effect, query-Effect}
use apirun.Store.Versions.{versions_upto, set_version-Effect}
use apirun.Store.History.{
  Change, apply_version, remove_version, drop_variables, set_to, put_variables, record_entry,
  History, history, changed, IsMap, FitsInt4, AcceptsInt4, Refines,
}
use apirun.Store.Shows.{
  history-insert_version, history-delete_version, history-upto, history-keep_stored_env,
  history-insert_run,
}
use apirun.Store.Postgresql
use apirun.Store.Postgresql.{
  fits_int4, refuse, burn, rows_of, args, values_clauses, upsert_rows, exec_rows,
}
use apirun.Store.Postgresql.Rows.{rows_of-args, upsert_rows-replace_rows}
use apirun.Store.Refinement.{set_version-made, Effect-Refines, exec-Refines, variables-Refines}

-- The methods of the store on PostgreSQL that change it.
unfoldable pub postgresql_change : (DbError → Bool) → Config → Change → Op (Unit {0})
postgresql_change burns cfg (apply_version v) = Postgresql.apply burns cfg v
postgresql_change burns cfg (remove_version v) = Postgresql.remove burns cfg v
postgresql_change burns cfg (set_to target) = Postgresql.set_version burns cfg target
postgresql_change burns cfg (put_variables v kv) = Postgresql.insert_stored_env burns cfg v kv
postgresql_change burns cfg (drop_variables v) = Postgresql.delete_stored_env burns cfg v
postgresql_change burns cfg (record_entry version direction status body env failed) =
    Postgresql.record_run burns cfg version direction status body env failed

module _ (burns : DbError → Bool) (cfg : Config) (n : ℕ) (retries : cfg.max_retries ≡ pos n) where
  too_large : (k : ℕ) → fits_int4 k ≡ false → ¬ (k < 2147483648)
  too_large k e h = ground arith

  -- What differs from SQLite is how a statement is written and what a refused one may leave behind.
  insert_stored_env-agrees :
      (v : ℕ) (kv : Map String) (w : World)
      → fits_int4 v ≡ true
      → Postgresql.insert_stored_env burns cfg v kv w ≡ Store.insert_stored_env cfg v kv w
  unfolding Postgresql.insert_stored_env Store.insert_stored_env
  insert_stored_env-agrees v kv w small =
      rw (rows_of-args v kv, Postgresql.exec_rows, small)
        (ap
          (λ (statement : Db → Db).
            if eqb (length kv) 0
            then (ok tt, w)
            else if ltb max_stored_env_vars (length kv)
            then (err (too_many_variables (length kv)), w)
            else exec cfg statement w)
          (fun_ext (λ db.
            ap (λ rows. record db { stored_env = rows })
              (upsert_rows-replace_rows v kv db.stored_env))))

  insert-agrees : (v : ℕ) (db : Db) → Postgresql.insert_unless_conflict v db ≡ insert_version v db
  insert-agrees v db = elim (Bool-cases (any (eqb v) db.versions)) [
    | inl old ↦ rw old refl
    | inr new ↦ rw new refl
  ]

  -- A refused attempt may use up a number, which the history does not show.
  module _ (statement : Db → Db) (shown after : History) (now : String)
      (step : (db : Db) → history db ≡ shown → history (statement db) ≡ after) where
    abbrev Shown : History → World → Type 0
    Shown h u = (history u.db ≡ h) × (u.now ≡ now)

    burn_succeeds :
        (fs : List (Option DbError)) (u : World)
        → Shown shown u
        → (burn burns (attempt_with fs statement u)).0 ≡ none
        → Shown after (burn burns (attempt_with fs statement u)).1
    unfolding attempt_with
    burn_succeeds [] u s e = (step u.db s.0, s.1)
    burn_succeeds (none ∷ fs) u s e = (step u.db s.0, s.1)
    burn_succeeds (some f ∷ fs) u s e = cc

    burn_fails :
        (fs : List (Option DbError)) (u : World) (f : DbError)
        → Shown shown u
        → (burn burns (attempt_with fs statement u)).0 ≡ some f
        → Shown shown (burn burns (attempt_with fs statement u)).1
    unfolding attempt_with history
    burn_fails [] u f s e = cc
    burn_fails (none ∷ fs) u f s e = cc
    burn_fails (some g ∷ fs) u f s e = elim (Bool-cases (burns g)) [
      | inl used ↦ rw used s
      | inr free ↦ rw free s
    ]

    record-Ends :
        (w : World)
        → Shown shown w
        → Ends
            (Shown shown)
            (Shown after)
            (with_retry cfg (λ u. burn burns (attempt statement u)) no_wait w)
    record-Ends w s =
        with_retry-Ends cfg (λ u. burn burns (attempt statement u)) no_wait (Shown shown)
          (Shown after) (λ u. burn_succeeds u.faults u) (λ u. burn_fails u.faults u) (λ d u p. p) w
          s

  record-made :
      (statement : Db → Db) (w : World)
      → w.faults ≡ []
      → (with_retry cfg (λ u. burn burns (attempt statement u)) no_wait w).0 ≡ none
  unfolding with_retry retry_loop attempt_with
  record-made statement w clean = rw (retries, clean, attempt_with)

  -- What SetVersion does behind the read of the current version: what it does on SQLite, unless its
  -- statement is refused.
  set_version_cases :
      (target : ℤ) (r : Result StoreError ℕ × World)
      → (Postgresql.set_version_behind burns cfg target r ≡ Store.set_version_from cfg target r)
        ⊎ (¬ FitsInt4 (set_to target)
            × (Postgresql.set_version_behind burns cfg target r
                ≡ Postgresql.refused burns cfg (λ db. tt) r.1))
  set_version_cases (pos target) (ok current, w) = elim (Bool-cases (fits_int4 target)) [
    | inl in_range ↦ inl (rw in_range refl)
    | inr large ↦ elim (Bool-cases (ltb current target)) [
      | inl above ↦ inl (rw above refl)
      | inr reached ↦ elim (Bool-cases (eqb target current)) [
        | inl same ↦ inl (rw (reached, same) refl)
        | inr below ↦ inr (too_large target large, rw (reached, below, large) refl)
      ]
    ]
  ]
  set_version_cases (negsuc k) (ok current, w) = elim (Bool-cases (fits_int4 k)) [
    | inl in_range ↦ inl (rw in_range refl)
    | inr large ↦ inr (too_large k large, rw large refl)
  ]
  set_version_cases (pos target) (err e, w) = inl refl
  set_version_cases (negsuc k) (err e, w) = inl refl

  insert_cases :
      (v : ℕ) (kv : Map String) (w : World)
      → (Postgresql.insert_stored_env burns cfg v kv w ≡ Store.insert_stored_env cfg v kv w)
        ⊎ ((fits_int4 v ≡ false)
            × (Postgresql.insert_stored_env burns cfg v kv w
                ≡ Postgresql.refused burns cfg (λ db. tt) w))
  unfolding Postgresql.insert_stored_env Store.insert_stored_env
  insert_cases v kv w = elim (Bool-cases (fits_int4 v)) [
    | inl small ↦ inl (insert_stored_env-agrees v kv w small)
    | inr large ↦ elim (Bool-cases (eqb (length kv) 0)) [
      | inl empty ↦ inl (rw empty refl)
      | inr filled ↦ elim (Bool-cases (ltb 10000 (length kv))) [
        | inl many ↦ inl (rw (filled, many) refl)
        | inr few ↦
            inr (large, rw (filled, few, rows_of-args v kv, Postgresql.exec_rows, large) refl)
      ]
    ]
  ]

  -- Attempts with an argument that does not fit change nothing, and fail.
  refuse_fails :
      (now : String) (shown : History) (u : World) (fs : List (Option DbError))
      → (history u.db ≡ shown) × (u.now ≡ now)
      → ((refuse (attempt_with fs (λ db. db) u)).0 ≢ none)
        × ((history (refuse (attempt_with fs (λ db. db) u)).1.db ≡ shown)
            × ((refuse (attempt_with fs (λ db. db) u)).1.now ≡ now))
  unfolding attempt_with history
  refuse_fails now shown u [] s = (λ e. cc, s)
  refuse_fails now shown u (none ∷ fs) s = (λ e. cc, s)
  refuse_fails now shown u (some f ∷ fs) s = (λ e. cc, s)

  refused-Refines :
      (c : Change) (w u : World)
      → (history u.db ≡ history w.db) × (u.now ≡ w.now)
      → postgresql_change burns cfg c w ≡ Postgresql.refused burns cfg (λ db. tt) u
      → ¬ FitsInt4 c
      → Refines AcceptsInt4 (postgresql_change burns cfg) c w
  unfolding Postgresql.refused
  refused-Refines c w v read sent large =
      let Shown : World → Type 0 = λ u. (history u.db ≡ history w.db) × (u.now ≡ w.now) in
      let After : World → Type 0 =
        λ u. (history u.db ≡ changed w.now c (history w.db)) × (u.now ≡ w.now) in
      let ends =
        with_retry-Ends cfg (λ u. refuse (attempt (λ db. db) u)) no_wait Shown After
          (λ u s e. absurd ((refuse_fails w.now (history w.db) u u.faults s).0 e))
          (λ u f s e. (refuse_fails w.now (history w.db) u u.faults s).1) (λ d u p. p) v read in
      record {
        outcome = elim ends [
          | inl (e, d) ↦ inl (rw (sent, e) refl, rw (sent, e) d.0)
          | inr (f, e, d) ↦ inr (database f, rw (sent, e) refl, rw (sent, e) d.0)
        ];
        same_clock = elim ends [ inl (e, d) ↦ rw (sent, e) d.1 | inr (f, e, d) ↦ rw (sent, e) d.1 ];
        made = λ clean a. absurd (large a.1);
      }

  -- A statement whose arguments fit, or do not.
  fitting-Refines :
      (c : Change) (w : World) (in_range : Bool) (statement : Db → Db)
      → postgresql_change burns cfg c w ≡ Postgresql.exec_fitting burns cfg in_range statement w
      → (in_range ≡ false → ¬ FitsInt4 c)
      → history (statement w.db) ≡ changed w.now c (history w.db)
      → Refines AcceptsInt4 (postgresql_change burns cfg) c w
  fitting-Refines c w true statement sent large shown =
      exec-Refines cfg n retries AcceptsInt4 (postgresql_change burns cfg) c w statement sent shown
  fitting-Refines c w false statement sent large shown =
      refused-Refines c w w (refl, refl) sent (large refl)

  record-Refines :
      (version : ℕ) (direction : String) (status : ℕ) (body : Option String) (env : Map String)
      (failed : Bool) (w : World)
      → Refines AcceptsInt4
          (postgresql_change burns cfg)
          (record_entry version direction status body env failed)
          w
  unfolding postgresql_change Postgresql.record_run
  record-Refines version direction status body env failed w =
      elim (Bool-cases (fits_int4 version && fits_int4 status)) [
        | inr large ↦
            refused-Refines (record_entry version direction status body env failed) w w (refl, refl)
              (rw (large, Postgresql.record_run) refl) (λ h. ground arith)
        | inl small ↦
            let c = record_entry version direction status body env failed in
            let statement = insert_run version direction status body env failed w.now in
            let ends =
              record-Ends statement (history w.db) (changed w.now c (history w.db)) w.now
                (λ db same.
                  history-insert_run w.now version direction status body env failed db
                  ∙ ap (changed w.now c) same)
                w (refl, refl) in
            record {
              outcome = elim ends [
                | inl (e, d) ↦ inl (rw (small, e) refl, rw (small, e) d.0)
                | inr (f, e, d) ↦ inr (database f, rw (small, e) refl, rw (small, e) d.0)
              ];
              same_clock = elim ends [
                | inl (e, d) ↦ rw (small, e) d.1
                | inr (f, e, d) ↦ rw (small, e) d.1
              ];
              made = λ clean a. rw (small, record-made statement w clean) refl;
            }
      ]

  set_to-Refines :
      (target : ℤ) (w : World) → Refines AcceptsInt4 (postgresql_change burns cfg) (set_to target) w
  unfolding postgresql_change Postgresql.set_version Postgresql.current_version Store.set_version
      Store.current_version
  set_to-Refines target w =
      let read = query cfg (λ db. max_version db.versions) w in
      let kept = query-Effect cfg w (λ db. max_version db.versions) in
      elim (set_version_cases target read) [
        | inr (large, sent) ↦
            refused-Refines (set_to target) w read.1
              (
                elim kept.outcome [ inl (e, d) ↦ ap history d | inr (g, e, d) ↦ ap history d ],
                kept.same_clock,
              )
              sent large
        | inl agrees ↦
            let same : Postgresql.set_version burns cfg target w ≡ Store.set_version cfg target w =
              agrees in
            Effect-Refines cfg n retries AcceptsInt4 (postgresql_change burns cfg) (set_to target) w
              (record w.db { versions = versions_upto target w.db.versions })
              (subst
                (λ r. Effect tt (record w.db { versions = versions_upto target w.db.versions }) w r)
                (sym same) (set_version-Effect cfg w target))
              (history-upto w.now target w.db)
              (λ clean a. ap (λ r. r.0) same ∙ set_version-made cfg n retries target w clean a.0)
      ]

  put_variables-Refines :
      (v : ℕ) (kv : Map String) (w : World)
      → Distinct (keys kv)
      → Refines AcceptsInt4 (postgresql_change burns cfg) (put_variables v kv) w
  unfolding postgresql_change
  put_variables-Refines v kv w d = elim (insert_cases v kv w) [
    | inl agrees ↦
        variables-Refines cfg n retries AcceptsInt4 (postgresql_change burns cfg) v kv w (λ a. a.0)
          d agrees
    | inr (large, sent) ↦
        refused-Refines (put_variables v kv) w w (refl, refl) sent (too_large v large)
  ]

  -- With retries that are not negative, and for a map that has each name once, each change of the
  -- store on PostgreSQL makes the whole change of the history that it names, or fails and leaves the
  -- history as it was, whatever attempts the database refuses and whichever of them use up a number
  -- of the sequence behind the runs. Without refusals a change that is accepted is made, when its
  -- version or target and its status fit into the four bytes of an INTEGER column.
  pub postgresql-Refines :
      (c : Change) (w : World) → IsMap c → Refines AcceptsInt4 (postgresql_change burns cfg) c w
  unfolding postgresql_change Postgresql.apply Postgresql.remove Postgresql.delete_stored_env
  postgresql-Refines (apply_version v) w m =
      fitting-Refines (apply_version v) w (fits_int4 v) (Postgresql.insert_unless_conflict v) refl
        (too_large v) (ap history (insert-agrees v w.db) ∙ history-insert_version w.now v w.db)
  postgresql-Refines (remove_version v) w m =
      fitting-Refines (remove_version v) w (fits_int4 v) (delete_version v) refl (too_large v)
        (history-delete_version w.now v w.db)
  postgresql-Refines (drop_variables v) w m =
      fitting-Refines (drop_variables v) w (fits_int4 v)
        (λ db. record db { stored_env = keep (λ r. not (eqb r.version v)) db.stored_env }) refl
        (too_large v) (history-keep_stored_env w.now v w.db)
  postgresql-Refines (set_to target) w m = set_to-Refines target w
  postgresql-Refines (put_variables v kv) w m = put_variables-Refines v kv w m
  postgresql-Refines (record_entry version direction status body env failed) w m =
      record-Refines version direction status body env failed w
