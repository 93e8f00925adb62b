-- ===== src/Store/Refinement.antt =====
-- The store on SQLite and the history that it promises (Store/History).
use apirun.Prelude.{
  ℕ, suc, ◌≡◌, ◌≤◌, refl, sym, ap, ◌∙◌, subst, String, false, none, [], ◌∷◌, eqb, ltb, keys, Map,
  Distinct, length, ℤ, pos, negsuc, ok, err, Bool-cases, inl, inr, arith, not, keep, ltb→lt,
}
use apirun.Retry.{Config, retry_loop, with_retry}
use apirun.Store
use apirun.Store.{
  Db, World, StoreError, database, too_many_variables, Op, attempt_with, attempt, no_wait, answer,
  insert_version, delete_version, insert_run, replace_rows, max_version, exec, query, record_run,
  max_stored_env_vars,
}
use apirun.Store.Laws.{Effect, exec-Effect}
use apirun.Store.Versions.{versions_upto, any-le_max, set_version-Effect}
use apirun.Store.History.{
  Change, apply_version, remove_version, drop_variables, set_to, put_variables, record_entry,
  History, history, changed, IsMap, Accepts, Refines,
}
use apirun.Store.Shows.{
  history-insert_version, history-delete_version, history-upto, history-keep_stored_env,
  history-replace_rows, history-insert_run,
}

-- The methods of the store on SQLite that change it.
unfoldable pub sqlite_change : Config → Change → Op (Unit {0})
sqlite_change cfg (apply_version v) = Store.apply cfg v
sqlite_change cfg (remove_version v) = Store.remove cfg v
sqlite_change cfg (set_to target) = Store.set_version cfg target
sqlite_change cfg (put_variables v kv) = Store.insert_stored_env cfg v kv
sqlite_change cfg (drop_variables v) = Store.delete_stored_env cfg v
sqlite_change cfg (record_entry version direction status body env failed) =
    Store.record_run cfg version direction status body env failed

suc-ne-zero : (n : ℕ) → eqb (suc n) 0 ≡ false
suc-ne-zero n = ground arith

module _ (cfg : Config) (n : ℕ) (retries : cfg.max_retries ≡ pos n) where
  -- Without refusals the first attempt succeeds.
  attempt-made :
      (statement : Db → Db) (w : World)
      → w.faults ≡ []
      → (with_retry cfg (attempt statement) no_wait w).0 ≡ none
  unfolding with_retry retry_loop attempt_with
  attempt-made statement w clean = rw (retries, clean, attempt_with)

  exec-made : (statement : Db → Db) (w : World) → w.faults ≡ [] → (exec cfg statement w).0 ≡ ok tt
  unfolding exec
  exec-made statement w clean = rw (attempt-made statement w clean, answer)

  query-made :
      {A : Type 0} (f : Db → A) (w : World) → w.faults ≡ [] → query cfg f w ≡ (ok (f w.db), w)
  unfolding query with_retry retry_loop attempt_with
  query-made f w clean = rw (retries, clean, attempt_with)

  -- A target is not above the highest version when some version is not below it.
  reached :
      (w : World) (target : ℕ)
      → Accepts (history w.db) (set_to (pos target))
      → ltb (max_version w.db.versions) target ≡ false
  unfolding history
  reached w target (inl zero_target) = rw zero_target (ground arith)
  reached w target (inr (v, held, above)) = ground (arith, any-le_max v w.db.versions held)

  pub set_version-made :
      (target : ℤ) (w : World)
      → w.faults ≡ []
      → Accepts (history w.db) (set_to target)
      → (Store.set_version cfg target w).0 ≡ ok tt
  unfolding Store.set_version Store.current_version
  set_version-made (negsuc k) w clean a =
      rw (query-made (λ db. max_version db.versions) w clean, Store.set_version_from)
        (exec-made (λ db. record db { versions = [] }) w clean)
  set_version-made (pos target) w clean a =
      rw
        (
          query-made (λ db. max_version db.versions) w clean,
          Store.set_version_from,
          reached w target a,
        )
        (elim (Bool-cases (eqb target (max_version w.db.versions))) [
          | inl same ↦ rw same refl
          | inr below ↦ rw below (exec-made (Store.delete_above target) w clean)
        ])

  pub Effect-Refines :
      (accepts : History → Change → Type 0) (method : Change → Op (Unit {0})) (c : Change)
      (w : World) (db : Db)
      → Effect tt db w (method c w)
      → history db ≡ changed w.now c (history w.db)
      → (w.faults ≡ [] → accepts (history w.db) c → (method c w).0 ≡ ok tt)
      → Refines accepts method c w
  Effect-Refines accepts method c w db x shown made = record {
    outcome = elim x.outcome [
      | inl (e, d) ↦ inl (e, ap history d ∙ shown)
      | inr (f, e, d) ↦ inr (f, e, ap history d)
    ];
    same_clock = x.same_clock;
    made = made;
  }

  pub exec-Refines :
      (accepts : History → Change → Type 0) (method : Change → Op (Unit {0})) (c : Change)
      (w : World) (statement : Db → Db)
      → method c w ≡ exec cfg statement w
      → history (statement w.db) ≡ changed w.now c (history w.db)
      → Refines accepts method c w
  exec-Refines accepts method c w statement sent shown =
      Effect-Refines accepts method c w (statement w.db)
        (subst (λ r. Effect tt (statement w.db) w r) (sym sent) (exec-Effect cfg w statement)) shown
        (λ clean a. ap (λ r. r.0) sent ∙ exec-made statement w clean)

  -- A bounded map of variables, however its statement is written.
  pub variables-Refines :
      (accepts : History → Change → Type 0) (method : Change → Op (Unit {0})) (v : ℕ)
      (kv : Map String) (w : World)
      → (accepts (history w.db) (put_variables v kv) → length kv ≤ 10000)
      → Distinct (keys kv)
      → (method (put_variables v kv) w ≡ Store.insert_stored_env cfg v kv w)
      → Refines accepts method (put_variables v kv) w
  unfolding Store.insert_stored_env replace_rows
  variables-Refines accepts method v [] w bounded d same = record {
    outcome = inl (
      ap (λ r. r.0) same,
      ap (λ r. history r.1.db) same ∙ history-replace_rows w.now v [] w.db d,
    );
    same_clock = ap (λ r. r.1.now) same;
    made = λ clean a. ap (λ r. r.0) same;
  }
  variables-Refines accepts method v (e ∷ kv) w bounded d same =
      elim (Bool-cases (ltb 10000 (length (e ∷ kv)))) [
        | inl many ↦
            let refused : method (put_variables v (e ∷ kv)) w
                ≡ (err (too_many_variables (length (e ∷ kv))), w) =
              same ∙ rw (suc-ne-zero (length kv), many) refl in
            record {
              outcome = inr (
                too_many_variables (length (e ∷ kv)),
                ap (λ r. r.0) refused,
                ap (λ r. history r.1.db) refused,
              );
              same_clock = ap (λ r. r.1.now) refused;
              made =
                  λ clean a. absurd (omega (arith, bounded a, ltb→lt 10000 (length (e ∷ kv)) many));
            }
        | inr few ↦
            exec-Refines accepts method (put_variables v (e ∷ kv)) w
              (λ db. record db { stored_env = replace_rows v (e ∷ kv) db.stored_env })
              (same ∙ rw (suc-ne-zero (length kv), few) refl)
              (history-replace_rows w.now v (e ∷ kv) w.db d)
      ]

  -- With retries that are not negative, and for a map that has each name once, each change of the
  -- store on SQLite makes the whole change of the history that it names, or fails and leaves the
  -- history as it was, whatever attempts the database refuses; without refusals a change that is
  -- accepted is made.
  pub sqlite-Refines : (c : Change) (w : World) → IsMap c → Refines Accepts (sqlite_change cfg) c w
  unfolding sqlite_change Store.apply Store.remove Store.delete_stored_env Store.record_run
  sqlite-Refines (apply_version v) w m =
      exec-Refines Accepts (sqlite_change cfg) (apply_version v) w (insert_version v) refl
        (history-insert_version w.now v w.db)
  sqlite-Refines (remove_version v) w m =
      exec-Refines Accepts (sqlite_change cfg) (remove_version v) w (delete_version v) refl
        (history-delete_version w.now v w.db)
  sqlite-Refines (drop_variables v) w m =
      exec-Refines Accepts (sqlite_change cfg) (drop_variables v) w
        (λ db. record db { stored_env = keep (λ r. not (eqb r.version v)) db.stored_env }) refl
        (history-keep_stored_env w.now v w.db)
  sqlite-Refines (set_to target) w m =
      Effect-Refines Accepts (sqlite_change cfg) (set_to target) w
        (record w.db { versions = versions_upto target w.db.versions })
        (set_version-Effect cfg w target) (history-upto w.now target w.db)
        (set_version-made target w)
  sqlite-Refines (put_variables v kv) w m =
      variables-Refines Accepts (sqlite_change cfg) v kv w (λ a. a) m refl
  sqlite-Refines (record_entry version direction status body env failed) w m =
      exec-Refines Accepts (sqlite_change cfg)
        (record_entry version direction status body env failed) w
        (insert_run version direction status body env failed w.now) refl
        (history-insert_run w.now version direction status body env failed w.db)
