-- ===== src/Migration/TaskEnv.antt =====
-- initTaskAndEnv, prepareTaskEnv and ensureAuth of internal/migration/migrator.go: the environment
-- of a task.
use apirun.Prelude.{
  ℕ, String, Bool, Option, none, some, List, [], ◌∷◌, Map, lookup, insert, ◌==◌, Result, ok, err,
  if◌then◌else◌,
}
use apirun.Env.{Val, str, lazy, Env, new_env, clone}
use apirun.Store.{World, StoreError, list_applied, load_env, load_stored_env}
use apirun.Migration.Types.{AuthEntry, Migrator, Task, Outside}
use apirun.Migration.Planning.{simulated}

-- prepareTaskEnv: the result does not depend on the environment of the task, since the maps of
-- a clone are never nil.
unfoldable pub prepare_task_env : Option Env → Option Env → Env
prepare_task_env base current =
    let cl = clone base in
    elim current [
      | none ↦ cl
      | some e ↦ record e { global = cl.global; auth = cl.auth; local = cl.local }
    ]

-- if _, exists := local[k]; !exists { local[k] = env.Str(val) }, for each pair of the map
unfoldable pub add_missing : Map String → Map Val → Map Val
add_missing [] local = local
add_missing ((k, v) ∷ kv) local =
    add_missing kv (elim (lookup k local) [ none ↦ insert k (str v) local | some w ↦ local ])

abbrev pub or_new : Option Env → Env
or_new none = new_env
or_new (some e) = e

-- What a store operation answers where its error is dropped.
abbrev pub or_default : {A : Type 0} → A → Result StoreError A → A
or_default d (ok a) = a
or_default d (err e) = d

-- The request's own setting, or the migrator's default.
abbrev pub render_body : Option Bool → Option Bool → Option Bool
render_body none default = default
render_body (some b) default = some b

abbrev pub render_find : Option (Option Bool) → Option Bool → Option (Option Bool)
render_find none default = none
render_find (some b) default = some (render_body b default)

module _ (o : Outside) where
  -- A named entry without a value gets a lazy one.
  unfoldable pub add_auth : List AuthEntry → Map Val → Map Val
  add_auth [] auth = auth
  add_auth (a ∷ entries) auth = add_auth entries (
      if a.name == "" then auth else elim (lookup a.name auth) [
        | none ↦ insert a.name (lazy a.name) auth
        | some (str s) ↦ if s == "" then insert a.name (lazy a.name) auth else auth
        | some (lazy n) ↦ if o.acquire n == "" then insert a.name (lazy a.name) auth else auth
      ])

  -- ensureAuth, as the environment that it leaves in the migrator; it never fails.
  unfoldable pub ensure_auth : Migrator → Option Env
  ensure_auth m = elim m.auth [
    | [] ↦ m.env
    | a ∷ entries ↦ let e = or_new m.env in some (record e { auth = add_auth (a ∷ entries) e.auth })
  ]

  -- The variables stored by the versions, the first one first.
  unfoldable pub add_stored : List ℕ → Map Val → World → Map Val × World
  add_stored [] local w = (local, w)
  add_stored (v ∷ vs) local w =
      let (r, w') = load_stored_env o.config v w in
      add_stored vs (add_missing (or_default [] r) local) w'

  -- The versions that count as applied.
  unfoldable pub applied_versions : Migrator → World → List ℕ × World
  applied_versions m w =
      if m.dry_run
      then (simulated m.dry_run_from, w)
      else (let (r, w') = list_applied o.config w in (or_default [] r, w'))

  -- initTaskAndEnv in the mode "up", behind the loading of the file: the environment of the task.
  unfoldable pub init_up : Migrator → Task → Map String → World → Env × World
  init_up m t session_stored w =
      let env = prepare_task_env m.env t.up_env in
      let (applied, w₁) = applied_versions m w in
      let (local, w₂) = add_stored applied env.local w₁ in
      (record env { local = add_missing session_stored local }, w₂)

  -- The mode "down": the variables that the version stored or, if there are none, those of its last
  -- up run.
  unfoldable pub init_down : Migrator → Task → ℕ → World → Env × World
  init_down m t version w =
      let env = prepare_task_env m.env t.down_env in
      let (stored, w₁) = load_stored_env o.config version w in
      let (legacy, w₂) = load_env o.config version "up" w₁ in
      elim (or_default [] stored) [
        | [] ↦ (record env { local = add_missing (or_default [] legacy) env.local }, w₂)
        | e ∷ es ↦ (record env { local = add_missing (e ∷ es) env.local }, w₁)
      ]
