-- ===== src/Task/Merged.antt =====
-- The environment behind the step `find` of a down task.
use apirun.Prelude.{
  ◌≡◌, List-cases, Distinct-insert, refl, ◌∙◌, String, false, none, some, [], ◌∷◌, Map, Bool-cases,
  Option-cases, inl, inr, or_else, lookup, insert, lookup-insert, keys, Distinct, ◌==◌, eq_iff,
  lookup-elem, if◌then◌else◌,
}
use apirun.Env.{Env, str, lookup_var, set_string}
use apirun.Task.{ResponseSpec, Net}
use apirun.Task.Response.{any_to_string, found_at, blank, extract_all, extract_env}
use apirun.Task.Execute.{merge_extracted}

module _ (net : Net) where
  lookup_var-set :
      (k v key : String) (e : Env)
      → lookup_var net.engine.acquire key
          (record e { local = insert k (str v) e.local; sealed = false })
        ≡ (if k == key then some v else lookup_var net.engine.acquire key e)
  unfolding lookup_var
  lookup_var-set k v key e = elim (Bool-cases (k == key)) [
    | inl same ↦ rw (lookup-insert k key (str v) e.local, same, lookup_var)
    | inr other ↦ rw (lookup-insert k key (str v) e.local, other, lookup_var)
  ]

  -- The variables of the step `find` hide those of the environment, unless it is sealed.
  pub lookup-merge_extracted :
      (kv : Map String) (e : Env) (key : String)
      → e.sealed ≡ false
      → Distinct (keys kv)
      → lookup_var net.engine.acquire key (merge_extracted kv e)
        ≡ or_else (lookup key kv) (lookup_var net.engine.acquire key e)
  unfolding merge_extracted lookup_var set_string lookup
  lookup-merge_extracted [] e key open_env d = refl
  lookup-merge_extracted ((k, v) ∷ kv) e key open_env d =
      let set_env : Env = record e { local = insert k (str v) e.local; sealed = false } in
      let first : lookup_var net.engine.acquire key set_env
          ≡ (if k == key then some v else lookup_var net.engine.acquire key e) =
        lookup_var-set k v key e in
      rw (open_env, merge_extracted, set_string)
        (lookup-merge_extracted kv set_env key refl d.1 ∙ elim (Bool-cases (k == key)) [
          | inl same ↦
              let later : lookup key kv ≡ none =
                rw (← (eq_iff k key).0 same) (lookup-elem kv k d.0) in
              rw (later, first, same)
          | inr other ↦ rw (first, other)
        ])

  -- Each key is taken once.
  Distinct-extract_all :
      (body : String) (env_from extracted : Map String)
      → Distinct (keys extracted)
      → Distinct (keys (extract_all net body env_from extracted))
  unfolding extract_all
  Distinct-extract_all body [] extracted d = d
  Distinct-extract_all body ((k, path) ∷ env_from) extracted d =
      elim (Bool-cases (blank net path)) [
        | inl empty ↦ rw (empty, extract_all) (Distinct-extract_all body env_from extracted d)
        | inr set ↦ elim (Option-cases (found_at net body path)) [
          | inl missing ↦
              rw (set, missing, extract_all) (Distinct-extract_all body env_from extracted d)
          | inr (v, there) ↦
              rw (set, there, extract_all)
                (Distinct-extract_all body env_from (insert k (any_to_string v) extracted)
                  (Distinct-insert k (any_to_string v) extracted d))
        ]
      ]

  pub Distinct-extract_env :
      (spec : ResponseSpec) (body : String) → Distinct (keys (extract_env net spec body).0)
  unfolding extract_env
  Distinct-extract_env spec body = elim (List-cases spec.env_from) [
    | inl nothing ↦ rw (nothing, extract_env) tt
    | inr (e, env_from, listed) ↦ elim (Bool-cases (body == "")) [
      | inl empty ↦ rw (listed, empty, extract_env) tt
      | inr filled ↦
          rw (listed, filled, extract_env) (Distinct-extract_all body (e ∷ env_from) [] tt)
    ]
  ]
