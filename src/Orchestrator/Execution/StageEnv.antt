-- ===== src/Orchestrator/Execution/StageEnv.antt =====
-- The variables that the migrations of a stage see: buildStageEnvironment.
use apirun.Prelude.{
  String, ◌≡◌, refl, false, Option, none, some, List, [], ◌∷◌, ◌==◌, eq_iff, Map, lookup, insert,
  lookup-insert, keys, elem, Distinct, if◌then◌else◌, arith, Option-cases, Bool-cases, inl, inr,
  ◌∙◌, ap, sym, ok, ok-injective, ◌||◌, or_else, or_else-none, or_else_assoc,
}
use mathlib.Core.Path.{ap₂}
use apirun.Env.{Val, str, Env, local_layer, global_layer, new_env, set_string, lookup_var}
use apirun.Env.Layers.{text_of}
use apirun.Orchestrator.Types.{EnvFromStage, Stage, StageResult, ExecutionContext}
use apirun.Orchestrator.Execution.{set_all, set_vars, set_from_stages, build_stage_environment}

unfoldable put_all : Map String → Map Val → Map Val
put_all [] l = l
put_all ((k, v) ∷ m) l = put_all m (insert k (str v) l)

unfoldable put_vars : Map String → List String → Map Val → Map Val
put_vars extracted [] l = l
put_vars extracted (name ∷ vars) l =
    put_vars extracted vars
      (elim (lookup name extracted) [ none ↦ l | some v ↦ insert name (str v) l ])

-- The value that the entries of `env_from_stages` give a name; a later entry wins.
unfoldable pub from_stages : Map StageResult → List EnvFromStage → String → Option String
from_stages results [] key = none
from_stages results (from ∷ froms) key =
    or_else (from_stages results froms key) (elim (lookup from.stage results) [
      | none ↦ none
      | some result ↦ if elem key from.vars then lookup key result.extracted_env else none
    ])

set_all_local :
    (m : Map String) (e : Env)
    → e.sealed ≡ false
    → set_all local_layer m e ≡ record e { local = put_all m e.local }
unfolding set_all put_all set_string
set_all_local [] e open_env = refl
set_all_local ((k, v) ∷ m) e open_env =
    rw (open_env, set_all, set_string)
      (set_all_local m (record e { local = insert k (str v) e.local; sealed = false }) refl)

set_all_global :
    (m : Map String) (e : Env)
    → e.sealed ≡ false
    → set_all global_layer m e ≡ record e { global = put_all m e.global }
unfolding set_all put_all set_string
set_all_global [] e open_env = refl
set_all_global ((k, v) ∷ m) e open_env =
    rw (open_env, set_all, set_string)
      (set_all_global m (record e { global = insert k (str v) e.global; sealed = false }) refl)

set_vars_local :
    (extracted : Map String) (vars : List String) (e : Env)
    → e.sealed ≡ false
    → set_vars extracted vars e ≡ record e { local = put_vars extracted vars e.local }
unfolding set_vars put_vars set_string
set_vars_local extracted [] e open_env = refl
set_vars_local extracted (name ∷ vars) e open_env = elim (Option-cases (lookup name extracted)) [
  | inl missing ↦ rw (missing, set_vars, put_vars) (set_vars_local extracted vars e open_env)
  | inr (v, has) ↦
      rw (has, open_env, set_vars, put_vars, set_string)
        (set_vars_local extracted vars
          (record e { local = insert name (str v) e.local; sealed = false }) refl)
]

module _ (acquire : String → String) (key : String) where
  abbrev text : Map Val → Option String
  text l = text_of acquire (lookup key l)

  text-insert :
      (k v : String) (l : Map Val)
      → text (insert k (str v) l) ≡ (if k == key then some v else text l)
  text-insert k v l = elim (Bool-cases (k == key)) [
    | inl same ↦ ap (text_of acquire) (lookup-insert k key (str v) l) ∙ rw same refl
    | inr other ↦ ap (text_of acquire) (lookup-insert k key (str v) l) ∙ rw other refl
  ]

  absent : (m : Map String) → elem key (keys m) ≡ false → lookup key m ≡ none
  unfolding lookup elem
  absent [] e = refl
  absent ((k, v) ∷ m) e = ground (arith, absent m)

  text-put_all :
      (m : Map String) (l : Map Val)
      → Distinct (keys m)
      → text (put_all m l) ≡ or_else (lookup key m) (text l)
  unfolding put_all lookup
  text-put_all [] l d = refl
  text-put_all ((k, v) ∷ m) l d = elim (Bool-cases (k == key)) [
    | inl same ↦
        let later : lookup key m ≡ none = absent m (rw ((eq_iff k key).0 same) at d.0) in
        text-put_all m (insert k (str v) l) d.1
        ∙ rw (later, same) (text-insert k v l ∙ rw same refl)
    | inr other ↦
        text-put_all m (insert k (str v) l) d.1
        ∙ ap (or_else (lookup key m)) (text-insert k v l)
        ∙ rw other refl
  ]

  unset :
      (vars : List String) (name : String) (extracted : Map String) (l : Map Val)
      → lookup name extracted ≡ none
      → or_else (if elem key vars then lookup key extracted else none) (text l)
        ≡ or_else (if name == key || elem key vars then lookup key extracted else none) (text l)
  unset vars name extracted l missing = elim (Bool-cases (name == key)) [
    | inr other ↦ rw other refl
    | inl same ↦
        let gone : lookup key extracted ≡ none = rw ((eq_iff name key).0 same) at missing in
        elim (Bool-cases (elem key vars)) [
          | inl e ↦ rw (same, e, gone) refl
          | inr e ↦ rw (same, e, gone) refl
        ]
  ]

  given :
      (vars : List String) (name v : String) (extracted : Map String) (l : Map Val)
      → lookup name extracted ≡ some v
      → or_else
          (if elem key vars then lookup key extracted else none)
          (if name == key then some v else text l)
        ≡ or_else (if name == key || elem key vars then lookup key extracted else none) (text l)
  given vars name v extracted l has = elim (Bool-cases (name == key)) [
    | inr other ↦ rw other refl
    | inl same ↦
        let there : lookup key extracted ≡ some v = rw ((eq_iff name key).0 same) at has in
        elim (Bool-cases (elem key vars)) [
          | inl e ↦ rw (same, e, there) refl
          | inr e ↦ rw (same, e, there) refl
        ]
  ]

  text-put_vars :
      (extracted : Map String) (vars : List String) (l : Map Val)
      → text (put_vars extracted vars l)
        ≡ or_else (if elem key vars then lookup key extracted else none) (text l)
  unfolding put_vars elem
  text-put_vars extracted [] l = refl
  text-put_vars extracted (name ∷ vars) l = elim (Option-cases (lookup name extracted)) [
    | inl missing ↦
        rw missing (text-put_vars extracted vars l ∙ unset vars name extracted l missing)
    | inr (v, has) ↦ rw has (
        text-put_vars extracted vars (insert name (str v) l)
        ∙ ap (or_else (if elem key vars then lookup key extracted else none)) (text-insert name v l)
        ∙ given vars name v extracted l has)
  ]

  lookup_var-text : (e : Env) → lookup_var acquire key e ≡ or_else (text e.local) (text e.global)
  unfolding lookup_var
  lookup_var-text e = elim (Option-cases (lookup key e.local)) [
    | inr (v, has) ↦ rw (has, lookup_var) refl
    | inl missing ↦ elim (Option-cases (lookup key e.global)) [
      | inr (v, has) ↦ rw (missing, has, lookup_var) refl
      | inl gone ↦ rw (missing, gone, lookup_var) refl
    ]
  ]

  from-lookup_var :
      (results : Map StageResult) (froms : List EnvFromStage) (e e' : Env)
      → e.sealed ≡ false
      → set_from_stages results froms e ≡ ok e'
      → (text e'.local ≡ or_else (from_stages results froms key) (text e.local))
        × (e'.global ≡ e.global)
  unfolding set_from_stages from_stages
  from-lookup_var results [] e e' open_env h =
      let same : e ≡ e' = ok-injective h in
      (ap (λ (x : Env). text x.local) (sym same), ap (λ (x : Env). x.global) (sym same))
  from-lookup_var results (from ∷ froms) e e' open_env h =
      elim (Option-cases (lookup from.stage results)) [
        | inl missing ↦ cc (rw (missing, set_from_stages) at h)
        | inr (result, has) ↦
            let e₁ : Env = record e { local = put_vars result.extracted_env from.vars e.local } in
            let h₁ : set_from_stages results froms (set_vars result.extracted_env from.vars e)
                ≡ ok e' =
              rw (has, set_from_stages) at h in
            let h₂ : set_from_stages results froms e₁ ≡ ok e' =
              sym (
                ap (set_from_stages results froms)
                  (set_vars_local result.extracted_env from.vars e open_env))
              ∙ h₁ in
            let (t, g) = from-lookup_var results froms e₁ e' open_env h₂ in
            (
              t
                  ∙ ap (or_else (from_stages results froms key))
                      (text-put_vars result.extracted_env from.vars e.local)
                  ∙ rw has (
                      or_else_assoc (from_stages results froms key)
                        (if elem key from.vars then lookup key result.extracted_env else none)
                        (text e.local)),
              g,
            )
      ]

-- When buildStageEnvironment succeeds, the environment that it returns has under a name what the
-- entries of `env_from_stages` give it (the last entry that names it and whose stage extracted it), or
-- else the stage's own variable, or else the global one.
pub build_stage_environment-lookup_var :
    (acquire : String → String) (ctx : ExecutionContext) (stage : Stage) (env : Env)
    → Distinct (keys stage.env)
    → Distinct (keys ctx.global_env)
    → build_stage_environment ctx stage ≡ ok env
    → (key : String)
    → lookup_var acquire key env
      ≡ or_else
          (from_stages ctx.stage_results stage.env_from_stages key)
          (or_else (lookup key stage.env) (lookup key ctx.global_env))
unfolding build_stage_environment lookup
build_stage_environment-lookup_var acquire ctx stage env ds dg built key =
    let globals = put_all ctx.global_env [] in
    let e₁ : Env = record new_env { global = globals } in
    let e₂ : Env = record new_env { global = globals; local = put_all stage.env [] } in
    let made : set_all local_layer stage.env (set_all global_layer ctx.global_env new_env) ≡ e₂ =
      ap (set_all local_layer stage.env) (set_all_global ctx.global_env new_env refl)
      ∙ set_all_local stage.env e₁ refl in
    let built₂ : set_from_stages ctx.stage_results stage.env_from_stages e₂ ≡ ok env =
      sym (ap (set_from_stages ctx.stage_results stage.env_from_stages) made) ∙ built in
    let (t, g) =
      from-lookup_var acquire key ctx.stage_results stage.env_from_stages e₂ env refl built₂ in
    let first = from_stages ctx.stage_results stage.env_from_stages key in
    lookup_var-text acquire key env
    ∙ ap₂ or_else
        (t
          ∙ ap (or_else first)
              (text-put_all acquire key stage.env [] ds ∙ or_else-none (lookup key stage.env)))
        (ap (text acquire key) g
          ∙ text-put_all acquire key ctx.global_env [] dg
          ∙ or_else-none (lookup key ctx.global_env))
    ∙ sym (or_else_assoc first (lookup key stage.env) (lookup key ctx.global_env))
