-- ===== src/Task/Extracted.antt =====
-- Which answers a task accepts, and which variables it takes from them.
use apirun.Prelude.{
  ℕ, ◌≡◌, ◌↔◌, ◌⊎◌, refl, sym, ap, ◌∙◌, String, Bool, true, false, ◌||◌, Option, none, some, List,
  [], ◌∷◌, Map, lookup, insert, lookup-insert, keys, Distinct, All, any, ◌==◌, eq_iff, ℤ, pos,
  Bool-cases, Option-cases, inl, inr, arith, or_else, or_else-none, trim_space, if◌then◌else◌,
  List-cases, lookup-elem,
}
use apirun.Env.{Env}
use apirun.Task.{ResponseSpec, Value, TaskError, status_not_allowed, missing_env, Net}
use apirun.Task.Response.{
  eqb_ℤ, any_to_string, code_of, allowed_status, validate_status, found_at, blank, extract_all,
  first_missing, policy_of, extract_env,
}

module _ (net : Net) where
  abbrev pub is_code : ℕ → Option ℤ → Bool
  is_code status none = false
  is_code status (some n) = eqb_ℤ (pos status) n

  any-allowed_status :
      (env : Env) (status : ℕ) (codes : List String)
      → any (eqb_ℤ (pos status)) (allowed_status net env codes)
        ≡ any (λ c. is_code status (code_of net env c)) codes
  unfolding any allowed_status
  any-allowed_status env status [] = refl
  any-allowed_status env status (c ∷ codes) = elim (Option-cases (code_of net env c)) [
    | inl no_code ↦ rw (no_code, any, allowed_status) (any-allowed_status env status codes)
    | inr (n, code) ↦
        rw (code, any, allowed_status)
          (ap (λ b. eqb_ℤ (pos status) n || b) (any-allowed_status env status codes))
  ]

  allowed_status_empty :
      (env : Env) (codes : List String)
      → (allowed_status net env codes ≡ []) ↔ All (λ c. code_of net env c ≡ none) codes
  unfolding allowed_status
  allowed_status_empty env [] = ground arith
  allowed_status_empty env (c ∷ codes) = ground (arith, allowed_status_empty env codes)

  accepted_iff :
      {P : Type 0} (status : ℕ) (b : Bool)
      → ¬ P
      → ((if b then none else some (status_not_allowed status)) ≡ none) ↔ (P ⊎ (b ≡ true))
  accepted_iff status true n = (λ h. inr refl, λ h. refl)
  accepted_iff status false n = (λ h. cc, λ h. elim h [ inl p ↦ absurd (n p) | inr e ↦ cc ])

  -- A status is accepted exactly when no entry of result_code renders to a number, or one renders to
  -- the status.
  pub validate_status_iff :
      (r : ResponseSpec) (status : ℕ) (env : Env)
      → (validate_status net r status env ≡ none) ↔ (
          All (λ c. code_of net env c ≡ none) r.result_code
          ⊎ (any (λ c. is_code status (code_of net env c)) r.result_code ≡ true))
  unfolding validate_status
  validate_status_iff r status env = elim (List-cases (allowed_status net env r.result_code)) [
    | inl none_allowed ↦ (
      λ h. inl ((allowed_status_empty env r.result_code).0 none_allowed),
      λ h. rw (none_allowed, validate_status) refl,
    )
    | inr (n, allowed, listed) ↦
        let same : any (eqb_ℤ (pos status)) (n ∷ allowed)
            ≡ any (λ c. is_code status (code_of net env c)) r.result_code =
          ap (any (eqb_ℤ (pos status))) (sym listed)
          ∙ any-allowed_status env status r.result_code in
        rw (listed, same, validate_status)
          (accepted_iff status (any (λ c. is_code status (code_of net env c)) r.result_code)
            (λ empty. let none_listed = (allowed_status_empty env r.result_code).1 empty in cc))
  ]

  -- What the map of extracted variables holds for a key whose path is known.
  abbrev pub value_at : String → Option String → Option String
  value_at body none = none
  value_at body (some path) =
      if blank net path
      then none
      else elim (found_at net body path) [ none ↦ none | some v ↦ some (any_to_string v) ]

  lookup_new :
      (k key : String) (extracted : Map String) (b : Bool) (o : Option Value)
      → lookup key (
          if b
          then extracted
          else elim o [ none ↦ extracted | some v ↦ insert k (any_to_string v) extracted ])
        ≡ (if k == key
            then or_else
                (if b then none else elim o [ none ↦ none | some v ↦ some (any_to_string v) ])
                (lookup key extracted)
            else lookup key extracted)
  lookup_new k key extracted true o = ground arith
  lookup_new k key extracted false none = ground arith
  lookup_new k key extracted false (some v) =
      ground (arith, lookup-insert k key (any_to_string v) extracted)

  lookup-extract_all :
      (body key : String) (env_from extracted : Map String)
      → Distinct (keys env_from)
      → lookup key (extract_all net body env_from extracted)
        ≡ or_else (value_at body (lookup key env_from)) (lookup key extracted)
  unfolding lookup extract_all
  lookup-extract_all body key [] extracted d = refl
  lookup-extract_all body key ((k, path) ∷ env_from) extracted d =
      let new = if blank net path then extracted else elim (found_at net body path) [
        | none ↦ extracted
        | some v ↦ insert k (any_to_string v) extracted
      ] in
      lookup-extract_all body key env_from new d.1 ∙ elim (Bool-cases (k == key)) [
        | inl same ↦
            let later : lookup key env_from ≡ none =
              rw (← (eq_iff k key).0 same) (lookup-elem env_from k d.0) in
            rw (later, lookup_new k key extracted (blank net path) (found_at net body path), same)
        | inr other ↦
            rw (lookup_new k key extracted (blank net path) (found_at net body path), other)
      ]

  -- A path is blank, or the answer has a value at it.
  abbrev pub Present : String → String → Type 0
  Present body path = (blank net path ≡ true) ⊎ ((v : Value) × (found_at net body path ≡ some v))

  missing_step :
      {P : Type 0} (b : Bool) (o : Option Value) (rest : Option TaskError) (e : TaskError)
      → (rest ≡ none) ↔ P
      → ((if b then rest else elim o [ none ↦ some e | some v ↦ rest ]) ≡ none)
        ↔ (((b ≡ true) ⊎ ((v : Value) × (o ≡ some v))) × P)
  missing_step true o rest e f = (λ h. (inl refl, f.0 h), λ h. f.1 h.1)
  missing_step false none rest e f = (λ h. cc, λ h. elim h.0 [ inl x ↦ cc | inr (v, x) ↦ cc ])
  missing_step false (some v) rest e f = (λ h. (inr (v, refl), f.0 h), λ h. f.1 h.1)

  first_missing_iff :
      (body : String) (env_from : Map String)
      → (first_missing net body env_from ≡ none) ↔ All (λ e. Present body e.1) env_from
  unfolding first_missing
  first_missing_iff body [] = ground arith
  first_missing_iff body ((k, path) ∷ env_from) =
      missing_step (blank net path) (found_at net body path) (first_missing net body env_from)
        (missing_env k (trim_space path)) (first_missing_iff body env_from)

  fails_iff :
      {P : Type 0} (b : Bool) (missing : Option TaskError)
      → (missing ≡ none) ↔ P
      → ((if b then missing else none) ≡ none) ↔ ((b ≡ false) ⊎ P)
  fails_iff true missing f = (λ h. inr (f.0 h), λ h. elim h [ inl e ↦ cc | inr p ↦ f.1 p ])
  fails_iff false missing f = (λ h. inl refl, λ h. refl)

  -- From an answer that is not empty, ExtractEnv takes for each key of env_from (which are
  -- different) the value at its path as a text, and nothing for a key whose path is blank or not
  -- there; it fails exactly when the policy is "fail" and such a path is not there, and returns the
  -- other values also then.
  pub extract_env_lem :
      (r : ResponseSpec) (body : String)
      → (body == "") ≡ false
      → Distinct (keys r.env_from)
      → ((key : String)
          → lookup key (extract_env net r body).0 ≡ value_at body (lookup key r.env_from))
        × (((extract_env net r body).1 ≡ none)
            ↔ (((policy_of net r == "fail") ≡ false) ⊎ All (λ e. Present body e.1) r.env_from))
  unfolding extract_env lookup
  extract_env_lem r body filled d = elim (List-cases r.env_from) [
    | inl nothing ↦ rw (nothing, extract_env) (λ key. refl, (λ h. inr tt, λ h. refl))
    | inr (e, env_from, listed) ↦
        let both : extract_env net r body ≡ (
          extract_all net body r.env_from [],
          if policy_of net r == "fail" then first_missing net body r.env_from else none,
        ) =
          rw (listed, filled, extract_env) refl in
        rw both (
          λ key. lookup-extract_all body key r.env_from [] d ∙ or_else-none _,
          fails_iff (policy_of net r == "fail") _ (first_missing_iff body r.env_from),
        )
  ]
