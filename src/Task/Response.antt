-- ===== src/Task/Response.antt =====
-- response.go, and anyToString of utils.go.
use apirun.Prelude.{
  ℕ, String, Bool, false, Option, none, some, List, [], ◌∷◌, Map, insert, ◌==◌, any, ℤ, pos, negsuc,
  eqb, if◌then◌else◌, contains, trim_space, replace_all, atoi, decimal_ℤ,
}
use apirun.Env.{Env}
use apirun.Env.Render.{render_go_template}
use apirun.Task.{
  ResponseSpec, Value, text, whole, fraction, boolean, null, compound, TaskError,
  status_not_allowed, missing_env, Net,
}

abbrev pub eqb_ℤ : ℤ → ℤ → Bool
eqb_ℤ (pos a) (pos b) = eqb a b
eqb_ℤ (negsuc a) (negsuc b) = eqb a b
eqb_ℤ (pos a) (negsuc b) = false
eqb_ℤ (negsuc a) (pos b) = false

-- anyToString, where a JSON text of a map or a list never starts with a quote
unfoldable pub any_to_string : Value → String
any_to_string (text s) = s
any_to_string (whole n) = decimal_ℤ n
any_to_string (fraction s) = s
any_to_string (boolean b) = if b then "true" else "false"
any_to_string null = ""
any_to_string (compound json) = trim_space json

module _ (net : Net) where
  -- What an entry of result_code stands for.
  unfoldable pub code_of : Env → String → Option ℤ
  code_of env c =
      let tpl = if contains c "${{" then replace_all "${{" "{{" c else c in
      let rendered = trim_space (render_go_template net.engine env tpl) in
      if rendered == "" then none else atoi rendered

  -- AllowedStatus, as a list of codes
  unfoldable pub allowed_status : Env → List String → List ℤ
  allowed_status env [] = []
  allowed_status env (c ∷ codes) =
      let rest = allowed_status env codes in
      elim (code_of env c) [ none ↦ rest | some n ↦ n ∷ rest ]

  -- ValidateStatus
  unfoldable pub validate_status : ResponseSpec → ℕ → Env → Option TaskError
  validate_status r status env = elim (allowed_status env r.result_code) [
    | [] ↦ none
    | n ∷ allowed ↦
        if any (eqb_ℤ (pos status)) (n ∷ allowed) then none else some (status_not_allowed status)
  ]

  -- The value at a path; a blank path is left out.
  abbrev pub found_at : String → String → Option Value
  found_at body path = net.get body (trim_space path)

  abbrev pub blank : String → Bool
  blank path = trim_space path == ""

  -- The first pass of ExtractEnv.
  unfoldable pub extract_all : String → Map String → Map String → Map String
  extract_all body [] extracted = extracted
  extract_all body ((key, path) ∷ env_from) extracted = extract_all body env_from (
      if blank path then extracted else elim (found_at body path) [
        | none ↦ extracted
        | some v ↦ insert key (any_to_string v) extracted
      ])

  -- The second pass.
  unfoldable pub first_missing : String → Map String → Option TaskError
  first_missing body [] = none
  first_missing body ((key, path) ∷ env_from) =
      let rest = first_missing body env_from in
      if blank path then rest else elim (found_at body path) [
        | none ↦ some (missing_env key (trim_space path))
        | some v ↦ rest
      ]

  abbrev pub policy_of : ResponseSpec → String
  policy_of r =
      let policy = net.to_lower (trim_space r.env_missing) in
      if policy == "" then "skip" else policy

  -- ExtractEnv
  unfoldable pub extract_env : ResponseSpec → String → Map String × Option TaskError
  extract_env r body = elim r.env_from [
    | [] ↦ ([], none)
    | e ∷ env_from ↦ if body == "" then ([], none) else (
      extract_all body (e ∷ env_from) [],
      if policy_of r == "fail" then first_missing body (e ∷ env_from) else none,
    )
  ]
