-- ===== src/Validation/Valid.antt =====
-- Which migrations the validation accepts.
use apirun.Prelude.{
  ◌≡◌, ◌↔◌, refl, sym, ◌∙◌, subst, String, ◌||◌, Option, none, some, ◌==◌, Bool-cases, inl, inr,
}
use apirun.Validation.{
  Yaml, text, int, scalar, map, seq, Items, Fields, end, entry, Section, up, down, missing_up,
  up_not_map, ValidationResult, add_error,
}
use apirun.Validation.Structure.{
  get, check_name, check_env, check_request, check_response, validate_section, check_down,
  check_root_keys, validate_migration_structure,
}
use apirun.Validation.Rules.{
  Clean, MapOrAbsent, RequestOk, SectionFields, UpOk, DownOk, snoc-ne-nil, dirty, clean,
}
use apirun.Validation.Checks.{
  check_name-Clean, check_env-Clean, check_find-Clean, check_response-Clean,
}
use apirun.Validation.Requests.{check_request-Clean}

module _ (to_upper : String → String) (s : Section) where
  validate_section-Clean :
      (fields : Fields) (r : ValidationResult)
      → Clean (validate_section to_upper s fields r) ↔ (Clean r × SectionFields fields)
  unfolding validate_section
  validate_section-Clean fields r =
      let r₁ = check_name s (get "name" fields) r in
      let r₂ = check_env s (get "env" fields) r₁ in
      let r₃ = check_request to_upper s (get "request" fields) r₂ in
      let r₄ = check_response s (get "response" fields) r₃ in
      (
        λ c.
            let (c₄, f) = (check_find-Clean s (get "find" fields) r₄).0 c in
            let (c₃, p) = (check_response-Clean s (get "response" fields) r₃).0 c₄ in
            let (c₂, q) = (check_request-Clean to_upper s (get "request" fields) r₂).0 c₃ in
            let (c₁, e) = (check_env-Clean s (get "env" fields) r₁).0 c₂ in
            let (c₀, n) = (check_name-Clean s (get "name" fields) r).0 c₁ in (c₀, (n, e, q, p, f)),
        λ c.
            let c₁ = (check_name-Clean s (get "name" fields) r).1 (c.0, c.1.0) in
            let c₂ = (check_env-Clean s (get "env" fields) r₁).1 (c₁, c.1.1) in
            let c₃ = (check_request-Clean to_upper s (get "request" fields) r₂).1 (c₂, c.1.2) in
            let c₄ = (check_response-Clean s (get "response" fields) r₃).1 (c₃, c.1.3) in
            (check_find-Clean s (get "find" fields) r₄).1 (c₄, c.1.4),
      )

module _ (to_upper : String → String) where
  check_down-Clean :
      (o : Option Yaml) (r : ValidationResult)
      → Clean (check_down to_upper o r) ↔ (Clean r × DownOk o)
  unfolding check_down
  check_down-Clean none r = clean r tt
  check_down-Clean (some (map f)) r = validate_section-Clean to_upper down f r
  check_down-Clean (some (text v)) r = dirty _ r (λ x. x)
  check_down-Clean (some (int v)) r = dirty _ r (λ x. x)
  check_down-Clean (some (scalar v)) r = dirty _ r (λ x. x)
  check_down-Clean (some (seq v)) r = dirty _ r (λ x. x)

  root_keys_errors :
      (fields : Fields) (r : ValidationResult) → (check_root_keys fields r).errors ≡ r.errors
  unfolding check_root_keys
  root_keys_errors end r = refl
  root_keys_errors (entry key v fields) r = elim (Bool-cases (key == "up" || key == "down")) [
    | inl known ↦ rw (known, check_root_keys) (root_keys_errors fields r)
    | inr unknown ↦ rw (unknown, check_root_keys) (root_keys_errors fields _)
  ]

  -- From a result without errors, the check of a migration finds none exactly when its section `up`
  -- is a map with a text name that is not blank, an `env` and a `find` that are maps if they are
  -- there, a request, if there is one, with a text method, a text url that is not blank and headers
  -- that are a map if they are there, and a result_code, if the response has one, that is a text,
  -- an integer or a list of such; and its section `down`, if there is one, is such a map too.
  pub validate_migration_structure_iff :
      (migration : Fields) (r : ValidationResult)
      → Clean r
      → Clean (validate_migration_structure to_upper migration r)
        ↔ (UpOk (get "up" migration) × DownOk (get "down" migration))
  unfolding validate_migration_structure
  validate_migration_structure_iff migration r c = up_clean (get "up" migration)
    where
      up_clean :
          (o : Option Yaml)
          → Clean (elim o [
            | none ↦ add_error missing_up r
            | some (map fields) ↦
                check_root_keys migration (
                  check_down to_upper
                    (get "down" migration)
                    (validate_section to_upper up fields r))
            | some v ↦ add_error up_not_map r
          ])
            ↔ (UpOk o × DownOk (get "down" migration))
      up_clean none = (λ h. absurd (snoc-ne-nil r.errors missing_up h), λ h. absurd h.0)
      up_clean (some (map f)) =
          let r₁ = validate_section to_upper up f r in
          let r₂ = check_down to_upper (get "down" migration) r₁ in
          (
            λ h.
                let (c₁, d) =
                  (check_down-Clean (get "down" migration) r₁).0
                    (sym (root_keys_errors migration r₂) ∙ h) in
                (((validate_section-Clean to_upper up f r).0 c₁).1, d),
            λ h.
                root_keys_errors migration r₂
                ∙ (check_down-Clean (get "down" migration) r₁).1
                    ((validate_section-Clean to_upper up f r).1 (c, h.0), h.1),
          )
      up_clean (some (text v)) = (λ h. absurd (snoc-ne-nil r.errors up_not_map h), λ h. absurd h.0)
      up_clean (some (int v)) = (λ h. absurd (snoc-ne-nil r.errors up_not_map h), λ h. absurd h.0)
      up_clean (some (scalar v)) =
          (λ h. absurd (snoc-ne-nil r.errors up_not_map h), λ h. absurd h.0)
      up_clean (some (seq v)) = (λ h. absurd (snoc-ne-nil r.errors up_not_map h), λ h. absurd h.0)

  -- From a result without errors, a migration whose section `up` has a request with headers as a
  -- list, as a run reads them, is found wrong.
  pub validate_migration_structure-headers :
      (migration section request : Fields) (items : Items) (r : ValidationResult)
      → Clean r
      → get "up" migration ≡ some (map section)
      → get "request" section ≡ some (map request)
      → get "headers" request ≡ some (seq items)
      → ¬ Clean (validate_migration_structure to_upper migration r)
  validate_migration_structure-headers migration section request items r c u q h found =
      let ok_up = ((validate_migration_structure_iff migration r c).0 found).0 in
      let ok_section : UpOk (some (map section)) = subst UpOk u ok_up in
      let ok_request : RequestOk (some (map request)) = subst RequestOk q ok_section.2 in
      subst MapOrAbsent h ok_request.2
