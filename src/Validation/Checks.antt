-- ===== src/Validation/Checks.antt =====
-- When the checks on single fields of a section add no error.
use apirun.Prelude.{
  ℕ, suc, ◌≡◌, ◌↔◌, refl, String, Option, none, some, ◌==◌, trim_space, arith, Bool-cases, inl, inr,
}
use apirun.Validation.{
  Yaml, text, int, scalar, map, seq, Items, nil, cons, Fields, Section, up, down, Issue,
  code_invalid, env_not_map, headers_not_map, ValidationResult, add_error,
}
use apirun.Validation.Structure.{
  get, Check, check_name, check_env, check_headers, check_codes, check_result_code,
  validate_response_section, validate_find_section, check_response, check_find,
}
use apirun.Validation.Rules.{
  Clean, MapOrAbsent, FilledText, Codes, ResultCode, ResponseOk, snoc-ne-nil, dirty, clean,
}

pub check_name-Clean :
    (s : Section) (o : Option Yaml) (r : ValidationResult)
    → Clean (check_name s o r) ↔ (Clean r × FilledText o)
unfolding check_name
check_name-Clean s none r = dirty _ r (λ x. x)
check_name-Clean s (some (text name)) r = elim (Bool-cases (trim_space name == "")) [
  | inl blank ↦ rw (blank, check_name) (dirty _ r (λ x. cc))
  | inr filled ↦ rw (filled, check_name) (clean r refl)
]
check_name-Clean s (some (int v)) r = dirty _ r (λ x. x)
check_name-Clean s (some (scalar v)) r = dirty _ r (λ x. x)
check_name-Clean s (some (map v)) r = dirty _ r (λ x. x)
check_name-Clean s (some (seq v)) r = dirty _ r (λ x. x)

MapOrAbsent-Clean :
    (check : Option Yaml → Check) (e : Issue)
    → ((r : ValidationResult) → check none r ≡ r)
    → ((fields : Fields) (r : ValidationResult) → check (some (map fields)) r ≡ r)
    → ((v : String) (r : ValidationResult) → check (some (text v)) r ≡ add_error e r)
    → ((v : String) (r : ValidationResult) → check (some (int v)) r ≡ add_error e r)
    → ((v : String) (r : ValidationResult) → check (some (scalar v)) r ≡ add_error e r)
    → ((v : Items) (r : ValidationResult) → check (some (seq v)) r ≡ add_error e r)
    → (o : Option Yaml) (r : ValidationResult) → Clean (check o r) ↔ (Clean r × MapOrAbsent o)
MapOrAbsent-Clean check e a b c d f g none r = rw (a r) (clean r tt)
MapOrAbsent-Clean check e a b c d f g (some (map v)) r = rw (b v r) (clean r tt)
MapOrAbsent-Clean check e a b c d f g (some (text v)) r = rw (c v r) (dirty e r (λ x. x))
MapOrAbsent-Clean check e a b c d f g (some (int v)) r = rw (d v r) (dirty e r (λ x. x))
MapOrAbsent-Clean check e a b c d f g (some (scalar v)) r = rw (f v r) (dirty e r (λ x. x))
MapOrAbsent-Clean check e a b c d f g (some (seq v)) r = rw (g v r) (dirty e r (λ x. x))

pub check_env-Clean :
    (s : Section) (o : Option Yaml) (r : ValidationResult)
    → Clean (check_env s o r) ↔ (Clean r × MapOrAbsent o)
unfolding check_env
check_env-Clean s =
    MapOrAbsent-Clean (check_env s) (env_not_map s) (λ r. refl) (λ f r. refl) (λ v r. refl)
      (λ v r. refl) (λ v r. refl) (λ v r. refl)

pub check_headers-Clean :
    (s : Section) (o : Option Yaml) (r : ValidationResult)
    → Clean (check_headers s o r) ↔ (Clean r × MapOrAbsent o)
unfolding check_headers
check_headers-Clean s =
    MapOrAbsent-Clean (check_headers s) (headers_not_map s) (λ r. refl) (λ f r. refl) (λ v r. refl)
      (λ v r. refl) (λ v r. refl) (λ v r. refl)

-- A warning is no error.
find_section_errors :
    (find : Fields) (r : ValidationResult) → (validate_find_section find r).errors ≡ r.errors
unfolding validate_find_section
find_section_errors find r = ground arith

pub check_find-Clean :
    (s : Section) (o : Option Yaml) (r : ValidationResult)
    → Clean (check_find s o r) ↔ (Clean r × MapOrAbsent o)
unfolding check_find
check_find-Clean s none r = clean r tt
check_find-Clean s (some (map f)) r = rw (find_section_errors f r) (clean r tt)
check_find-Clean s (some (text v)) r = dirty _ r (λ x. x)
check_find-Clean s (some (int v)) r = dirty _ r (λ x. x)
check_find-Clean s (some (scalar v)) r = dirty _ r (λ x. x)
check_find-Clean s (some (seq v)) r = dirty _ r (λ x. x)

check_codes-dirty :
    (s : Section) (i : ℕ) (codes : Items) (r : ValidationResult)
    → ((r : ValidationResult) → Clean (check_codes s (suc i) codes r) ↔ (Clean r × Codes codes))
    → Clean (check_codes s (suc i) codes (add_error (code_invalid s i) r)) ↔ (Clean r × ⊥)
check_codes-dirty s i codes r rest = (
  λ h.
      absurd
        (snoc-ne-nil r.errors (code_invalid s i) ((rest (add_error (code_invalid s i) r)).0 h).0),
  λ h. absurd h.1,
)

check_codes-Clean :
    (s : Section) (i : ℕ) (codes : Items) (r : ValidationResult)
    → Clean (check_codes s i codes r) ↔ (Clean r × Codes codes)
unfolding check_codes
check_codes-Clean s i nil r = clean r tt
check_codes-Clean s i (cons (text c) codes) r = check_codes-Clean s (suc i) codes r
check_codes-Clean s i (cons (int c) codes) r = check_codes-Clean s (suc i) codes r
check_codes-Clean s i (cons (scalar c) codes) r =
    check_codes-dirty s i codes r (check_codes-Clean s (suc i) codes)
check_codes-Clean s i (cons (map c) codes) r =
    check_codes-dirty s i codes r (check_codes-Clean s (suc i) codes)
check_codes-Clean s i (cons (seq c) codes) r =
    check_codes-dirty s i codes r (check_codes-Clean s (suc i) codes)

check_result_code-Clean :
    (s : Section) (o : Option Yaml) (r : ValidationResult)
    → Clean (check_result_code s o r) ↔ (Clean r × ResultCode o)
unfolding check_result_code
check_result_code-Clean s none r = clean r tt
check_result_code-Clean s (some (seq codes)) r = check_codes-Clean s 0 codes r
check_result_code-Clean s (some (text c)) r = clean r tt
check_result_code-Clean s (some (int c)) r = clean r tt
check_result_code-Clean s (some (scalar v)) r = dirty _ r (λ x. x)
check_result_code-Clean s (some (map v)) r = dirty _ r (λ x. x)

pub check_response-Clean :
    (s : Section) (o : Option Yaml) (r : ValidationResult)
    → Clean (check_response s o r) ↔ (Clean r × ResponseOk o)
unfolding check_response validate_response_section
check_response-Clean up none r = clean r tt
check_response-Clean down none r = clean r tt
check_response-Clean up (some (map f)) r = check_result_code-Clean up (get "result_code" f) r
check_response-Clean down (some (map f)) r = check_result_code-Clean down (get "result_code" f) r
check_response-Clean up (some (text v)) r = dirty _ r (λ x. x)
check_response-Clean up (some (int v)) r = dirty _ r (λ x. x)
check_response-Clean up (some (scalar v)) r = dirty _ r (λ x. x)
check_response-Clean up (some (seq v)) r = dirty _ r (λ x. x)
check_response-Clean down (some (text v)) r = dirty _ r (λ x. x)
check_response-Clean down (some (int v)) r = dirty _ r (λ x. x)
check_response-Clean down (some (scalar v)) r = dirty _ r (λ x. x)
check_response-Clean down (some (seq v)) r = dirty _ r (λ x. x)
