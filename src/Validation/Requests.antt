-- ===== src/Validation/Requests.antt =====
-- When the checks on a request add no error.
use apirun.Prelude.{
  ◌↔◌, refl, String, true, false, Option, none, some, [], ◌∷◌, ◌==◌, elem, trim_space,
  if◌then◌else◌, Bool-cases, inl, inr,
}
use apirun.Validation.{
  Yaml, text, int, scalar, map, seq, Fields, Section, missing_field, ValidationResult, add_error,
}
use apirun.Validation.Structure.{
  get, require, check_method, check_url, check_headers, check_body, validate_request_section,
  check_request,
}
use apirun.Validation.Rules.{Clean, FilledText, AnyText, RequestFields, RequestOk, dirty, clean}
use apirun.Validation.Checks.{check_headers-Clean}

abbrev Present : Option Yaml → Type 0
Present none = ⊥
Present (some v) = Unit

abbrev TextOrAbsent : Option Yaml → Type 0
TextOrAbsent none = Unit
TextOrAbsent o = AnyText o

abbrev FilledOrAbsent : Option Yaml → Type 0
FilledOrAbsent none = Unit
FilledOrAbsent o = FilledText o

has_text : (o : Option Yaml) → (Present o × TextOrAbsent o) ↔ AnyText o
has_text none = (λ h. h.0, λ h. (h, tt))
has_text (some (text v)) = (λ h. h.1, λ h. (tt, h))
has_text (some (int v)) = (λ h. h.1, λ h. (tt, h))
has_text (some (scalar v)) = (λ h. h.1, λ h. (tt, h))
has_text (some (map v)) = (λ h. h.1, λ h. (tt, h))
has_text (some (seq v)) = (λ h. h.1, λ h. (tt, h))

has_filled : (o : Option Yaml) → (Present o × FilledOrAbsent o) ↔ FilledText o
has_filled none = (λ h. h.0, λ h. (h, tt))
has_filled (some (text v)) = (λ h. h.1, λ h. (tt, h))
has_filled (some (int v)) = (λ h. h.1, λ h. (tt, h))
has_filled (some (scalar v)) = (λ h. h.1, λ h. (tt, h))
has_filled (some (map v)) = (λ h. h.1, λ h. (tt, h))
has_filled (some (seq v)) = (λ h. h.1, λ h. (tt, h))

require-Clean :
    (s : Section) (field : String) (fields : Fields) (r : ValidationResult)
    → Clean (require s field fields r) ↔ (Clean r × Present (get field fields))
unfolding require
require-Clean s field fields r = by_presence (get field fields)
  where
    by_presence :
        (o : Option Yaml)
        → Clean (
            if elim o [ none ↦ false | some v ↦ true ]
            then r
            else add_error (missing_field s field) r)
          ↔ (Clean r × Present o)
    by_presence none = dirty _ r (λ x. x)
    by_presence (some v) = clean r tt

module _ (to_upper : String → String) (s : Section) where
  check_method-Clean :
      (o : Option Yaml) (r : ValidationResult)
      → Clean (check_method to_upper s o r) ↔ (Clean r × TextOrAbsent o)
  unfolding check_method
  check_method-Clean none r = clean r tt
  check_method-Clean (some (text m)) r =
      elim (Bool-cases (
        elem (to_upper m)
          ("GET" ∷ "POST" ∷ "PUT" ∷ "DELETE" ∷ "PATCH" ∷ "HEAD" ∷ "OPTIONS" ∷ []))) [
            | inl usual ↦ rw (usual, check_method) (clean r tt)
            | inr unusual ↦ rw (unusual, check_method) (clean r tt)
          ]
  check_method-Clean (some (int v)) r = dirty _ r (λ x. x)
  check_method-Clean (some (scalar v)) r = dirty _ r (λ x. x)
  check_method-Clean (some (map v)) r = dirty _ r (λ x. x)
  check_method-Clean (some (seq v)) r = dirty _ r (λ x. x)

  check_url-Clean :
      (o : Option Yaml) (r : ValidationResult)
      → Clean (check_url s o r) ↔ (Clean r × FilledOrAbsent o)
  unfolding check_url
  check_url-Clean none r = clean r tt
  check_url-Clean (some (text url)) r = elim (Bool-cases (trim_space url == "")) [
    | inl blank ↦ rw (blank, check_url) (dirty _ r (λ x. cc))
    | inr filled ↦ rw (filled, check_url) (clean r refl)
  ]
  check_url-Clean (some (int v)) r = dirty _ r (λ x. x)
  check_url-Clean (some (scalar v)) r = dirty _ r (λ x. x)
  check_url-Clean (some (map v)) r = dirty _ r (λ x. x)
  check_url-Clean (some (seq v)) r = dirty _ r (λ x. x)

  check_body-Clean : (o : Option Yaml) (r : ValidationResult) → Clean (check_body s o r) ↔ Clean r
  unfolding check_body
  check_body-Clean none r = (λ h. h, λ h. h)
  check_body-Clean (some (text v)) r = (λ h. h, λ h. h)
  check_body-Clean (some (int v)) r = (λ h. h, λ h. h)
  check_body-Clean (some (scalar v)) r = (λ h. h, λ h. h)
  check_body-Clean (some (map v)) r = (λ h. h, λ h. h)
  check_body-Clean (some (seq v)) r = (λ h. h, λ h. h)

  validate_request_section-Clean :
      (request : Fields) (r : ValidationResult)
      → Clean (validate_request_section to_upper s request r) ↔ (Clean r × RequestFields request)
  unfolding validate_request_section
  validate_request_section-Clean request r =
      let m = get "method" request in
      let u = get "url" request in
      let h = get "headers" request in
      let r₁ = require s "method" request r in
      let r₂ = require s "url" request r₁ in
      let r₃ = check_method to_upper s m r₂ in
      let r₄ = check_url s u r₃ in
      (
        λ c.
            let (c₄, hs) =
              (check_headers-Clean s h r₄).0
                ((check_body-Clean (get "body" request) (check_headers s h r₄)).0 c) in
            let (c₃, us) = (check_url-Clean u r₃).0 c₄ in
            let (c₂, ms) = (check_method-Clean m r₂).0 c₃ in
            let (c₁, up_) = (require-Clean s "url" request r₁).0 c₂ in
            let (c₀, mp) = (require-Clean s "method" request r).0 c₁ in
            (c₀, ((has_text m).0 (mp, ms), (has_filled u).0 (up_, us), hs)),
        λ c.
            let (mp, ms) = (has_text m).1 c.1.0 in
            let (up_, us) = (has_filled u).1 c.1.1 in
            let c₁ = (require-Clean s "method" request r).1 (c.0, mp) in
            let c₂ = (require-Clean s "url" request r₁).1 (c₁, up_) in
            let c₃ = (check_method-Clean m r₂).1 (c₂, ms) in
            let c₄ = (check_url-Clean u r₃).1 (c₃, us) in
            (check_body-Clean (get "body" request) (check_headers s h r₄)).1
              ((check_headers-Clean s h r₄).1 (c₄, c.1.2)),
      )

  pub check_request-Clean :
      (o : Option Yaml) (r : ValidationResult)
      → Clean (check_request to_upper s o r) ↔ (Clean r × RequestOk o)
  unfolding check_request
  check_request-Clean none r = clean r tt
  check_request-Clean (some (map f)) r = validate_request_section-Clean f r
  check_request-Clean (some (text v)) r = dirty _ r (λ x. x)
  check_request-Clean (some (int v)) r = dirty _ r (λ x. x)
  check_request-Clean (some (scalar v)) r = dirty _ r (λ x. x)
  check_request-Clean (some (seq v)) r = dirty _ r (λ x. x)
