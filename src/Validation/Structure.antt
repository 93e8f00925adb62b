-- ===== src/Validation/Structure.antt =====
-- structure.go
use apirun.Prelude.{
  ℕ, suc, String, Bool, true, false, ◌||◌, Option, none, some, [], ◌∷◌, ◌==◌, elem, trim_space,
  if◌then◌else◌,
}
use apirun.Validation.{
  Yaml, text, int, scalar, map, seq, Items, nil, cons, Fields, end, entry, Section, up, down,
  missing_up, up_not_map, down_not_map, missing_name, name_not_text, name_empty, env_not_map,
  request_not_map, response_not_map, find_not_map, missing_field, method_not_text, url_not_text,
  url_empty, headers_not_map, code_invalid, codes_invalid, no_down, no_response, no_find_method,
  unexpected_key, unusual_method, body_not_text_or_map, ValidationResult, add_error, add_warning,
}

-- v, exists := fields[key]
unfoldable pub get : String → Fields → Option Yaml
get key end = none
get key (entry k v fields) = if k == key then some v else get key fields

abbrev pub has : String → Fields → Bool
has key fields = elim (get key fields) [ none ↦ false | some v ↦ true ]

-- A step of the validation.
abbrev pub Check : Type 0
Check = ValidationResult → ValidationResult

unfoldable pub check_name : Section → Option Yaml → Check
check_name s none r = add_error (missing_name s) r
check_name s (some (text name)) r = if trim_space name == "" then add_error (name_empty s) r else r
check_name s (some v) r = add_error (name_not_text s) r

unfoldable pub check_env : Section → Option Yaml → Check
check_env s none r = r
check_env s (some (map fields)) r = r
check_env s (some v) r = add_error (env_not_map s) r

unfoldable pub require : Section → String → Fields → Check
require s field fields r = if has field fields then r else add_error (missing_field s field) r

unfoldable pub check_method : (String → String) → Section → Option Yaml → Check
check_method to_upper s none r = r
check_method to_upper s (some (text m)) r =
    if elem (to_upper m) ("GET" ∷ "POST" ∷ "PUT" ∷ "DELETE" ∷ "PATCH" ∷ "HEAD" ∷ "OPTIONS" ∷ [])
    then r
    else add_warning (unusual_method s m) r
check_method to_upper s (some v) r = add_error (method_not_text s) r

unfoldable pub check_url : Section → Option Yaml → Check
check_url s none r = r
check_url s (some (text url)) r = if trim_space url == "" then add_error (url_empty s) r else r
check_url s (some v) r = add_error (url_not_text s) r

unfoldable pub check_headers : Section → Option Yaml → Check
check_headers s none r = r
check_headers s (some (map fields)) r = r
check_headers s (some v) r = add_error (headers_not_map s) r

unfoldable pub check_body : Section → Option Yaml → Check
check_body s none r = r
check_body s (some (text body)) r = r
check_body s (some (map fields)) r = r
check_body s (some v) r = add_warning (body_not_text_or_map s) r

-- validateRequestSection
unfoldable pub validate_request_section : (String → String) → Section → Fields → Check
validate_request_section to_upper s request r = check_body s (get "body" request) (
    check_headers s (get "headers" request) (
      check_url s (get "url" request) (
        check_method to_upper s (get "method" request)
          (require s "url" request (require s "method" request r)))))

-- The entries of a list of result codes, from an index.
unfoldable pub check_codes : Section → ℕ → Items → Check
check_codes s i nil r = r
check_codes s i (cons (text c) codes) r = check_codes s (suc i) codes r
check_codes s i (cons (int c) codes) r = check_codes s (suc i) codes r
check_codes s i (cons (scalar c) codes) r =
    check_codes s (suc i) codes (add_error (code_invalid s i) r)
check_codes s i (cons (map c) codes) r =
    check_codes s (suc i) codes (add_error (code_invalid s i) r)
check_codes s i (cons (seq c) codes) r =
    check_codes s (suc i) codes (add_error (code_invalid s i) r)

unfoldable pub check_result_code : Section → Option Yaml → Check
check_result_code s none r = r
check_result_code s (some (seq codes)) r = check_codes s 0 codes r
check_result_code s (some (text c)) r = r
check_result_code s (some (int c)) r = r
check_result_code s (some v) r = add_error (codes_invalid s) r

-- validateResponseSection
unfoldable pub validate_response_section : Section → Fields → Check
validate_response_section s response r = check_result_code s (get "result_code" response) r

-- validateFindSection
unfoldable pub validate_find_section : Fields → Check
validate_find_section find r =
    if has "json_path" find || has "regex" find || has "xpath" find || has "header" find
    then r
    else add_warning no_find_method r

unfoldable pub check_request : (String → String) → Section → Option Yaml → Check
check_request to_upper s none r = r
check_request to_upper s (some (map request)) r = validate_request_section to_upper s request r
check_request to_upper s (some v) r = add_error (request_not_map s) r

-- In the section `down` a missing response is no matter.
unfoldable pub check_response : Section → Option Yaml → Check
check_response up none r = add_warning no_response r
check_response down none r = r
check_response s (some (map response)) r = validate_response_section s response r
check_response s (some v) r = add_error (response_not_map s) r

unfoldable pub check_find : Section → Option Yaml → Check
check_find s none r = r
check_find s (some (map find)) r = validate_find_section find r
check_find s (some v) r = add_error (find_not_map s) r

-- validateUpSection and validateDownSection
unfoldable pub validate_section : (String → String) → Section → Fields → Check
validate_section to_upper s fields r = check_find s (get "find" fields) (
    check_response s (get "response" fields) (
      check_request to_upper s (get "request" fields)
        (check_env s (get "env" fields) (check_name s (get "name" fields) r))))

unfoldable pub check_down : (String → String) → Option Yaml → Check
check_down to_upper none r = add_warning no_down r
check_down to_upper (some (map fields)) r = validate_section to_upper down fields r
check_down to_upper (some v) r = add_error down_not_map r

unfoldable pub check_root_keys : Fields → Check
check_root_keys end r = r
check_root_keys (entry key v fields) r =
    check_root_keys fields
      (if key == "up" || key == "down" then r else add_warning (unexpected_key key) r)

-- validateMigrationStructure
unfoldable pub validate_migration_structure : (String → String) → Fields → Check
validate_migration_structure to_upper migration r = elim (get "up" migration) [
  | none ↦ add_error missing_up r
  | some (map fields) ↦
      check_root_keys migration
        (check_down to_upper (get "down" migration) (validate_section to_upper up fields r))
  | some v ↦ add_error up_not_map r
]
