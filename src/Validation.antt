-- ===== src/Validation.antt =====
-- cmd/apirun/validation: the check of migration files. A decoded YAML document is a value; a message
-- is a constructor with what it mentions. Reading, decoding and finding the files, and the case
-- mapping of texts, are parameters.
pub mod Structure
pub mod Files
pub mod Rules
pub mod Checks
pub mod Requests
pub mod Valid
pub mod Counts
use apirun.Prelude.{ℕ, String, Bool, List, [], snoc}

mutual
  pub data Yaml : Type 0 where
    text : String → Yaml
    int : String → Yaml
    -- a boolean, a float, a time or null
    scalar : String → Yaml
    map : Fields → Yaml
    seq : Items → Yaml

  pub data Items : Type 0 where
    nil : Items
    cons : Yaml → Items → Items

  pub data Fields : Type 0 where
    end : Fields
    entry : String → Yaml → Fields → Fields

-- The sections that a message names.
pub data Section : Type 0 where
  up down : Section

pub data Issue : Type 0 where
  -- errors
  read_failed invalid_yaml : String → Issue
  missing_up up_not_map down_not_map : Issue
  missing_name name_not_text name_empty env_not_map : Section → Issue
  request_not_map response_not_map find_not_map : Section → Issue
  missing_field : Section → String → Issue
  method_not_text url_not_text url_empty headers_not_map : Section → Issue
  code_invalid : Section → ℕ → Issue
  codes_invalid : Section → Issue
  -- warnings
  no_down no_response no_find_method : Issue
  unexpected_key : String → Issue
  unusual_method : Section → String → Issue
  body_not_text_or_map : Section → Issue

pub record ValidationResult : Type 0 where
  pub file : String
  pub errors : List Issue
  pub warnings : List Issue
  pub valid : Bool

-- result.Errors = append(result.Errors, …) and the like
abbrev pub add_error : Issue → ValidationResult → ValidationResult
add_error e r = record r { errors = snoc r.errors e }

abbrev pub add_warning : Issue → ValidationResult → ValidationResult
add_warning w r = record r { warnings = snoc r.warnings w }
