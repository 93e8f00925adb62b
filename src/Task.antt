-- ===== src/Task.antt =====
-- internal/task: the requests that a migration sends, and what it reads of the answers. Sending a
-- request (resty, with its own retries), reading a file, parsing JSON (gjson) and the case mappings
-- of texts are parameters.
pub mod Request
pub mod Response
pub mod Execute
pub mod Extracted
pub mod Sent
pub mod Rendering
pub mod Merged
pub mod SentDown
use apirun.Prelude.{ℕ, String, Bool, Option, List, Map, Result, ℤ}
use apirun.Env.{Env}
use apirun.Env.Render.{Engine}
use apirun.Security.{TemplateError}

pub record Header : Type 0 where
  pub name : String
  pub value : String

pub record Query : Type 0 where
  pub name : String
  pub value : String

pub record RequestSpec : Type 0 where
  pub auth_name : String
  pub method : String
  pub url : String
  pub headers : List Header
  pub queries : List Query
  pub body : String
  pub body_file : String
  pub render_body : Option Bool

pub record ResponseSpec : Type 0 where
  pub result_code : List String
  pub env_from : Map String
  pub env_missing : String

pub record Up : Type 0 where
  pub name : String
  pub env : Env
  pub request : RequestSpec
  pub response : ResponseSpec

pub record FindSpec : Type 0 where
  pub request : RequestSpec
  pub response : ResponseSpec

pub record Down : Type 0 where
  pub name : String
  pub env : Env
  pub method : String
  pub url : String
  pub headers : List Header
  pub queries : List Query
  pub body : String
  pub find : Option FindSpec

-- A value that gjson returns; a number is whole, or is shown by %v, and a map or a list is shown as
-- JSON.
pub data Value : Type 0 where
  text : String → Value
  whole : ℤ → Value
  fraction : String → Value
  boolean : Bool → Value
  null : Value
  compound : String → Value

-- A request, with the names of its headers as they are written. A blank body is not sent.
pub data Body : Type 0 where
  no_body : Body
  json_body plain_body : String → Body

pub record HttpRequest : Type 0 where
  pub method : String
  pub url : String
  pub headers : Map String
  pub queries : Map String
  pub body : Body

pub record HttpResponse : Type 0 where
  pub status_code : ℕ
  pub body : String

pub data TaskError : Type 0 where
  template_failed : TemplateError → TaskError
  file_failed : String → TaskError
  unsupported_method transport : String → TaskError
  no_method_or_url find_without_method_or_url : TaskError
  status_not_allowed status_failed : ℕ → TaskError
  missing_env : String → String → TaskError

-- What the outside answers: the answer to a request may depend on the requests sent so far.
pub record Net : Type 0 where
  pub engine : Engine
  pub read_file : String → Result String String
  pub clean : String → String
  pub to_upper : String → String
  pub to_lower : String → String
  pub valid_json : String → Bool
  -- gjson.Get of a path, when it exists
  pub get : String → String → Option Value
  pub send : List HttpRequest → HttpRequest → Result String HttpResponse
