-- ===== src/Tests/Tasks.antt =====
-- Tasks at small inputs.
use apirun.Prelude.{
  ◌≡◌, refl, String, true, false, none, some, [], ◌∷◌, ok, err, lookup, ◌↔◌, ◌⊎◌, All, elem, ◌==◌,
  if◌then◌else◌, has_prefix, contains, trim_left, trim_right, any, insert, atoi, count_chars,
  decimal_before, digits_from, parse_digits, replace_behind, has_suffix,
}
use apirun.Env.{new_env}
use apirun.Env.Render.{Engine}
use apirun.Security.{nil, validate_template, check_forbidden_patterns, validate_nodes}
use apirun.Env.{copy_strings, merged, set_string, lookup_var}
use apirun.Env.Render.{render_go_template, render_go_template_err}
use apirun.Task.Request.{
  add_headers, add_queries, render_body, body_source, render, is_json, build_request,
  exec_by_method,
}
use apirun.Task.Response.{
  any_to_string, code_of, allowed_status, validate_status, extract_all, first_missing,
}
use apirun.Task.Execute.{merge_extracted, up_answer, find_answer, run_find, down_call}
use apirun.Task.{RequestSpec, ResponseSpec, Up, Down, Net, text, no_body}
use apirun.Task.Response.{extract_env, policy_of}
use apirun.Task.Execute.{execute_up, execute_down}
use apirun.Task.Extracted.{value_at, Present, extract_env_lem}

abbrev engine : Engine
engine = record {
  validator = record {
    max_depth = 10;
    forbidden_patterns = [];
    match_string = λ p s. false;
    parse = λ s. ok (record { root = nil; defined = [] });
    to_lower = λ s. s;
  };
  execute = λ s vars auth. ok s;
  acquire = λ s. s;
}

-- Every request is answered with an identifier.
abbrev net : Net
net = record {
  engine = engine;
  read_file = λ path. err "no file";
  clean = λ path. path;
  to_upper = λ s. s;
  to_lower = λ s. s;
  valid_json = λ s. true;
  get = λ body path. if path == "id" then some (text "7") else none;
  send = λ sent req. ok (record { status_code = 201; body = "{\"id\":\"7\"}" });
}

abbrev request_of : String → String → RequestSpec
request_of method url = record {
  auth_name = "";
  method = method;
  url = url;
  headers = record { name = "Accept"; value = "application/json" } ∷ [];
  queries = [];
  body = "";
  body_file = "";
  render_body = none;
}

-- The status 201 is asked for, and the variable user_id.
abbrev response : ResponseSpec
response = record {
  result_code = "201" ∷ [];
  env_from = ("user_id", "id") ∷ ("missing", "name") ∷ [];
  env_missing = "skip";
}

abbrev up : Up
up = record {
  name = "create";
  env = new_env;
  request = request_of "POST" "/users";
  response = response;
}

abbrev down : Down
down = record {
  name = "delete";
  env = new_env;
  method = "DELETE";
  url = "/users/7";
  headers = [];
  queries = [];
  body = "";
  find = some (record { request = request_of "GET" "/users"; response = response });
}

abbrev body : String
body = "{\"id\":\"7\"}"

extract_env_lem_example :
    ((key : String)
      → lookup key (extract_env net response body).0
        ≡ value_at net body (lookup key response.env_from))
    × (((extract_env net response body).1 ≡ none) ↔ (
        ((policy_of net response == "fail") ≡ false)
        ⊎ All (λ e. Present net body e.1) response.env_from))
unfolding elem
extract_env_lem_example = extract_env_lem net response body refl (refl, (refl, tt))

program : Unit {0}
unfolding trim_left trim_right any insert atoi count_chars decimal_before digits_from parse_digits
    replace_behind has_suffix has_prefix contains validate_template check_forbidden_patterns
    validate_nodes copy_strings merged set_string render_go_template render_go_template_err
    add_headers add_queries render_body body_source render is_json build_request exec_by_method
    any_to_string code_of allowed_status validate_status extract_all first_missing extract_env
    merge_extracted up_answer find_answer run_find down_call execute_up execute_down lookup_var
    lookup elem
program = tt

-- The variable of the step `find` is set, and two requests are sent.
down_sent :
    (execute_down net down []).sent
    ≡ record {
      method = "GET";
      url = "/users";
      headers = ("Accept", "application/json") ∷ [];
      queries = [];
      body = no_body;
    }
      ∷ record { method = "DELETE"; url = "/users/7"; headers = []; queries = []; body = no_body }
      ∷ []
unfolding program
down_sent = refl

down_env : lookup_var (λ s. s) "user_id" (execute_down net down []).env ≡ some "7"
unfolding program
down_env = refl
