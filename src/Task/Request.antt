-- ===== src/Task/Request.antt =====
-- request.go, and the rendering and sending of utils.go.
use apirun.Prelude.{
  not, String, Bool, true, false, ◌&&◌, ◌||◌, Option, none, some, List, [], ◌∷◌, snoc, Map, insert,
  ◌==◌, Result, ok, err, ◌>>=◌, if◌then◌else◌, contains, has_prefix, has_suffix, trim_space,
}
use apirun.Env.{Env}
use apirun.Env.Render.{render_go_template, render_go_template_err}
use apirun.Security.{TemplateError}
use apirun.Task.{
  Header, Query, RequestSpec, no_body, json_body, plain_body, HttpRequest, HttpResponse, TaskError,
  template_failed, file_failed, unsupported_method, transport, Net,
}

-- The parts of a request that a specification renders to.
pub record Rendered : Type 0 where
  pub headers : Map String
  pub queries : Map String
  pub body : String

module _ (net : Net) where
  -- A text is a template when it has an opening brace pair.
  abbrev pub render_if_template : Env → String → String
  render_if_template e s = if contains s "{{" then render_go_template net.engine e s else s

  unfoldable pub add_headers : Env → List Header → Map String → Map String
  add_headers e [] hdrs = hdrs
  add_headers e (h ∷ hs) hdrs =
      add_headers e hs
        (if h.name == "" then hdrs else insert h.name (render_if_template e h.value) hdrs)

  -- renderHeaders
  abbrev pub render_headers : Env → List Header → Map String
  render_headers e hs = add_headers e hs []

  unfoldable pub add_queries : Env → List Query → Map String → Map String
  add_queries e [] m = m
  add_queries e (q ∷ qs) m =
      add_queries e qs (if q.name == "" then m else insert q.name (render_if_template e q.value) m)

  -- renderQueries
  abbrev pub render_queries : Env → List Query → Map String
  render_queries e qs = add_queries e qs []

  abbrev pub template_result : Result TemplateError String → Result TaskError String
  template_result (ok s) = ok s
  template_result (err e) = err (template_failed e)

  -- renderBody
  unfoldable pub render_body : Env → String → Result TaskError String
  render_body e b =
      if contains b "{{" then template_result (render_go_template_err net.engine e b) else ok b

  abbrev pub file_result : Result String String → Result TaskError String
  file_result (ok s) = ok s
  file_result (err e) = err (file_failed e)

  -- The text of the body, of its file if one is named.
  unfoldable pub body_source : RequestSpec → Env → Result TaskError String
  body_source r e =
      if trim_space r.body_file == ""
      then ok r.body
      else file_result (net.read_file (net.clean (render_go_template net.engine e r.body_file)))

  -- Unless it is set to false.
  abbrev pub renders : Option Bool → Bool
  renders none = true
  renders (some b) = b

  abbrev pub with_body :
      Map String → Map String → Result TaskError String → Result TaskError Rendered
  with_body hdrs queries (ok body) = ok (record { headers = hdrs; queries = queries; body = body })
  with_body hdrs queries (err e) = err e

  -- RequestSpec.Render
  unfoldable pub render : RequestSpec → Env → Result TaskError Rendered
  render r e = with_body (render_headers e r.headers) (render_queries e r.queries) (
      if r.body_file == "" && r.body == ""
      then ok ""
      else body_source r e >>= λ body.
          if renders r.render_body then render_body e body else ok body)

  -- isJSON
  unfoldable pub is_json : String → Bool
  is_json s =
      let t = trim_space s in
      if t == ""
      then false
      else if (has_prefix t "{" && has_suffix t "}") || (has_prefix t "[" && has_suffix t "]")
      then net.valid_json t
      else false

  -- buildRequest
  unfoldable pub build_request : Rendered → String → String → HttpRequest
  build_request r method url = record {
    method = method;
    url = url;
    headers =
        if not (trim_space r.body == "") && is_json r.body
        then insert "Content-Type" "application/json" r.headers
        else r.headers;
    queries = r.queries;
    body =
        if trim_space r.body == ""
        then no_body
        else if is_json r.body
        then json_body r.body
        else plain_body r.body;
  }

  abbrev pub is_supported : String → Bool
  is_supported method =
      method == "GET"
      || method == "POST"
      || method == "PUT"
      || method == "PATCH"
      || method == "DELETE"

  abbrev pub transport_result : Result String HttpResponse → Result TaskError HttpResponse
  transport_result (ok resp) = ok resp
  transport_result (err e) = err (transport e)

  -- execByMethod: a request with another method is not sent.
  unfoldable pub exec_by_method :
      HttpRequest → List HttpRequest → Result TaskError HttpResponse × List HttpRequest
  exec_by_method req sent =
      if is_supported req.method
      then (transport_result (net.send sent req), snoc sent req)
      else (err (unsupported_method req.method), sent)
