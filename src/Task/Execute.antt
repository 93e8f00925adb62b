-- ===== src/Task/Execute.antt =====
-- up.go and down.go: the execution of a task, with the list of the requests that it sends.
use apirun.Prelude.{
  ℕ, String, Bool, ◌&&◌, ◌||◌, Option, none, some, List, [], ◌∷◌, Map, ◌==◌, Result, ok, err, ltb,
  leb, if◌then◌else◌, trim_space,
}
use apirun.Env.{Env, local_layer, set_string}
use apirun.Env.Render.{render_go_template}
use apirun.Migration.Types.{ExecResult}
use apirun.Task.{
  Up, FindSpec, Down, HttpRequest, HttpResponse, TaskError, no_method_or_url,
  find_without_method_or_url, status_failed, Net,
}
use apirun.Task.Request.{
  Rendered, render, render_headers, render_queries, render_body, render_if_template, build_request,
  exec_by_method,
}
use apirun.Task.Response.{validate_status, extract_env}

-- A result, an error, the environment behind the execution and the requests sent.
pub record Executed : Type 0 where
  pub result : Option ExecResult
  pub error : Option TaskError
  pub env : Env
  pub sent : List HttpRequest

abbrev pub exec_result : ℕ → Map String → String → ExecResult
exec_result status extracted body = record {
  status_code = status;
  extracted_env = extracted;
  response_body = body;
}

abbrev pub failed : TaskError → Env → List HttpRequest → Executed
failed e env sent = record { result = none; error = some e; env = env; sent = sent }

-- for k, v := range extracted { _ = d.Env.SetString("local", k, v) }
unfoldable pub merge_extracted : Map String → Env → Env
merge_extracted [] e = e
merge_extracted ((k, v) ∷ kv) e =
    merge_extracted kv (elim (set_string local_layer k v e) [ ok e' ↦ e' | err sealed ↦ e ])

-- The text unless it is blank.
abbrev pub or_given : String → String → String
or_given given specified = if trim_space specified == "" then given else specified

module _ (net : Net) where
  -- What Up.Execute does with an answer.
  unfoldable pub up_answer : Up → HttpResponse → List HttpRequest → Executed
  up_answer u resp sent = elim (validate_status net u.response resp.status_code u.env) [
    | some e ↦ record {
      result = some (exec_result resp.status_code [] resp.body);
      error = some e;
      env = u.env;
      sent = sent;
    }
    | none ↦
        let (extracted, missing) = extract_env net u.response resp.body in
        record {
          result = some (exec_result resp.status_code extracted resp.body);
          error = missing;
          env = u.env;
          sent = sent;
        }
  ]

  abbrev pub up_sent : Up → Result TaskError HttpResponse × List HttpRequest → Executed
  up_sent u (err e, sent) = failed e u.env sent
  up_sent u (ok resp, sent) = up_answer u resp sent

  -- The request of an Up, once it is rendered.
  abbrev pub up_request : Up → String → String → Rendered → HttpRequest
  up_request u method url r =
      build_request net r (or_given method u.request.method)
        (render_go_template net.engine u.env (or_given url u.request.url))

  -- Up.Execute
  unfoldable pub execute_up : Up → String → String → List HttpRequest → Executed
  execute_up u method url sent = elim (render net u.request u.env) [
    | err e ↦ failed e u.env sent
    | ok r ↦ up_sent u (exec_by_method net (up_request u method url r) sent)
  ]

  -- What runFind does with an answer; without an error the variables are in the environment.
  unfoldable pub find_answer : Down → FindSpec → HttpResponse → List HttpRequest → Executed
  find_answer d f resp sent = elim (validate_status net f.response resp.status_code d.env) [
    | some e ↦ record {
      result = some (exec_result resp.status_code [] "");
      error = some e;
      env = d.env;
      sent = sent;
    }
    | none ↦
        let (extracted, missing) = extract_env net f.response resp.body in
        elim missing [
          | some e ↦ record {
            result = some (exec_result resp.status_code extracted "");
            error = some e;
            env = d.env;
            sent = sent;
          }
          | none ↦ record {
            result = none;
            error = none;
            env = merge_extracted extracted d.env;
            sent = sent;
          }
        ]
  ]

  abbrev pub find_sent :
      Down → FindSpec → Result TaskError HttpResponse × List HttpRequest → Executed
  find_sent d f (err e, sent) = failed e d.env sent
  find_sent d f (ok resp, sent) = find_answer d f resp sent

  -- runFind
  unfoldable pub run_find : Down → FindSpec → List HttpRequest → Executed
  run_find d f sent = elim (render net f.request d.env) [
    | err e ↦ failed e d.env sent
    | ok r ↦
        let method = net.to_upper (trim_space f.request.method) in
        let url = render_if_template net d.env (trim_space f.request.url) in
        if method == "" || url == ""
        then failed find_without_method_or_url d.env sent
        else find_sent d f (exec_by_method net (build_request net r method url) sent)
  ]

  -- The main call of Down.Execute: a status from 200 to 299 is a success.
  abbrev pub is_success : ℕ → Bool
  is_success status = leb 200 status && ltb status 300

  abbrev pub down_sent : Env → Result TaskError HttpResponse × List HttpRequest → Executed
  down_sent env (err e, sent) = failed e env sent
  down_sent env (ok resp, sent) = record {
    result = some (exec_result resp.status_code [] resp.body);
    error = if is_success resp.status_code then none else some (status_failed resp.status_code);
    env = env;
    sent = sent;
  }

  -- The request of the main call in an environment, once its body is rendered.
  abbrev pub down_request : Down → Env → String → HttpRequest
  down_request d env body =
      build_request net
        (record {
          headers = render_headers net env d.headers;
          queries = render_queries net env d.queries;
          body = body;
        })
        (net.to_upper (trim_space d.method)) (render_if_template net env (trim_space d.url))

  unfoldable pub down_call : Down → Env → List HttpRequest → Executed
  down_call d env sent =
      if net.to_upper (trim_space d.method) == ""
        || render_if_template net env (trim_space d.url) == ""
      then failed no_method_or_url env sent
      else elim (render_body net env d.body) [
        | err e ↦ failed e env sent
        | ok body ↦ down_sent env (exec_by_method net (down_request d env body) sent)
      ]

  -- The step `find`, when it has a method and a URL.
  abbrev pub active_find : Option FindSpec → Option FindSpec
  active_find none = none
  active_find (some f) = if f.request.method == "" || f.request.url == "" then none else some f

  -- Down.Execute
  unfoldable pub execute_down : Down → List HttpRequest → Executed
  execute_down d sent = elim (active_find d.find) [
    | none ↦ down_call d d.env sent
    | some f ↦
        let found = run_find d f sent in
        elim found.error [ none ↦ down_call d found.env found.sent | some e ↦ found ]
  ]
