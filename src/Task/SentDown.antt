-- ===== src/Task/SentDown.antt =====
-- What Execute of a down task sends.
use apirun.Prelude.{
  ◌≡◌, ◌≢◌, ◌⊎◌, ◌≤◌, ◌<◌, String, Option, none, some, List, Map, or_else, lookup, trim_space,
}
use apirun.Env.{Env, lookup_var}
use apirun.Task.{FindSpec, Down, HttpRequest, HttpResponse, Net}
use apirun.Task.Rendering.{RendersTo, Carries, header_value, query_value, Templated}
use apirun.Task.Request.{Rendered, render_if_template, build_request}
use apirun.Task.Execute.{Executed}
use apirun.Task.Sent.{Answered, Accepted}

module _ (net : Net) where
  -- The request of the step `find`.
  abbrev pub find_request : Down → FindSpec → Rendered → HttpRequest
  find_request d f r =
      build_request net r (net.to_upper (trim_space f.request.method))
        (render_if_template net d.env (trim_space f.request.url))

  -- A step `find` that succeeded, with the environment behind it.
  pub record FindDone (d : Down) (f : FindSpec) (sent : List HttpRequest) (env : Env)
      (after : List HttpRequest) : Type 0 where
    pub rendered : Rendered
    pub renders : RendersTo net d.env f.request rendered
    pub resp : HttpResponse
    pub request : HttpRequest
    pub carries :
        Carries net rendered
          (net.to_upper (trim_space f.request.method))
          (render_if_template net d.env (trim_space f.request.url))
          request
    pub answered : Answered net sent request resp after
    pub extracted : Map String
    pub accepted_answer : Accepted net f.response d.env resp extracted
    pub variables :
        (key : String)
        → lookup_var net.engine.acquire key env
          ≡ or_else (lookup key extracted) (lookup_var net.engine.acquire key d.env)

  -- What the main request of a Down renders to in an environment.
  pub record MainRendered (d : Down) (env : Env) (r : Rendered) : Type 0 where
    pub headers : (name : String) → lookup name r.headers ≡ header_value net env name d.headers
    pub queries : (name : String) → lookup name r.queries ≡ query_value net env name d.queries
    pub body : Templated net env d.body r.body

  -- There is no step `find`, or one without a method or a URL.
  abbrev pub Inactive : Option FindSpec → Type 0
  Inactive find =
      (find ≡ none)
      ⊎ ((f : FindSpec) × (find ≡ some f) × ((f.request.method ≡ "") ⊎ (f.request.url ≡ "")))

  abbrev pub FindStep : Down → List HttpRequest → Env → List HttpRequest → Type 0
  FindStep d sent env after =
      (Inactive d.find × (env ≡ d.env) × (after ≡ sent))
      ⊎ ((f : FindSpec) × (d.find ≡ some f)
          × (f.request.method ≢ "")
          × (f.request.url ≢ "")
          × FindDone d f sent env after)

  -- What a Down sends when it succeeds.
  pub record DownDone (d : Down) (sent : List HttpRequest) (x : Executed) : Type 0 where
    pub env : Env
    pub before : List HttpRequest
    pub found : FindStep d sent env before
    pub rendered : Rendered
    pub renders : MainRendered d env rendered
    pub request : HttpRequest
    pub carries :
        Carries net rendered
          (net.to_upper (trim_space d.method))
          (render_if_template net env (trim_space d.url))
          request
    pub resp : HttpResponse
    pub answered : Answered net before request resp x.sent
    pub success : (200 ≤ resp.status_code) × (resp.status_code < 300)

  -- The main call.
  pub record CallDone (d : Down) (env : Env) (before : List HttpRequest) (x : Executed)
      : Type 0 where
    pub rendered : Rendered
    pub renders : MainRendered d env rendered
    pub request : HttpRequest
    pub carries :
        Carries net rendered
          (net.to_upper (trim_space d.method))
          (render_if_template net env (trim_space d.url))
          request
    pub resp : HttpResponse
    pub answered : Answered net before request resp x.sent
    pub success : (200 ≤ resp.status_code) × (resp.status_code < 300)
