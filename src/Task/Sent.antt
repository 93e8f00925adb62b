-- ===== src/Task/Sent.antt =====
-- Which request the execution of an up task sends, and when it succeeds.
use apirun.Prelude.{
  ◌≡◌, ◌≢◌, ◌⊎◌, refl, String, Option, true, false, none, some, List, [], snoc, ok, err, Bool-cases,
  Result-cases, List-cases, inl, inr, Map, lookup, keys, Distinct, All, any, ◌==◌, eq_iff, arith,
  trim_space, if◌then◌else◌,
}
use apirun.Env.Render.{render_go_template}
use apirun.Env.{Env}
use apirun.Task.{
  ResponseSpec, Up, HttpRequest, HttpResponse, TaskError, transport, unsupported_method, Net,
}
use apirun.Task.Rendering.{RendersTo, Carries}
use apirun.Task.Request.{Rendered, exec_by_method, is_supported}
use apirun.Task.Response.{code_of, validate_status, extract_env}
use apirun.Task.Extracted.{is_code, value_at, Present, validate_status_iff, extract_env_lem}
use apirun.Task.Execute.{Executed}

module _ (net : Net) where
  -- The methods that are sent.
  abbrev pub Supported : String → Type 0
  Supported method =
      (method ≡ "GET")
      ⊎ ((method ≡ "POST") ⊎ ((method ≡ "PUT") ⊎ ((method ≡ "PATCH") ⊎ (method ≡ "DELETE"))))

  is_supported-cases : (method : String) → is_supported net method ≡ true → Supported method
  is_supported-cases method h = ground (
    arith,
    eq_iff method "GET",
    eq_iff method "POST",
    eq_iff method "PUT",
    eq_iff method "PATCH",
    eq_iff method "DELETE",
  )

  -- The request was sent behind `sent` and answered by `resp`.
  pub record Answered (sent : List HttpRequest) (req : HttpRequest) (resp : HttpResponse)
      (after : List HttpRequest) : Type 0 where
    pub supported : Supported req.method
    pub answer : net.send sent req ≡ ok resp
    pub recorded : after ≡ snoc sent req

  -- What is taken from an answer for a key with this path.
  abbrev pub taken : String → Option String → Option String
  taken body path = if body == "" then none else value_at net body path

  -- An answer with an accepted status, and the variables that are taken from it.
  pub record Accepted (spec : ResponseSpec) (env : Env) (resp : HttpResponse)
      (extracted : Map String) : Type 0 where
    pub status :
        All (λ c. code_of net env c ≡ none) spec.result_code
        ⊎ (any (λ c. is_code net resp.status_code (code_of net env c)) spec.result_code ≡ true)
    pub variables :
        (key : String) → lookup key extracted ≡ taken resp.body (lookup key spec.env_from)
    pub required :
        (resp.body == "") ≡ false
        → net.to_lower (trim_space spec.env_missing) ≡ "fail"
        → All (λ e. Present net resp.body e.1) spec.env_from

  empty_body :
      (spec : ResponseSpec) (body : String)
      → (body == "") ≡ true
      → (extract_env net spec body).0 ≡ []
  unfolding extract_env
  empty_body spec body e = elim (List-cases spec.env_from) [
    | inl nothing ↦ rw (nothing, extract_env) refl
    | inr (x, xs, listed) ↦ rw (listed, e, extract_env) refl
  ]

  pub accepted :
      (spec : ResponseSpec) (env : Env) (resp : HttpResponse)
      → validate_status net spec resp.status_code env ≡ none
      → (extract_env net spec resp.body).1 ≡ none
      → Distinct (keys spec.env_from)
      → Accepted spec env resp (extract_env net spec resp.body).0
  unfolding lookup
  accepted spec env resp valid complete d = record {
    status = (validate_status_iff net spec resp.status_code env).0 valid;
    variables = λ key. elim (Bool-cases (resp.body == "")) [
      | inl empty ↦ rw (empty_body spec resp.body empty, empty) refl
      | inr filled ↦ rw filled ((extract_env_lem net spec resp.body filled d).0 key)
    ];
    required = λ filled fail. elim ((extract_env_lem net spec resp.body filled d).1.0 complete) [
      | inl other ↦ absurd (let e = rw fail at other in cc)
      | inr there ↦ there
    ];
  }

  pub exec_cases :
      (req : HttpRequest) (sent : List HttpRequest)
      → ((resp : HttpResponse) × (exec_by_method net req sent ≡ (ok resp, snoc sent req))
          × Answered sent req resp (snoc sent req))
        ⊎ ((e : TaskError) × (after : List HttpRequest) × (exec_by_method net req sent
              ≡ (err e, after)))
  unfolding exec_by_method
  exec_cases req sent = elim (Bool-cases (is_supported net req.method)) [
    | inr unknown ↦ inr (unsupported_method req.method, sent, rw unknown refl)
    | inl known ↦ elim (Result-cases (net.send sent req)) [
      | inl (resp, got) ↦ inl (
        resp,
        rw (known, got) refl,
        record { supported = is_supported-cases req.method known; answer = got; recorded = refl },
      )
      | inr (e, lost) ↦ inr (transport e, snoc sent req, rw (known, lost) refl)
    ]
  ]

  -- A text of the specification, or the given one when that is blank.
  abbrev pub Chosen : String → String → String → Type 0
  Chosen specified given chosen =
      (trim_space specified ≡ "" → chosen ≡ given)
      × (trim_space specified ≢ "" → chosen ≡ specified)

  -- What an Up sends and returns when it succeeds.
  pub record UpDone (u : Up) (method url : String) (sent : List HttpRequest) (x : Executed)
      : Type 0 where
    pub rendered : Rendered
    pub renders : RendersTo net u.env u.request rendered
    pub used_method : String
    pub method_chosen : Chosen u.request.method method used_method
    pub used_url : String
    pub url_chosen : Chosen u.request.url url used_url
    pub resp : HttpResponse
    pub request : HttpRequest
    pub carries :
        Carries net rendered used_method (render_go_template net.engine u.env used_url) request
    pub answered : Answered sent request resp x.sent
    pub extracted : Map String
    pub result :
        x.result
        ≡ some (record {
          status_code = resp.status_code;
          extracted_env = extracted;
          response_body = resp.body;
        })
    pub accepted_answer : Accepted u.response u.env resp extracted
