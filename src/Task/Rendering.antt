-- ===== src/Task/Rendering.antt =====
-- What the specification of a request renders to.
use apirun.Prelude.{
  ◌≡◌, ◌≢◌, ◌∙◌, refl, String, Bool, true, false, ◌&&◌, not, Option, none, some, List, [], ◌∷◌, Map,
  lookup, insert, lookup-insert, or_else, or_else-none, ◌==◌, eq_iff, Result, ok, ◌>>=◌, Bool-cases,
  Result-cases, inl, inr, arith, contains, has_prefix, trim_space, trim_left, trim_right,
  if◌then◌else◌, ok-injective, ap, sym, subst, &&-true,
}
use apirun.Env.{Env}
use apirun.Env.Render.{render_go_template, render_go_template_err}
use apirun.Task.{
  Header, Query, RequestSpec, no_body, json_body, plain_body, HttpRequest, TaskError, Net,
}
use apirun.Task.Request.{
  Rendered, render_if_template, add_headers, render_headers, add_queries, render_queries,
  render_body, body_source, renders, render, is_json, build_request,
}

-- The request has this method, URL and queries. A blank body is not sent; one that is JSON is sent as
-- such, which sets the header Content-Type, and any other as a text.
pub record Carries (net : Net) (r : Rendered) (method url : String) (req : HttpRequest)
    : Type 0 where
  pub same_method : req.method ≡ method
  pub same_url : req.url ≡ url
  pub same_queries : req.queries ≡ r.queries
  pub blank_body : trim_space r.body ≡ "" → (req.body ≡ no_body) × (req.headers ≡ r.headers)
  pub json :
      trim_space r.body ≢ ""
      → is_json net r.body ≡ true
      → (req.body ≡ json_body r.body)
        × (req.headers ≡ insert "Content-Type" "application/json" r.headers)
  pub other_text :
      trim_space r.body ≢ ""
      → is_json net r.body ≡ false
      → (req.body ≡ plain_body r.body) × (req.headers ≡ r.headers)

ne_blank : (s : String) → trim_space s ≢ "" → (trim_space s == "") ≡ false
ne_blank s n = elim (Bool-cases (trim_space s == "")) [
  | inl blank ↦ absurd (n ((eq_iff (trim_space s) "").0 blank))
  | inr set ↦ set
]

pub build_request-Carries :
    (net : Net) (r : Rendered) (method url : String)
    → Carries net r method url (build_request net r method url)
unfolding build_request
build_request-Carries net r method url = record {
  same_method = refl;
  same_url = refl;
  same_queries = refl;
  blank_body =
      λ n. let set : (trim_space r.body == "") ≡ true = (eq_iff _ _).1 n in rw set (refl, refl);
  json = λ n j.
      let set : (trim_space r.body == "") ≡ false = ne_blank r.body n in rw (set, j) (refl, refl);
  other_text = λ n j.
      let set : (trim_space r.body == "") ≡ false = ne_blank r.body n in rw (set, j) (refl, refl);
}

module _ (net : Net) (e : Env) where
  -- The value of the last header with a name, which is not empty.
  abbrev pub header_value : String → List Header → Option String
  header_value name [] = none
  header_value name (h ∷ hs) = or_else (header_value name hs) (
      if h.name == name && not (h.name == "")
      then some (render_if_template net e h.value)
      else none)

  abbrev pub query_value : String → List Query → Option String
  query_value name [] = none
  query_value name (q ∷ qs) = or_else (query_value name qs) (
      if q.name == name && not (q.name == "")
      then some (render_if_template net e q.value)
      else none)

  -- A text with an opening brace pair is a template; any other is left as it is.
  abbrev pub Templated : String → String → Type 0
  Templated source text =
      (contains source "{{" ≡ false → text ≡ source)
      × (contains source "{{" ≡ true → render_go_template_err net.engine e source ≡ ok text)

  -- The body of a specification, or its file's if one is named.
  abbrev pub Source : RequestSpec → String → Type 0
  Source spec source =
      (trim_space spec.body_file ≡ "" → source ≡ spec.body)
      × (trim_space spec.body_file ≢ ""
          → net.read_file (net.clean (render_go_template net.engine e spec.body_file)) ≡ ok source)

  pub record RendersTo (spec : RequestSpec) (r : Rendered) : Type 0 where
    pub headers : (name : String) → lookup name r.headers ≡ header_value name spec.headers
    pub queries : (name : String) → lookup name r.queries ≡ query_value name spec.queries
    pub source : String
    pub is_source : Source spec source
    pub raw : spec.render_body ≡ some false → r.body ≡ source
    pub templated : spec.render_body ≢ some false → Templated source r.body

  lookup-added :
      (name key value : String) (m : Map String) (last : Option String)
      → or_else last (lookup name (if key == "" then m else insert key value m))
        ≡ or_else
            (or_else last (if key == name && not (key == "") then some value else none))
            (lookup name m)
  lookup-added name key value m none =
      ground (arith, eq_iff key name, lookup-insert key name value m)
  lookup-added name key value m (some v) = refl

  lookup-add_headers :
      (name : String) (hs : List Header) (m : Map String)
      → lookup name (add_headers net e hs m) ≡ or_else (header_value name hs) (lookup name m)
  unfolding add_headers
  lookup-add_headers name [] m = refl
  lookup-add_headers name (h ∷ hs) m =
      lookup-add_headers name hs _
      ∙ lookup-added name h.name (render_if_template net e h.value) m (header_value name hs)

  lookup-add_queries :
      (name : String) (qs : List Query) (m : Map String)
      → lookup name (add_queries net e qs m) ≡ or_else (query_value name qs) (lookup name m)
  unfolding add_queries
  lookup-add_queries name [] m = refl
  lookup-add_queries name (q ∷ qs) m =
      lookup-add_queries name qs _
      ∙ lookup-added name q.name (render_if_template net e q.value) m (query_value name qs)

  pub render_headers-lookup :
      (name : String) (hs : List Header)
      → lookup name (render_headers net e hs) ≡ header_value name hs
  unfolding lookup
  render_headers-lookup name hs = lookup-add_headers name hs [] ∙ or_else-none _

  pub render_queries-lookup :
      (name : String) (qs : List Query)
      → lookup name (render_queries net e qs) ≡ query_value name qs
  unfolding lookup
  render_queries-lookup name qs = lookup-add_queries name qs [] ∙ or_else-none _

  pub render_body-Templated :
      (source text : String) → render_body net e source ≡ ok text → Templated source text
  unfolding render_body
  render_body-Templated source text h = elim (Bool-cases (contains source "{{")) [
    | inr plain ↦ (λ n. sym (ok-injective (rw (plain, render_body) at h)), λ y. absurd (cc))
    | inl template ↦ elim (Result-cases (render_go_template_err net.engine e source)) [
      | inl (s, got) ↦
          let same : s ≡ text = ok-injective (rw (template, got, render_body) at h) in
          (λ n. absurd (cc), λ y. got ∙ ap ok same)
      | inr (f, failed) ↦ absurd (let g = rw (template, failed, render_body) at h in cc)
    ]
  ]

  body_source-Source :
      (spec : RequestSpec) (source : String)
      → body_source net spec e ≡ ok source
      → Source spec source
  unfolding body_source
  body_source-Source spec source h = elim (Bool-cases (trim_space spec.body_file == "")) [
    | inl unset ↦ (
      λ n. sym (ok-injective (rw (unset, body_source) at h)),
      λ n. absurd (n ((eq_iff (trim_space spec.body_file) "").0 unset)),
    )
    | inr set ↦
        elim (Result-cases
          (net.read_file (net.clean (render_go_template net.engine e spec.body_file)))) [
            | inl (s, got) ↦
                let same : s ≡ source = ok-injective (rw (set, got, body_source) at h) in
                (
                  λ n. absurd (let g = (eq_iff (trim_space spec.body_file) "").1 n in cc),
                  λ n. got ∙ ap ok same,
                )
            | inr (f, failed) ↦ absurd (let g = rw (set, failed, body_source) at h in cc)
          ]
  ]

  empty_source : contains "" "{{" ≡ false
  unfolding contains has_prefix
  empty_source = refl

  -- What a rendered body is, behind its source.
  record BodyOf (spec : RequestSpec) (text : String) : Type 0 where
    source : String
    is_source : Source spec source
    raw : spec.render_body ≡ some false → text ≡ source
    templated : spec.render_body ≢ some false → Templated source text

  empty-BodyOf : (spec : RequestSpec) → spec.body_file ≡ "" → spec.body ≡ "" → BodyOf spec ""
  unfolding trim_left trim_right
  empty-BodyOf spec no_file nothing = record {
    source = "";
    is_source = (λ n. sym nothing, λ n. absurd (n (ap trim_space no_file)));
    raw = λ n. refl;
    templated = λ n. (λ p. refl, λ p. absurd (let q = empty_source in cc));
  }

  rendered_or_raw :
      (spec : RequestSpec) (source text : String) (setting : Option Bool)
      → spec.render_body ≡ setting
      → Source spec source
      → (if renders net setting then render_body net e source else ok source) ≡ ok text
      → BodyOf spec text
  rendered_or_raw spec source text none s is_source h = record {
    source = source;
    is_source = is_source;
    raw = λ n. cc;
    templated = λ n. render_body-Templated source text h;
  }
  rendered_or_raw spec source text (some true) s is_source h = record {
    source = source;
    is_source = is_source;
    raw = λ n. cc;
    templated = λ n. render_body-Templated source text h;
  }
  rendered_or_raw spec source text (some false) s is_source h = record {
    source = source;
    is_source = is_source;
    raw = λ n. sym (ok-injective h);
    templated = λ n. absurd (n s);
  }

  abbrev body_result : RequestSpec → Result TaskError String
  body_result spec =
      if spec.body_file == "" && spec.body == ""
      then ok ""
      else body_source net spec e >>= λ body.
          if renders net spec.render_body then render_body net e body else ok body

  body_result-BodyOf :
      (spec : RequestSpec) (text : String) → body_result spec ≡ ok text → BodyOf spec text
  body_result-BodyOf spec text h = elim (Bool-cases (spec.body_file == "" && spec.body == "")) [
    | inl nothing ↦
        let (no_file, no_text) = &&-true _ _ nothing in
        subst (BodyOf spec) (ok-injective (rw nothing at h)) (
          empty-BodyOf spec ((eq_iff spec.body_file "").0 no_file)
            ((eq_iff spec.body "").0 no_text))
    | inr something ↦ elim (Result-cases (body_source net spec e)) [
      | inl (source, got) ↦
          rendered_or_raw spec source text spec.render_body refl
            (body_source-Source spec source got) (rw (something, got) at h)
      | inr (f, failed) ↦ absurd (let g = rw (something, failed) at h in cc)
    ]
  ]

  pub render-RendersTo :
      (spec : RequestSpec) (r : Rendered) → render net spec e ≡ ok r → RendersTo spec r
  unfolding render
  render-RendersTo spec r h = elim (Result-cases (body_result spec)) [
    | inr (f, failed) ↦ absurd (let g = rw (failed, render) at h in cc)
    | inl (text, got) ↦
        let b = body_result-BodyOf spec text got in
        subst (RendersTo spec) (ok-injective (rw (got, render) at h)) (record {
          headers = λ name. render_headers-lookup name spec.headers;
          queries = λ name. render_queries-lookup name spec.queries;
          source = b.source;
          is_source = b.is_source;
          raw = b.raw;
          templated = b.templated;
        })
  ]
