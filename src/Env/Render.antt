-- ===== src/Env/Render.antt =====
-- RenderGoTemplate and RenderGoTemplateErr of pkg/env/env.go. Parsing and executing a template
-- (html/template) is a parameter: it gets the text, the merged variables and the auth values.
use apirun.Prelude.{String, ◌==◌, none, some, Map, Result, ok, err, if◌then◌else◌}
use apirun.Security.{TemplateError, execute_error, TemplateValidator, validate_template}
use apirun.Env.{Val, Env, merged}

pub record Engine : Type 0 where
  pub validator : TemplateValidator
  pub execute : String → Map String → Map Val → Result String String
  -- the value of a variable that an auth provider computes
  pub acquire : String → String

abbrev pub executed : Result String String → Result TemplateError String
executed (ok s) = ok s
executed (err e) = err (execute_error e)

module _ (g : Engine) where
  -- RenderGoTemplateErr
  unfoldable pub render_go_template_err : Env → String → Result TemplateError String
  render_go_template_err e s = if s == "" then ok s else elim (validate_template g.validator s) [
    | some refused ↦ err refused
    | none ↦ executed (g.execute s (merged g.acquire e) e.auth)
  ]

  -- RenderGoTemplate
  unfoldable pub render_go_template : Env → String → String
  render_go_template e s = elim (render_go_template_err e s) [ ok result ↦ result | err failed ↦ s ]
