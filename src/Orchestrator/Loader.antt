-- ===== src/Orchestrator/Loader.antt =====
-- pkg/orchestrator/loader.go: the checks on a configuration, and how it is loaded. The files, the
-- operations on paths and the YAML decoder are parameters.
pub mod Valid
use apirun.Prelude.{
  ℕ, zero, suc, String, Bool, true, false, ◌||◌, not, List, [], ◌∷◌, elem, any, Result, ok, err,
  wrap, ◌>>=◌, ◌==◌, snoc, if◌then◌else◌,
}
use apirun.Orchestrator.Types.{Stage, StageOrchestration}

pub data LoadError : Type 0 where
  read_failed parse_failed : String → LoadError
  no_stages : LoadError
  name_required : ℕ → LoadError
  duplicate_name config_path_required self_dependency : String → LoadError
  invalid_on_failure dependency_not_found config_not_found : String → String → LoadError
  invalid_config resolve_failed : LoadError → LoadError

-- switch stage.OnFailure { case "", "stop", "continue", "skip_dependents": … }
unfoldable pub valid_on_failure : String → Bool
valid_on_failure s = s == "" || (s == "stop" || (s == "continue" || s == "skip_dependents"))

-- The body of the first loop, for the stage at index `i`: the set `stageNames` grows by its name.
unfoldable pub validate_stage : ℕ → List String → Stage → Result LoadError (List String)
validate_stage i seen stage =
    if stage.name == ""
    then err (name_required i)
    else if elem stage.name seen
    then err (duplicate_name stage.name)
    else if stage.config_path == ""
    then err (config_path_required stage.name)
    else if not (valid_on_failure stage.on_failure)
    then err (invalid_on_failure stage.name stage.on_failure)
    else if elem stage.name stage.depends_on
    then err (self_dependency stage.name)
    else ok (stage.name ∷ seen)

unfoldable pub validate_stages : ℕ → List String → List Stage → Result LoadError (List String)
validate_stages i seen [] = ok seen
validate_stages i seen (stage ∷ stages) =
    validate_stage i seen stage >>= λ seen'. validate_stages (suc i) seen' stages

-- The loop over the dependencies of one stage.
unfoldable pub check_dependencies : List String → String → List String → Result LoadError (Unit {0})
check_dependencies seen name [] = ok tt
check_dependencies seen name (dep ∷ deps) =
    let rest = check_dependencies seen name deps in
    if elem dep seen then rest else err (dependency_not_found name dep)

unfoldable pub check_all_dependencies : List String → List Stage → Result LoadError (Unit {0})
check_all_dependencies seen [] = ok tt
check_all_dependencies seen (stage ∷ stages) =
    check_dependencies seen stage.name stage.depends_on >>= λ _. check_all_dependencies seen stages

-- validateOrchestration
unfoldable pub validate_stage_list : List Stage → Result LoadError (Unit {0})
validate_stage_list [] = err no_stages
validate_stage_list (stage ∷ stages) =
    validate_stages 0 [] (stage ∷ stages) >>= λ seen. check_all_dependencies seen (stage ∷ stages)

abbrev pub validate_orchestration : StageOrchestration → Result LoadError (Unit {0})
validate_orchestration o = validate_stage_list o.stages

-- What the loader uses of the operating system and of gopkg.in/yaml.v3.
pub record Platform : Type 0 where
  pub clean : String → String
  pub dir : String → String
  pub is_abs : String → Bool
  pub join : String → String → String
  pub exists : String → Bool
  pub read_orchestration : String → Result LoadError StageOrchestration

module _ (p : Platform) where
  unfoldable pub resolve_stage : String → Stage → Result LoadError Stage
  resolve_stage base stage =
      let path =
        if p.is_abs stage.config_path then stage.config_path else p.join base stage.config_path in
      if p.exists path
      then ok (record stage { config_path = path })
      else err (config_not_found stage.name path)

  -- resolveConfigPaths
  unfoldable pub resolve_config_paths : String → List Stage → Result LoadError (List Stage)
  resolve_config_paths base [] = ok []
  resolve_config_paths base (stage ∷ stages) = do
    stage' ← resolve_stage base stage
    stages' ← resolve_config_paths base stages
    ok (stage' ∷ stages')

  abbrev with_defaults : StageOrchestration → StageOrchestration
  with_defaults o = record o {
    api_version = if o.api_version == "" then "apirun/v1" else o.api_version;
    kind = if o.kind == "" then "StageOrchestration" else o.kind;
  }

  -- LoadStageOrchestration
  unfoldable pub load_stage_orchestration : String → Result LoadError StageOrchestration
  load_stage_orchestration config_path = do
    let path = p.clean config_path
    o ← p.read_orchestration path
    _ ← wrap invalid_config (validate_orchestration (with_defaults o))
    stages ← wrap resolve_failed (resolve_config_paths (p.dir path) o.stages)
    ok (record (with_defaults o) { stages = stages })
