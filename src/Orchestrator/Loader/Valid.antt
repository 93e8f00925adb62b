-- ===== src/Orchestrator/Loader/Valid.antt =====
-- validateOrchestration accepts exactly the lists of stages that are well formed, and for those
-- the dependency graph can be built.
use apirun.Prelude.{
  ℕ, suc, String, ◌≡◌, ◌≢◌, ◌↔◌, refl, true, false, ◌||◌, List, [], ◌∷◌, arith, elem, any, All,
  Distinct, map, ◌==◌, eq_iff, ok, >>=-eq-ok, ap,
}
use apirun.Orchestrator.Types.{Stage}
use apirun.Orchestrator.Graph.{DependencyGraph, build_graph, new_dependency_graph}
use apirun.Orchestrator.Graph.Built.{has_stage, depends, build_graph_ok}
use apirun.Orchestrator.Loader.{
  valid_on_failure, validate_stage, validate_stages, check_dependencies, check_all_dependencies,
  validate_stage_list,
}

-- What the checks on one stage ask for.
pub record IsValidStage (stage : Stage) : Type 0 where
  pub name : (stage.name == "") ≡ false
  pub config_path : (stage.config_path == "") ≡ false
  pub on_failure : valid_on_failure stage.on_failure ≡ true
  pub no_self_dependency : elem stage.name stage.depends_on ≡ false

pub record IsValidStages (stages : List Stage) : Type 0 where
  pub some_stage : stages ≢ []
  pub each : All IsValidStage stages
  pub distinct : Distinct (map (λ s. s.name) stages)
  pub known : (a b : String) → depends stages b a ≡ true → has_stage stages a ≡ true

-- What the first loop establishes behind the names `seen`.
record Scanned (seen : List String) (stages : List Stage) (seen' : List String) : Type 0 where
  each : All IsValidStage stages
  distinct : Distinct (map (λ s. s.name) stages)
  fresh : (a : String) → has_stage stages a ≡ true → elem a seen ≡ false
  names : (a : String) → elem a seen' ≡ (elem a seen || has_stage stages a)

elem-map_name :
    (stages : List Stage) (a : String) → elem a (map (λ s. s.name) stages) ≡ has_stage stages a
unfolding elem has_stage any
elem-map_name [] a = refl
elem-map_name (stage ∷ stages) a = ground (arith, elem-map_name stages a)

validate_stages-Scanned :
    (i : ℕ) (seen : List String) (stages : List Stage) {seen' : List String}
    → validate_stages i seen stages ≡ ok seen'
    → Scanned seen stages seen'
unfolding validate_stages validate_stage has_stage any elem
validate_stages-Scanned i seen [] e = record {
  each = tt;
  distinct = tt;
  fresh = λ a. ground arith;
  names = λ a. ground arith;
}
validate_stages-Scanned i seen (stage ∷ stages) {seen'} e =
    let (seen₁, valid, rest) =
      >>=-eq-ok (validate_stage i seen stage) (λ s. validate_stages (suc i) s stages) e in
    let grown : seen₁ ≡ stage.name ∷ seen = ground arith in
    let r = validate_stages-Scanned (suc i) seen₁ stages rest in
    let each : IsValidStage stage = ground arith in
    let new : elem stage.name seen ≡ false = ground arith in
    record {
      each = (each, r.each);
      distinct = (
        ground (
          arith,
          elem-map_name stages stage.name,
          r.fresh stage.name,
          ap (elem stage.name) grown,
          eq_iff stage.name stage.name,
        ),
        r.distinct,
      );
      fresh = λ a. ground (arith, r.fresh a, ap (elem a) grown, eq_iff stage.name a, new);
      names = λ a. ground (arith, r.names a, ap (elem a) grown);
    }

validate_stages_ok :
    (i : ℕ) (seen : List String) (stages : List Stage)
    → All IsValidStage stages
    → Distinct (map (λ s. s.name) stages)
    → ((a : String) → has_stage stages a ≡ true → elem a seen ≡ false)
    → (seen' : List String) × (validate_stages i seen stages ≡ ok seen')
unfolding validate_stages validate_stage has_stage any elem
validate_stages_ok i seen [] v d f = (seen, refl)
validate_stages_ok i seen (stage ∷ stages) v d f =
    let here = eq_iff stage.name stage.name in
    let new : elem stage.name seen ≡ false = f stage.name (ground (arith, here)) in
    let (seen', e) =
      validate_stages_ok (suc i) (stage.name ∷ seen) stages v.1 d.1
        (λ a h. ground (arith, f a, eq_iff stage.name a, elem-map_name stages stage.name)) in
    let step : validate_stage i seen stage ≡ ok (stage.name ∷ seen) = ground (arith, v.0) in
    (seen', rw (step, validate_stages) e)

check_dependencies_sound :
    (seen : List String) (name : String) (deps : List String)
    → check_dependencies seen name deps ≡ ok tt
    → (a : String) → elem a deps ≡ true
    → elem a seen ≡ true
unfolding check_dependencies elem
check_dependencies_sound seen name [] e a h = ground arith
check_dependencies_sound seen name (dep ∷ deps) e a h =
    let rest : check_dependencies seen name deps ≡ ok tt = ground arith in
    ground (arith, eq_iff dep a, check_dependencies_sound seen name deps rest a)

check_dependencies_ok :
    (seen : List String) (name : String) (deps : List String)
    → ((a : String) → elem a deps ≡ true → elem a seen ≡ true)
    → check_dependencies seen name deps ≡ ok tt
unfolding check_dependencies elem
check_dependencies_ok seen name [] h = refl
check_dependencies_ok seen name (dep ∷ deps) h =
    rw (h dep (ground (arith, eq_iff dep dep)))
      (check_dependencies_ok seen name deps (λ a e. h a (ground arith)))

check_all_dependencies_sound :
    (seen : List String) (stages : List Stage)
    → check_all_dependencies seen stages ≡ ok tt
    → (a b : String) → depends stages b a ≡ true
    → elem a seen ≡ true
unfolding check_all_dependencies depends any
check_all_dependencies_sound seen [] e a b h = ground arith
check_all_dependencies_sound seen (stage ∷ stages) e a b h =
    let (u, first, rest) =
      >>=-eq-ok (check_dependencies seen stage.name stage.depends_on)
        (λ _. check_all_dependencies seen stages) e in
    ground (
      arith,
      check_dependencies_sound seen stage.name stage.depends_on first a,
      check_all_dependencies_sound seen stages rest a b,
    )

check_all_dependencies_ok :
    (seen : List String) (stages : List Stage)
    → ((a b : String) → depends stages b a ≡ true → elem a seen ≡ true)
    → check_all_dependencies seen stages ≡ ok tt
unfolding check_all_dependencies depends any
check_all_dependencies_ok seen [] h = refl
check_all_dependencies_ok seen (stage ∷ stages) h =
    rw
      (check_dependencies_ok seen stage.name stage.depends_on
        (λ a e. h a stage.name (ground (arith, eq_iff stage.name stage.name))))
      (check_all_dependencies_ok seen stages (λ a b e. h a b (ground arith)))

validate-IsValidStages :
    (stages : List Stage) → validate_stage_list stages ≡ ok tt → IsValidStages stages
unfolding validate_stage_list elem
validate-IsValidStages [] e = cc
validate-IsValidStages (stage ∷ stages) e =
    let all = stage ∷ stages in
    let (seen, scan, check) =
      >>=-eq-ok (validate_stages 0 [] all) (λ seen. check_all_dependencies seen all) e in
    let r = validate_stages-Scanned 0 [] all scan in
    record {
      some_stage = λ p. cc;
      each = r.each;
      distinct = r.distinct;
      known = λ a b d. ground (arith, r.names a, check_all_dependencies_sound seen all check a b d);
    }

IsValidStages-validate :
    (stages : List Stage) → IsValidStages stages → validate_stage_list stages ≡ ok tt
unfolding validate_stage_list elem
IsValidStages-validate [] v = absurd (v.some_stage refl)
IsValidStages-validate (stage ∷ stages) v =
    let all = stage ∷ stages in
    let (seen, scan) = validate_stages_ok 0 [] all v.each v.distinct (λ a h. refl) in
    let r = validate_stages-Scanned 0 [] all scan in
    rw scan (check_all_dependencies_ok seen all (λ a b d. ground (arith, r.names a, v.known a b d)))

-- validateOrchestration accepts a list of stages exactly when it is not empty, names and config
-- paths are not empty, names are pairwise different, every `on_failure` is a known value, no stage
-- depends on itself and every stage that one depends on is in the list.
pub validate_iff :
    (stages : List Stage) → (validate_stage_list stages ≡ ok tt) ↔ IsValidStages stages
validate_iff stages = (validate-IsValidStages stages, IsValidStages-validate stages)

-- For a configuration that validateOrchestration accepts, BuildGraph does not fail.
pub validate-build_graph :
    (stages : List Stage)
    → validate_stage_list stages ≡ ok tt
    → (g : DependencyGraph) × (build_graph stages new_dependency_graph ≡ ok g)
validate-build_graph stages e = build_graph_ok stages (validate-IsValidStages stages e).known
