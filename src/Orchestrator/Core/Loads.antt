-- ===== src/Orchestrator/Core/Loads.antt =====
-- What an orchestrator is like once it is loaded.
use apirun.Prelude.{
  ap, String, ◌≡◌, ◌⊎◌, refl, true, List, [], ◌∷◌, ok, err, any, inl, inr, >>=-eq-ok, wrap,
  wrap-eq-ok, Result-cases, ok-injective, sym, subst, if◌then◌else◌, Bool-cases,
}
use apirun.Orchestrator.Types.{Stage, StageOrchestration}
use apirun.Orchestrator.Graph.{DependencyGraph, build_graph, new_dependency_graph}
use apirun.Orchestrator.Graph.Built.{
  has_stage, depends, Mirrors, build_graph-Mirrors, build_graph_ok,
}
use apirun.Orchestrator.Graph.WellFormed.{IsWellFormed, build_graph-IsWellFormed}
use apirun.Orchestrator.Loader.{
  LoadError, invalid_config, resolve_failed, Platform, resolve_stage, resolve_config_paths,
  validate_stage_list, load_stage_orchestration,
}
use apirun.Orchestrator.Loader.Valid.{validate_iff}
use apirun.Orchestrator.Core.{load_failed, Loaded, new_orchestrator, initialize, load_from_file}

-- A loaded orchestrator for the configuration that the loader returns: its stages are valid, its
-- graph says what they say and is well formed, and no stage has a result or a mark.
pub record Starts (config : StageOrchestration) (l : Loaded) : Type 0 where
  pub config_kept : l.orchestrator.config ≡ config
  pub mirrors : Mirrors config.stages l.orchestrator.graph
  pub well_formed : IsWellFormed l.orchestrator.graph
  pub no_results : l.context.stage_results ≡ []
  pub no_marks : l.context.skipped_stages ≡ []
  pub env_kept : l.context.global_env ≡ config.global.env

module _ (p : Platform) where
  -- Resolving the path of a stage leaves its name and its dependencies.
  resolve_stage-keeps :
      (base : String) (s : Stage) {s' : Stage}
      → resolve_stage p base s ≡ ok s'
      → (s'.name ≡ s.name) × (s'.depends_on ≡ s.depends_on)
  unfolding resolve_stage
  resolve_stage-keeps base s e =
      elim (Bool-cases
        (p.exists (if p.is_abs s.config_path then s.config_path else p.join base s.config_path))) [
          | inl there ↦
              let same = ok-injective (rw there at e) in
              (sym (ap (λ t. t.name) same), sym (ap (λ t. t.depends_on) same))
          | inr missing ↦ absurd (let f = rw missing at e in cc)
        ]

  -- So the dependencies between the stages are those that were checked.
  resolve_config_paths-keeps :
      (base : String) (ss : List Stage) {ss' : List Stage}
      → resolve_config_paths p base ss ≡ ok ss'
      → ((a b : String) → depends ss' b a ≡ depends ss b a)
        × ((a : String) → has_stage ss' a ≡ has_stage ss a)
  unfolding resolve_config_paths depends has_stage any
  resolve_config_paths-keeps base [] e =
      subst
        (λ ss'.
          ((a b : String) → depends ss' b a ≡ depends [] b a)
          × ((a : String) → has_stage ss' a ≡ has_stage [] a))
        (ok-injective e) (λ a b. refl, λ a. refl)
  resolve_config_paths-keeps base (s ∷ ss) e =
      let (s', first, more) = >>=-eq-ok (resolve_stage p base s) _ e in
      let (ss', later, last) = >>=-eq-ok (resolve_config_paths p base ss) _ more in
      let same = resolve_stage-keeps base s first in
      let rest = resolve_config_paths-keeps base ss later in
      subst
        (λ ts.
          ((a b : String) → depends ts b a ≡ depends (s ∷ ss) b a)
          × ((a : String) → has_stage ts a ≡ has_stage (s ∷ ss) a))
        (ok-injective last)
        (λ a b. rw (same.0, same.1, rest.0 a b) refl, λ a. rw (same.0, rest.1 a) refl)

  -- What a configuration that is loaded depends on is there.
  loaded_known :
      (path : String) {config : StageOrchestration}
      → load_stage_orchestration p path ≡ ok config
      → (a b : String) → depends config.stages b a ≡ true
      → has_stage config.stages a ≡ true
  unfolding load_stage_orchestration
  loaded_known path e =
      let (o, read, checks) = >>=-eq-ok (p.read_orchestration (p.clean path)) _ e in
      let (u, valid, resolving) =
        >>=-eq-ok (wrap invalid_config (validate_stage_list o.stages)) _ checks in
      let (stages, resolved, last) =
        >>=-eq-ok (wrap resolve_failed (resolve_config_paths p (p.dir (p.clean path)) o.stages)) _
          resolving in
      let known = ((validate_iff o.stages).0 (wrap-eq-ok invalid_config _ valid)).known in
      let keeps =
        resolve_config_paths-keeps (p.dir (p.clean path)) o.stages
          (wrap-eq-ok resolve_failed _ resolved) in
      subst
        (λ config.
          (a b : String) → depends config.stages b a ≡ true → has_stage config.stages a ≡ true)
        (ok-injective last) (λ a b d. rw (keeps.1 a) (known a b (rw (keeps.0 a b) at d)))

  abbrev ready : StageOrchestration → DependencyGraph → Loaded
  ready config g = record (new_orchestrator config) {
    orchestrator = record { config = config; graph = g };
  }

  load_from_file-ready :
      (path : String) (config : StageOrchestration) (g : DependencyGraph)
      → load_stage_orchestration p path ≡ ok config
      → build_graph config.stages new_dependency_graph ≡ ok g
      → load_from_file p path ≡ ok (ready config g)
  unfolding load_from_file initialize new_orchestrator
  load_from_file-ready path config g loaded built =
      rw (loaded, load_from_file, initialize, built) refl

  -- LoadFromFile fails exactly as the loader does, since the graph of a configuration that passed its
  -- checks can be built; otherwise it returns an orchestrator with the configuration, whose graph is
  -- well formed and has the names of the stages as its nodes and an edge from `a` to `b` exactly when
  -- `b` depends on `a`, and with a context that has no result and no mark.
  pub load_from_file-Starts :
      (path : String)
      → ((e : LoadError) × (load_stage_orchestration p path ≡ err e)
          × (load_from_file p path ≡ err (load_failed e)))
        ⊎ ((config : StageOrchestration) × (load_stage_orchestration p path ≡ ok config)
            × (l : Loaded) × (load_from_file p path ≡ ok l)
            × Starts config l)
  unfolding load_from_file initialize new_orchestrator
  load_from_file-Starts path = elim (Result-cases (load_stage_orchestration p path)) [
    | inr (e, refused) ↦ inl (e, refused, rw (refused, load_from_file) refl)
    | inl (config, loaded) ↦
        let (g, built) = build_graph_ok config.stages (loaded_known path loaded) in
        inr (
          config,
          loaded,
          ready config g,
          load_from_file-ready path config g loaded built,
          record {
            config_kept = refl;
            mirrors = build_graph-Mirrors config.stages built;
            well_formed = build_graph-IsWellFormed config.stages built;
            no_results = refl;
            no_marks = refl;
            env_kept = refl;
          },
        )
  ]
