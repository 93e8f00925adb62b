-- ===== src/Tests/Samples.antt =====
-- Stages, graphs and settings to try the program at.
use apirun.Prelude.{String, List, [], ◌∷◌, pos, Result, ok, err}
use apirun.Orchestrator.Types.{Stage}
use apirun.Orchestrator.Graph.{GraphError, DependencyGraph, new_dependency_graph, build_graph}

abbrev pub stage : String → List String → Stage
stage name deps = record {
  name = name;
  config_path = "stage.yaml";
  depends_on = deps;
  env = [];
  env_from_stages = [];
  condition = "";
  on_failure = "stop";
  timeout = pos 0;
}

-- The last one is declared before what it depends on.
abbrev pub layered : List Stage
layered =
    stage "web" ("app" ∷ "base" ∷ [])
    ∷ stage "app" ("base" ∷ [])
    ∷ stage "base" []
    ∷ stage "docs" []
    ∷ []

abbrev pub circular : List Stage
circular = stage "a" ("b" ∷ []) ∷ stage "b" ("c" ∷ []) ∷ stage "c" ("a" ∷ []) ∷ []

abbrev pub graph_or_new : Result GraphError DependencyGraph → DependencyGraph
graph_or_new (ok g) = g
graph_or_new (err e) = new_dependency_graph

abbrev pub layered_graph : DependencyGraph
layered_graph = graph_or_new (build_graph layered new_dependency_graph)

abbrev pub circular_graph : DependencyGraph
circular_graph = graph_or_new (build_graph circular new_dependency_graph)
