-- ===== src/Tests/GraphRuns.antt =====
-- Runs of orcastork/graph, orcastork/datapoints/view.py and orcastork/scheduling/completion.py.
use orcastork.Base.{List, [], any, contains, true, ◌&&◌, ◌||◌, ◌↔◌, ◌∷◌, ◌≡◌, nat_eq}
use orcastork.DataPoint.{Class, DataPoint}
use orcastork.Classes.{any_subclass, effective_produces}
use orcastork.Graph.{build_graph, keep_operators}
use orcastork.Graph.Links.{has_edge, build_graph-edge}
use orcastork.Graph.Needed.{Feeds, kept-exact}
use orcastork.Tests.SchedulingRuns.{flow}
use orcastork.Tests.MirrorRuns.{seen}

build_graph-edge_example : has_edge 10 11 (build_graph flow (10 ∷ 11 ∷ []) (20 ∷ [])) ≡ (
    (contains {A = Class} 11 (10 ∷ 11 ∷ 20 ∷ [])
      && (contains {A = Class} 10 (10 ∷ 11 ∷ [])
          && any
              (λ required. any_subclass flow (effective_produces flow 10) required)
              (flow.depends_on 11)))
    || (contains {A = Class} 11 (10 ∷ 11 ∷ 20 ∷ [])
        && (contains {A = Class} 10 (20 ∷ [])
            && any (λ required. flow.issubclass 10 required) (flow.requires 11))))
build_graph-edge_example = build_graph-edge flow 10 11 (10 ∷ 11 ∷ []) (20 ∷ [])

kept-exact_example :
    (contains {A = Class} 10 (keep_operators flow (10 ∷ 11 ∷ 12 ∷ []) (4 ∷ [])).operators ≡ true)
    ↔ Feeds flow (10 ∷ 11 ∷ 12 ∷ []) (4 ∷ []) 10
kept-exact_example = kept-exact flow (10 ∷ 11 ∷ 12 ∷ []) (4 ∷ []) 10

abbrev view : List DataPoint
view = seen "a" 1 ∷ seen "b" 2 ∷ seen "c" 2 ∷ []
