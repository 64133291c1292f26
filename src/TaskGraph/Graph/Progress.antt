-- ===== src/TaskGraph/Graph/Progress.antt =====
-- packages/task-graph/src/task-graph.ts: a graph that is active can go on.
use ai_development_os.Prelude.{◌≡◌, true, not, string_eq, any, arith}
use ai_development_os.TaskGraph.Types.{GraphStatus, is_terminal}
use ai_development_os.TaskGraph.Graph.{Graph, calculate_graph_status}
use ai_development_os.TaskGraph.Graph.Execution.{is_failable}
use ai_development_os.TaskGraph.Graph.Machine.{Reachable}
use ai_development_os.TaskGraph.Graph.Numbering.{Reachable-IsNumbered}
use ai_development_os.TaskGraph.Graph.Hydration.{Reachable-IsValid}
use ai_development_os.TaskGraph.Graph.Waits.{AreConsistent-failable}
use ai_development_os.TaskGraph.Graph.Returns.{Reachable-AreOrderable}

active_parts :
    (g : Graph)
    → calculate_graph_status g ≡ GraphStatus.active
    → (g.is_sealed ≡ true) × (any (λ t. not (is_terminal t.status)) g.tasks ≡ true)
unfolding calculate_graph_status
active_parts g h = (ground (arith, h), ground (arith, h))

-- A graph that `create` and the commands lead to is never stuck: while its status is active, it has a
-- task that is ready, running, waiting or in need of a resolution.
pub Reachable-progresses :
    (g : Graph)
    → Reachable g
    → calculate_graph_status g ≡ GraphStatus.active
    → any (λ t. is_failable t.status) g.tasks ≡ true
Reachable-progresses g r active =
    let (closed, some_open) = active_parts g active in
    AreConsistent-failable g.tasks (Reachable-IsNumbered g r).0.distinct
      (Reachable-IsValid g r closed) ((Reachable-AreOrderable g r).0).1 some_open
