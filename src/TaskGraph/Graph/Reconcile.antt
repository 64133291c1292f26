-- ===== src/TaskGraph/Graph/Reconcile.antt =====
-- packages/task-graph/src/task-graph.ts: `#reconcilePendingTasks`.
use Prim.Native.String
use ai_development_os.Prelude.{
  String, not, Option, none, some, List, [], ◌∷◌, ◌++◌, map, ok, ◌>>=◌, string_eq, if◌then◌else◌,
  filter, all,
}
use ai_development_os.TaskGraph.Types.{
  Task, blocked, ready, Change, Timestamp, Checked, cyclic_dependency, graph_limit_exceeded,
  is_unsuccessful, is_pending, is_succeeded,
}
use ai_development_os.TaskGraph.Topology.{topological_task_ids}
use ai_development_os.TaskGraph.Graph.{get_task, put_task, set_task_status}

-- `ids.map((id) => this.#tasks.get(id)!)`: the ids are those of tasks of the graph.
unfoldable pub lookup_all : List Task → List String → List Task
lookup_all tasks [] = []
lookup_all tasks (i ∷ is) = elim (get_task tasks i) [
  | none ↦ lookup_all tasks is
  | some t ↦ t ∷ lookup_all tasks is
]

-- `ids.join(", ")`.
unfoldable pub join_ids : List String → String
join_ids [] = ""
join_ids (i ∷ []) = i
join_ids (i ∷ j ∷ is) = String.◌++◌ i (String.◌++◌ ", " (join_ids (j ∷ is)))

abbrev pub blocked_reason : List String → String
blocked_reason blocked_by =
    String.◌++◌ "Blocked by unsuccessful dependencies: " (join_ids blocked_by)

abbrev pub blockers : List Task → List String
blockers dependencies = map (λ t. t.id) (filter (λ t. is_unsuccessful t.status) dependencies)

-- What becomes of a pending task, given its dependencies.
unfoldable pub reconciled : List Task → Timestamp → Task → Option (Task × Change)
reconciled dependencies timestamp t = elim (blockers dependencies) [
  | [] ↦
      if all (λ d. is_succeeded d.status) dependencies
      then some (set_task_status (record t { blocked_by = [] }) ready timestamp none)
      else none
  | i ∷ is ↦ some (
      set_task_status (record t { blocked_by = i ∷ is }) blocked timestamp
        (some (blocked_reason (i ∷ is))))
]

-- The body of the loop.
unfoldable pub reconcile_task :
    Timestamp → String → List Task × List Change → List Task × List Change
unfolding lookup_all reconciled
reconcile_task timestamp id (tasks, pending) = elim (get_task tasks id) [
  | none ↦ (tasks, pending)
  | some t ↦
      if not (is_pending t.status)
      then (tasks, pending)
      else elim (reconciled (lookup_all tasks t.dependencies) timestamp t) [
        | none ↦ (tasks, pending)
        | some (changed, change) ↦ (put_task tasks changed, pending ++ change ∷ [])
      ]
]

unfoldable pub reconcile_each :
    Timestamp → List String → List Task × List Change → List Task × List Change
unfolding reconcile_task
reconcile_each timestamp [] state = state
reconcile_each timestamp (i ∷ is) state =
    reconcile_each timestamp is (reconcile_task timestamp i state)

unfoldable pub reconcile_pending_tasks :
    Timestamp → List Task → List Change → Checked (List Task × List Change)
unfolding reconcile_each
reconcile_pending_tasks timestamp tasks pending =
    topological_task_ids cyclic_dependency graph_limit_exceeded tasks >>= λ ids.
    ok (reconcile_each timestamp ids (tasks, pending))
