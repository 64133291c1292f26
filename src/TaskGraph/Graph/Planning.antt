-- ===== src/TaskGraph/Graph/Planning.antt =====
-- packages/task-graph/src/task-graph.ts: the commands before the graph is sealed, and `seal`.
use ai_development_os.Prelude.{
  ℕ, ◌+◌, String, true, Option, List, [], ◌∷◌, ◌++◌, map, ok, ◌>>=◌, ◌>>◌, guard, reject_if, ltb,
  leb, nat_beq, ◌==◌, string_eq, length, all, contains,
}
use ai_development_os.TaskGraph.Limits.{max_tasks, max_dependencies}
use ai_development_os.TaskGraph.Types.{
  Task, TaskDefinition, Change, task_added, dependency_added, sealed_with, Timestamp, Checked,
  invalid_argument, duplicate_task, unknown_task, empty_graph, cyclic_dependency,
  graph_limit_exceeded,
}
use ai_development_os.TaskGraph.Topology.{topological_task_ids, assert_graph_edge_limit}
use ai_development_os.TaskGraph.Parsing.{parse_task_definition, parse_expected_version}
use ai_development_os.TaskGraph.Graph.{
  Graph, Clock, put_task, require_task, assert_not_reentrant_mutation, assert_planning,
  assert_expected_version, read_timestamp, calculate_graph_status, commit,
}
use ai_development_os.TaskGraph.Graph.Reconcile.{reconcile_pending_tasks}

-- The checks that each command of a graph in planning begins with.
unfoldable pub begin_planning : Graph → Option ℕ → Checked (Unit {0})
begin_planning g expected_version = do
  assert_not_reentrant_mutation g
  assert_planning g
  expected ← parse_expected_version expected_version
  assert_expected_version g expected

-- The first loop of `addTasks`: each definition is parsed, and then its id must be new.
unfoldable pub parse_definitions :
    List String → ℕ → Timestamp → List TaskDefinition → Checked (List Task)
parse_definitions candidate_ids order timestamp [] = ok []
parse_definitions candidate_ids order timestamp (d ∷ ds) = do
  task ← parse_task_definition d order timestamp
  reject_if (contains candidate_ids task.id) duplicate_task
  rest ← parse_definitions (candidate_ids ++ task.id ∷ []) (order + 1) timestamp ds
  ok (task ∷ rest)

-- The second loop: every dependency is known.
unfoldable pub check_dependencies : List String → List Task → Checked (Unit {0})
check_dependencies candidate_ids [] = ok tt
check_dependencies candidate_ids (t ∷ ts) = do
  guard (all (λ d. contains candidate_ids d) t.dependencies) unknown_task
  check_dependencies candidate_ids ts

abbrev pub added : List Task → List Change
added parsed = map (λ t. task_added t) parsed

unfoldable pub add_tasks :
    Clock → Graph → List TaskDefinition → Option ℕ → Checked (Graph × List Task)
unfolding begin_planning parse_definitions check_dependencies
add_tasks clock g definitions expected_version = do
  begin_planning g expected_version
  reject_if (ltb max_tasks (length definitions)) invalid_argument
  reject_if (nat_beq (length definitions) 0) invalid_argument
  reject_if (ltb max_tasks (length g.tasks + length definitions)) graph_limit_exceeded
  timestamp ← read_timestamp clock g
  parsed ← parse_definitions (map (λ (t : Task). t.id) g.tasks) g.next_order timestamp definitions
  let candidate = g.tasks ++ parsed
  check_dependencies (map (λ (t : Task). t.id) candidate) parsed
  assert_graph_edge_limit graph_limit_exceeded candidate
  ordered ← topological_task_ids cyclic_dependency graph_limit_exceeded candidate
  ok (
    commit (record g { tasks = candidate; next_order = g.next_order + length parsed }) timestamp
        (calculate_graph_status g) (added parsed),
    parsed,
  )

unfoldable pub with_dependency : Task → String → Task
with_dependency t dependency_id = record t { dependencies = t.dependencies ++ dependency_id ∷ [] }

unfoldable pub add_dependency : Clock → Graph → String → String → Option ℕ → Checked Graph
unfolding begin_planning with_dependency
add_dependency clock g task_id dependency_id expected_version = do
  begin_planning g expected_version
  task ← require_task g task_id
  dependency ← require_task g dependency_id
  reject_if (task.id == dependency_id) cyclic_dependency
  reject_if (contains task.dependencies dependency_id) invalid_argument
  reject_if (leb max_dependencies (length task.dependencies)) graph_limit_exceeded
  let candidate = put_task g.tasks (with_dependency task dependency_id)
  assert_graph_edge_limit graph_limit_exceeded candidate
  ordered ← topological_task_ids cyclic_dependency graph_limit_exceeded candidate
  timestamp ← read_timestamp clock g
  let changed : Task = record (with_dependency task dependency_id) { updated_at = timestamp }
  ok (
      commit (record g { tasks = put_task g.tasks changed }) timestamp (calculate_graph_status g)
        (dependency_added task.id dependency_id ∷ []))

unfoldable pub seal : Clock → Graph → Option ℕ → Checked Graph
unfolding begin_planning
seal clock g expected_version = do
  begin_planning g expected_version
  reject_if (nat_beq (length g.tasks) 0) empty_graph
  timestamp ← read_timestamp clock g
  state ← reconcile_pending_tasks timestamp g.tasks (sealed_with (length g.tasks) ∷ [])
  ok (
      commit (record g { is_sealed = true; tasks = state.0 }) timestamp (calculate_graph_status g)
        state.1)
