-- ===== src/TaskGraph/Graph/Machine.antt =====
-- packages/task-graph/src/task-graph.ts: the class `TaskGraph` as a machine, all its commands as one.
use ai_development_os.Prelude.{ℕ, ◌≡◌, String, Option, List, ok, ◌>>=◌}
use ai_development_os.TaskGraph.Types.{TaskDefinition, TaskFailure, Timestamp, Checked}
use ai_development_os.TaskGraph.Parsing.{MutationOptions}
use ai_development_os.TaskGraph.Graph.{Graph, Clock, create, acknowledge_events}
use ai_development_os.TaskGraph.Graph.Planning.{add_tasks, add_dependency, seal}
use ai_development_os.TaskGraph.Graph.Execution.{
  start_task, mark_task_waiting, mark_task_needs_resolution, resume_task, succeed_task, fail_task,
  cancel_task, cancel_remaining,
}

-- The calls that change a graph.
pub data Command : Type 0 where
  add : (definitions : List TaskDefinition) (expected_version : Option ℕ) → Command
  depend : (task_id dependency_id : String) (expected_version : Option ℕ) → Command
  close : (expected_version : Option ℕ) → Command
  start : (task_id : String) (options : MutationOptions) → Command
  wait : (task_id : String) (options : MutationOptions) → Command
  escalate : (task_id : String) (options : MutationOptions) → Command
  resume : (task_id : String) (options : MutationOptions) → Command
  succeed : (task_id : String) (outputs : List String) (options : MutationOptions) → Command
  fail : (task_id : String) (failure : TaskFailure) (options : MutationOptions) → Command
  cancel : (task_id : String) (options : MutationOptions) → Command
  cancel_rest : (options : MutationOptions) → Command
  acknowledge : (through_sequence : ℕ) → Command

-- The graph after the call.
abbrev pub graph_of : {A : Type 0} → Checked (Graph × A) → Checked Graph
graph_of result = result >>= λ pair. ok (pair.0)

unfoldable pub apply : Clock → Graph → Command → Checked Graph
apply clock g (add definitions v) = graph_of (add_tasks clock g definitions v)
apply clock g (depend task_id dependency_id v) = add_dependency clock g task_id dependency_id v
apply clock g (close v) = seal clock g v
apply clock g (start task_id o) = graph_of (start_task clock g task_id o)
apply clock g (wait task_id o) = graph_of (mark_task_waiting clock g task_id o)
apply clock g (escalate task_id o) = graph_of (mark_task_needs_resolution clock g task_id o)
apply clock g (resume task_id o) = graph_of (resume_task clock g task_id o)
apply clock g (succeed task_id outputs o) = graph_of (succeed_task clock g task_id outputs o)
apply clock g (fail task_id failure o) = graph_of (fail_task clock g task_id failure o)
apply clock g (cancel task_id o) = graph_of (cancel_task clock g task_id o)
apply clock g (cancel_rest o) = cancel_remaining clock g o
apply clock g (acknowledge n) = graph_of (acknowledge_events g n)

-- The graphs that `create` and the commands lead to.
pub data Reachable : Graph → Type 0 where
  created :
      {g : Graph} (graph_id project_id : String) (reading : Option Timestamp)
      → create graph_id project_id reading ≡ ok g
      → Reachable g
  commanded :
      {g g' : Graph} (clock : Clock) (c : Command)
      → Reachable g
      → apply clock g c ≡ ok g'
      → Reachable g'
