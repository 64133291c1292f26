-- ===== src/TaskGraph/Graph/Execution.antt =====
-- packages/task-graph/src/task-graph.ts: the commands of a sealed graph, which move its tasks
-- between their statuses.
use ai_development_os.Prelude.{
  String, Bool, true, false, not, ◌||◌, Option, none, some, List, [], ◌∷◌, ◌++◌, ok, ◌>>=◌, ◌>>◌,
  filter,
}
use ai_development_os.TaskGraph.Limits.{max_output_artifacts}
use ai_development_os.TaskGraph.Types.{
  Task, TaskStatus, running, waiting, needs_resolution, succeeded, failed, cancelled, TaskFailure,
  Change, Timestamp, Checked, invalid_argument, is_terminal, is_pending, is_ready, is_running,
}
use ai_development_os.TaskGraph.Parsing.{
  MutationOptions, parse_mutation_options, parse_failure, parse_unique_identifiers,
}
use ai_development_os.TaskGraph.Graph.{
  Graph, Clock, put_task, ordered_tasks, require_task, assert_not_reentrant_mutation,
  assert_execution, assert_expected_version, assert_transition, read_timestamp,
  calculate_graph_status, set_task_status, commit,
}
use ai_development_os.TaskGraph.Graph.Reconcile.{reconcile_pending_tasks}

-- The checks that each command of a sealed graph begins with. They return the normalized reason.
unfoldable pub begin_execution : Graph → MutationOptions → Checked (Option String)
begin_execution g options = do
  assert_not_reentrant_mutation g
  assert_execution g
  parsed ← parse_mutation_options options
  assert_expected_version g parsed.expected_version
  ok parsed.reason

unfoldable pub perform_transition :
    Clock
    → Graph
    → String
    → (TaskStatus → Bool)
    → TaskStatus
    → MutationOptions
    → Checked (Graph × Task)
unfolding begin_execution
perform_transition clock g task_id allowed_from target options = do
  reason ← begin_execution g options
  task ← require_task g task_id
  assert_transition task allowed_from
  timestamp ← read_timestamp clock g
  let (changed, change) = set_task_status task target timestamp reason
  ok (
    commit (record g { tasks = put_task g.tasks changed }) timestamp (calculate_graph_status g)
        (change ∷ []),
    changed,
  )

abbrev pub is_paused : TaskStatus → Bool
is_paused waiting = true
is_paused needs_resolution = true
is_paused _ = false

-- The statuses that `failTask` allows.
abbrev pub is_failable : TaskStatus → Bool
is_failable s = is_ready s || (is_running s || is_paused s)

-- The statuses that `cancelTask` allows.
abbrev pub is_cancellable : TaskStatus → Bool
is_cancellable s = is_pending s || is_failable s

abbrev pub start_task : Clock → Graph → String → MutationOptions → Checked (Graph × Task)
start_task clock g task_id options = perform_transition clock g task_id is_ready running options

abbrev pub mark_task_waiting : Clock → Graph → String → MutationOptions → Checked (Graph × Task)
mark_task_waiting clock g task_id options =
    perform_transition clock g task_id is_running waiting options

abbrev pub mark_task_needs_resolution :
    Clock → Graph → String → MutationOptions → Checked (Graph × Task)
mark_task_needs_resolution clock g task_id options =
    perform_transition clock g task_id is_running needs_resolution options

abbrev pub resume_task : Clock → Graph → String → MutationOptions → Checked (Graph × Task)
resume_task clock g task_id options = perform_transition clock g task_id is_paused running options

-- What `succeedTask`, `failTask` and `cancelTask` do once their arguments are checked: the outcome is
-- written into the task, its status is set, and the tasks that wait for it are reconciled.
unfoldable pub settle_task :
    Clock
    → Graph
    → Task
    → List String
    → Option TaskFailure
    → TaskStatus
    → Option String
    → Checked (Graph × Task)
settle_task clock g task output_artifact_ids failure target reason = do
  timestamp ← read_timestamp clock g
  let outcome : Task = record task {
    output_artifact_ids = output_artifact_ids;
    failure = failure;
    blocked_by = [];
  }
  let (changed, change) = set_task_status outcome target timestamp reason
  state ← reconcile_pending_tasks timestamp (put_task g.tasks changed) (change ∷ [])
  ok (commit (record g { tasks = state.0 }) timestamp (calculate_graph_status g) state.1, changed)

unfoldable pub succeed_task :
    Clock → Graph → String → List String → MutationOptions → Checked (Graph × Task)
unfolding begin_execution settle_task
succeed_task clock g task_id output_artifact_ids options = do
  reason ← begin_execution g options
  task ← require_task g task_id
  assert_transition task is_running
  outputs ← parse_unique_identifiers invalid_argument max_output_artifacts output_artifact_ids
  settle_task clock g task outputs none succeeded reason

abbrev pub reason_or_message : Option String → TaskFailure → String
reason_or_message none failure = failure.message
reason_or_message (some reason) failure = reason

unfoldable pub fail_task :
    Clock → Graph → String → TaskFailure → MutationOptions → Checked (Graph × Task)
unfolding begin_execution settle_task
fail_task clock g task_id failure options = do
  reason ← begin_execution g options
  task ← require_task g task_id
  assert_transition task is_failable
  parsed ← parse_failure invalid_argument failure
  settle_task clock g task [] (some parsed) failed (some (reason_or_message reason parsed))

unfoldable pub cancel_task : Clock → Graph → String → MutationOptions → Checked (Graph × Task)
unfolding begin_execution settle_task
cancel_task clock g task_id options = do
  reason ← begin_execution g options
  task ← require_task g task_id
  assert_transition task is_cancellable
  settle_task clock g task [] none cancelled reason

-- The loop of `cancelRemaining`.
unfoldable pub cancel_each :
    Timestamp → Option String → List Task → List Task × List Change → List Task × List Change
cancel_each timestamp reason [] state = state
cancel_each timestamp reason (t ∷ ts) (tasks, pending) =
    let cleared : Task = record t { failure = none; output_artifact_ids = []; blocked_by = [] } in
    let (changed, change) = set_task_status cleared cancelled timestamp reason in
    cancel_each timestamp reason ts (put_task tasks changed, pending ++ change ∷ [])

unfoldable pub cancel_remaining : Clock → Graph → MutationOptions → Checked Graph
unfolding begin_execution cancel_each
cancel_remaining clock g options = do
  reason ← begin_execution g options
  elim (filter (λ t. not (is_terminal t.status)) (ordered_tasks g.tasks)) [
    | [] ↦ ok g
    | t ∷ ts ↦ do
      timestamp ← read_timestamp clock g
      let state = cancel_each timestamp reason (t ∷ ts) (g.tasks, [])
      ok (commit (record g { tasks = state.0 }) timestamp (calculate_graph_status g) state.1)
  ]
