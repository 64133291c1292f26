-- ===== src/TaskGraph/Graph/Snapshot.antt =====
-- packages/task-graph/src/task-graph.ts: snapshots. A snapshot to parse is a value of the declared
-- type; the checks of the types of its fields and of the form of its timestamps are left out.
use ai_development_os.Prelude.{
  ℕ, suc, String, Bool, true, false, not, ◌&&◌, ◌||◌, Option, none, some, List, [], ◌∷◌, map, ok,
  ◌>>=◌, ◌>>◌, guard, reject_if, ltb, nat_beq, string_eq, nat_eq, if◌then◌else◌, length, all,
  contains, map_result,
}
use ai_development_os.TaskGraph.Limits.{
  max_tasks, max_sequence, max_dependencies, max_output_artifacts,
}
use ai_development_os.TaskGraph.Types.{
  Task, TaskFailure, TaskStatus, ready, running, waiting, needs_resolution, succeeded, failed,
  Timestamp, Checked, invalid_snapshot, is_pending, is_succeeded, is_failed, is_blocked,
}
use ai_development_os.TaskGraph.Json.{clone_json_object}
use ai_development_os.TaskGraph.Topology.{topological_task_ids, assert_graph_edge_limit}
use ai_development_os.TaskGraph.Parsing.{
  assert_identifier, assert_kind, assert_integer, assert_priority, normalize_required_text,
  normalize_optional_text, parse_failure, parse_unique_identifiers,
}
use ai_development_os.TaskGraph.Graph.{Graph, ordered_tasks}
use ai_development_os.TaskGraph.Graph.Reconcile.{lookup_all, blockers}

pub record Snapshot : Type 0 where
  pub schema_version : ℕ
  pub graph_id : String
  pub project_id : String
  pub version : ℕ
  pub event_sequence : ℕ
  pub is_sealed : Bool
  pub created_at : Timestamp
  pub updated_at : Timestamp
  pub tasks : List Task

unfoldable pub to_snapshot : Graph → Snapshot
unfolding ordered_tasks
to_snapshot g = record {
  schema_version = 1;
  graph_id = g.graph_id;
  project_id = g.project_id;
  version = g.version;
  event_sequence = g.event_sequence;
  is_sealed = g.is_sealed;
  created_at = g.created_at;
  updated_at = g.updated_at;
  tasks = ordered_tasks g.tasks;
}

abbrev pub parse_optional_failure : Option TaskFailure → Checked (Option TaskFailure)
parse_optional_failure none = ok none
parse_optional_failure (some failure) =
    parse_failure invalid_snapshot failure >>= λ parsed. ok (some parsed)

unfoldable pub parse_snapshot_task : Task → Checked Task
parse_snapshot_task t = do
  reject_if (ltb t.updated_at t.created_at) invalid_snapshot
  id ← assert_identifier invalid_snapshot t.id
  kind ← assert_kind invalid_snapshot t.kind
  title ← normalize_required_text invalid_snapshot 300 t.title
  description ← normalize_optional_text invalid_snapshot 10000 t.description
  dependencies ← parse_unique_identifiers invalid_snapshot max_dependencies t.dependencies
  priority ← assert_priority invalid_snapshot t.priority
  metadata ← clone_json_object invalid_snapshot t.metadata
  blocked_by ← parse_unique_identifiers invalid_snapshot max_dependencies t.blocked_by
  outputs ← parse_unique_identifiers invalid_snapshot max_output_artifacts t.output_artifact_ids
  failure ← parse_optional_failure t.failure
  order ← assert_integer invalid_snapshot 0 9999 t.order
  ok (record {
    id = id;
    kind = kind;
    title = title;
    description = description;
    dependencies = dependencies;
    priority = priority;
    metadata = metadata;
    status = t.status;
    blocked_by = blocked_by;
    output_artifact_ids = outputs;
    failure = failure;
    order = order;
    created_at = t.created_at;
    updated_at = t.updated_at;
  })

abbrev pub is_none {ℓ} : {A : Type ℓ} → Option A → Bool
is_none none = true
is_none (some a) = false

abbrev pub is_empty {ℓ} : {A : Type ℓ} → List A → Bool
is_empty [] = true
is_empty (x ∷ xs) = false

-- The statuses that a task has only after all its dependencies succeeded.
abbrev pub needs_success : TaskStatus → Bool
needs_success ready = true
needs_success running = true
needs_success waiting = true
needs_success needs_resolution = true
needs_success succeeded = true
needs_success failed = true
needs_success _ = false

-- What `validateHydratedTaskStates` asks of a task of a graph in planning.
unfoldable pub is_untouched : Task → Bool
is_untouched t =
    is_pending t.status
    && (is_empty t.blocked_by && (is_empty t.output_artifact_ids && is_none t.failure))

abbrev pub has_valid_blockers : List String → Task → Bool
has_valid_blockers unsuccessful t =
    if is_blocked t.status
    then not (is_empty t.blocked_by) && all (λ i. contains unsuccessful i) t.blocked_by
    else is_empty t.blocked_by

abbrev pub has_valid_outcome : Task → Bool
has_valid_outcome t =
    (if is_failed t.status then not (is_none t.failure) else is_none t.failure)
    && (is_succeeded t.status || is_empty t.output_artifact_ids)

-- A pending task waits: not all that it depends on has succeeded, and none of it has ended otherwise.
abbrev pub is_reconciled : List Task → Task → Bool
is_reconciled dependencies t = not (
    is_pending t.status
    && (all (λ d. is_succeeded d.status) dependencies || not (is_empty (blockers dependencies))))

-- What it asks of a task of a sealed graph, given the tasks that it depends on.
unfoldable pub is_consistent : List Task → Task → Bool
is_consistent dependencies t =
    let all_succeeded = all (λ d. is_succeeded d.status) dependencies in
    is_reconciled dependencies t
    && (not (needs_success t.status && not all_succeeded)
        && (has_valid_blockers (blockers dependencies) t && has_valid_outcome t))

unfoldable pub is_valid_state : List Task → Bool → Task → Bool
unfolding is_untouched is_consistent
is_valid_state tasks sealed t =
    if sealed then is_consistent (lookup_all tasks t.dependencies) t else is_untouched t

unfoldable pub validate_hydrated_task_states : List Task → Bool → Checked (Unit {0})
unfolding is_valid_state
validate_hydrated_task_states tasks sealed =
    guard (all (is_valid_state tasks sealed) tasks) invalid_snapshot

unfoldable pub is_contiguous : ℕ → List Task → Bool
is_contiguous index [] = true
is_contiguous index (t ∷ ts) = nat_beq t.order index && is_contiguous (suc index) ts

-- The loop that fills the `Map`.
unfoldable pub check_tasks : Snapshot → List String → List Task → Checked (Unit {0})
check_tasks s seen [] = ok tt
check_tasks s seen (t ∷ ts) = do
  reject_if (contains seen t.id) invalid_snapshot
  reject_if (ltb t.created_at s.created_at || ltb s.updated_at t.updated_at) invalid_snapshot
  check_tasks s (t.id ∷ seen) ts

unfoldable pub latest_update : Timestamp → List Task → Timestamp
latest_update maximum [] = maximum
latest_update maximum (t ∷ ts) =
    latest_update (if ltb maximum t.updated_at then t.updated_at else maximum) ts

-- The checks of the numbers of the graph against its tasks.
unfoldable pub check_versions : Snapshot → List Task → Checked (Unit {0})
unfolding latest_update
check_versions s tasks = do
  reject_if (ltb s.event_sequence s.version) invalid_snapshot
  reject_if
      (nat_beq (length tasks) 0
        && (not (nat_beq s.version 0) || (not (nat_beq s.event_sequence 0) || s.is_sealed)))
      invalid_snapshot
  reject_if (not (nat_beq (length tasks) 0) && nat_beq s.version 0) invalid_snapshot
  reject_if (s.is_sealed && ltb s.version 2) invalid_snapshot
  guard (nat_beq (latest_update s.created_at tasks) s.updated_at) invalid_snapshot

unfoldable pub parse_snapshot : Snapshot → Checked (Snapshot × List Task)
unfolding ordered_tasks parse_snapshot_task is_contiguous check_tasks check_versions
    validate_hydrated_task_states
parse_snapshot s = do
  guard (nat_beq s.schema_version 1) invalid_snapshot
  graph_id ← assert_identifier invalid_snapshot s.graph_id
  project_id ← assert_identifier invalid_snapshot s.project_id
  version ← assert_integer invalid_snapshot 0 max_sequence s.version
  event_sequence ← assert_integer invalid_snapshot 0 max_sequence s.event_sequence
  reject_if (ltb s.updated_at s.created_at) invalid_snapshot
  reject_if (ltb max_tasks (length s.tasks)) invalid_snapshot
  parsed ← map_result parse_snapshot_task s.tasks
  let tasks = ordered_tasks parsed
  guard (is_contiguous 0 tasks) invalid_snapshot
  check_tasks s [] tasks
  check_versions s tasks
  guard (all (λ t. all (λ d. contains (map (λ (u : Task). u.id) tasks) d) t.dependencies) tasks)
      invalid_snapshot
  assert_graph_edge_limit invalid_snapshot tasks
  ordered ← topological_task_ids invalid_snapshot invalid_snapshot tasks
  validate_hydrated_task_states tasks s.is_sealed
  ok (record s { tasks = tasks }, tasks)

abbrev pub order_after : List Task → ℕ
order_after [] = 0
order_after (t ∷ ts) = let rest = order_after ts in if ltb t.order rest then rest else suc t.order

unfoldable pub hydrate : Snapshot → Checked Graph
unfolding parse_snapshot
hydrate value = do
  parsed ← parse_snapshot value
  let (snapshot, tasks) = parsed
  ok (record {
    graph_id = snapshot.graph_id;
    project_id = snapshot.project_id;
    tasks = tasks;
    version = snapshot.version;
    event_sequence = snapshot.event_sequence;
    is_sealed = snapshot.is_sealed;
    created_at = snapshot.created_at;
    updated_at = snapshot.updated_at;
    events = [];
    next_order = order_after tasks;
    clock_active = false;
  })
