-- ===== src/TaskGraph/Graph.antt =====
-- packages/task-graph/src/task-graph.ts: the class `TaskGraph`, its private fields, its getters and
-- the private methods that its commands share. A method that changes the graph takes the graph and
-- returns the changed one. `#tasks` is the list of the values of the `Map`, in the order of insertion.
pub mod Reconcile
pub mod Planning
pub mod Execution
pub mod Snapshot
pub mod States
pub mod Lasting
pub mod Moves
pub mod Arrivals
pub mod Machine
pub mod Shapes
pub mod Commits
pub mod PlanningCommits
pub mod Steps
pub mod Numbering
pub mod Versions
pub mod Hydration
pub mod Returns
pub mod Progress
pub mod Settling
pub mod Waiting
pub mod Consistency
pub mod Keeping
pub mod Sorting
pub mod Orders
pub mod Waits
pub mod Filed
pub mod Touched
pub mod Filing
pub mod Refusals
use ai_development_os.Prelude.{
  ℕ, zero, suc, ◌+◌, ◌-◌, ◌≡◌, String, Bool, true, false, not, ◌&&◌, ◌||◌, Option, none, some, List,
  [], ◌∷◌, ◌++◌, map, Result, ok, err, ◌>>=◌, ◌>>◌, guard, reject_if, or_fail, ltb, leb, nat_beq,
  ◌==◌, string_eq, nat_eq, Eq, if◌then◌else◌, length, filter, find?, all, any, take, contains, ℤ,
  ltb_ℤ,
}
use ai_development_os.Domain.Instants.{year_10000, text_ltb, text_leb, text_leb_refl}
use ai_development_os.TaskGraph.Limits.{max_tasks, max_sequence}
use ai_development_os.TaskGraph.Types.{
  Task, TaskStatus, GraphStatus, ErrorCode, Checked, Change, task_status_changed,
  graph_status_changed, Event, Timestamp, invalid_argument, unknown_task, graph_sealed,
  graph_not_sealed, invalid_transition, concurrency_conflict, reentrant_mutation, is_terminal,
  is_ready, is_succeeded, is_failed,
}
use ai_development_os.TaskGraph.Topology.{topological_task_ids}
use ai_development_os.TaskGraph.Parsing.{assert_identifier, assert_integer, parse_ready_limit}

pub record Graph : Type 0 where
  pub graph_id : String
  pub project_id : String
  pub tasks : List Task
  pub version : ℕ
  pub event_sequence : ℕ
  pub is_sealed : Bool
  pub created_at : Timestamp
  pub updated_at : Timestamp
  pub events : List Event
  pub next_order : ℕ
  pub clock_active : Bool

-- The injected clock. It runs while the graph is in the state given to it, and returns no time where
-- its `Date` is invalid.
abbrev pub Clock : Type 0
Clock = Graph → Option Timestamp

unfoldable pub create : String → String → Option Timestamp → Checked Graph
create graph_id project_id reading = do
  timestamp ← or_fail reading invalid_argument
  graph_id' ← assert_identifier invalid_argument graph_id
  project_id' ← assert_identifier invalid_argument project_id
  ok (record {
    graph_id = graph_id';
    project_id = project_id';
    tasks = [];
    version = 0;
    event_sequence = 0;
    is_sealed = false;
    created_at = timestamp;
    updated_at = timestamp;
    events = [];
    next_order = 0;
    clock_active = false;
  })

-- `this.#tasks.get(id)`.
abbrev pub get_task : List Task → String → Option Task
get_task tasks id = find? (λ t. t.id == id) tasks

-- A change of the fields of the task, which the `Map` shares.
abbrev pub put_task : List Task → Task → List Task
put_task [] t = []
put_task (s ∷ tasks) t = (if s.id == t.id then t else s) ∷ put_task tasks t

-- `Array.prototype.sort`, which is stable: `precedes` is `compare(right, left) < 0`.
abbrev pub insert_by : (Task → Task → Bool) → Task → List Task → List Task
insert_by precedes t [] = t ∷ []
insert_by precedes t (s ∷ ts) =
    let later = insert_by precedes t ts in if precedes s t then s ∷ later else t ∷ s ∷ ts

abbrev pub sort_by : (Task → Task → Bool) → List Task → List Task
sort_by precedes [] = []
sort_by precedes (t ∷ ts) = insert_by precedes t (sort_by precedes ts)

abbrev pub order_precedes : Task → Task → Bool
order_precedes s t = ltb s.order t.order

unfoldable pub ordered_tasks : List Task → List Task
ordered_tasks tasks = sort_by order_precedes tasks

-- The larger priority first, and among equal ones the smaller order.
abbrev pub urgency_precedes : Task → Task → Bool
urgency_precedes s t =
    ltb_ℤ t.priority s.priority || (not (ltb_ℤ s.priority t.priority) && order_precedes s t)

unfoldable pub get_ready_tasks : Graph → Option ℕ → Checked (List Task)
unfolding ordered_tasks
get_ready_tasks g limit = parse_ready_limit limit >>= λ n.
    ok (take n (sort_by urgency_precedes (filter (λ t. is_ready t.status) (ordered_tasks g.tasks))))

unfoldable pub require_task : Graph → String → Checked Task
require_task g task_id = do
  id ← assert_identifier invalid_argument task_id
  or_fail (get_task g.tasks id) unknown_task

unfoldable pub assert_not_reentrant_mutation : Graph → Checked (Unit {0})
assert_not_reentrant_mutation g = reject_if g.clock_active reentrant_mutation

unfoldable pub assert_planning : Graph → Checked (Unit {0})
assert_planning g = reject_if g.is_sealed graph_sealed

unfoldable pub assert_execution : Graph → Checked (Unit {0})
assert_execution g = guard g.is_sealed graph_not_sealed

-- A command makes at most this many events.
abbrev pub max_events_for_command : ℕ
max_events_for_command = max_tasks + 3

unfoldable pub assert_expected_version : Graph → Option ℕ → Checked (Unit {0})
assert_expected_version g expected = do
  reject_if
      (leb max_sequence g.version || ltb (max_sequence - max_events_for_command) g.event_sequence)
      invalid_argument
  elim expected [
    | none ↦ ok tt
    | some v ↦ assert_integer invalid_argument 0 max_sequence v >>= λ version.
        guard (version == g.version) concurrency_conflict
  ]

unfoldable pub assert_transition : Task → (TaskStatus → Bool) → Checked (Unit {0})
assert_transition t allowed_from = guard (allowed_from t.status) invalid_transition

-- The clock runs with the flag set that refuses its own commands.
unfoldable pub read_timestamp : Clock → Graph → Checked Timestamp
unfolding assert_not_reentrant_mutation
read_timestamp clock g = do
  assert_not_reentrant_mutation g
  timestamp ← or_fail (clock (record g { clock_active = true })) invalid_argument
  reject_if (text_ltb timestamp g.updated_at) invalid_argument
  ok timestamp

unfoldable pub calculate_graph_status : Graph → GraphStatus
calculate_graph_status g =
    if not g.is_sealed
    then GraphStatus.planning
    else if all (λ t. is_succeeded t.status) g.tasks
    then GraphStatus.succeeded
    else if any (λ t. not (is_terminal t.status)) g.tasks
    then GraphStatus.active
    else if any (λ t. is_failed t.status) g.tasks
    then GraphStatus.failed
    else GraphStatus.cancelled

abbrev pub graph_status_code : GraphStatus → ℕ
graph_status_code GraphStatus.planning = 0
graph_status_code GraphStatus.active = 1
graph_status_code GraphStatus.succeeded = 2
graph_status_code GraphStatus.failed = 3
graph_status_code GraphStatus.cancelled = 4

-- The task with its new status, and the event that tells it.
unfoldable pub set_task_status : Task → TaskStatus → Timestamp → Option String → Task × Change
set_task_status t target timestamp reason =
    let changed : Task = record t { status = target; updated_at = timestamp } in
    (changed, task_status_changed t.id t.status target reason changed)

-- The events of one command, numbered on from `sequence`.
unfoldable pub number_events :
    Graph → Timestamp → (sequence index count : ℕ) → List Change → List Event
number_events g timestamp sequence index count [] = []
number_events g timestamp sequence index count (c ∷ cs) =
    record {
      graph_id = g.graph_id;
      project_id = g.project_id;
      sequence = suc sequence;
      aggregate_version = g.version;
      event_index = index;
      event_count = count;
      occurred_at = timestamp;
      change = c;
    }
    ∷ number_events g timestamp (suc sequence) (suc index) count cs

abbrev pub with_status_change : GraphStatus → GraphStatus → List Change → List Change
with_status_change previous next pending =
    if nat_beq (graph_status_code previous) (graph_status_code next)
    then pending
    else pending ++ graph_status_changed previous next ∷ []

unfoldable pub commit : Graph → Timestamp → GraphStatus → List Change → Graph
unfolding number_events
commit g timestamp previous pending =
    let moved : Graph = record g { version = suc g.version; updated_at = timestamp } in
    let changes = with_status_change previous (calculate_graph_status moved) pending in
    record moved {
      event_sequence = g.event_sequence + length changes;
      events =
          g.events ++ number_events moved timestamp g.event_sequence 0 (length changes) changes;
    }

unfoldable pub acknowledge_events : Graph → ℕ → Checked (Graph × ℕ)
unfolding assert_not_reentrant_mutation
acknowledge_events g through_sequence = do
  assert_not_reentrant_mutation g
  sequence ← assert_integer invalid_argument 0 g.event_sequence through_sequence
  let kept = filter (λ (e : Event). ltb sequence e.sequence) g.events
  ok (record g { events = kept }, length g.events - length kept)
