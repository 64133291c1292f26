-- ===== src/TaskGraph/Types.antt =====
-- packages/task-graph/src/types.ts and errors.ts: tasks, statuses, events and error codes.
use ai_development_os.Prelude.{ℕ, String, Bool, true, false, Option, List, Result, ℤ}
use ai_development_os.TaskGraph.Json.{Json}

-- Milliseconds; `text_ltb` of Domain/Instants compares them as canonical texts.
abbrev pub Timestamp : Type 0
Timestamp = ℕ

pub data TaskStatus : Type 0 where
  pending ready running waiting needs_resolution succeeded failed cancelled blocked : TaskStatus

pub data GraphStatus : Type 0 where
  planning active succeeded failed cancelled : GraphStatus

pub data ErrorCode : Type 0 where
  invalid_argument invalid_snapshot duplicate_task unknown_task graph_sealed : ErrorCode
  graph_not_sealed empty_graph cyclic_dependency graph_limit_exceeded : ErrorCode
  invalid_transition concurrency_conflict reentrant_mutation : ErrorCode

abbrev pub Checked : Type 0 → Type 0
Checked A = Result ErrorCode A

pub record TaskFailure : Type 0 where
  pub code : String
  pub message : String
  pub retryable : Bool

-- `MutableTask`, and the frozen `TaskNode` that copies it.
pub record Task : Type 0 where
  pub id : String
  pub kind : String
  pub title : String
  pub description : Option String
  pub dependencies : List String
  pub priority : ℤ
  pub metadata : Json
  pub status : TaskStatus
  pub blocked_by : List String
  pub output_artifact_ids : List String
  pub failure : Option TaskFailure
  pub order : ℕ
  pub created_at : Timestamp
  pub updated_at : Timestamp

pub record TaskDefinition : Type 0 where
  pub id : String
  pub kind : String
  pub title : String
  pub description : Option String
  pub dependencies : Option (List String)
  pub priority : Option ℤ
  pub metadata : Option Json

-- `PendingEvent`.
pub data Change : Type 0 where
  task_added : Task → Change
  dependency_added : (task_id dependency_id : String) → Change
  sealed_with : (task_count : ℕ) → Change
  task_status_changed :
      (task_id : String) (from to : TaskStatus) (reason : Option String) (task : Task) → Change
  graph_status_changed : (from to : GraphStatus) → Change

-- `TaskGraphEvent`.
pub record Event : Type 0 where
  pub graph_id : String
  pub project_id : String
  pub sequence : ℕ
  pub aggregate_version : ℕ
  pub event_index : ℕ
  pub event_count : ℕ
  pub occurred_at : Timestamp
  pub change : Change

-- `TERMINAL_STATUSES`.
abbrev pub is_terminal : TaskStatus → Bool
is_terminal succeeded = true
is_terminal failed = true
is_terminal cancelled = true
is_terminal blocked = true
is_terminal _ = false

-- `UNSUCCESSFUL_TERMINAL_STATUSES`.
abbrev pub is_unsuccessful : TaskStatus → Bool
is_unsuccessful failed = true
is_unsuccessful cancelled = true
is_unsuccessful blocked = true
is_unsuccessful _ = false

abbrev pub is_pending : TaskStatus → Bool
is_pending pending = true
is_pending _ = false

abbrev pub is_ready : TaskStatus → Bool
is_ready ready = true
is_ready _ = false

abbrev pub is_running : TaskStatus → Bool
is_running running = true
is_running _ = false

abbrev pub is_succeeded : TaskStatus → Bool
is_succeeded succeeded = true
is_succeeded _ = false

abbrev pub is_failed : TaskStatus → Bool
is_failed failed = true
is_failed _ = false

abbrev pub is_blocked : TaskStatus → Bool
is_blocked blocked = true
is_blocked _ = false
