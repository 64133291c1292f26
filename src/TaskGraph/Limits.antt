-- ===== src/TaskGraph/Limits.antt =====
-- packages/task-graph/src/types.ts: `TASK_GRAPH_LIMITS`, and the safe integers.
use ai_development_os.Prelude.{ℕ}

abbrev pub max_tasks : ℕ
max_tasks = 10000

abbrev pub max_dependencies : ℕ
max_dependencies = 256

abbrev pub max_edges : ℕ
max_edges = 100000

abbrev pub max_depth : ℕ
max_depth = 128

abbrev pub max_output_artifacts : ℕ
max_output_artifacts = 1000

-- Number.MAX_SAFE_INTEGER.
abbrev pub max_sequence : ℕ
max_sequence = 9007199254740991
