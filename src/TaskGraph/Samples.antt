-- ===== src/TaskGraph/Samples.antt =====
-- packages/task-graph/src/task-graph.ts: the tasks of the tests.
use ai_development_os.Prelude.{ℕ, nat_eq, String, none, List, [], ◌∷◌, string_eq, pos}
use ai_development_os.TaskGraph.Json.{null}
use ai_development_os.TaskGraph.Types.{Task, pending}

abbrev pub sample : String → List String → ℕ → Task
sample id dependencies order = record {
  id = id;
  kind = "work";
  title = "Work";
  description = none;
  dependencies = dependencies;
  priority = pos 0;
  metadata = null;
  status = pending;
  blocked_by = [];
  output_artifact_ids = [];
  failure = none;
  order = order;
  created_at = 0;
  updated_at = 0;
}

-- The second task waits for the third, and the third for the first.
abbrev pub chain : List Task
chain = sample "a" [] 0 ∷ sample "b" ("c" ∷ []) 1 ∷ sample "c" ("a" ∷ []) 2 ∷ []
