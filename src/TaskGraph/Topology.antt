-- ===== src/TaskGraph/Topology.antt =====
-- packages/task-graph/src/task-graph.ts: `topologicalTaskIds`, which orders the tasks by their
-- dependencies, and `assertGraphEdgeLimit`. The tasks are the values of the `Map`, in the order in
-- which they were inserted. The maps of the algorithm are functions of the id.
pub mod Counting
pub mod Invariant
pub mod Start
pub mod Drain
pub mod Order
pub mod Erasure
pub mod Least
pub mod Unique
pub mod Cycle
use ai_development_os.Prelude.{
  ℕ, zero, suc, ◌+◌, ◌-◌, ◌≡◌, String, Bool, true, false, Option, none, some, List, [], ◌∷◌, ◌++◌,
  Result, ok, err, ◌>>=◌, ◌>>◌, guard, reject_if, ltb, nat_beq, ◌==◌, string_eq, nat_eq,
  if◌then◌else◌, length,
}
use ai_development_os.TaskGraph.Limits.{max_depth, max_edges}
use ai_development_os.TaskGraph.Types.{Task, ErrorCode, Checked}
use ai_development_os.TaskGraph.Heap.{push, pop}

-- `map.set(key, value)`.
abbrev pub update {ℓ} : {V : Type ℓ} → (String → V) → String → V → String → V
update m key value other = if key == other then value else m other

-- The first loop: how many dependencies each task has, and which tasks depend on it.
unfoldable pub indegrees : (String → ℕ) → List Task → String → ℕ
indegrees m [] = m
indegrees m (t ∷ ts) = indegrees (update m t.id (length t.dependencies)) ts

unfoldable pub add_dependent : Task → List String → (String → List Task) → String → List Task
add_dependent t [] m = m
add_dependent t (d ∷ ds) m = add_dependent t ds (update m d (m d ++ t ∷ []))

unfoldable pub dependents_of : (String → List Task) → List Task → String → List Task
unfolding add_dependent
dependents_of m [] = m
dependents_of m (t ∷ ts) = dependents_of (add_dependent t t.dependencies m) ts

-- The variables of the loop.
pub record Kahn : Type 0 where
  pub indegree : String → ℕ
  pub depths : String → Option ℕ
  pub queue : List Task
  pub ordered : List String

-- The second loop: the tasks with no dependency are free at once.
unfoldable pub enqueue_free : Kahn → List Task → Kahn
enqueue_free k [] = k
enqueue_free k (t ∷ ts) =
    enqueue_free
      (if k.indegree t.id == 0
        then record k { depths = update k.depths t.id (some 1); queue = push k.queue t }
        else k)
      ts

abbrev pub depth_or_one : Option ℕ → ℕ
depth_or_one none = 1
depth_or_one (some depth) = depth

-- The body of the inner loop, for a task that depends on `id`. In the source the count goes below
-- zero where this one stays, and neither is then the 0 that frees a task.
unfoldable pub visit_dependent : ErrorCode → String → Task → Kahn → Checked Kahn
visit_dependent limit_code id dependent k = do
  let depth = depth_or_one (k.depths id) + 1
  let depths =
      if ltb (depth_or_one (k.depths dependent.id)) depth
      then update k.depths dependent.id (some depth)
      else k.depths
  reject_if (ltb max_depth depth) limit_code
  ok (record k {
    indegree = update k.indegree dependent.id (k.indegree dependent.id - 1);
    depths = depths;
    queue = if k.indegree dependent.id == 1 then push k.queue dependent else k.queue;
  })

unfoldable pub visit_dependents : ErrorCode → String → List Task → Kahn → Checked Kahn
unfolding visit_dependent
visit_dependents limit_code id [] k = ok k
visit_dependents limit_code id (t ∷ ts) k =
    visit_dependent limit_code id t k >>= λ next. visit_dependents limit_code id ts next

-- `while (queue.size > 0)`. A task is queued at most once, so as many rounds as there are tasks
-- are enough.
unfoldable pub drain : ErrorCode → (String → List Task) → ℕ → Kahn → Checked Kahn
unfolding visit_dependents
drain limit_code dependents zero k = ok k
drain limit_code dependents (suc fuel) k = elim (pop k.queue) [
  | none ↦ ok k
  | some (task, rest) ↦
      visit_dependents limit_code task.id (dependents task.id)
        (record k { queue = rest; ordered = k.ordered ++ task.id ∷ [] })
      >>= λ next. drain limit_code dependents fuel next
]

abbrev pub no_dependents : String → List Task
no_dependents id = []

unfoldable pub start_of : List Task → Kahn
unfolding indegrees enqueue_free
start_of tasks =
    enqueue_free
      (record { indegree = indegrees (λ _. 0) tasks; depths = λ _. none; queue = []; ordered = [] })
      tasks

unfoldable pub topological_task_ids : ErrorCode → ErrorCode → List Task → Checked (List String)
unfolding dependents_of start_of drain
topological_task_ids cycle_code limit_code tasks = do
  k ← drain limit_code (dependents_of no_dependents tasks) (length tasks) (start_of tasks)
  guard (length k.ordered == length tasks) cycle_code
  ok k.ordered

unfoldable pub check_edges : ErrorCode → ℕ → List Task → Checked (Unit {0})
check_edges code count [] = ok tt
check_edges code count (t ∷ ts) = do
  reject_if (ltb max_edges (count + length t.dependencies)) code
  check_edges code (count + length t.dependencies) ts

unfoldable pub assert_graph_edge_limit : ErrorCode → List Task → Checked (Unit {0})
assert_graph_edge_limit code tasks = check_edges code 0 tasks
