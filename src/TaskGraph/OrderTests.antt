-- ===== src/TaskGraph/OrderTests.antt =====
-- packages/task-graph/src/task-graph.ts: the theorems on the order of tasks, at concrete graphs.
use mathlib.Core.List.{Perm}
use ai_development_os.Prelude.{
  zero, suc, ◌≤◌, arith, nat_eq, ◌≡◌, ◌≢◌, some, refl, String, List, [], ◌∷◌, ok, err, string_eq,
  Nodup-of_is_nodup,
}
use ai_development_os.TaskGraph.Types.{Task, cyclic_dependency, graph_limit_exceeded}
use ai_development_os.TaskGraph.Heap
use ai_development_os.TaskGraph.Topology.{topological_task_ids}
use mathlib.Core.List.Perm
use mathlib.Core.List.{Mem}
use ai_development_os.TaskGraph.Heap.Edges.{IsHeap}
use ai_development_os.TaskGraph.Heap.Order.{pop_least}
use ai_development_os.TaskGraph.Topology.Least.{IsTaken, topological_task_ids-IsTaken}
use ai_development_os.TaskGraph.Topology.Unique.{orders, topological_task_ids_unique}
use ai_development_os.TaskGraph.Topology.Counting.{ids}
use ai_development_os.TaskGraph.Topology.Drain.{Along, IsOrdered}
use ai_development_os.TaskGraph.Topology.Order.{
  IsStuck, topological_task_ids-IsOrdered, topological_task_ids-IsStuck, KnowsAll-of_knows_all,
  IsStuck-of_any,
}
use ai_development_os.TaskGraph.Topology.Cycle.{topological_task_ids-cycle}
use ai_development_os.TaskGraph.Samples.{sample, chain}

abbrev chain_order : List String
chain_order = "a" ∷ "c" ∷ "b" ∷ []

chain-ordered : topological_task_ids cyclic_dependency graph_limit_exceeded chain ≡ ok chain_order
unfolding topological_task_ids Heap.pop Heap.push
chain-ordered = refl

topological_task_ids-IsOrdered_example :
    Perm chain_order (ids chain) × IsOrdered chain [] chain_order
topological_task_ids-IsOrdered_example =
    topological_task_ids-IsOrdered chain (Nodup-of_is_nodup (ids chain) refl) cyclic_dependency
      graph_limit_exceeded chain-ordered

-- Two tasks that wait for each other.
abbrev cycle : List Task
cycle = sample "a" ("b" ∷ []) 0 ∷ sample "b" ("a" ∷ []) 1 ∷ []

cycle-refused :
    topological_task_ids cyclic_dependency graph_limit_exceeded cycle ≡ err cyclic_dependency
unfolding topological_task_ids Heap.pop
cycle-refused = refl

topological_task_ids-cycle_example : (stuck : List Task) × IsStuck cycle stuck × (stuck ≢ [])
topological_task_ids-cycle_example =
    topological_task_ids-cycle cycle cyclic_dependency graph_limit_exceeded
      (Nodup-of_is_nodup (ids cycle) refl) (KnowsAll-of_knows_all cycle refl) (λ e. cc e)
      cycle-refused

topological_task_ids-IsStuck_example :
    topological_task_ids cyclic_dependency graph_limit_exceeded cycle ≢ ok ("a" ∷ "b" ∷ [])
topological_task_ids-IsStuck_example =
    topological_task_ids-IsStuck cycle cycle cyclic_dependency graph_limit_exceeded
      (Nodup-of_is_nodup (ids cycle) refl) (IsStuck-of_any cycle cycle (λ t m. m) refl) (λ e. cc e)
      ("a" ∷ "b" ∷ [])

chain-in_order : IsHeap chain
chain-in_order (suc zero) p q = omega arith
chain-in_order (suc (suc zero)) p q = omega arith
chain-in_order (suc (suc (suc c))) p q = absurd (omega arith)
chain-in_order zero p q = absurd (omega arith)

popped :
    Heap.pop chain ≡ some (sample "a" [] 0, sample "b" ("c" ∷ []) 1 ∷ sample "c" ("a" ∷ []) 2 ∷ [])
unfolding Heap.pop
popped = refl

pop_least_example :
    Perm chain (sample "a" [] 0 ∷ sample "b" ("c" ∷ []) 1 ∷ sample "c" ("a" ∷ []) 2 ∷ [])
    × IsHeap (sample "b" ("c" ∷ []) 1 ∷ sample "c" ("a" ∷ []) 2 ∷ [])
    × ((t : Task) → Mem t chain → 0 ≤ t.order)
pop_least_example =
    pop_least chain (sample "a" [] 0) (sample "b" ("c" ∷ []) 1 ∷ sample "c" ("a" ∷ []) 2 ∷ [])
      chain-in_order popped

topological_task_ids-IsTaken_example : Along (IsTaken chain) [] chain_order
topological_task_ids-IsTaken_example =
    topological_task_ids-IsTaken chain (Nodup-of_is_nodup (ids chain) refl) graph_limit_exceeded
      cyclic_dependency chain-ordered

-- The same tasks, inserted in another order.
abbrev moved_chain : List Task
moved_chain = sample "b" ("c" ∷ []) 1 ∷ sample "a" [] 0 ∷ sample "c" ("a" ∷ []) 2 ∷ []

abbrev moved_chain_order : List String
moved_chain_order = "a" ∷ "c" ∷ "b" ∷ []

moved_chain-ordered :
    topological_task_ids cyclic_dependency graph_limit_exceeded moved_chain ≡ ok moved_chain_order
unfolding topological_task_ids Heap.pop Heap.push
moved_chain-ordered = refl

topological_task_ids_unique_example : chain_order ≡ moved_chain_order
topological_task_ids_unique_example =
    topological_task_ids_unique chain moved_chain cyclic_dependency graph_limit_exceeded
      (Perm.swap (sample "b" ("c" ∷ []) 1) (sample "a" [] 0) (sample "c" ("a" ∷ []) 2 ∷ []))
      (Nodup-of_is_nodup (ids chain) refl) (Nodup-of_is_nodup (orders chain) refl) chain-ordered
      moved_chain-ordered
