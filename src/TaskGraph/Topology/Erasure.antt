-- ===== src/TaskGraph/Topology/Erasure.antt =====
-- packages/task-graph/src/task-graph.ts: `topologicalTaskIds` looks at nothing of a task but its id, its
-- dependencies and its order.
use ai_development_os.Prelude.{
  ℕ, zero, suc, ◌+◌, ◌≡◌, refl, ◌∙◌, ap, inl, inr, String, none, some, List, [], ◌∷◌, ◌++◌, map,
  pos, ok, err, ltb, ◌==◌, string_eq, nat_eq, length, Result-cases, Bool-cases, Option-cases,
}
use ai_development_os.TaskGraph.Limits.{max_depth, max_edges}
use ai_development_os.TaskGraph.Types.{Task, pending, ErrorCode, Checked}
use ai_development_os.TaskGraph.Json.{null}
use ai_development_os.TaskGraph.Heap.{push, pop}
use ai_development_os.TaskGraph.Heap.Erasure.{push-map, pop-map, erased_pop, map-snoc, length-map}
use ai_development_os.TaskGraph.Topology.{
  Kahn, update, indegrees, add_dependent, dependents_of, enqueue_free, depth_or_one,
  visit_dependent, visit_dependents, drain, no_dependents, start_of, topological_task_ids,
  check_edges,
}

-- A task with its id, its dependencies and its order, and nothing else.
abbrev pub erase : Task → Task
erase t = record {
  id = t.id;
  kind = "";
  title = "";
  description = none;
  dependencies = t.dependencies;
  priority = pos 0;
  metadata = null;
  status = pending;
  blocked_by = [];
  output_artifact_ids = [];
  failure = none;
  order = t.order;
  created_at = 0;
  updated_at = 0;
}

erase-order : (t : Task) → (erase t).order ≡ t.order
erase-order t = refl

abbrev erased_kahn : Kahn → Kahn
erased_kahn k = record k { queue = map erase k.queue }

abbrev erased_result : Checked Kahn → Checked Kahn
erased_result (ok k) = ok (erased_kahn k)
erased_result (err e) = err e

indegrees-map : (ts : List Task) (m : String → ℕ) → indegrees m (map erase ts) ≡ indegrees m ts
unfolding indegrees
indegrees-map [] m = refl
indegrees-map (t ∷ ts) m = indegrees-map ts (update m t.id (length t.dependencies))

add_dependent-map :
    (ds : List String) (t : Task) (m m' : String → List Task)
    → ((i : String) → m' i ≡ map erase (m i))
    → (i : String) → add_dependent (erase t) ds m' i ≡ map erase (add_dependent t ds m i)
unfolding add_dependent
add_dependent-map [] t m m' same i = same i
add_dependent-map (d ∷ ds) t m m' same i =
    add_dependent-map ds t (update m d (m d ++ t ∷ [])) (update m' d (m' d ++ erase t ∷ []))
      (λ j. elim (Bool-cases (d == j)) [
        | inl hit ↦ rw (hit, same d) (map-snoc erase erase-order (m d) t)
        | inr miss ↦ rw miss (same j)
      ])
      i

dependents_of-map :
    (ts : List Task) (m m' : String → List Task)
    → ((i : String) → m' i ≡ map erase (m i))
    → (i : String) → dependents_of m' (map erase ts) i ≡ map erase (dependents_of m ts i)
unfolding dependents_of
dependents_of-map [] m m' same i = same i
dependents_of-map (t ∷ ts) m m' same i =
    dependents_of-map ts (add_dependent t t.dependencies m)
      (add_dependent (erase t) t.dependencies m') (add_dependent-map t.dependencies t m m' same) i

enqueue_free-map :
    (ts : List Task) (k : Kahn)
    → enqueue_free (erased_kahn k) (map erase ts) ≡ erased_kahn (enqueue_free k ts)
unfolding enqueue_free
enqueue_free-map [] k = refl
enqueue_free-map (t ∷ ts) k = elim (Bool-cases (k.indegree t.id == 0)) [
  | inl free ↦
      rw (free, enqueue_free, push-map erase erase-order k.queue t)
        (enqueue_free-map ts
          (record k { depths = update k.depths t.id (some 1); queue = push k.queue t }))
  | inr waits ↦ rw (waits, enqueue_free) (enqueue_free-map ts k)
]

visit_dependent-map :
    (code : ErrorCode) (id : String) (t : Task) (k : Kahn)
    → visit_dependent code id (erase t) (erased_kahn k)
      ≡ erased_result (visit_dependent code id t k)
unfolding visit_dependent
visit_dependent-map code id t k =
    elim (Bool-cases (ltb max_depth (depth_or_one (k.depths id) + 1))) [
      | inl deep ↦ rw deep refl
      | inr fine ↦ rw fine (elim (Bool-cases (k.indegree t.id == 1)) [
        | inl free ↦ rw (free, push-map erase erase-order k.queue t) refl
        | inr waits ↦ rw waits refl
      ])
    ]

visit_dependents-map :
    (ts : List Task) (code : ErrorCode) (id : String) (k : Kahn)
    → visit_dependents code id (map erase ts) (erased_kahn k)
      ≡ erased_result (visit_dependents code id ts k)
unfolding visit_dependents
visit_dependents-map [] code id k = refl
visit_dependents-map (t ∷ ts) code id k =
    rw (visit_dependent-map code id t k) (elim (Result-cases (visit_dependent code id t k)) [
      | inl (next, done) ↦ rw done (visit_dependents-map ts code id next)
      | inr (e, failed) ↦ rw failed refl
    ])

drain-map :
    (code : ErrorCode) (m m' : String → List Task)
    → ((i : String) → m' i ≡ map erase (m i))
    → (fuel : ℕ) (k : Kahn)
    → drain code m' fuel (erased_kahn k) ≡ erased_result (drain code m fuel k)
unfolding drain
drain-map code m m' same zero k = refl
drain-map code m m' same (suc fuel) k = elim (Option-cases (pop k.queue)) [
  | inl empty ↦
      let empty' = pop-map erase erase-order k.queue ∙ ap (erased_pop erase erase-order) empty in
      rw (empty, empty', drain) refl
  | inr ((t, rest), taken) ↦
      let next : Kahn = record k { queue = rest; ordered = k.ordered ++ t.id ∷ [] } in
      let taken' = pop-map erase erase-order k.queue ∙ ap (erased_pop erase erase-order) taken in
      rw (taken, taken', drain, same t.id, visit_dependents-map (m t.id) code t.id next)
        (elim (Result-cases (visit_dependents code t.id (m t.id) next)) [
          | inl (after, done) ↦ rw done (drain-map code m m' same fuel after)
          | inr (e, failed) ↦ rw failed refl
        ])
]

-- The order of the erased tasks is that of the tasks.
pub topological_task_ids-map :
    (cycle_code limit_code : ErrorCode) (tasks : List Task)
    → topological_task_ids cycle_code limit_code (map erase tasks)
      ≡ topological_task_ids cycle_code limit_code tasks
unfolding topological_task_ids start_of
topological_task_ids-map cycle_code limit_code tasks =
    let start : Kahn = record {
      indegree = indegrees (λ _. 0) tasks;
      depths = λ _. none;
      queue = [];
      ordered = [];
    } in
    let drained =
      drain-map limit_code (dependents_of no_dependents tasks)
        (dependents_of no_dependents (map erase tasks))
        (dependents_of-map tasks no_dependents no_dependents (λ i. refl)) (length tasks)
        (enqueue_free start tasks) in
    rw
      (
        length-map erase erase-order tasks,
        indegrees-map tasks (λ _. 0),
        enqueue_free-map tasks start,
        drained,
      )
      (elim (Result-cases (
        drain limit_code (dependents_of no_dependents tasks) (length tasks)
          (enqueue_free start tasks))) [
            | inl (k, done) ↦ rw done refl
            | inr (e, failed) ↦ rw failed refl
          ])

pub check_edges-map :
    (code : ErrorCode) (n : ℕ) (tasks : List Task)
    → check_edges code n (map erase tasks) ≡ check_edges code n tasks
unfolding check_edges
check_edges-map code n [] = refl
check_edges-map code n (t ∷ tasks) = elim (Bool-cases (ltb max_edges (n + length t.dependencies))) [
  | inl many ↦ rw (many, check_edges) refl
  | inr fine ↦ rw (fine, check_edges) (check_edges-map code (n + length t.dependencies) tasks)
]
