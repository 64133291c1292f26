-- ===== src/TaskGraph/Topology/Least.antt =====
-- `topologicalTaskIds` takes the free tasks by their `order`: the queue is a heap at every
-- round, so what is taken out is the least of the tasks that are free.
use mathlib.Core.Logic.Or
use mathlib.Core.Logic.{∥∥₁_elim}
use mathlib.Core.List.{
  Mem, Nodup, Nodup-cons, mem-cons, mem-append, mem-map_of_mem, exists_of_mem-map, not-mem-nil,
}
use native.Mathlib.Nat.{ℕ_set}
use native.Mathlib.Bridge.{le_prop}
use ai_development_os.Prelude.{
  string_eq, nat_eq, ℕ, zero, suc, ◌+◌, ◌≤◌, ◌≡◌, refl, sym, ◌∙◌, ap, subst, inl, inr, String, true,
  false, some, List, [], ◌∷◌, ok, ◌==◌, ltb, nat_beq, guard, reject_if, length, all, contains,
  contains_of_mem, Option-cases, Bool-cases, if_ind, arith, after_ok, after_check, ok-injective,
}
use ai_development_os.TaskGraph.Limits.{max_depth}
use ai_development_os.TaskGraph.Types.{Task, ErrorCode}
use ai_development_os.TaskGraph.Heap.{pop}
use ai_development_os.TaskGraph.Heap.Order.{push-IsHeap, pop_least}
use ai_development_os.TaskGraph.Heap.Edges.{IsHeap}
use ai_development_os.TaskGraph.Topology.{
  Kahn, depth_or_one, visit_dependent, visit_dependents, dependents_of, no_dependents, enqueue_free,
  start_of, drain, topological_task_ids,
}
use ai_development_os.TaskGraph.Topology.Counting.{ids, missing}
use ai_development_os.TaskGraph.Topology.Drain.{
  Along, Along-snoc, IsReady, Round, popped-Round, popped-known, popped-fresh, popped-ready,
}
use ai_development_os.TaskGraph.Topology.Start.{start-Round, start_of-ordered}

-- What is said of each id of the order and those before it: it is new, it names a task whose dependencies
-- are before it, and no task that could stand in its place has a lower `order`.
pub record IsTaken (tasks : List Task) (before : List String) (i : String) : Type 0 where
  pub fresh : contains before i ≡ false
  pub listed : Mem i (ids tasks)
  pub ready : IsReady tasks before i
  pub least :
      (x t : Task)
      → Mem x tasks
      → x.id ≡ i
      → Mem t tasks
      → all (λ d. contains before d) t.dependencies ≡ true
      → contains before t.id ≡ false
      → x.order ≤ t.order

missing-of_all :
    (done ds : List String) → all (λ d. contains done d) ds ≡ true → missing done ds ≡ 0
missing-of_all done [] h = refl
missing-of_all done (d ∷ ds) h = let rest = missing-of_all done ds in ground (arith, h, rest)

-- Tasks with one id are one task.
same_order :
    (tasks : List Task) (x t : Task)
    → Nodup (ids tasks)
    → Mem x tasks
    → Mem t tasks
    → x.id ≡ t.id
    → x.order ≡ t.order
same_order [] x t nodup mx mt same = absurd (not-mem-nil mx)
same_order (y ∷ ys) x t nodup mx mt same =
    let (fresh, rest) = Nodup-cons.0 nodup in
    Or.elim (ℕ_set _ _) (mem-cons.0 mx)
      (λ x_first.
        Or.elim (ℕ_set _ _) (mem-cons.0 mt)
          (λ t_first. ap (λ (u : Task). u.order) (x_first ∙ sym t_first))
          (λ t_later. absurd (
            fresh (
              subst (λ i. Mem i (ids ys)) (sym same ∙ ap (λ (u : Task). u.id) x_first)
                (mem-map_of_mem (λ (u : Task). u.id) t_later)))))
      (λ x_later.
        Or.elim (ℕ_set _ _) (mem-cons.0 mt)
          (λ t_first. absurd (
            fresh (
              subst (λ i. Mem i (ids ys)) (same ∙ ap (λ (u : Task). u.id) t_first)
                (mem-map_of_mem (λ (u : Task). u.id) x_later))))
          (λ t_later. same_order ys x t rest x_later t_later same))

visit_dependents-IsHeap :
    (code : ErrorCode) (id : String) (ds : List Task) (k : Kahn) {k' : Kahn}
    → IsHeap k.queue
    → visit_dependents code id ds k ≡ ok k'
    → IsHeap k'.queue
unfolding visit_dependents visit_dependent
visit_dependents-IsHeap code id [] k heap h =
    subst (λ (next : Kahn). IsHeap next.queue) (ok-injective h) heap
visit_dependents-IsHeap code id (d ∷ ds) k heap h =
    after_ok (visit_dependent code id d k) _ h λ next e rest.
      after_check (reject_if (ltb max_depth (depth_or_one (k.depths id) + 1)) code) _ e λ _ visited.
        visit_dependents-IsHeap code id ds next
          (subst (λ (j : Kahn). IsHeap j.queue) (ok-injective visited)
            (if_ind (λ q. IsHeap q) (k.indegree d.id == 1) (λ _. push-IsHeap k.queue d heap)
              (λ _. heap)))
          rest

enqueue_free-IsHeap :
    (ts : List Task) (k : Kahn) → IsHeap k.queue → IsHeap (enqueue_free k ts).queue
unfolding enqueue_free
enqueue_free-IsHeap [] k heap = heap
enqueue_free-IsHeap (t ∷ ts) k heap = elim (Bool-cases (k.indegree t.id == 0)) [
  | inl yes_free ↦
      rw (yes_free, enqueue_free) (enqueue_free-IsHeap ts _ (push-IsHeap k.queue t heap))
  | inr not_free ↦ rw (not_free, enqueue_free) (enqueue_free-IsHeap ts k heap)
]

-- Between two rounds: the queue is a heap, and each id was the next one when it was taken.
record Sorted (tasks : List Task) (k : Kahn) : Type 0 where
  round : Round tasks k
  heap : IsHeap k.queue
  taken : Along (IsTaken tasks) [] k.ordered

module _ (tasks : List Task) (nodup : Nodup (ids tasks)) (code : ErrorCode) where
  popped-IsTaken :
      (k : Kahn) (root : Task) (rest : List Task)
      → Sorted tasks k
      → pop k.queue ≡ some (root, rest)
      → IsTaken tasks k.ordered root.id
  popped-IsTaken k root rest s popped =
      let inv = s.round.inv in
      let (_, _, least) = pop_least k.queue root rest s.heap popped in
      record {
        fresh = popped-fresh nodup inv popped;
        listed = mem-map_of_mem (λ (u : Task). u.id) (popped-known nodup inv popped);
        ready = popped-ready nodup inv popped;
        least = λ x t mx same mt ready fresh.
            let free : k.indegree t.id ≡ 0 =
              inv.counts t mt ∙ omega (arith, missing-of_all k.ordered t.dependencies ready) in
            let as_root = same_order tasks x root nodup mx (popped-known nodup inv popped) same in
            Or.elim le_prop (mem-append.0 (inv.complete t mt free))
              (λ queued. ∥∥₁_elim (exists_of_mem-map queued) le_prop λ (u, there, named). omega (
                arith,
                as_root,
                least u there,
                same_order tasks u t nodup (inv.known u there) mt named,
              ))
              (λ done. absurd (cc (fresh, contains_of_mem k.ordered t.id done)));
      }

  drain-Sorted :
      (fuel : ℕ) (k : Kahn) {k' : Kahn}
      → Sorted tasks k
      → drain code (dependents_of no_dependents tasks) fuel k ≡ ok k'
      → Sorted tasks k'
  unfolding drain
  drain-Sorted zero k s h = subst (Sorted tasks) (ok-injective h) s
  drain-Sorted (suc fuel) k {k'} s h = elim (Option-cases (pop k.queue)) [
    | inl empty ↦ subst (Sorted tasks) (ok-injective (rw (empty, drain) at h)) s
    | inr ((root, rest), popped) ↦
        after_ok (visit_dependents code root.id (dependents_of no_dependents tasks root.id) _) _
          (rw (popped, drain) at h)
          λ next visited later.
            let (_, heap, _) = pop_least k.queue root rest s.heap popped in
            let (round, same) = popped-Round tasks nodup code k root rest s.round popped visited in
            drain-Sorted fuel next
              (record {
                round = round;
                heap =
                    visit_dependents-IsHeap code root.id (dependents_of no_dependents tasks root.id)
                      _ heap visited;
                taken = rw same (
                    Along-snoc (IsTaken tasks) [] k.ordered root.id s.taken
                      (popped-IsTaken k root rest s popped));
              })
              later
  ]

  start-Sorted : Sorted tasks (start_of tasks)
  unfolding start_of
  start-Sorted = record {
    round = start-Round tasks nodup;
    heap = enqueue_free-IsHeap tasks _ (λ c p q. absurd (omega arith));
    taken = rw (start_of-ordered tasks) tt;
  }

  -- The order that `topologicalTaskIds` returns is the one by the tasks' own `order`: each id is new and names
  -- a task whose dependencies are all before it, and of the tasks of which that could be said no other has
  -- a lower `order`. The ids of the tasks are distinct.
  pub topological_task_ids-IsTaken :
      (cycle_code : ErrorCode) {out : List String}
      → topological_task_ids cycle_code code tasks ≡ ok out
      → Along (IsTaken tasks) [] out
  unfolding topological_task_ids
  topological_task_ids-IsTaken cycle_code h =
      after_ok (drain code (dependents_of no_dependents tasks) (length tasks) (start_of tasks)) _ h
        λ k drained checked.
          after_check (guard (nat_beq (length k.ordered) (length tasks)) cycle_code) _ checked
            λ _ e.
              subst (Along (IsTaken tasks) []) (ok-injective e)
                (drain-Sorted (length tasks) (start_of tasks) start-Sorted drained).taken
