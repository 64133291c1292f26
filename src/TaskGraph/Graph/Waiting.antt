-- ===== src/TaskGraph/Graph/Waiting.antt =====
-- packages/task-graph/src/task-graph.ts: what `#reconcilePendingTasks` leaves pending.
use mathlib.Core.List.Perm
use mathlib.Core.List.{
  Mem, Nodup, Nodup-append, append_assoc, append-nil, mem-cons_self, mem-map_of_mem,
}
use ai_development_os.Prelude.{
  ◌≡◌, refl, sym, ◌∙◌, ap, subst, inl, inr, String, true, false, some, List, [], ◌∷◌, ◌++◌, ok,
  ◌==◌, string_eq, all, contains, contains_of_mem, contains_of_not-mem, find?-mem, Bool-cases,
  Option-cases, after_ok, ok-injective,
}
use ai_development_os.TaskGraph.Types.{
  Task, Change, Timestamp, cyclic_dependency, graph_limit_exceeded, is_pending,
}
use ai_development_os.TaskGraph.Topology.{topological_task_ids}
use ai_development_os.TaskGraph.Topology.Counting.{ids}
use ai_development_os.TaskGraph.Topology.Order.{topological_task_ids-IsOrdered}
use ai_development_os.TaskGraph.Graph.{get_task, put_task}
use ai_development_os.TaskGraph.Graph.Reconcile.{
  lookup_all, reconciled, reconcile_task, reconcile_each, reconcile_pending_tasks,
}
use ai_development_os.TaskGraph.Graph.Snapshot.{is_reconciled}
use ai_development_os.TaskGraph.Graph.Moves.{
  reconcile_each-Moves, get_task-id, get-put-other, get-put-same,
}
use ai_development_os.TaskGraph.Graph.Settling.{
  OrderedAt, IsOrdered-OrderedAt, put-OrderedAt, Done, lookup_all-put, extend-Done, reconciled-none,
  reconciled-some, same_found, awake-is_reconciled,
}

module _ (at : Timestamp) (before rest : List String) (i : String)
    (fresh : contains before i ≡ false) where
  -- One round of the loop.
  reconcile_task-Done :
      (state : List Task × List Change)
      → Done state.0 before
      → OrderedAt state.0 before (i ∷ rest)
      → Done (reconcile_task at i state).0 (before ++ i ∷ [])
        × OrderedAt (reconcile_task at i state).0 (before ++ i ∷ []) rest
  unfolding reconcile_task
  reconcile_task-Done (tasks, changes) done order =
      let unchanged = extend-Done tasks tasks before i (λ ds _. refl) (λ j _. refl) in
      elim (Option-cases (get_task tasks i)) [
        | inl absent ↦
            rw (absent, reconcile_task)
              (unchanged (λ t found. absurd (cc (absent, found))) done, order.1)
        | inr (t, there) ↦ elim (Bool-cases (is_pending t.status)) [
          | inr other ↦
              rw (there, other, reconcile_task)
                (
                  unchanged
                      (λ u found. (
                        awake-is_reconciled tasks u (
                            subst (λ (v : Task). is_pending v.status ≡ false)
                              (same_found there found) other),
                        order.0 u found,
                      ))
                      done,
                  order.1,
                )
          | inl waits ↦ elim (Option-cases (reconciled (lookup_all tasks t.dependencies) at t)) [
            | inl unready ↦
                rw (there, waits, unready, reconcile_task)
                  (
                    unchanged
                        (λ u found. (
                          subst
                              (λ (v : Task).
                                is_reconciled (lookup_all tasks v.dependencies) v ≡ true)
                              (same_found there found)
                              (reconciled-none (lookup_all tasks t.dependencies) at t unready),
                          order.0 u found,
                        ))
                        done,
                    order.1,
                  )
            | inr ((c, change), changed) ↦
                let (same, deps, awake) =
                  reconciled-some (lookup_all tasks t.dependencies) at t changed in
                let at_i : c.id ≡ i = same ∙ get_task-id tasks i there in
                let written : get_task tasks c.id ≡ some t =
                  subst (λ j. get_task tasks j ≡ some t) (sym at_i) there in
                rw (there, waits, changed, reconcile_task)
                  (
                    extend-Done tasks (put_task tasks c) before i
                        (λ ds. lookup_all-put tasks c before ds (ap (contains before) at_i ∙ fresh))
                        (λ j apart. get-put-other tasks c j (λ e. apart (sym at_i ∙ e)))
                        (λ u found.
                          let new : c ≡ u = cc (
                            get-put-same tasks c written,
                            subst (λ j. get_task (put_task tasks c) j ≡ some u) (sym at_i) found,
                          ) in
                          (
                            awake-is_reconciled tasks u
                                (subst (λ (v : Task). is_pending v.status ≡ false) new awake),
                            subst (λ (v : Task). all (λ d. contains before d) v.dependencies ≡ true)
                                new
                                (subst (λ ds. all (λ d. contains before d) ds ≡ true) (sym deps)
                                  (order.0 t there)),
                          ))
                        done,
                    put-OrderedAt tasks c t (before ++ i ∷ []) rest written deps order.1,
                  )
          ]
        ]
      ]

reconcile_each-Done :
    (at : Timestamp) (before out : List String) (state : List Task × List Change)
    → Nodup (before ++ out)
    → Done state.0 before
    → OrderedAt state.0 before out
    → Done (reconcile_each at out state).0 (before ++ out)
unfolding reconcile_each
reconcile_each-Done at before [] state nodup done order = rw append-nil done
reconcile_each-Done at before (i ∷ out) state nodup done order =
    let fresh = contains_of_not-mem before i (λ m. (Nodup-append.0 nodup).2 i m mem-cons_self) in
    let (done', order') = reconcile_task-Done at before out i fresh state done order in
    subst (Done (reconcile_each at out (reconcile_task at i state)).0)
      (append_assoc before (i ∷ []) out)
      (reconcile_each-Done at (before ++ i ∷ []) out (reconcile_task at i state)
        (subst Nodup (sym (append_assoc before (i ∷ []) out)) nodup) done' order')

-- After `#reconcilePendingTasks`, a task that is still pending waits for a dependency that has not
-- succeeded, and for none that has failed, been cancelled or been blocked. The ids of the tasks are
-- distinct.
pub reconcile_pending_tasks-is_reconciled :
    (at : Timestamp) (tasks : List Task) (changes : List Change) {state : List Task × List Change}
    → Nodup (ids tasks)
    → reconcile_pending_tasks at tasks changes ≡ ok state
    → (i : String) (t : Task) → get_task state.0 i ≡ some t
    → is_reconciled (lookup_all state.0 t.dependencies) t ≡ true
unfolding reconcile_pending_tasks
reconcile_pending_tasks-is_reconciled at tasks changes nodup h =
    after_ok (topological_task_ids cyclic_dependency graph_limit_exceeded tasks) _ h λ out sorted e.
      let (all_ids, in_order) =
        topological_task_ids-IsOrdered tasks nodup cyclic_dependency graph_limit_exceeded sorted in
      let done =
        reconcile_each-Done at [] out (tasks, changes) (Perm.nodup (Perm.symm all_ids) nodup)
          (λ i t hit. absurd (cc hit)) (IsOrdered-OrderedAt tasks [] out in_order) in
      subst
        (λ (s : List Task × List Change).
          (i : String) (t : Task)
          → get_task s.0 i ≡ some t
          → is_reconciled (lookup_all s.0 t.dependencies) t ≡ true)
        (ok-injective e)
        (λ i t found.
          let moved = reconcile_each at out (tasks, changes) in
          let member =
            subst (λ j. Mem j (ids moved.0)) (get_task-id moved.0 i found)
              (mem-map_of_mem (λ (u : Task). u.id) (find?-mem (λ u. u.id == i) moved.0 found)) in
          let listed =
            Perm.subset (Perm.symm all_ids) i
              (subst (Mem i) (reconcile_each-Moves at out (tasks, changes)).1 member) in
          (done i t (contains_of_mem out i listed) found).0)
