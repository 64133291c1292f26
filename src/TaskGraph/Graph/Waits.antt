-- ===== src/TaskGraph/Graph/Waits.antt =====
-- packages/task-graph/src/task-graph.ts: the tasks of a sealed graph do not wait for each other.
use mathlib.Core.List.{Nodup, Mem, mem-map_of_mem, not-mem-nil}
use ai_development_os.Prelude.{
  ok, after_ok, ◌≤◌, length, ◌≡◌, refl, subst, inl, inr, String, true, false, not, List, [], ◌∷◌,
  ◌==◌, string_eq, all, any, any_sound, mem-all, mem-filter, mem-filter_of_mem, filter, contains,
  contains_of_mem, find?-mem, Bool-cases, Option-cases, arith,
}
use ai_development_os.TaskGraph.Types.{
  Task, Change, Timestamp, is_terminal, is_pending, is_succeeded, is_unsuccessful,
  cyclic_dependency, graph_limit_exceeded,
}
use ai_development_os.TaskGraph.Topology.Counting.{ids}
use ai_development_os.TaskGraph.Topology.{topological_task_ids}
use ai_development_os.TaskGraph.Topology.Order.{IsStuck-of_any, topological_task_ids-IsStuck}
use ai_development_os.TaskGraph.Graph.{get_task}
use ai_development_os.TaskGraph.Graph.Reconcile.{lookup_all, blockers, reconcile_pending_tasks}
use ai_development_os.TaskGraph.Graph.Execution.{is_failable}
use ai_development_os.TaskGraph.Graph.Snapshot.{is_untouched, is_empty, is_consistent}
use ai_development_os.TaskGraph.Graph.States.{all_succeeded, is_consistent-parts}
use ai_development_os.TaskGraph.Graph.Consistency.{
  all_of_found, reconcile_pending_tasks-AreConsistent, is_untouched-AreLasting,
}
use ai_development_os.TaskGraph.Graph.Keeping.{reconcile_pending_tasks-AllKept}
use ai_development_os.TaskGraph.Graph.Touched.{is_touched, AllKept-untouched}
use ai_development_os.TaskGraph.Graph.States.{AreConsistent}
use ai_development_os.TaskGraph.Graph.Moves.{get_task-id}
use ai_development_os.TaskGraph.Graph.Consistency.{all_of_mem}

abbrev pending_tasks : List Task → List Task
pending_tasks tasks = filter (λ t. is_pending t.status) tasks

none_failable :
    (tasks : List Task)
    → any (λ t. is_failable t.status) tasks ≡ false
    → all (λ t. not (is_failable t.status)) tasks ≡ true
none_failable [] h = refl
none_failable (t ∷ tasks) h = ground (arith, h, none_failable tasks)

module _ (tasks : List Task) (idle : all (λ t. not (is_failable t.status)) tasks ≡ true) where
  idle-pending :
      (t : Task) → Mem t tasks → is_terminal t.status ≡ false → Mem t (pending_tasks tasks)
  idle-pending t m alive =
      mem-filter_of_mem (λ u. is_pending u.status) tasks t m
        (ground (arith, alive, mem-all (λ u. not (is_failable u.status)) tasks t m idle))

  -- Where no task can go on, a task that waits, waits for a pending one.
  waits_for_pending :
      (ds : List String)
      → all_succeeded (lookup_all tasks ds) ≡ false
      → is_empty (blockers (lookup_all tasks ds)) ≡ true
      → any (λ d. contains (ids (pending_tasks tasks)) d) ds ≡ true
  unfolding lookup_all
  waits_for_pending [] open_one unblocked = absurd (cc open_one)
  waits_for_pending (d ∷ ds) open_one unblocked = elim (Option-cases (get_task tasks d)) [
    | inl absent ↦ ground (
      arith,
      waits_for_pending ds (rw (absent, lookup_all) at open_one)
          (rw (absent, lookup_all) at unblocked),
    )
    | inr (u, found) ↦
        let open_one' = rw (found, lookup_all) at open_one in
        let unblocked' = rw (found, lookup_all) at unblocked in
        elim (Bool-cases (is_unsuccessful u.status)) [
          | inl stops ↦ absurd (cc (rw stops at unblocked'))
          | inr other ↦ elim (Bool-cases (is_succeeded u.status)) [
            | inl done ↦ ground (
              arith,
              waits_for_pending ds (ground (arith, open_one', done)) (rw other at unblocked'),
            )
            | inr undone ↦
                let member = find?-mem (λ t. t.id == d) tasks found in
                let waiting = idle-pending u member (ground (arith, other, undone)) in
                ground (
                  arith,
                  contains_of_mem (ids (pending_tasks tasks)) d (
                      subst (λ i. Mem i (ids (pending_tasks tasks))) (get_task-id tasks d found)
                        (mem-map_of_mem (λ (t : Task). t.id) waiting)),
                )
          ]
        ]
  ]

-- Tasks of a sealed graph are not stuck while one of them has not ended.
pub AreConsistent-failable :
    (tasks : List Task) {out : List String}
    → Nodup (ids tasks)
    → AreConsistent tasks
    → topological_task_ids cyclic_dependency graph_limit_exceeded tasks ≡ ok out
    → any (λ t. not (is_terminal t.status)) tasks ≡ true
    → any (λ t. is_failable t.status) tasks ≡ true
AreConsistent-failable tasks {out} distinct consistent sorted some_open =
    elim (Bool-cases (any (λ t. is_failable t.status) tasks)) [
      | inl some_task ↦ some_task
      | inr none_left ↦
          let idle = none_failable tasks none_left in
          let right : all (λ t. is_consistent (lookup_all tasks t.dependencies) t) tasks ≡ true =
            all_of_found (λ t. is_consistent (lookup_all tasks t.dependencies) t) tasks distinct
              consistent in
          let (t, m, alive) = any_sound (λ t. not (is_terminal t.status)) tasks some_open in
          let first = idle-pending tasks idle t m (ground (arith, alive)) in
          absurd (
            topological_task_ids-IsStuck tasks (pending_tasks tasks) cyclic_dependency
              graph_limit_exceeded distinct
              (IsStuck-of_any tasks (pending_tasks tasks)
                (λ u there. (mem-filter (λ v. is_pending v.status) tasks u there).0)
                (all_of_mem (λ u. any (λ d. contains (ids (pending_tasks tasks)) d) u.dependencies)
                  (pending_tasks tasks)
                  (λ u there.
                    let (member, waits) = mem-filter (λ v. is_pending v.status) tasks u there in
                    let reconciled =
                      (is_consistent-parts (lookup_all tasks u.dependencies) u (
                        mem-all (λ t. is_consistent (lookup_all tasks t.dependencies) t) tasks u
                          member right)).0 in
                    waits_for_pending tasks idle u.dependencies (ground (arith, waits, reconciled))
                      (ground (arith, waits, reconciled)))))
              (λ empty. not-mem-nil (subst (Mem t) empty first)) out sorted)
    ]

-- What is pending is not able to go on.
untouched_idle :
    (tasks : List Task)
    → all is_untouched tasks ≡ true
    → any (λ t. is_failable t.status) tasks ≡ false
unfolding is_untouched
untouched_idle [] h = refl
untouched_idle (t ∷ tasks) h = ground (arith, h, untouched_idle tasks)

untouched_open :
    (tasks : List Task)
    → all is_untouched tasks ≡ true
    → 1 ≤ length tasks
    → any (λ t. not (is_terminal t.status)) tasks ≡ true
unfolding is_untouched
untouched_open [] h some_task = absurd (omega (arith, some_task))
untouched_open (t ∷ tasks) h some_task = ground (arith, h)

-- When a graph is sealed, some task becomes ready.
pub seal-is_touched :
    (at : Timestamp) (tasks : List Task) (changes : List Change) {state : List Task × List Change}
    → Nodup (ids tasks)
    → all is_untouched tasks ≡ true
    → 1 ≤ length tasks
    → reconcile_pending_tasks at tasks changes ≡ ok state
    → is_touched at state.0 ≡ true
unfolding reconcile_pending_tasks
seal-is_touched at tasks changes {state} distinct untouched some_task h =
    elim (Bool-cases (is_touched at state.0)) [
      | inl touched ↦ touched
      | inr none_touched ↦
          after_ok (topological_task_ids cyclic_dependency graph_limit_exceeded tasks) _ h
            λ out sorted e.
              let same =
                AllKept-untouched at tasks state.0
                  (reconcile_pending_tasks-AllKept at tasks changes distinct h) none_touched in
              let consistent = subst AreConsistent same (
                reconcile_pending_tasks-AreConsistent at tasks changes distinct
                  (is_untouched-AreLasting tasks untouched) h) in
              absurd (
                cc (
                  AreConsistent-failable tasks distinct consistent sorted
                      (untouched_open tasks untouched some_task),
                  untouched_idle tasks untouched,
                ))
    ]
