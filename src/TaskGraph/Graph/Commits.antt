-- ===== src/TaskGraph/Graph/Commits.antt =====
-- packages/task-graph/src/task-graph.ts: each command that changes the graph ends in one `#commit`.
use mathlib.Core.List.Perm
use mathlib.Core.List.{Nodup, Mem, mem-map_of_mem}
use ai_development_os.Prelude.{
  ◌≡◌, refl, sym, ap, subst, ◌⊎◌, inl, inr, String, true, false, not, Option, none, some, List, [],
  ◌∷◌, ok, guard, guard-eq-ok, string_eq, nat_eq, filter, mem-filter, mem-filter_of_mem, find?-mem,
  ◌==◌, arith, after_ok, after_check, ok-injective, List-cases,
}
use ai_development_os.TaskGraph.Limits.{max_output_artifacts}
use ai_development_os.TaskGraph.Types.{
  Task, TaskStatus, succeeded, failed, cancelled, TaskFailure, Change, Timestamp, invalid_argument,
  invalid_transition, cyclic_dependency, graph_limit_exceeded, is_terminal, is_running,
}
use ai_development_os.TaskGraph.Topology.{topological_task_ids}
use ai_development_os.TaskGraph.Topology.Counting.{ids}
use ai_development_os.TaskGraph.Topology.Start.{Nodup-filter}
use ai_development_os.TaskGraph.Parsing.{MutationOptions, parse_failure, parse_unique_identifiers}
use ai_development_os.TaskGraph.Graph.{
  Graph, Clock, get_task, put_task, ordered_tasks, order_precedes, set_task_status, require_task,
  assert_transition, read_timestamp,
}
use ai_development_os.TaskGraph.Graph.Reconcile.{lookup_all, reconcile_pending_tasks}
use ai_development_os.TaskGraph.Graph.Execution.{
  begin_execution, is_failable, is_cancellable, settle_task, succeed_task, fail_task, cancel_task,
  cancel_remaining,
}
use ai_development_os.TaskGraph.Graph.Machine.{graph_of}
use ai_development_os.TaskGraph.Graph.Moves.{
  Moves, Moves-trans, put-ids, get_task-id, reconcile_each-Moves, is_live, is_live_of_mem,
  cancel_each-Moves,
}
use ai_development_os.TaskGraph.Graph.Lasting.{put-AreLasting}
use ai_development_os.TaskGraph.Graph.States.{is_lasting, AreConsistent-AreLasting}
use ai_development_os.TaskGraph.Graph.Consistency.{
  reconcile_pending_tasks-AreConsistent, cancel_each-AreConsistent,
}
use ai_development_os.TaskGraph.Graph.Keeping.{
  AllKept-trans, put-AllKept, Kept-now, AllFound, reconcile_pending_tasks-AllKept,
  cancel_each-AllKept,
}
use ai_development_os.TaskGraph.Graph.Touched.{
  AllKept-is_touched, put-is_touched, reconcile_pending_tasks-length, cancel_each-is_touched,
}
use ai_development_os.TaskGraph.Graph.Sorting.{AllFound-sort}
use ai_development_os.TaskGraph.Graph.Arrivals.{sort_by-perm}
use ai_development_os.TaskGraph.Graph.Shapes.{
  IsWellFormed, IsCommit, after_graph, execution-IsCommit, begin_execution-sealed,
  require_task-found, write-Moves,
}

is_running-live : (s : TaskStatus) → is_running s ≡ true → is_terminal s ≡ false
is_running-live s h = ground (arith, h)

is_failable-live : (s : TaskStatus) → is_failable s ≡ true → is_terminal s ≡ false
is_failable-live s h = ground (arith, h)

is_cancellable-live : (s : TaskStatus) → is_cancellable s ≡ true → is_terminal s ≡ false
is_cancellable-live s h = ground (arith, h)

pub reconcile_pending_tasks-Moves :
    (at : Timestamp) (tasks : List Task) (changes : List Change) {state : List Task × List Change}
    → reconcile_pending_tasks at tasks changes ≡ ok state
    → Moves tasks state.0 × (ids state.0 ≡ ids tasks)
unfolding reconcile_pending_tasks
reconcile_pending_tasks-Moves at tasks changes h =
    after_ok (topological_task_ids cyclic_dependency graph_limit_exceeded tasks) _ h λ is _ e.
      subst (λ (s : List Task × List Change). Moves tasks s.0 × (ids s.0 ≡ ids tasks))
        (ok-injective e) (reconcile_each-Moves at is (tasks, changes))

-- A task as a command settles it.
abbrev settled : Task → List String → Option TaskFailure → TaskStatus → Timestamp → Task
settled t outputs failure target at = record t {
  output_artifact_ids = outputs;
  failure = failure;
  blocked_by = [];
  status = target;
  updated_at = at;
}

module _ (clock : Clock) (g : Graph) (formed : IsWellFormed g) where
  settle_task-IsCommit :
      (t : Task) (outputs : List String) (failure : Option TaskFailure) (target : TaskStatus)
      (reason : Option String) {a : Task} {g' : Graph}
      → g.is_sealed ≡ true
      → get_task g.tasks t.id ≡ some t
      → is_terminal t.status ≡ false
      → ((ds : List Task) (at : Timestamp)
          → is_lasting ds t ≡ true
          → is_lasting ds (settled t outputs failure target at) ≡ true)
      → settle_task clock g t outputs failure target reason ≡ ok (g', a)
      → IsCommit g g'
  unfolding settle_task set_task_status
  settle_task-IsCommit t outputs failure target reason is_closed found alive ends h =
      after_ok (read_timestamp clock g) _ h λ at read h1.
        after_ok (reconcile_pending_tasks at _ _) _ h1 λ state reconciled e.
          let (moves, _) = reconcile_pending_tasks-Moves at _ _ reconciled in
          let changed = settled t outputs failure target at in
          let distinct : Nodup (ids (put_task g.tasks changed)) =
            subst Nodup (sym (put-ids g.tasks changed)) formed.distinct in
          execution-IsCommit clock g formed state.0 at _ _ is_closed read
            (Moves-trans g.tasks (put_task g.tasks _) state.0
              (write-Moves clock g formed t _ found alive refl) moves)
            (AllKept-trans at g.tasks (put_task g.tasks changed) state.0
              (put-AllKept at g.tasks changed t formed.distinct found (Kept-now refl refl))
              (reconcile_pending_tasks-AllKept at (put_task g.tasks changed) _ distinct reconciled))
            (λ right.
              let before = AreConsistent-AreLasting g.tasks right in
              reconcile_pending_tasks-AreConsistent at (put_task g.tasks changed) _ distinct
                (put-AreLasting g.tasks changed t found alive
                  (ends (lookup_all g.tasks t.dependencies) at (before t.id t found)) before)
                reconciled)
            (AllKept-is_touched at (put_task g.tasks changed) state.0
              (reconcile_pending_tasks-AllKept at (put_task g.tasks changed) _ distinct reconciled)
              (put-is_touched at g.tasks changed found refl))
            (reconcile_pending_tasks-length at (put_task g.tasks changed) _ reconciled)
            (ap (λ pair. pair.0) (ok-injective e))

  pub succeed_task-IsCommit :
      (task_id : String) (outputs : List String) (o : MutationOptions) {g' : Graph}
      → graph_of (succeed_task clock g task_id outputs o) ≡ ok g'
      → IsCommit g g'
  unfolding succeed_task assert_transition
  succeed_task-IsCommit task_id outputs o h =
      after_graph (succeed_task clock g task_id outputs o) h λ a h0.
        after_ok (begin_execution g o) _ h0 λ reason begun h1.
          after_ok (require_task g task_id) _ h1 λ t required h2.
            after_check (guard (is_running t.status) invalid_transition) _ h2 λ may h3.
              let granted = guard-eq-ok (is_running t.status) invalid_transition may in
              after_ok (parse_unique_identifiers invalid_argument max_output_artifacts outputs) _ h3
                λ parsed _ h4.
                  settle_task-IsCommit t parsed none succeeded reason
                    (begin_execution-sealed clock g formed o begun)
                    (require_task-found clock g formed task_id required)
                    (is_running-live t.status granted)
                    (λ ds at lasts. ground (arith, granted, lasts)) h4

  pub fail_task-IsCommit :
      (task_id : String) (failure : TaskFailure) (o : MutationOptions) {g' : Graph}
      → graph_of (fail_task clock g task_id failure o) ≡ ok g'
      → IsCommit g g'
  unfolding fail_task assert_transition
  fail_task-IsCommit task_id failure o h =
      after_graph (fail_task clock g task_id failure o) h λ a h0.
        after_ok (begin_execution g o) _ h0 λ reason begun h1.
          after_ok (require_task g task_id) _ h1 λ t required h2.
            after_check (guard (is_failable t.status) invalid_transition) _ h2 λ may h3.
              let granted = guard-eq-ok (is_failable t.status) invalid_transition may in
              after_ok (parse_failure invalid_argument failure) _ h3 λ parsed _ h4.
                settle_task-IsCommit t [] (some parsed) failed _
                  (begin_execution-sealed clock g formed o begun)
                  (require_task-found clock g formed task_id required)
                  (is_failable-live t.status granted)
                  (λ ds at lasts. ground (arith, granted, lasts)) h4

  pub cancel_task-IsCommit :
      (task_id : String) (o : MutationOptions) {g' : Graph}
      → graph_of (cancel_task clock g task_id o) ≡ ok g'
      → IsCommit g g'
  unfolding cancel_task assert_transition
  cancel_task-IsCommit task_id o h = after_graph (cancel_task clock g task_id o) h λ a h0.
      after_ok (begin_execution g o) _ h0 λ reason begun h1.
        after_ok (require_task g task_id) _ h1 λ t required h2.
          after_check (guard (is_cancellable t.status) invalid_transition) _ h2 λ may h3.
            settle_task-IsCommit t [] none cancelled reason
              (begin_execution-sealed clock g formed o begun)
              (require_task-found clock g formed task_id required)
              (is_cancellable-live t.status
                (guard-eq-ok (is_cancellable t.status) invalid_transition may))
              (λ ds at lasts. ground arith) h3

  abbrev live_tasks : List Task
  live_tasks = filter (λ (t : Task). not (is_terminal t.status)) (ordered_tasks g.tasks)

  live_tasks-Nodup : Nodup (ids live_tasks)
  unfolding ordered_tasks
  live_tasks-Nodup =
      Nodup-filter (λ (t : Task). not (is_terminal t.status)) (ordered_tasks g.tasks)
        (Perm.nodup
          (Perm.symm (Perm.map (λ (t : Task). t.id) (sort_by-perm order_precedes g.tasks)))
          formed.distinct)

  live_tasks-live : (t : Task) → Mem t live_tasks → is_live (get_task g.tasks t.id) ≡ true
  unfolding ordered_tasks
  live_tasks-live t m =
      let (there, alive) =
        mem-filter (λ (u : Task). not (is_terminal u.status)) (ordered_tasks g.tasks) t m in
      is_live_of_mem g.tasks t formed.distinct
        (Perm.subset (sort_by-perm order_precedes g.tasks) t there) (ground (arith, alive))

  live_tasks-covers :
      (i : String) (t : Task)
      → get_task g.tasks i ≡ some t
      → is_terminal t.status ≡ false
      → Mem i (ids live_tasks)
  unfolding ordered_tasks
  live_tasks-covers i t found alive =
      subst (λ j. Mem j (ids live_tasks)) (get_task-id g.tasks i found)
        (mem-map_of_mem (λ (u : Task). u.id)
          (mem-filter_of_mem (λ (u : Task). not (is_terminal u.status)) (ordered_tasks g.tasks) t
            (Perm.subset (Perm.symm (sort_by-perm order_precedes g.tasks)) t
              (find?-mem (λ u. u.id == i) g.tasks found))
            (ap not alive)))

  pub cancel_remaining-IsCommit :
      (o : MutationOptions) {g' : Graph}
      → cancel_remaining clock g o ≡ ok g'
      → (g' ≡ g) ⊎ IsCommit g g'
  unfolding cancel_remaining ordered_tasks
  cancel_remaining-IsCommit o h = after_ok (begin_execution g o) _ h λ reason begun h1.
      elim (List-cases
        (filter (λ (t : Task). not (is_terminal t.status)) (ordered_tasks g.tasks))) [
          | inl nothing ↦ inl (sym (ok-injective (rw nothing at h1)))
          | inr (t, ts, some_live) ↦
              after_ok (read_timestamp clock g) _ (rw some_live at h1) λ at read e.
                let distinct = subst (λ l. Nodup (ids l)) some_live live_tasks-Nodup in
                let live : (u : Task) → Mem u (t ∷ ts) → is_live (get_task g.tasks u.id) ≡ true =
                  λ u m. live_tasks-live u (subst (Mem u) (sym some_live) m) in
                let (moves, same) = cancel_each-Moves at reason (t ∷ ts) g.tasks [] distinct live in
                let there : AllFound g.tasks (t ∷ ts) =
                  subst (AllFound g.tasks) some_live
                    (AllFound-sort (λ u. not (is_terminal u.status)) g.tasks formed.distinct) in
                let (touched, told) =
                  cancel_each-is_touched at reason t ts g.tasks formed.distinct distinct there in
                inr (
                  execution-IsCommit clock g formed _ at _ _
                    (begin_execution-sealed clock g formed o begun) read moves
                    (cancel_each-AllKept at reason (t ∷ ts) g.tasks [] formed.distinct distinct
                      there)
                    (λ right.
                      cancel_each-AreConsistent at reason (t ∷ ts) g.tasks [] distinct live
                        (λ i u found alive.
                          subst (λ l. Mem i (ids l)) some_live (live_tasks-covers i u found alive))
                        (AreConsistent-AreLasting g.tasks right))
                    touched told (ok-injective e))
        ]
