-- ===== src/TaskGraph/Graph/PlanningCommits.antt =====
-- packages/task-graph/src/task-graph.ts: each command of a graph in planning, and `seal`, ends in one
-- `#commit`.

use mathlib.Core.List.{Nodup, map-append}
use ai_development_os.Prelude.{
  ◌≤◌, inl, inr, ℕ, all, ◌+◌, ◌≡◌, refl, sym, ap, subst, String, true, false, Option, List, [], ◌∷◌,
  ◌++◌, ok, reject_if, reject_if-eq-ok, leb, ltb, nat_beq, ◌==◌, string_eq, nat_eq, length,
  contains, mem-all, find?-mem, after_ok, after_check, ok-injective, arith,
}
use ai_development_os.TaskGraph.Limits.{max_tasks, max_dependencies}
use ai_development_os.TaskGraph.Types.{
  Task, Change, Timestamp, GraphStatus, TaskDefinition, sealed_with, invalid_argument, empty_graph,
  graph_sealed, cyclic_dependency, graph_limit_exceeded, is_pending,
}
use ai_development_os.TaskGraph.Topology.{topological_task_ids, assert_graph_edge_limit}
use ai_development_os.TaskGraph.Topology.Counting.{ids}
use ai_development_os.TaskGraph.Graph.{
  Graph, Clock, put_task, require_task, assert_not_reentrant_mutation, assert_planning,
  read_timestamp, commit,
}
use ai_development_os.TaskGraph.Graph.Reconcile.{reconcile_pending_tasks}
use ai_development_os.TaskGraph.Graph.Planning.{
  begin_planning, parse_definitions, check_dependencies, add_tasks, with_dependency, add_dependency,
  seal,
}
use ai_development_os.TaskGraph.Graph.Machine.{graph_of}
use ai_development_os.TaskGraph.Graph.Moves.{Moves, put-Moves, put-ids, pending-Follows}
use ai_development_os.TaskGraph.Graph.Snapshot.{is_untouched}
use ai_development_os.TaskGraph.Graph.Consistency.{
  reconcile_pending_tasks-AreConsistent, is_untouched-AreLasting,
}
use ai_development_os.TaskGraph.Graph.Keeping.{reconcile_pending_tasks-AllKept}
use ai_development_os.TaskGraph.Graph.Waits.{seal-is_touched}
use ai_development_os.TaskGraph.Graph.Touched.{
  is_touched, put-is_touched, reconcile_pending_tasks-length,
}
use ai_development_os.TaskGraph.Graph.Orders.{AreOrderable, AllKept-AreOrderable, put-AreOrderable}
use ai_development_os.TaskGraph.Graph.Filing.{
  parse_definitions-is_touched, is_touched-append, is_touched-told, append-AreFiled,
  depend-AreFiled,
}
use ai_development_os.TaskGraph.Graph.Filed.{AreFiled, AllKept-AreFiled}
use ai_development_os.TaskGraph.Graph.Arrivals.{
  parse_definitions-Nodup, Moves-append, all-put, all-append,
}
use ai_development_os.TaskGraph.Graph.Shapes.{
  IsFiled, IsWellFormed, IsCommit, read_timestamp-text_leb, after_graph, require_task-found,
  require_task-known,
}
use ai_development_os.TaskGraph.Graph.Commits.{reconcile_pending_tasks-Moves}

is_untouched-pending : (t : Task) → is_untouched t ≡ true → is_pending t.status ≡ true
unfolding is_untouched
is_untouched-pending t h = ground (arith, h)

module _ (clock : Clock) (g : Graph) (formed : IsWellFormed g) where
  begin_planning-open : (v : Option ℕ) → begin_planning g v ≡ ok tt → g.is_sealed ≡ false
  unfolding begin_planning assert_planning
  begin_planning-open v h = after_check (assert_not_reentrant_mutation g) _ h λ _ h1.
      after_check (reject_if g.is_sealed graph_sealed) _ h1
        λ is_open _. reject_if-eq-ok g.is_sealed graph_sealed is_open

  -- A command of a graph in planning ends in a `#commit` of the tasks it leaves.
  planning-IsCommit :
      (tasks : List Task) (next : ℕ) (at : Timestamp) (previous : GraphStatus)
      (pending : List Change) {g' : Graph}
      → g.is_sealed ≡ false
      → read_timestamp clock g ≡ ok at
      → Moves g.tasks tasks
      → Nodup (ids tasks)
      → all is_untouched tasks ≡ true
      → AreOrderable tasks
      → is_touched at tasks ≡ true
      → 1 ≤ length pending
      → (IsFiled g → AreFiled g.created_at at next tasks)
      → commit (record g { tasks = tasks; next_order = next }) at previous pending ≡ g'
      → IsCommit g g'
  planning-IsCommit tasks next at previous pending is_open read moves distinct untouched orderable
        touched told filed e =
      record {
        base = record g { tasks = tasks; next_order = next };
        timestamp = at;
        previous = previous;
        pending = pending;
        keeps = record {
          same_graph = refl;
          same_project = refl;
          same_version = refl;
          same_sequence = refl;
          same_start = refl;
          same_events = refl;
        };
        moves = moves;
        formed = record { distinct = distinct; untouched = λ _. untouched };
        valid = λ _ is_closed. absurd (cc (is_open, is_closed));
        touched = touched;
        told = told;
        opened = λ is_closed. inl is_closed;
        orderable = λ _. orderable;
        filed = filed;
        later = read_timestamp-text_leb clock g read;
        committed = sym e;
      }

  pub seal-IsCommit : (v : Option ℕ) {g' : Graph} → seal clock g v ≡ ok g' → IsCommit g g'
  unfolding seal
  seal-IsCommit v h = after_check (begin_planning g v) _ h λ begun h1.
      after_check (reject_if (nat_beq (length g.tasks) 0) empty_graph) _ h1 λ filled h2.
        let some_task : 1 ≤ length g.tasks =
          ground (arith, reject_if-eq-ok (nat_beq (length g.tasks) 0) empty_graph filled) in
        after_ok (read_timestamp clock g) _ h2 λ at read h3.
          after_ok (reconcile_pending_tasks at g.tasks (sealed_with (length g.tasks) ∷ [])) _ h3
            λ state reconciled e.
              let (moves, same) = reconcile_pending_tasks-Moves at g.tasks _ reconciled in
              record {
                base = record g { is_sealed = true; tasks = state.0 };
                timestamp = at;
                previous = _;
                pending = _;
                keeps = record {
                  same_graph = refl;
                  same_project = refl;
                  same_version = refl;
                  same_sequence = refl;
                  same_start = refl;
                  same_events = refl;
                };
                moves = moves;
                formed = record {
                  distinct = subst Nodup (sym same) formed.distinct;
                  untouched = λ is_open. absurd (cc is_open);
                };
                valid = λ _ _.
                    reconcile_pending_tasks-AreConsistent at g.tasks _ formed.distinct
                      (is_untouched-AreLasting g.tasks
                        (formed.untouched (begin_planning-open v begun)))
                      reconciled;
                touched =
                    seal-is_touched at g.tasks _ formed.distinct
                      (formed.untouched (begin_planning-open v begun)) some_task reconciled;
                told = reconcile_pending_tasks-length at g.tasks _ reconciled;
                opened = λ _. inr some_task;
                orderable =
                    AllKept-AreOrderable at g.tasks state.0
                      (reconcile_pending_tasks-AllKept at g.tasks _ formed.distinct reconciled);
                filed =
                    AllKept-AreFiled at g.created_at g.updated_at g.next_order g.tasks state.0
                      (read_timestamp-text_leb clock g read)
                      (reconcile_pending_tasks-AllKept at g.tasks _ formed.distinct reconciled);
                later = read_timestamp-text_leb clock g read;
                committed = sym (ok-injective e);
              }

  pub add_tasks-IsCommit :
      (definitions : List TaskDefinition) (v : Option ℕ) {g' : Graph}
      → graph_of (add_tasks clock g definitions v) ≡ ok g'
      → IsCommit g g'
  unfolding add_tasks
  add_tasks-IsCommit definitions v h = after_graph (add_tasks clock g definitions v) h λ a h0.
      after_check (begin_planning g v) _ h0 λ begun h1.
        after_check (reject_if (ltb max_tasks (length definitions)) invalid_argument) _ h1 λ _ h2.
          after_check (reject_if (nat_beq (length definitions) 0) invalid_argument) _ h2
            λ filled h3.
              after_check
                (reject_if (ltb max_tasks (length g.tasks + length definitions))
                  graph_limit_exceeded)
                _ h3
                λ _ h4. after_ok (read_timestamp clock g) _ h4 λ at read h5.
                  after_ok (parse_definitions (ids g.tasks) g.next_order at definitions) _ h5
                    λ parsed hp h6.
                      after_check (check_dependencies (ids (g.tasks ++ parsed)) parsed) _ h6
                        λ known h7.
                          after_check
                            (assert_graph_edge_limit graph_limit_exceeded (g.tasks ++ parsed)) _ h7
                            λ few h8.
                              after_ok
                                (topological_task_ids cyclic_dependency graph_limit_exceeded
                                  (g.tasks ++ parsed))
                                _ h8
                                λ out sorted e.
                                  let (distinct, arrived) =
                                    parse_definitions-Nodup (ids g.tasks) g.next_order at
                                      definitions hp formed.distinct in
                                  let touched =
                                    parse_definitions-is_touched (ids g.tasks) g.next_order at
                                      definitions hp
                                      (ground (
                                        arith,
                                        reject_if-eq-ok (nat_beq (length definitions) 0)
                                            invalid_argument filled,
                                      )) in
                                  planning-IsCommit (g.tasks ++ parsed)
                                    (g.next_order + length parsed) at _ _
                                    (begin_planning-open v begun) read (Moves-append g.tasks parsed)
                                    (rw (map-append (λ (t : Task). t.id) g.tasks parsed) distinct)
                                    (all-append is_untouched g.tasks parsed
                                      (formed.untouched (begin_planning-open v begun)) arrived)
                                    ((out, sorted), few)
                                    (is_touched-append at g.tasks parsed touched)
                                    (is_touched-told at parsed touched)
                                    (append-AreFiled at g.created_at g.updated_at g.next_order
                                      g.tasks parsed (ids g.tasks) definitions
                                      (read_timestamp-text_leb clock g read) hp known)
                                    (ap (λ pair. pair.0) (ok-injective e))

  pub add_dependency-IsCommit :
      (task_id dependency_id : String) (v : Option ℕ) {g' : Graph}
      → add_dependency clock g task_id dependency_id v ≡ ok g'
      → IsCommit g g'
  unfolding add_dependency with_dependency is_untouched
  add_dependency-IsCommit task_id dependency_id v h =
      after_check (begin_planning g v) _ h λ begun h1.
        after_ok (require_task g task_id) _ h1 λ t required h2.
          after_ok (require_task g dependency_id) _ h2 λ dependency required' h3.
            after_check (reject_if (t.id == dependency_id) cyclic_dependency) _ h3 λ _ h4.
              after_check (reject_if (contains t.dependencies dependency_id) invalid_argument) _ h4
                λ _ h5.
                  after_check
                    (reject_if (leb max_dependencies (length t.dependencies)) graph_limit_exceeded)
                    _ h5
                    λ _ h6.
                      after_check
                        (assert_graph_edge_limit graph_limit_exceeded
                          (put_task g.tasks (with_dependency t dependency_id)))
                        _ h6
                        λ few h7.
                          after_ok
                            (topological_task_ids cyclic_dependency graph_limit_exceeded
                              (put_task g.tasks (with_dependency t dependency_id)))
                            _ h7
                            λ out sorted h8. after_ok (read_timestamp clock g) _ h8 λ at read e.
                              let found = require_task-found clock g formed task_id required in
                              let is_open = begin_planning-open v begun in
                              let untouched = formed.untouched is_open in
                              let kept : is_untouched t ≡ true =
                                mem-all is_untouched g.tasks t
                                  (find?-mem (λ u. u.id == t.id) g.tasks found) untouched in
                              let changed : Task = record t {
                                dependencies = t.dependencies ++ dependency_id ∷ [];
                                updated_at = at;
                              } in
                              planning-IsCommit (put_task g.tasks changed) g.next_order at _ _
                                is_open read
                                (put-Moves g.tasks changed found
                                  (pending-Follows t changed (is_untouched-pending t kept) refl))
                                (subst Nodup (sym (put-ids g.tasks changed)) formed.distinct)
                                (all-put is_untouched g.tasks changed untouched kept)
                                (put-AreOrderable g.tasks changed (with_dependency t dependency_id)
                                  refl ((out, sorted), few))
                                (put-is_touched at g.tasks changed found refl) (omega arith)
                                (depend-AreFiled at g.created_at g.updated_at g.next_order g.tasks t
                                  dependency_id (read_timestamp-text_leb clock g read)
                                  formed.distinct found
                                  (require_task-known clock g formed dependency_id required'))
                                (ok-injective e)
