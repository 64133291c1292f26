-- ===== src/TaskGraph/Graph/Returns.antt =====
-- packages/task-graph/src/task-graph.ts: that nothing is thrown once a command has begun to write.
use ai_development_os.Prelude.{
  ◌≡◌, refl, ◌∙◌, ◌>>=◌, ap, subst, String, Option, some, List, [], ok, or_fail, after_ok,
  ok-injective, string_eq,
}
use ai_development_os.TaskGraph.Types.{
  Task, TaskStatus, TaskFailure, Timestamp, Change, Checked, invalid_argument,
}
use ai_development_os.TaskGraph.Parsing.{assert_identifier}
use ai_development_os.TaskGraph.Topology.{
  topological_task_ids, assert_graph_edge_limit, check_edges,
}
use ai_development_os.TaskGraph.Graph.{
  Graph, Clock, get_task, put_task, create, read_timestamp, set_task_status,
}
use ai_development_os.TaskGraph.Graph.Reconcile.{reconcile_pending_tasks, reconcile_each}
use ai_development_os.TaskGraph.Graph.Execution.{settle_task}
use ai_development_os.TaskGraph.Graph.Machine.{Reachable, created, commanded}
use ai_development_os.TaskGraph.Graph.Keeping.{put-AllKept, Kept-now}
use ai_development_os.TaskGraph.Graph.Orders.{AreOrderable, AllKept-AreOrderable}
use ai_development_os.TaskGraph.Graph.Steps.{apply-AreOrderable}
use ai_development_os.TaskGraph.Graph.Numbering.{Reachable-IsNumbered}

bind_returns :
    {A B : Type 0} (m : Checked A) (k : A → Checked B) {a : A}
    → m ≡ ok a
    → (b : B) × (k a ≡ ok b)
    → (b : B) × ((m >>= k) ≡ ok b)
bind_returns m k e (b, h) = (b, ap (λ x. x >>= k) e ∙ h)

pub Reachable-AreOrderable : (g : Graph) → Reachable g → AreOrderable g.tasks
unfolding create topological_task_ids assert_graph_edge_limit check_edges
Reachable-AreOrderable g (created graph_id project_id reading h) =
    after_ok (or_fail reading invalid_argument) _ h λ at _ h1.
      after_ok (assert_identifier invalid_argument graph_id) _ h1 λ gid _ h2.
        after_ok (assert_identifier invalid_argument project_id) _ h2
          λ pid _ e. subst (λ (x : Graph). AreOrderable x.tasks) (ok-injective e) (([], refl), refl)
Reachable-AreOrderable g (commanded {g = before} clock c r h) =
    apply-AreOrderable clock before c (Reachable-IsNumbered before r).0
      (Reachable-AreOrderable before r) h

reconcile_pending_tasks_returns :
    (at : Timestamp) (tasks : List Task) (changes : List Change)
    → AreOrderable tasks
    → (state : List Task × List Change) × (reconcile_pending_tasks at tasks changes ≡ ok state)
unfolding reconcile_pending_tasks
reconcile_pending_tasks_returns at tasks changes ((out, sorted), _) =
    (reconcile_each at out (tasks, changes), rw sorted refl)

-- What `succeedTask`, `failTask` and `cancelTask` do once their arguments are checked throws nothing
-- after the clock is read: for a task of a graph that `create` and the commands lead to, it returns a
-- result.
pub settle_task_returns :
    (clock : Clock) (g : Graph) (t : Task) (outputs : List String) (failure : Option TaskFailure)
    (target : TaskStatus) (reason : Option String) {at : Timestamp}
    → Reachable g
    → get_task g.tasks t.id ≡ some t
    → read_timestamp clock g ≡ ok at
    → (result : Graph × Task) × (settle_task clock g t outputs failure target reason ≡ ok result)
unfolding settle_task set_task_status
settle_task_returns clock g t outputs failure target reason {at} r found read =
    let changed : Task = record t {
      output_artifact_ids = outputs;
      failure = failure;
      blocked_by = [];
      status = target;
      updated_at = at;
    } in
    let orderable =
      AllKept-AreOrderable at g.tasks (put_task g.tasks changed)
        (put-AllKept at g.tasks changed t (Reachable-IsNumbered g r).0.distinct found
          (Kept-now refl refl))
        (Reachable-AreOrderable g r) in
    let (state, reconciled) =
      reconcile_pending_tasks_returns at (put_task g.tasks changed) _ orderable in
    bind_returns (read_timestamp clock g) _ read (
      bind_returns (reconcile_pending_tasks at (put_task g.tasks changed) _) _ reconciled (_, refl))
