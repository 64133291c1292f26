-- ===== src/TaskGraph/Graph/Shapes.antt =====
-- packages/task-graph/src/task-graph.ts: what every command does to the graph, whatever it does to
-- the tasks: it ends in one `#commit`, it acknowledges events, or it changes nothing.

use mathlib.Core.List.{Mem, Nodup, mem-map_of_mem}
use ai_development_os.Prelude.{
  ◌⊎◌, length, ◌≤◌, ◌≡◌, refl, sym, ◌∙◌, ap, subst, String, Bool, true, false, not, ◌||◌, Option,
  some, List, ok, guard, reject_if, or_fail, reject_if-eq-ok, guard-eq-ok, or_fail-eq-ok, string_eq,
  nat_eq, arith, after_ok, after_check, ok-injective, contains, contains_of_mem, find?-mem, ◌==◌,
  Bool-cases, inl, inr,
}
use ai_development_os.Domain.Instants.{text_ltb, text_leb}
use ai_development_os.TaskGraph.Types.{
  Task, TaskStatus, GraphStatus, Change, Timestamp, Checked, invalid_argument, unknown_task,
  graph_not_sealed, invalid_transition, is_terminal, is_pending,
}
use ai_development_os.TaskGraph.Parsing.{MutationOptions, is_identifier, assert_identifier}
use ai_development_os.TaskGraph.Graph.{
  Graph, Clock, get_task, put_task, set_task_status, assert_execution, require_task,
  assert_not_reentrant_mutation, assert_transition, read_timestamp, commit,
}
use ai_development_os.TaskGraph.Graph.Execution.{begin_execution, perform_transition}
use ai_development_os.TaskGraph.Topology.Counting.{ids}
use ai_development_os.TaskGraph.Graph.Moves.{Moves, put-Moves, get_task-id}
use ai_development_os.TaskGraph.Graph.Reconcile.{lookup_all}
use ai_development_os.TaskGraph.Graph.Lasting.{put-AreConsistent}
use ai_development_os.TaskGraph.Graph.States.{is_lasting, AreConsistent, AreConsistent-AreLasting}
use ai_development_os.TaskGraph.Graph.Keeping.{AllKept, AllKept-ids, put-AllKept, Kept-now}
use ai_development_os.TaskGraph.Graph.Touched.{is_touched, put-is_touched}
use ai_development_os.TaskGraph.Graph.Orders.{AreOrderable, AllKept-AreOrderable}
use ai_development_os.TaskGraph.Graph.Filed.{AreFiled, AllKept-AreFiled}
use ai_development_os.TaskGraph.Graph.Arrivals.{all_untouched}
use ai_development_os.TaskGraph.Graph.Machine.{graph_of}

-- The fields that only `#commit` and `acknowledgeEvents` write are those of the graph before.
pub record Keeps (g base : Graph) : Type 0 where
  pub same_graph : base.graph_id ≡ g.graph_id
  pub same_project : base.project_id ≡ g.project_id
  pub same_version : base.version ≡ g.version
  pub same_sequence : base.event_sequence ≡ g.event_sequence
  pub same_start : base.created_at ≡ g.created_at
  pub same_events : base.events ≡ g.events

-- The ids of the tasks are distinct, and before the graph is sealed all its tasks are
-- pending and have no outcome.
pub record IsWellFormed (g : Graph) : Type 0 where
  pub distinct : Nodup (ids g.tasks)
  pub untouched : g.is_sealed ≡ false → all_untouched g.tasks ≡ true

-- The tasks of a sealed graph are in states that `validateHydratedTaskStates` accepts.
abbrev pub IsValid : Graph → Type 0
IsValid g = g.is_sealed ≡ true → AreConsistent g.tasks

-- The tasks are numbered, depend on each other only, and have times between those of the graph.
abbrev pub IsFiled : Graph → Type 0
IsFiled g = AreFiled g.created_at g.updated_at g.next_order g.tasks

-- The graph after one `#commit`, at a time that is not before the last one.
pub record IsCommit (g g' : Graph) : Type 0 where
  pub base : Graph
  pub timestamp : Timestamp
  pub previous : GraphStatus
  pub pending : List Change
  pub keeps : Keeps g base
  pub moves : Moves g.tasks base.tasks
  pub formed : IsWellFormed base
  pub valid : IsValid g → IsValid base
  pub filed : IsFiled g → AreFiled base.created_at timestamp base.next_order base.tasks
  pub orderable : AreOrderable g.tasks → AreOrderable base.tasks
  pub touched : is_touched timestamp base.tasks ≡ true
  pub told : 1 ≤ length pending
  pub opened : base.is_sealed ≡ true → (g.is_sealed ≡ true) ⊎ (1 ≤ length g.tasks)
  pub later : text_leb g.updated_at timestamp ≡ true
  pub committed : g' ≡ commit base timestamp previous pending

pub read_timestamp-text_leb :
    (clock : Clock) (g : Graph) {t : Timestamp}
    → read_timestamp clock g ≡ ok t
    → text_leb g.updated_at t ≡ true
unfolding read_timestamp
read_timestamp-text_leb clock g {t} h = after_check (assert_not_reentrant_mutation g) _ h λ _ h1.
    after_ok (or_fail (clock (record g { clock_active = true })) invalid_argument) _ h1 λ u _ h2.
      after_check (reject_if (text_ltb u g.updated_at) invalid_argument) _ h2 λ unless e.
        subst (λ v. text_leb g.updated_at v ≡ true) (ok-injective e)
          (ground (arith, reject_if-eq-ok (text_ltb u g.updated_at) invalid_argument unless))

-- The statuses of a task that is on its way: it is not pending, and has not ended.
abbrev pub is_going : TaskStatus → Bool
is_going s = not (is_terminal s || is_pending s)

is_going-is_lasting :
    (ds : List Task) (t : Task) (target : TaskStatus) (at : Timestamp)
    → is_going t.status ≡ true
    → is_going target ≡ true
    → is_lasting ds t ≡ true
    → is_lasting ds (record t { status = target; updated_at = at }) ≡ true
is_going-is_lasting ds t target at from to lasts = ground arith

-- The graph of a pair that is returned.
pub after_graph :
    {A P : Type 0} (m : Checked (Graph × A)) {g' : Graph}
    → graph_of m ≡ ok g'
    → ((a : A) → m ≡ ok (g', a) → P)
    → P
after_graph m h k =
    after_ok m _ h λ pair e same. k pair.1 (e ∙ ap (λ g. ok (g, pair.1)) (ok-injective same))

module _ (clock : Clock) (g : Graph) (formed : IsWellFormed g) where
  -- A command of a sealed graph ends in a `#commit` of the tasks it leaves.
  pub execution-IsCommit :
      (tasks : List Task) (t : Timestamp) (previous : GraphStatus) (pending : List Change)
      {g' : Graph}
      → g.is_sealed ≡ true
      → read_timestamp clock g ≡ ok t
      → Moves g.tasks tasks
      → AllKept t g.tasks tasks
      → (AreConsistent g.tasks → AreConsistent tasks)
      → is_touched t tasks ≡ true
      → 1 ≤ length pending
      → commit (record g { tasks = tasks }) t previous pending ≡ g'
      → IsCommit g g'
  execution-IsCommit tasks t previous pending is_closed read moves kept keep touched told e =
      record {
        base = record g { tasks = tasks };
        timestamp = t;
        previous = previous;
        pending = pending;
        keeps = record {
          same_graph = refl;
          same_project = refl;
          same_version = refl;
          same_sequence = refl;
          same_start = refl;
          same_events = refl;
        };
        moves = moves;
        formed = record {
          distinct = subst Nodup (sym (AllKept-ids t g.tasks tasks kept)) formed.distinct;
          untouched = λ is_open. absurd (cc (is_open, is_closed));
        };
        valid = λ before _. keep (before is_closed);
        touched = touched;
        told = told;
        opened = λ _. inl is_closed;
        orderable = AllKept-AreOrderable t g.tasks tasks kept;
        filed =
            AllKept-AreFiled t g.created_at g.updated_at g.next_order g.tasks tasks
              (read_timestamp-text_leb clock g read) kept;
        later = read_timestamp-text_leb clock g read;
        committed = sym e;
      }

  pub begin_execution-sealed :
      (o : MutationOptions) {reason : Option String}
      → begin_execution g o ≡ ok reason
      → g.is_sealed ≡ true
  unfolding begin_execution assert_execution
  begin_execution-sealed o h = after_check (assert_not_reentrant_mutation g) _ h λ _ h1.
      after_check (guard g.is_sealed graph_not_sealed) _ h1
        λ is_closed _. guard-eq-ok g.is_sealed graph_not_sealed is_closed

  pub require_task-found :
      (task_id : String) {t : Task} → require_task g task_id ≡ ok t → get_task g.tasks t.id ≡ some t
  unfolding require_task
  require_task-found task_id {t} h =
      after_ok (assert_identifier invalid_argument task_id) _ h λ id _ h1.
        let found = or_fail-eq-ok (get_task g.tasks id) unknown_task h1 in
        subst (λ i. get_task g.tasks i ≡ some t) (sym (get_task-id g.tasks id found)) found

  pub require_task-known :
      (task_id : String) {t : Task}
      → require_task g task_id ≡ ok t
      → contains (ids g.tasks) task_id ≡ true
  unfolding require_task assert_identifier
  require_task-known task_id {t} h =
      after_ok (assert_identifier invalid_argument task_id) _ h λ id checked h1.
        let found = or_fail-eq-ok (get_task g.tasks id) unknown_task h1 in
        let same : id ≡ task_id = elim (Bool-cases (is_identifier task_id)) [
          | inl good ↦ sym (ok-injective (rw good at checked))
          | inr bad ↦ absurd (cc (rw bad at checked))
        ] in
        contains_of_mem (ids g.tasks) task_id (
          subst (λ i. Mem i (ids g.tasks)) (get_task-id g.tasks id found ∙ same)
            (mem-map_of_mem (λ (u : Task). u.id) (find?-mem (λ u. u.id == id) g.tasks found)))

  -- A write of a found task that has not ended, under its id.
  pub write-Moves :
      (t changed : Task)
      → get_task g.tasks t.id ≡ some t
      → is_terminal t.status ≡ false
      → changed.id ≡ t.id
      → Moves g.tasks (put_task g.tasks changed)
  write-Moves t changed found alive same =
      put-Moves g.tasks changed (subst (λ i. get_task g.tasks i ≡ some t) (sym same) found)
        (record { same_id = same; final = λ ended. absurd (cc (alive, ended)) })

  pub perform_transition-IsCommit :
      (task_id : String) (allowed : TaskStatus → Bool) (target : TaskStatus) (o : MutationOptions)
      {g' : Graph}
      → ((s : TaskStatus) → allowed s ≡ true → is_going s ≡ true)
      → is_going target ≡ true
      → graph_of (perform_transition clock g task_id allowed target o) ≡ ok g'
      → IsCommit g g'
  unfolding perform_transition set_task_status assert_transition
  perform_transition-IsCommit task_id allowed target o live goes h =
      after_graph (perform_transition clock g task_id allowed target o) h λ a h0.
        after_ok (begin_execution g o) _ h0 λ reason begun h1.
          after_ok (require_task g task_id) _ h1 λ t required h2.
            after_check (guard (allowed t.status) invalid_transition) _ h2 λ may h3.
              after_ok (read_timestamp clock g) _ h3 λ at read e.
                let found = require_task-found task_id required in
                let going = live t.status (guard-eq-ok (allowed t.status) invalid_transition may) in
                let alive : is_terminal t.status ≡ false = ground (arith, going) in
                execution-IsCommit
                  (put_task g.tasks (record t { status = target; updated_at = at })) at _ _
                  (begin_execution-sealed o begun) read (write-Moves t _ found alive refl)
                  (put-AllKept at g.tasks _ t formed.distinct found (Kept-now refl refl))
                  (λ right.
                    put-AreConsistent g.tasks _ t found alive (ground (arith, goes))
                      (ground (arith, goes))
                      (is_going-is_lasting (lookup_all g.tasks t.dependencies) t target at going
                        goes (AreConsistent-AreLasting g.tasks right t.id t found))
                      right)
                  (put-is_touched at g.tasks _ found refl) (omega arith)
                  (ap (λ pair. pair.0) (ok-injective e))
