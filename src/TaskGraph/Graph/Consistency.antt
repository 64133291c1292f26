-- ===== src/TaskGraph/Graph/Consistency.antt =====
-- packages/task-graph/src/task-graph.ts: that `#reconcilePendingTasks` and the loop of
-- `cancelRemaining` leave tasks that `validateHydratedTaskStates` accepts.
use mathlib.Core.Logic.Or
use mathlib.Core.Option.{some-injective}
use mathlib.Core.List.{
  Mem, Nodup, Nodup-cons, mem-cons, mem-cons_self, mem-cons_of_mem, mem-map_of_mem, not-mem-nil,
  Mem-prop,
}
use ai_development_os.Prelude.{
  ◌≢◌, beq_refl, beq_of_ne, ◌≡◌, refl, sym, ◌∙◌, ap, subst, inl, inr, String, Bool, true, false,
  Option, none, some, List, [], ◌∷◌, ok, ◌==◌, string_eq, all, mem-all, find?-mem, contains,
  contains_of_mem, Bool-cases, Option-cases, Eq-cases, List-cases, arith, after_ok, ok-injective,
}
use ai_development_os.TaskGraph.Types.{
  Task, Change, Timestamp, cyclic_dependency, graph_limit_exceeded, cancelled, is_terminal,
  is_pending,
}
use ai_development_os.TaskGraph.Topology.{topological_task_ids}
use ai_development_os.TaskGraph.Topology.Counting.{ids}
use ai_development_os.TaskGraph.Graph.{get_task, put_task, set_task_status}
use ai_development_os.TaskGraph.Graph.Reconcile.{
  lookup_all, reconciled, reconcile_task, reconcile_each, reconcile_pending_tasks, blockers,
}
use ai_development_os.TaskGraph.Graph.Execution.{cancel_each}
use ai_development_os.TaskGraph.Graph.Snapshot.{is_untouched}
use ai_development_os.TaskGraph.Graph.Moves.{
  get_task-id, get-put-other, get-put-same, is_live, is_live-some,
}
use ai_development_os.TaskGraph.Graph.Lasting.{put-AreLasting}
use ai_development_os.TaskGraph.Graph.States.{
  all_succeeded, is_lasting, AreLasting, AreConsistent, is_consistent-of_is_lasting,
}
use ai_development_os.TaskGraph.Graph.Settling.{awake-is_reconciled, reconciled-some}
use ai_development_os.TaskGraph.Graph.Waiting.{reconcile_pending_tasks-is_reconciled}

pub all_of_mem :
    {A : Type 0} (p : A → Bool) (xs : List A) → ((a : A) → Mem a xs → p a ≡ true) → all p xs ≡ true
all_of_mem p [] each = refl
all_of_mem p (x ∷ xs) each =
    ground (arith, each x mem-cons_self, all_of_mem p xs (λ a m. each a (mem-cons_of_mem x m)))

pub all_of_found :
    (p : Task → Bool) (tasks : List Task)
    → Nodup (ids tasks)
    → ((i : String) (t : Task) → get_task tasks i ≡ some t → p t ≡ true)
    → all p tasks ≡ true
all_of_found p [] nodup each = refl
all_of_found p (s ∷ tasks) nodup each =
    let (fresh, rest) = Nodup-cons.0 nodup in
    let first : p s ≡ true = each s.id s (rw (beq_refl s.id) refl) in
    let later : all p tasks ≡ true = all_of_found p tasks rest λ i t found.
      let apart : s.id ≢ i = λ e. fresh (
        subst (λ j. Mem j (ids tasks)) (get_task-id tasks i found ∙ sym e)
          (mem-map_of_mem (λ (u : Task). u.id) (find?-mem (λ u. u.id == i) tasks found))) in
      each i t (rw (beq_of_ne s.id i apart) found) in
    ground (arith, first, later)

reconciled-is_lasting :
    (dependencies : List Task) (at : Timestamp) (t : Task) {c : Task × Change}
    → is_pending t.status ≡ true
    → is_lasting dependencies t ≡ true
    → reconciled dependencies at t ≡ some c
    → is_lasting dependencies c.0 ≡ true
unfolding reconciled set_task_status
reconciled-is_lasting dependencies at t waits lasts h = elim (List-cases (blockers dependencies)) [
  | inl unblocked ↦ elim (Bool-cases (all_succeeded dependencies)) [
    | inl every ↦
        let e = rw (unblocked, every, reconciled) at h in
        subst (λ (u : Task). is_lasting dependencies u ≡ true)
          (ap (λ (p : Task × Change). p.0) (some-injective _ _ e))
          (rw every (ground (arith, waits, lasts)))
    | inr some_open ↦ absurd (cc (rw (unblocked, some_open, reconciled) at h))
  ]
  | inr (i, is, stopped) ↦
      let e = rw (stopped, reconciled) at h in
      let listed : all (λ j. contains (blockers dependencies) j) (i ∷ is) ≡ true =
        subst (λ l. all (λ j. contains (blockers dependencies) j) l ≡ true) stopped
          (all_of_mem (λ j. contains (blockers dependencies) j) (blockers dependencies)
            (contains_of_mem (blockers dependencies))) in
      subst (λ (u : Task). is_lasting dependencies u ≡ true)
        (ap (λ (p : Task × Change). p.0) (some-injective _ _ e))
        (ground (arith, waits, lasts, listed))
]

reconcile_task-AreLasting :
    (at : Timestamp) (i : String) (state : List Task × List Change)
    → AreLasting state.0
    → AreLasting (reconcile_task at i state).0
unfolding reconcile_task
reconcile_task-AreLasting at i (tasks, changes) lasting = elim (Option-cases (get_task tasks i)) [
  | inl absent ↦ rw (absent, reconcile_task) lasting
  | inr (t, found) ↦ elim (Bool-cases (is_pending t.status)) [
    | inr other ↦ rw (found, other, reconcile_task) lasting
    | inl waits ↦ elim (Option-cases (reconciled (lookup_all tasks t.dependencies) at t)) [
      | inl unready ↦ rw (found, waits, unready, reconcile_task) lasting
      | inr ((c, change), changed) ↦
          let (same, deps, _) = reconciled-some (lookup_all tasks t.dependencies) at t changed in
          rw (found, waits, changed, reconcile_task)
            (put-AreLasting tasks c t
              (subst (λ j. get_task tasks j ≡ some t) (sym (same ∙ get_task-id tasks i found))
                found)
              (ground (arith, waits))
              (rw deps (
                reconciled-is_lasting (lookup_all tasks t.dependencies) at t waits
                  (lasting i t found) changed))
              lasting)
    ]
  ]
]

reconcile_each-AreLasting :
    (at : Timestamp) (is : List String) (state : List Task × List Change)
    → AreLasting state.0
    → AreLasting (reconcile_each at is state).0
unfolding reconcile_each
reconcile_each-AreLasting at [] state lasting = lasting
reconcile_each-AreLasting at (i ∷ is) state lasting =
    reconcile_each-AreLasting at is (reconcile_task at i state)
      (reconcile_task-AreLasting at i state lasting)

pub reconcile_pending_tasks-AreConsistent :
    (at : Timestamp) (tasks : List Task) (changes : List Change) {state : List Task × List Change}
    → Nodup (ids tasks)
    → AreLasting tasks
    → reconcile_pending_tasks at tasks changes ≡ ok state
    → AreConsistent state.0
unfolding reconcile_pending_tasks
reconcile_pending_tasks-AreConsistent at tasks changes {state} nodup lasting h i t found =
    is_consistent-of_is_lasting (lookup_all state.0 t.dependencies) t
      (reconcile_pending_tasks-is_reconciled at tasks changes nodup h i t found)
      (after_ok (topological_task_ids cyclic_dependency graph_limit_exceeded tasks) _ h λ is _ e.
        subst (λ (s : List Task × List Change). AreLasting s.0) (ok-injective e)
          (reconcile_each-AreLasting at is (tasks, changes) lasting) i t found)

-- The tasks of a graph in planning.
pub is_untouched-AreLasting : (tasks : List Task) → all is_untouched tasks ≡ true → AreLasting tasks
unfolding is_untouched
is_untouched-AreLasting tasks h i t found =
    ground (arith, mem-all is_untouched tasks t (find?-mem (λ u. u.id == i) tasks found) h)

-- The loop of `cancelRemaining` has the tasks that have not ended in its list.
abbrev Covers : List Task → List Task → Type 0
Covers ts tasks =
    (i : String) (t : Task)
    → get_task tasks i ≡ some t
    → is_terminal t.status ≡ false
    → Mem i (ids ts)

cancel-Covers :
    (t : Task) (ts tasks : List Task) (c s : Task)
    → get_task tasks c.id ≡ some s
    → c.id ≡ t.id
    → is_terminal c.status ≡ true
    → Covers (t ∷ ts) tasks
    → Covers ts (put_task tasks c)
cancel-Covers t ts tasks c s found same ended covers i u there alive = elim (Eq-cases c.id i) [
  | inl (at, _) ↦
      let written : c ≡ u = cc (
        get-put-same tasks c found,
        subst (λ j. get_task (put_task tasks c) j ≡ some u) (sym at) there,
      ) in
      absurd (cc (subst (λ (v : Task). is_terminal v.status ≡ true) written ended, alive))
  | inr (apart, _) ↦
      Or.elim Mem-prop (mem-cons.0 (covers i u (sym (get-put-other tasks c i apart) ∙ there) alive))
        (λ first. absurd (apart (same ∙ sym first))) (λ later. later)
]

pub cancel_each-AreConsistent :
    (at : Timestamp) (reason : Option String) (ts tasks : List Task) (changes : List Change)
    → Nodup (ids ts)
    → ((t : Task) → Mem t ts → is_live (get_task tasks t.id) ≡ true)
    → Covers ts tasks
    → AreLasting tasks
    → AreConsistent (cancel_each at reason ts (tasks, changes)).0
unfolding cancel_each set_task_status
cancel_each-AreConsistent at reason [] tasks changes nodup live covers lasting = λ i t found.
    is_consistent-of_is_lasting (lookup_all tasks t.dependencies) t
      (awake-is_reconciled tasks t (elim (Bool-cases (is_terminal t.status)) [
        | inl ended ↦ ground (arith, ended)
        | inr alive ↦ absurd (not-mem-nil (covers i t found alive))
      ]))
      (lasting i t found)
cancel_each-AreConsistent at reason (t ∷ ts) tasks changes nodup live covers lasting =
    let (fresh, distinct) = Nodup-cons.0 nodup in
    let (s, found, alive) = is_live-some (get_task tasks t.id) (live t mem-cons_self) in
    let changed : Task = record t {
      failure = none;
      output_artifact_ids = [];
      blocked_by = [];
      status = cancelled;
      updated_at = at;
    } in
    cancel_each-AreConsistent at reason ts (put_task tasks changed) _ distinct
      (λ u m.
        rw
          (get-put-other tasks changed u.id
            (λ e. fresh (rw e (mem-map_of_mem (λ (v : Task). v.id) m))))
          (live u (mem-cons_of_mem t m)))
      (cancel-Covers t ts tasks changed s found refl refl covers)
      (put-AreLasting tasks changed s found alive refl lasting)
