-- ===== src/TaskGraph/Graph/Touched.antt =====
-- packages/task-graph/src/task-graph.ts: each command that commits changes a task, so the last change of
-- a task is that of the graph.
use mathlib.Core.List.{Nodup, Nodup-cons}
use ai_development_os.Prelude.{
  none, ◌<◌, ◌≤◌, ◌≡◌, refl, sym, subst, inl, inr, String, Bool, true, false, some, List, [], ◌∷◌,
  ◌++◌, ◌==◌, string_eq, nat_beq, ltb, length, ok, after_ok, ok-injective, Option-cases, all, any,
  Option, Bool-cases, arith,
}
use ai_development_os.Domain.Instants.{year_10000}
use ai_development_os.TaskGraph.Types.{
  Task, cancelled, Change, Timestamp, is_pending, cyclic_dependency, graph_limit_exceeded,
}
use ai_development_os.TaskGraph.Topology.{topological_task_ids}
use ai_development_os.TaskGraph.Graph.Reconcile.{
  lookup_all, reconciled, reconcile_task, reconcile_each, reconcile_pending_tasks,
}
use ai_development_os.TaskGraph.Graph.Execution.{cancel_each}
use ai_development_os.TaskGraph.Graph.{get_task, put_task, set_task_status}
use ai_development_os.TaskGraph.Graph.Snapshot.{latest_update}
use ai_development_os.TaskGraph.Graph.Filed.{is_dated}
use ai_development_os.TaskGraph.Topology.Counting.{ids}
use ai_development_os.TaskGraph.Graph.Moves.{put-ids}
use ai_development_os.TaskGraph.Graph.Keeping.{AllFound, AllFound-put, cancel_each-AllKept, AllKept}

pub length-snoc : {A : Type 0} (xs : List A) (a : A) → length xs ≤ length (xs ++ a ∷ [])
length-snoc [] a = omega arith
length-snoc (x ∷ xs) a = omega (arith, length-snoc xs a)

abbrev pub is_touched : Timestamp → List Task → Bool
is_touched at tasks = any (λ t. nat_beq t.updated_at at) tasks

pub put-is_touched :
    (at : Timestamp) (tasks : List Task) (c : Task) {s : Task}
    → get_task tasks c.id ≡ some s
    → c.updated_at ≡ at
    → is_touched at (put_task tasks c) ≡ true
put-is_touched at [] c found new = absurd (cc found)
put-is_touched at (u ∷ tasks) c found new = elim (Bool-cases (u.id == c.id)) [
  | inl hit ↦ rw (hit, new) (ground arith)
  | inr miss ↦ rw miss (ground (arith, put-is_touched at tasks c (rw miss at found) new))
]

pub AllKept-is_touched :
    (at : Timestamp) (ss ts : List Task)
    → AllKept at ss ts
    → is_touched at ss ≡ true
    → is_touched at ts ≡ true
AllKept-is_touched at [] [] f h = h
AllKept-is_touched at [] (t ∷ ts) f h = absurd f
AllKept-is_touched at (s ∷ ss) [] f h = absurd f
AllKept-is_touched at (s ∷ ss) (t ∷ ts) f h = elim f.0.dated [
  | inl same ↦ rw same (ground (arith, h, AllKept-is_touched at ss ts f.1))
  | inr new ↦ rw new (ground arith)
]

-- Where nothing is changed, the tasks are the same.
pub AllKept-untouched :
    (at : Timestamp) (ss ts : List Task) → AllKept at ss ts → is_touched at ts ≡ false → ts ≡ ss
AllKept-untouched at [] [] f h = refl
AllKept-untouched at [] (t ∷ ts) f h = absurd f
AllKept-untouched at (s ∷ ss) [] f h = absurd f
AllKept-untouched at (s ∷ ss) (t ∷ ts) f h = elim f.0.dated [
  | inl same ↦ cc (same, AllKept-untouched at ss ts f.1 (ground (arith, h)))
  | inr new ↦ absurd (ground (arith, h, new))
]

latest_update-done :
    (start now : Timestamp) (tasks : List Task)
    → start < year_10000
    → all (is_dated start now) tasks ≡ true
    → latest_update now tasks ≡ now
unfolding latest_update
latest_update-done start now [] early h = refl
latest_update-done start now (t ∷ tasks) early h =
    let over : ltb now t.updated_at ≡ false = ground (arith, early, h) in
    rw over (latest_update-done start now tasks early (ground (arith, h)))

pub latest_update-is_touched :
    (start now maximum : Timestamp) (tasks : List Task)
    → start < year_10000
    → maximum ≤ now
    → all (is_dated start now) tasks ≡ true
    → is_touched now tasks ≡ true
    → latest_update maximum tasks ≡ now
unfolding latest_update
latest_update-is_touched start now maximum [] early le h touched = absurd (cc touched)
latest_update-is_touched start now maximum (t ∷ tasks) early le h touched =
    elim (Bool-cases (nat_beq t.updated_at now)) [
      | inl last ↦ elim (Bool-cases (ltb maximum t.updated_at)) [
        | inl less ↦
            let same : t.updated_at ≡ now = ground (arith, last) in
            rw (less, same) (latest_update-done start now tasks early (ground (arith, h)))
        | inr more ↦
            let same : maximum ≡ now = ground (arith, last, more, le) in
            rw (more, same) (latest_update-done start now tasks early (ground (arith, h)))
      ]
      | inr other ↦ elim (Bool-cases (ltb maximum t.updated_at)) [
        | inl less ↦ rw less (
            latest_update-is_touched start now t.updated_at tasks early (ground (arith, early, h))
              (ground (arith, h)) (ground (arith, touched, other)))
        | inr more ↦ rw more (
            latest_update-is_touched start now maximum tasks early le (ground (arith, h))
              (ground (arith, touched, other)))
      ]
    ]

-- The loops only add changes.
reconcile_task-length :
    (at : Timestamp) (i : String) (state : List Task × List Change)
    → length state.1 ≤ length (reconcile_task at i state).1
unfolding reconcile_task
reconcile_task-length at i (tasks, changes) = elim (Option-cases (get_task tasks i)) [
  | inl absent ↦ rw (absent, reconcile_task) (omega arith)
  | inr (t, found) ↦ elim (Bool-cases (is_pending t.status)) [
    | inr other ↦ rw (found, other, reconcile_task) (omega arith)
    | inl waits ↦ elim (Option-cases (reconciled (lookup_all tasks t.dependencies) at t)) [
      | inl unready ↦ rw (found, waits, unready, reconcile_task) (omega arith)
      | inr ((c, change), changed) ↦
          rw (found, waits, changed, reconcile_task) (length-snoc changes change)
    ]
  ]
]

reconcile_each-length :
    (at : Timestamp) (is : List String) (state : List Task × List Change)
    → length state.1 ≤ length (reconcile_each at is state).1
unfolding reconcile_each
reconcile_each-length at [] state = omega arith
reconcile_each-length at (i ∷ is) state = omega (
  arith,
  reconcile_task-length at i state,
  reconcile_each-length at is (reconcile_task at i state),
)

pub reconcile_pending_tasks-length :
    (at : Timestamp) (tasks : List Task) (changes : List Change) {state : List Task × List Change}
    → reconcile_pending_tasks at tasks changes ≡ ok state
    → length changes ≤ length state.1
unfolding reconcile_pending_tasks
reconcile_pending_tasks-length at tasks changes h =
    after_ok (topological_task_ids cyclic_dependency graph_limit_exceeded tasks) _ h λ is _ e.
      subst (λ (s : List Task × List Change). length changes ≤ length s.1) (ok-injective e)
        (reconcile_each-length at is (tasks, changes))

pub cancel_each-length :
    (at : Timestamp) (reason : Option String) (ts tasks : List Task) (changes : List Change)
    → length changes ≤ length (cancel_each at reason ts (tasks, changes)).1
unfolding cancel_each set_task_status
cancel_each-length at reason [] tasks changes = omega arith
cancel_each-length at reason (t ∷ ts) tasks changes =
    omega (arith, length-snoc changes _, cancel_each-length at reason ts _ _)

-- `cancelRemaining` has a task to cancel.
pub cancel_each-is_touched :
    (at : Timestamp) (reason : Option String) (t : Task) (ts tasks : List Task)
    → Nodup (ids tasks)
    → Nodup (ids (t ∷ ts))
    → AllFound tasks (t ∷ ts)
    → (is_touched at (cancel_each at reason (t ∷ ts) (tasks, [])).0 ≡ true)
      × (1 ≤ length (cancel_each at reason (t ∷ ts) (tasks, [])).1)
unfolding cancel_each set_task_status
cancel_each-is_touched at reason t ts tasks nodup nodup' found =
    let (fresh, distinct) = Nodup-cons.0 nodup' in
    let changed : Task = record t {
      failure = none;
      output_artifact_ids = [];
      blocked_by = [];
      status = cancelled;
      updated_at = at;
    } in
    (
      AllKept-is_touched at (put_task tasks changed) _
          (cancel_each-AllKept at reason ts (put_task tasks changed) _
            (subst Nodup (sym (put-ids tasks changed)) nodup) distinct
            (AllFound-put tasks ts changed fresh found.1))
          (put-is_touched at tasks changed found.0 refl),
      cancel_each-length at reason ts (put_task tasks changed) _,
    )
