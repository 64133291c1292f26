-- ===== src/TaskGraph/Graph/Keeping.antt =====
-- packages/task-graph/src/task-graph.ts: what a command of a sealed graph keeps of every task: its id,
-- its dependencies, its order and the time of its creation.
use mathlib.Core.Option.{some-injective}
use mathlib.Core.List.{Mem, Nodup, Nodup-cons, mem-cons_self, mem-cons_of_mem, mem-map_of_mem}
use ai_development_os.Prelude.{
  ℕ, ◌≡◌, refl, sym, ◌∙◌, ap, subst, ◌⊎◌, inl, inr, String, Option, none, some, List, [], ◌∷◌, ◌==◌,
  string_eq, all, find?-mem, Bool-cases, Option-cases, Eq-cases, List-cases, after_ok, ok,
  ok-injective,
}
use ai_development_os.TaskGraph.Types.{
  Task, Change, Timestamp, cancelled, cyclic_dependency, graph_limit_exceeded, is_pending,
  is_succeeded,
}
use ai_development_os.TaskGraph.Topology.{topological_task_ids}
use ai_development_os.TaskGraph.Topology.Counting.{ids}
use ai_development_os.TaskGraph.Graph.{get_task, put_task, set_task_status}
use ai_development_os.TaskGraph.Graph.Reconcile.{
  lookup_all, reconciled, reconcile_task, reconcile_each, reconcile_pending_tasks, blockers,
}
use ai_development_os.TaskGraph.Graph.Execution.{cancel_each}
use ai_development_os.TaskGraph.Graph.Moves.{get_task-id, get-put-other, put-ids}

-- A task afterwards; `at` is the time of the command.
pub record Kept (at : Timestamp) (before after : Task) : Type 0 where
  pub same_id : after.id ≡ before.id
  pub same_dependencies : after.dependencies ≡ before.dependencies
  pub same_order : after.order ≡ before.order
  pub same_start : after.created_at ≡ before.created_at
  pub dated : (after ≡ before) ⊎ (after.updated_at ≡ at)

Kept-refl : (at : Timestamp) (t : Task) → Kept at t t
Kept-refl at t = record {
  same_id = refl;
  same_dependencies = refl;
  same_order = refl;
  same_start = refl;
  dated = inl refl;
}

Kept-trans : (at : Timestamp) (s t u : Task) → Kept at s t → Kept at t u → Kept at s u
Kept-trans at s t u f g = record {
  same_id = g.same_id ∙ f.same_id;
  same_dependencies = g.same_dependencies ∙ f.same_dependencies;
  same_order = g.same_order ∙ f.same_order;
  same_start = g.same_start ∙ f.same_start;
  dated = elim g.dated [
    | inr now ↦ inr now
    | inl same ↦ elim f.dated [
      | inl before ↦ inl (same ∙ before)
      | inr now ↦ inr (ap (λ (x : Task). x.updated_at) same ∙ now)
    ]
  ];
}

-- The tasks one by one.
abbrev pub AllKept : Timestamp → List Task → List Task → Type 0
AllKept at [] [] = Unit
AllKept at [] (t ∷ ts) = ⊥
AllKept at (s ∷ ss) [] = ⊥
AllKept at (s ∷ ss) (t ∷ ts) = Kept at s t × AllKept at ss ts

pub AllKept-refl : (at : Timestamp) (ts : List Task) → AllKept at ts ts
AllKept-refl at [] = tt
AllKept-refl at (t ∷ ts) = (Kept-refl at t, AllKept-refl at ts)

pub AllKept-trans :
    (at : Timestamp) (ss ts us : List Task) → AllKept at ss ts → AllKept at ts us → AllKept at ss us
AllKept-trans at [] [] us f g = g
AllKept-trans at [] (t ∷ ts) us f g = absurd f
AllKept-trans at (s ∷ ss) [] us f g = absurd f
AllKept-trans at (s ∷ ss) (t ∷ ts) [] f g = absurd g
AllKept-trans at (s ∷ ss) (t ∷ ts) (u ∷ us) f g =
    (Kept-trans at s t u f.0 g.0, AllKept-trans at ss ts us f.1 g.1)

pub AllKept-ids : (at : Timestamp) (ss ts : List Task) → AllKept at ss ts → ids ts ≡ ids ss
AllKept-ids at [] [] f = refl
AllKept-ids at [] (t ∷ ts) f = absurd f
AllKept-ids at (s ∷ ss) [] f = absurd f
AllKept-ids at (s ∷ ss) (t ∷ ts) f = cc (f.0.same_id, AllKept-ids at ss ts f.1)

-- A write elsewhere changes nothing.
put-absent : (tasks : List Task) (c : Task) → get_task tasks c.id ≡ none → put_task tasks c ≡ tasks
put-absent [] c h = refl
put-absent (u ∷ tasks) c h = elim (Bool-cases (u.id == c.id)) [
  | inl hit ↦ absurd (cc (rw hit at h))
  | inr miss ↦ rw miss (ap (λ l. u ∷ l) (put-absent tasks c (rw miss at h)))
]

get-absent : (tasks : List Task) (i : String) → ¬ Mem i (ids tasks) → get_task tasks i ≡ none
get-absent tasks i fresh = elim (Option-cases (get_task tasks i)) [
  | inl absent ↦ absent
  | inr (t, found) ↦ absurd (
      fresh (
        subst (λ j. Mem j (ids tasks)) (get_task-id tasks i found)
          (mem-map_of_mem (λ (u : Task). u.id) (find?-mem (λ u. u.id == i) tasks found))))
]

pub put-AllKept :
    (at : Timestamp) (tasks : List Task) (c s : Task)
    → Nodup (ids tasks)
    → get_task tasks c.id ≡ some s
    → Kept at s c
    → AllKept at tasks (put_task tasks c)
put-AllKept at [] c s nodup found kept = tt
put-AllKept at (u ∷ tasks) c s nodup found kept =
    let (fresh, rest) = Nodup-cons.0 nodup in
    elim (Eq-cases u.id c.id) [
      | inl (same, hit) ↦
          let head : u ≡ s = cc (rw hit at found) in
          rw (hit, put-absent tasks c (get-absent tasks c.id (rw same at fresh)))
            (subst (λ v. Kept at v c) (sym head) kept, AllKept-refl at tasks)
      | inr (_, miss) ↦
          rw miss (Kept-refl at u, put-AllKept at tasks c s rest (rw miss at found) kept)
    ]

abbrev pub constants : Task → String × List String × ℕ × Timestamp
constants t = (t.id, t.dependencies, t.order, t.created_at)

-- A task that is written with the time of the command.
pub Kept-now :
    {at : Timestamp} {s t : Task} → constants t ≡ constants s → t.updated_at ≡ at → Kept at s t
Kept-now same now = record {
  same_id = ap (λ p. p.0) same;
  same_dependencies = ap (λ p. p.1) same;
  same_order = ap (λ p. p.2) same;
  same_start = ap (λ p. p.3) same;
  dated = inr now;
}

reconciled-Kept :
    (dependencies : List Task) (at : Timestamp) (t : Task) {c : Task × Change}
    → reconciled dependencies at t ≡ some c
    → Kept at t c.0
unfolding reconciled set_task_status
reconciled-Kept dependencies at t h = elim (List-cases (blockers dependencies)) [
  | inl unblocked ↦ elim (Bool-cases (all (λ d. is_succeeded d.status) dependencies)) [
    | inl every ↦
        subst (λ (p : Task × Change). Kept at t p.0)
          (some-injective _ _ (rw (unblocked, every, reconciled) at h)) (Kept-now refl refl)
    | inr some_open ↦ absurd (cc (rw (unblocked, some_open, reconciled) at h))
  ]
  | inr (i, is, stopped) ↦
      subst (λ (p : Task × Change). Kept at t p.0)
        (some-injective _ _ (rw (stopped, reconciled) at h)) (Kept-now refl refl)
]

reconcile_task-AllKept :
    (at : Timestamp) (i : String) (state : List Task × List Change)
    → Nodup (ids state.0)
    → AllKept at state.0 (reconcile_task at i state).0
unfolding reconcile_task
reconcile_task-AllKept at i (tasks, changes) nodup = elim (Option-cases (get_task tasks i)) [
  | inl absent ↦ rw (absent, reconcile_task) (AllKept-refl at tasks)
  | inr (t, found) ↦ elim (Bool-cases (is_pending t.status)) [
    | inr other ↦ rw (found, other, reconcile_task) (AllKept-refl at tasks)
    | inl waits ↦ elim (Option-cases (reconciled (lookup_all tasks t.dependencies) at t)) [
      | inl unready ↦ rw (found, waits, unready, reconcile_task) (AllKept-refl at tasks)
      | inr ((c, change), changed) ↦
          let kept = reconciled-Kept (lookup_all tasks t.dependencies) at t changed in
          rw (found, waits, changed, reconcile_task)
            (put-AllKept at tasks c t nodup
              (subst (λ j. get_task tasks j ≡ some t)
                (sym (kept.same_id ∙ get_task-id tasks i found)) found)
              kept)
    ]
  ]
]

reconcile_each-AllKept :
    (at : Timestamp) (is : List String) (state : List Task × List Change)
    → Nodup (ids state.0)
    → AllKept at state.0 (reconcile_each at is state).0
unfolding reconcile_each
reconcile_each-AllKept at [] state nodup = AllKept-refl at state.0
reconcile_each-AllKept at (i ∷ is) state nodup =
    let next = reconcile_task at i state in
    let first = reconcile_task-AllKept at i state nodup in
    AllKept-trans at state.0 next.0 (reconcile_each at is next).0 first (
      reconcile_each-AllKept at is next
        (subst Nodup (sym (AllKept-ids at state.0 next.0 first)) nodup))

pub reconcile_pending_tasks-AllKept :
    (at : Timestamp) (tasks : List Task) (changes : List Change) {state : List Task × List Change}
    → Nodup (ids tasks)
    → reconcile_pending_tasks at tasks changes ≡ ok state
    → AllKept at tasks state.0
unfolding reconcile_pending_tasks
reconcile_pending_tasks-AllKept at tasks changes nodup h =
    after_ok (topological_task_ids cyclic_dependency graph_limit_exceeded tasks) _ h λ is _ e.
      subst (λ (s : List Task × List Change). AllKept at tasks s.0) (ok-injective e)
        (reconcile_each-AllKept at is (tasks, changes) nodup)

-- The tasks of the second list are those that the first has under their ids.
abbrev pub AllFound : List Task → List Task → Type 0
AllFound tasks [] = Unit
AllFound tasks (t ∷ ts) = (get_task tasks t.id ≡ some t) × AllFound tasks ts

pub AllFound-put :
    (tasks ts : List Task) (c : Task)
    → ¬ Mem c.id (ids ts)
    → AllFound tasks ts
    → AllFound (put_task tasks c) ts
AllFound-put tasks [] c fresh found = tt
AllFound-put tasks (t ∷ ts) c fresh found = (
  get-put-other tasks c t.id (λ e. fresh (rw e mem-cons_self)) ∙ found.0,
  AllFound-put tasks ts c (λ m. fresh (mem-cons_of_mem t.id m)) found.1,
)

pub cancel_each-AllKept :
    (at : Timestamp) (reason : Option String) (ts tasks : List Task) (changes : List Change)
    → Nodup (ids tasks)
    → Nodup (ids ts)
    → AllFound tasks ts
    → AllKept at tasks (cancel_each at reason ts (tasks, changes)).0
unfolding cancel_each set_task_status
cancel_each-AllKept at reason [] tasks changes nodup nodup' found = AllKept-refl at tasks
cancel_each-AllKept at reason (t ∷ ts) tasks changes nodup nodup' found =
    let (fresh, distinct) = Nodup-cons.0 nodup' in
    let changed : Task = record t {
      failure = none;
      output_artifact_ids = [];
      blocked_by = [];
      status = cancelled;
      updated_at = at;
    } in
    let first = put-AllKept at tasks changed t nodup found.0 (Kept-now refl refl) in
    AllKept-trans at tasks (put_task tasks changed) _ first (
      cancel_each-AllKept at reason ts (put_task tasks changed) _
        (subst Nodup (sym (put-ids tasks changed)) nodup) distinct
        (AllFound-put tasks ts changed fresh found.1))
