-- ===== src/TaskGraph/Graph/Settling.antt =====
-- packages/task-graph/src/task-graph.ts: what one round of the loop of `#reconcilePendingTasks` keeps.
use ai_development_os.Prelude.{
  ◌≡◌, ◌≢◌, refl, sym, ◌∙◌, ap, subst, inl, inr, String, true, false, Option, none, some, List, [],
  ◌∷◌, ◌++◌, ◌==◌, string_eq, all, contains, contains-append, find?-mem, Bool-cases, Option-cases,
  List-cases, Eq-cases, arith,
}
use ai_development_os.TaskGraph.Types.{Task, Change, Timestamp, is_pending, is_succeeded}
use ai_development_os.TaskGraph.Topology.Drain.{IsOrdered}
use ai_development_os.TaskGraph.Graph.{get_task, put_task, set_task_status}
use ai_development_os.TaskGraph.Graph.Reconcile.{lookup_all, blockers, reconciled}
use ai_development_os.TaskGraph.Graph.Snapshot.{is_reconciled}
use ai_development_os.TaskGraph.Graph.Moves.{get_task-id, get-put-other, get-put-same}

-- The ids still to come are ordered: the dependencies of each are before it.
abbrev pub OrderedAt : List Task → List String → List String → Type 0
OrderedAt tasks before [] = Unit
OrderedAt tasks before (i ∷ rest) =
    ((t : Task) → get_task tasks i ≡ some t → all (λ d. contains before d) t.dependencies ≡ true)
    × OrderedAt tasks (before ++ i ∷ []) rest

pub IsOrdered-OrderedAt :
    (tasks : List Task) (before out : List String)
    → IsOrdered tasks before out
    → OrderedAt tasks before out
IsOrdered-OrderedAt tasks before [] h = tt
IsOrdered-OrderedAt tasks before (i ∷ out) h = (
  λ t found. h.0 t (find?-mem (λ u. u.id == i) tasks found) (get_task-id tasks i found),
  IsOrdered-OrderedAt tasks (before ++ i ∷ []) out h.1,
)

-- A write that keeps the dependencies of the task keeps the order.
pub put-OrderedAt :
    (tasks : List Task) (c s : Task) (before out : List String)
    → get_task tasks c.id ≡ some s
    → c.dependencies ≡ s.dependencies
    → OrderedAt tasks before out
    → OrderedAt (put_task tasks c) before out
put-OrderedAt tasks c s before [] found same h = tt
put-OrderedAt tasks c s before (i ∷ out) found same h = (
  λ t there. elim (Eq-cases c.id i) [
    | inl (at, _) ↦
        let new : c ≡ t = cc (
          get-put-same tasks c found,
          subst (λ j. get_task (put_task tasks c) j ≡ some t) (sym at) there,
        ) in
        subst (λ ds. all (λ d. contains before d) ds ≡ true)
          (sym same ∙ ap (λ (u : Task). u.dependencies) new)
          (h.0 s (subst (λ j. get_task tasks j ≡ some s) at found))
    | inr (apart, _) ↦ h.0 t (sym (get-put-other tasks c i apart) ∙ there)
  ],
  put-OrderedAt tasks c s (before ++ i ∷ []) out found same h.1,
)

-- The tasks with these ids wait rightly, and depend on these ids only.
abbrev pub Done : List Task → List String → Type 0
Done tasks before =
    (i : String) (t : Task)
    → contains before i ≡ true
    → get_task tasks i ≡ some t
    → (is_reconciled (lookup_all tasks t.dependencies) t ≡ true)
      × (all (λ d. contains before d) t.dependencies ≡ true)

pub lookup_all-put :
    (tasks : List Task) (c : Task) (before ds : List String)
    → contains before c.id ≡ false
    → all (λ d. contains before d) ds ≡ true
    → lookup_all (put_task tasks c) ds ≡ lookup_all tasks ds
unfolding lookup_all
lookup_all-put tasks c before [] fresh h = refl
lookup_all-put tasks c before (d ∷ ds) fresh h =
    let (here, later) : (contains before d ≡ true) × (all (λ e. contains before e) ds ≡ true) =
      (ground (arith, h), ground (arith, h)) in
    let kept = get-put-other tasks c d (λ e. cc (ap (contains before) e, fresh, here)) in
    let ih = lookup_all-put tasks c before ds fresh later in
    elim (Option-cases (get_task tasks d)) [
      | inl absent ↦ rw (kept, absent, lookup_all) ih
      | inr (t, there) ↦ rw (kept, there, lookup_all) (ap (λ l. t ∷ l) ih)
    ]

all-longer :
    (before more ds : List String)
    → all (λ d. contains before d) ds ≡ true
    → all (λ d. contains (before ++ more) d) ds ≡ true
all-longer before more [] h = refl
all-longer before more (d ∷ ds) h =
    ground (arith, all-longer before more ds, contains-append before more d)

pub extend-Done :
    (tasks tasks' : List Task) (before : List String) (i : String)
    → ((ds : List String)
        → all (λ d. contains before d) ds ≡ true
        → lookup_all tasks' ds ≡ lookup_all tasks ds)
    → ((j : String) → i ≢ j → get_task tasks' j ≡ get_task tasks j)
    → ((t : Task)
        → get_task tasks' i ≡ some t
        → (is_reconciled (lookup_all tasks t.dependencies) t ≡ true)
          × (all (λ d. contains before d) t.dependencies ≡ true))
    → Done tasks before
    → Done tasks' (before ++ i ∷ [])
extend-Done tasks tasks' before i looks others new done j t hit found = elim (Eq-cases i j) [
  | inl (same, _) ↦
      let (r, deps) = new t (subst (λ k. get_task tasks' k ≡ some t) (sym same) found) in
      (
        subst (λ l. is_reconciled l t ≡ true) (sym (looks t.dependencies deps)) r,
        all-longer before (i ∷ []) t.dependencies deps,
      )
  | inr (apart, miss) ↦
      let early : contains before j ≡ true =
        ground (arith, hit, contains-append before (i ∷ []) j, miss) in
      let (r, deps) = done j t early (sym (others j apart) ∙ found) in
      (
        subst (λ l. is_reconciled l t ≡ true) (sym (looks t.dependencies deps)) r,
        all-longer before (i ∷ []) t.dependencies deps,
      )
]

pub reconciled-none :
    (dependencies : List Task) (at : Timestamp) (t : Task)
    → reconciled dependencies at t ≡ none
    → is_reconciled dependencies t ≡ true
unfolding reconciled
reconciled-none dependencies at t h = elim (List-cases (blockers dependencies)) [
  | inl unblocked ↦ elim (Bool-cases (all (λ d. is_succeeded d.status) dependencies)) [
    | inl every ↦ absurd (cc (rw (unblocked, every, reconciled) at h))
    | inr some_open ↦ rw (unblocked, some_open) (ground arith)
  ]
  | inr (i, is, stopped) ↦ absurd (cc (rw (stopped, reconciled) at h))
]

-- A task that the loop changes waits no more, and keeps its id and its dependencies.
pub reconciled-some :
    (dependencies : List Task) (at : Timestamp) (t : Task) {c : Task × Change}
    → reconciled dependencies at t ≡ some c
    → ((c.0).id ≡ t.id) × ((c.0).dependencies ≡ t.dependencies) × (is_pending (c.0).status ≡ false)
unfolding reconciled set_task_status
reconciled-some dependencies at t h = elim (List-cases (blockers dependencies)) [
  | inl unblocked ↦ elim (Bool-cases (all (λ d. is_succeeded d.status) dependencies)) [
    | inl every ↦ let e = rw (unblocked, every, reconciled) at h in (cc e, cc e, cc e)
    | inr some_open ↦ absurd (cc (rw (unblocked, some_open, reconciled) at h))
  ]
  | inr (i, is, stopped) ↦ let e = rw (stopped, reconciled) at h in (cc e, cc e, cc e)
]

pub same_found : {o : Option Task} {t u : Task} → o ≡ some t → o ≡ some u → t ≡ u
same_found p q = cc (p, q)

pub awake-is_reconciled :
    (tasks : List Task) (t : Task)
    → is_pending t.status ≡ false
    → is_reconciled (lookup_all tasks t.dependencies) t ≡ true
awake-is_reconciled tasks t h = rw h refl
