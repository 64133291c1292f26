-- ===== src/TaskGraph/Graph/Moves.antt =====
-- packages/task-graph/src/task-graph.ts: how the tasks of a graph go from one state to the next, and
-- that a status of the end is one.
use mathlib.Core.Logic.Or
use mathlib.Core.List.{
  Mem, Nodup, Nodup-cons, mem-cons, mem-cons_self, mem-cons_of_mem, mem-map_of_mem, not-mem-nil,
}
use ai_development_os.Prelude.{
  ◌≡◌, ◌≢◌, refl, sym, ◌∙◌, ap, subst, inl, inr, String, Bool, true, false, not, Option, none, some,
  List, [], ◌∷◌, ◌==◌, string_eq, find?-sound, Bool-cases, Option-cases, List-cases, Eq-cases, all,
  beq_refl, beq_of_ne, arith, Bool-set,
}
use ai_development_os.TaskGraph.Types.{
  Task, Change, Timestamp, cancelled, is_terminal, is_pending, is_succeeded,
}
use ai_development_os.TaskGraph.Topology.Counting.{ids}
use ai_development_os.TaskGraph.Graph.{get_task, put_task, set_task_status}
use ai_development_os.TaskGraph.Graph.Reconcile.{
  lookup_all, reconciled, reconcile_task, reconcile_each, blockers,
}
use ai_development_os.TaskGraph.Graph.Execution.{cancel_each}

-- A task afterwards: the same id, and the same task if its status was one of the end.
pub record Follows (before after : Task) : Type 0 where
  pub same_id : after.id ≡ before.id
  pub final : is_terminal before.status ≡ true → after ≡ before

abbrev pub FollowsIn : Option Task → Option Task → Type 0
FollowsIn none after = Unit
FollowsIn (some before) none = ⊥
FollowsIn (some before) (some after) = Follows before after

-- The same for all the tasks, found by their ids.
abbrev pub Moves : List Task → List Task → Type 0
Moves tasks tasks' = (i : String) → FollowsIn (get_task tasks i) (get_task tasks' i)

FollowsIn-refl : (o : Option Task) → FollowsIn o o
FollowsIn-refl none = tt
FollowsIn-refl (some t) = record { same_id = refl; final = λ _. refl }

FollowsIn-trans : (a b c : Option Task) → FollowsIn a b → FollowsIn b c → FollowsIn a c
FollowsIn-trans none b c f g = tt
FollowsIn-trans (some s) none c f g = absurd f
FollowsIn-trans (some s) (some t) none f g = absurd g
FollowsIn-trans (some s) (some t) (some u) f g = record {
  same_id = g.same_id ∙ f.same_id;
  final = λ ended.
      g.final (ap (λ (x : Task). is_terminal x.status) (f.final ended) ∙ ended) ∙ f.final ended;
}

pub Moves-refl : (tasks : List Task) → Moves tasks tasks
Moves-refl tasks i = FollowsIn-refl (get_task tasks i)

pub Moves-trans : (a b c : List Task) → Moves a b → Moves b c → Moves a c
Moves-trans a b c f g i = FollowsIn-trans (get_task a i) (get_task b i) (get_task c i) (f i) (g i)

pub get_task-id : (tasks : List Task) (i : String) {t : Task} → get_task tasks i ≡ some t → t.id ≡ i
get_task-id tasks i {t} h = (string_eq.decides t.id i).0 (find?-sound (λ s. s.id == i) tasks h)

pub get-put-other :
    (tasks : List Task) (t : Task) (i : String)
    → t.id ≢ i
    → get_task (put_task tasks t) i ≡ get_task tasks i
get-put-other [] t i n = refl
get-put-other (s ∷ tasks) t i n = elim (Eq-cases s.id t.id) [
  | inl (same, hit) ↦
      rw (hit, beq_of_ne t.id i n, beq_of_ne s.id i (λ e. n (sym same ∙ e)))
        (get-put-other tasks t i n)
  | inr (_, miss) ↦ rw (miss, get-put-other tasks t i n)
]

pub get-put-same :
    (tasks : List Task) (t : Task) {s : Task}
    → get_task tasks t.id ≡ some s
    → get_task (put_task tasks t) t.id ≡ some t
get-put-same [] t h = absurd (cc h)
get-put-same (u ∷ tasks) t h = elim (Bool-cases (u.id == t.id)) [
  | inl hit ↦ rw (hit, beq_refl t.id)
  | inr miss ↦ rw (miss, miss) (get-put-same tasks t (rw miss at h))
]

-- A write of one task moves the tasks if it may follow what stood there.
pub put-Moves :
    (tasks : List Task) (t : Task) {s : Task}
    → get_task tasks t.id ≡ some s
    → Follows s t
    → Moves tasks (put_task tasks t)
put-Moves tasks t h f i = elim (Eq-cases t.id i) [
  | inl (same, _) ↦
      subst (λ j. FollowsIn (get_task tasks j) (get_task (put_task tasks t) j)) same
        (rw (h, get-put-same tasks t h) f)
  | inr (apart, _) ↦ rw (get-put-other tasks t i apart) (FollowsIn-refl (get_task tasks i))
]

pub put-ids : (tasks : List Task) (t : Task) → ids (put_task tasks t) ≡ ids tasks
put-ids [] t = refl
put-ids (s ∷ tasks) t = elim (Eq-cases s.id t.id) [
  | inl (same, hit) ↦ rw (hit, put-ids tasks t) (ap (λ i. i ∷ ids tasks) (sym same))
  | inr (_, miss) ↦ rw (miss, put-ids tasks t)
]

-- The statuses of a command's work: any task that may still move follows from a pending one.
pub pending-Follows : (s t : Task) → is_pending s.status ≡ true → t.id ≡ s.id → Follows s t
pending-Follows s t waits same = record {
  same_id = same;
  final = λ ended. absurd (ground (arith, waits, ended));
}

reconciled-id :
    (dependencies : List Task) (at : Timestamp) (t : Task) {c : Task × Change}
    → reconciled dependencies at t ≡ some c
    → (c.0).id ≡ t.id
unfolding reconciled set_task_status
reconciled-id dependencies at t h = elim (List-cases (blockers dependencies)) [
  | inl unblocked ↦ elim (Bool-cases (all (λ d. is_succeeded d.status) dependencies)) [
    | inl every ↦ cc (rw (unblocked, every, reconciled) at h)
    | inr some_open ↦ absurd (cc (rw (unblocked, some_open, reconciled) at h))
  ]
  | inr (i, is, stopped) ↦ cc (rw (stopped, reconciled) at h)
]

reconcile_task-Moves :
    (at : Timestamp) (i : String) (state : List Task × List Change)
    → Moves state.0 (reconcile_task at i state).0
      × (ids (reconcile_task at i state).0 ≡ ids state.0)
unfolding reconcile_task
reconcile_task-Moves at i (tasks, changes) = elim (Option-cases (get_task tasks i)) [
  | inl absent ↦ rw (absent, reconcile_task) (Moves-refl tasks, refl)
  | inr (t, found) ↦ elim (Bool-cases (is_pending t.status)) [
    | inr other ↦ rw (found, other, reconcile_task) (Moves-refl tasks, refl)
    | inl waits ↦ elim (Option-cases (reconciled (lookup_all tasks t.dependencies) at t)) [
      | inl unready ↦ rw (found, waits, unready, reconcile_task) (Moves-refl tasks, refl)
      | inr ((changed, change), ready_now) ↦
          let same = reconciled-id (lookup_all tasks t.dependencies) at t ready_now in
          rw (found, waits, ready_now, reconcile_task)
            (
              put-Moves tasks changed
                  (subst (λ j. get_task tasks j ≡ some t) (sym (same ∙ get_task-id tasks i found))
                    found)
                  (pending-Follows t changed waits same),
              put-ids tasks changed,
            )
    ]
  ]
]

pub reconcile_each-Moves :
    (at : Timestamp) (is : List String) (state : List Task × List Change)
    → Moves state.0 (reconcile_each at is state).0
      × (ids (reconcile_each at is state).0 ≡ ids state.0)
unfolding reconcile_each
reconcile_each-Moves at [] state = (Moves-refl state.0, refl)
reconcile_each-Moves at (i ∷ is) state =
    let next = reconcile_task at i state in
    let (first, kept) = reconcile_task-Moves at i state in
    let (rest, kept') = reconcile_each-Moves at is next in
    (Moves-trans state.0 next.0 (reconcile_each at is next).0 first rest, kept' ∙ kept)

-- There is a task with the id, and it has not ended.
abbrev pub is_live : Option Task → Bool
is_live none = false
is_live (some s) = not (is_terminal s.status)

pub is_live-some :
    (o : Option Task)
    → is_live o ≡ true
    → (s : Task) × (o ≡ some s) × (is_terminal s.status ≡ false)
is_live-some none h = absurd (cc h)
is_live-some (some s) h = (s, refl, ground (arith, h))

pub is_live_of_mem :
    (tasks : List Task) (t : Task)
    → Nodup (ids tasks)
    → Mem t tasks
    → is_terminal t.status ≡ false
    → is_live (get_task tasks t.id) ≡ true
is_live_of_mem [] t nodup m open_t = absurd (not-mem-nil m)
is_live_of_mem (s ∷ tasks) t nodup m open_t =
    let (fresh, rest) = Nodup-cons.0 nodup in
    Or.elim (Bool-set (is_live (get_task (s ∷ tasks) t.id)) true) (mem-cons.0 m)
      (λ same.
        rw (same, (string_eq.decides s.id s.id).1 refl)
          (ap not (ap (λ (x : Task). is_terminal x.status) (sym same) ∙ open_t)))
      (λ later.
        rw (beq_of_ne s.id t.id (λ e. fresh (rw e (mem-map_of_mem (λ (u : Task). u.id) later))))
          (is_live_of_mem tasks t rest later open_t))

pub cancel_each-Moves :
    (at : Timestamp) (reason : Option String) (ts tasks : List Task) (changes : List Change)
    → Nodup (ids ts)
    → ((t : Task) → Mem t ts → is_live (get_task tasks t.id) ≡ true)
    → Moves tasks (cancel_each at reason ts (tasks, changes)).0
      × (ids (cancel_each at reason ts (tasks, changes)).0 ≡ ids tasks)
unfolding cancel_each set_task_status
cancel_each-Moves at reason [] tasks changes nodup live = (Moves-refl tasks, refl)
cancel_each-Moves at reason (t ∷ ts) tasks changes nodup live =
    let (fresh, distinct) = Nodup-cons.0 nodup in
    let (s, found, alive) = is_live-some (get_task tasks t.id) (live t mem-cons_self) in
    let changed : Task = record t {
      failure = none;
      output_artifact_ids = [];
      blocked_by = [];
      status = cancelled;
      updated_at = at;
    } in
    let follows : Follows s changed = record {
      same_id = sym (get_task-id tasks t.id found);
      final = λ ended. absurd (cc (alive, ended));
    } in
    let (rest, kept) = cancel_each-Moves at reason ts (put_task tasks changed) _ distinct λ u m.
      rw
        (get-put-other tasks changed u.id
          (λ e. fresh (rw e (mem-map_of_mem (λ (v : Task). v.id) m))))
        (live u (mem-cons_of_mem t m)) in
    (
      Moves-trans tasks (put_task tasks changed) _ (put-Moves tasks changed found follows) rest,
      kept ∙ put-ids tasks changed,
    )
