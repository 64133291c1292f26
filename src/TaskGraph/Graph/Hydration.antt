-- ===== src/TaskGraph/Graph/Hydration.antt =====
-- packages/task-graph/src/task-graph.ts: `validateHydratedTaskStates` on the graphs that the commands
-- lead to.
use mathlib.Core.List.{Mem, Nodup, Nodup-cons, mem-cons_self, mem-cons_of_mem}
use ai_development_os.Prelude.{
  ◌≤◌, ◌<◌, leb, length, nat_beq, ◌&&◌, suc, ℕ, false, ltb, ◌||◌, contains, inl, inr, ◌≡◌, refl,
  ◌==◌, mem-all, arith, beq_of_ne, ap, subst, inl, inr, String, true, List, [], ◌∷◌, ok, or_fail,
  guard, all, Bool-cases, string_eq, find?-mem, after_ok, ok-injective,
}
use ai_development_os.Domain.Instants.{year_10000, text_leb_refl}
use ai_development_os.TaskGraph.Types.{Task, invalid_argument, invalid_snapshot}
use ai_development_os.TaskGraph.Parsing.{assert_identifier}
use ai_development_os.TaskGraph.Topology.Counting.{ids}
use ai_development_os.TaskGraph.Graph.{Graph, create, ordered_tasks, order_precedes, sort_by}
use ai_development_os.TaskGraph.Graph.Consistency.{all_of_found}
use ai_development_os.TaskGraph.Graph.Snapshot.{
  Snapshot, latest_update, check_versions, is_contiguous, check_tasks, is_untouched, to_snapshot,
  is_valid_state, validate_hydrated_task_states,
}
use ai_development_os.TaskGraph.Graph.Machine.{Reachable, created, commanded}
use ai_development_os.TaskGraph.Graph.Shapes.{IsValid, IsFiled}
use ai_development_os.TaskGraph.Graph.Filed.{is_dated, is_known}
use ai_development_os.TaskGraph.Graph.Steps.{apply-IsValid, apply-IsFiled}
use ai_development_os.TaskGraph.Graph.Versions.{IsCounted, create-IsCounted, apply-IsCounted}
use ai_development_os.TaskGraph.Graph.Numbering.{Reachable-IsNumbered}

pub Reachable-IsValid : (g : Graph) → Reachable g → IsValid g
unfolding create
Reachable-IsValid g (created graph_id project_id reading h) =
    after_ok (or_fail reading invalid_argument) _ h λ at _ h1.
      after_ok (assert_identifier invalid_argument graph_id) _ h1 λ gid _ h2.
        after_ok (assert_identifier invalid_argument project_id) _ h2
          λ pid _ e. subst IsValid (ok-injective e) (λ is_closed. absurd (cc is_closed))
Reachable-IsValid g (commanded {g = before} clock c r h) =
    apply-IsValid clock before c (Reachable-IsNumbered before r).0 (Reachable-IsValid before r) h

Reachable-IsFiled : (g : Graph) → Reachable g → IsFiled g
unfolding create is_contiguous
Reachable-IsFiled g (created graph_id project_id reading h) =
    after_ok (or_fail reading invalid_argument) _ h λ at _ h1.
      after_ok (assert_identifier invalid_argument graph_id) _ h1 λ gid _ h2.
        after_ok (assert_identifier invalid_argument project_id) _ h2 λ pid _ e.
          subst IsFiled (ok-injective e) (record {
            begun = text_leb_refl at;
            contiguous = refl;
            counted = refl;
            dated = refl;
            known = refl;
          })
Reachable-IsFiled g (commanded {g = before} clock c r h) =
    apply-IsFiled clock before c (Reachable-IsNumbered before r).0 (Reachable-IsFiled before r) h

sort-contiguous :
    (n : ℕ) (tasks : List Task)
    → is_contiguous n tasks ≡ true
    → sort_by order_precedes tasks ≡ tasks
unfolding is_contiguous
sort-contiguous n [] h = refl
sort-contiguous n (t ∷ []) h = refl
sort-contiguous n (t ∷ s ∷ ts) h =
    rw (sort-contiguous (suc n) (s ∷ ts) (ground (arith, h)), in_order) refl
  where
    in_order : order_precedes s t ≡ false
    in_order = ground (arith, h)

check_tasks-dated :
    (s : Snapshot) (seen : List String) (tasks : List Task)
    → s.created_at < year_10000
    → Nodup (ids tasks)
    → ((i : String) → Mem i (ids tasks) → contains seen i ≡ false)
    → all (is_dated s.created_at s.updated_at) tasks ≡ true
    → check_tasks s seen tasks ≡ ok tt
unfolding check_tasks
check_tasks-dated s seen [] early nodup new h = refl
check_tasks-dated s seen (t ∷ tasks) early nodup new h =
    let (fresh, rest) = Nodup-cons.0 nodup in
    let in_time : (ltb t.created_at s.created_at || ltb s.updated_at t.updated_at) ≡ false =
      ground (arith, early, h) in
    rw (new t.id mem-cons_self, in_time)
      (check_tasks-dated s (t.id ∷ seen) tasks early rest
        (λ i m. rw (beq_of_ne t.id i (λ e. fresh (rw e m))) (new i (mem-cons_of_mem t.id m)))
        (ground (arith, h)))

ordered_times :
    (start now : ℕ) (tasks : List Task)
    → start < year_10000
    → all (is_dated start now) tasks ≡ true
    → all (λ t. leb t.created_at t.updated_at) tasks ≡ true
ordered_times start now [] early h = refl
ordered_times start now (t ∷ tasks) early h =
    ground (arith, early, h, ordered_times start now tasks early (ground (arith, h)))

Reachable-IsCounted : (g : Graph) → Reachable g → IsCounted g
Reachable-IsCounted g (created graph_id project_id reading h) =
    create-IsCounted graph_id project_id reading h
Reachable-IsCounted g (commanded {g = before} clock c r h) =
    apply-IsCounted clock before c (Reachable-IsNumbered before r).0 (Reachable-IsFiled before r)
      (Reachable-IsCounted before r) h

check_versions-IsCounted :
    (g : Graph)
    → g.created_at < year_10000
    → IsCounted g
    → check_versions (record (to_snapshot g) { tasks = g.tasks }) g.tasks ≡ ok tt
unfolding check_versions to_snapshot
check_versions-IsCounted g early counts =
    let behind : ltb g.event_sequence g.version ≡ false = ground (arith, counts.versions) in
    let unsealed : (g.is_sealed && ltb g.version 2) ≡ false = elim (Bool-cases g.is_sealed) [
      | inl is_closed ↦ rw is_closed (ground (arith, counts.closed is_closed))
      | inr is_open ↦ rw is_open refl
    ] in
    let last : nat_beq (latest_update g.created_at g.tasks) g.updated_at ≡ true =
      ground (arith, counts.last early) in
    elim (Bool-cases (nat_beq (length g.tasks) 0)) [
      | inl empty ↦
          let (v, n, is_open) = counts.blank (ground (arith, empty)) in
          rw (behind, empty, v, n, is_open, last) refl
      | inr filled ↦
          let some_version : nat_beq g.version 0 ≡ false =
            ground (arith, counts.begun (ground (arith, filled))) in
          rw (behind, filled, some_version, unsealed, last) refl
    ]

-- A snapshot of a graph that `create` and the commands lead to has the tasks in the order of
-- insertion, numbered from 0. Their ids are distinct, none was created before the graph, updated after
-- the graph's last update, or updated before it was created, and the graph was not updated before it
-- was created. The version, the number of the last event and the time of the last update agree with
-- the tasks as hydrating asks, and the tasks depend on each other only. The graph was created before
-- the year 10000.
pub Reachable-check_tasks :
    (g : Graph)
    → Reachable g
    → g.created_at < year_10000
    → ((to_snapshot g).tasks ≡ g.tasks)
      × (is_contiguous 0 (to_snapshot g).tasks ≡ true)
      × (check_tasks (to_snapshot g) [] (to_snapshot g).tasks ≡ ok tt)
      × (check_versions (to_snapshot g) (to_snapshot g).tasks ≡ ok tt)
      × (all (is_known (ids (to_snapshot g).tasks)) (to_snapshot g).tasks ≡ true)
      × (all (λ t. leb t.created_at t.updated_at) (to_snapshot g).tasks ≡ true)
      × ((to_snapshot g).created_at ≤ (to_snapshot g).updated_at)
unfolding to_snapshot ordered_tasks
Reachable-check_tasks g r early =
    let filed = Reachable-IsFiled g r in
    let formed = (Reachable-IsNumbered g r).0 in
    let same = sort-contiguous 0 g.tasks filed.contiguous in
    let versioned = check_versions-IsCounted g early (Reachable-IsCounted g r) in
    rw same (
      refl,
      filed.contiguous,
      check_tasks-dated (record (to_snapshot g) { tasks = g.tasks }) [] g.tasks early
          formed.distinct (λ i m. refl) filed.dated,
      versioned,
      filed.known,
      ordered_times g.created_at g.updated_at g.tasks early filed.dated,
      ground (arith, early, filed.begun),
    )

-- The tasks of a snapshot of a graph that `create` and the commands lead to pass the checks that
-- hydrating makes of their states.
pub Reachable-validates :
    (g : Graph)
    → Reachable g
    → validate_hydrated_task_states (to_snapshot g).tasks (to_snapshot g).is_sealed ≡ ok tt
unfolding validate_hydrated_task_states to_snapshot is_valid_state ordered_tasks
Reachable-validates g r =
    let formed = (Reachable-IsNumbered g r).0 in
    let valid : all (is_valid_state g.tasks g.is_sealed) g.tasks ≡ true =
      all_of_found (is_valid_state g.tasks g.is_sealed) g.tasks formed.distinct λ i t found.
        elim (Bool-cases g.is_sealed) [
          | inl closed ↦ rw closed (Reachable-IsValid g r closed i t found)
          | inr is_open ↦ rw is_open (
              mem-all is_untouched g.tasks t (find?-mem (λ u. u.id == i) g.tasks found)
                (formed.untouched is_open))
        ] in
    rw (sort-contiguous 0 g.tasks (Reachable-IsFiled g r).contiguous)
      (ap (λ b. guard b invalid_snapshot) valid)
