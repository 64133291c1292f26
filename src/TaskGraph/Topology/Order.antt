-- ===== src/TaskGraph/Topology/Order.antt =====
-- The result of `topologicalTaskIds`, of packages/task-graph/src/task-graph.ts.
use mathlib.Core.Logic.Or
use mathlib.Core.List.Perm
use mathlib.Core.Logic.{∥∥₁_elim}
use mathlib.Core.HLevel.{⊥_prop}
use mathlib.Core.List.{
  Mem, Mem-prop, Nodup, Perm, Subset, Nodup-append, mem-append, mem-cons, mem-cons_self,
  mem-map_of_mem, not-mem-nil, exists_of_mem-map,
}
use ai_development_os.Prelude.{
  string_eq, nat_eq, ◌≤◌, ◌≡◌, ◌≢◌, refl, ◌∙◌, ap, subst, ◌⊎◌, inl, inr, String, Bool, true, not,
  List, [], ◌∷◌, ◌++◌, ok, guard, guard-eq-ok, length, length-map, all, any, any_sound, contains,
  contains_of_mem, mem_of_contains, Bool-cases, arith, after_ok, after_check, ok-injective, filter,
  mem-filter, mem-filter_of_mem, nat_beq_iff, nat_beq, Nodup-perm, Nodup-length-le, mem-all,
}
use ai_development_os.TaskGraph.Types.{Task, ErrorCode}
use ai_development_os.TaskGraph.Topology.{
  Kahn, dependents_of, no_dependents, drain, start_of, topological_task_ids,
}
use ai_development_os.TaskGraph.Topology.Counting.{ids, missing-ne-zero}
use ai_development_os.TaskGraph.Topology.Invariant.{placed}
use ai_development_os.TaskGraph.Topology.Drain.{Round, IsOrdered, drain-Round}
use ai_development_os.TaskGraph.Topology.Start.{start-Round}

module _ (tasks : List Task) (nodup : Nodup (ids tasks)) where
  ordered-Nodup : (k : Kahn) → Round tasks k → Nodup k.ordered
  ordered-Nodup k round = (Nodup-append.0 round.inv.distinct).1

  ordered-length-le : (k : Kahn) → Round tasks k → length k.ordered ≤ length tasks
  ordered-length-le k round =
      rw (← length-map tasks (λ (t : Task). t.id))
        (Nodup-length-le k.ordered (ids tasks) (ordered-Nodup k round) round.listed)

  -- As many rounds as there are tasks leave nothing queued.
  pub drain-queue :
      (code : ErrorCode) (k : Kahn)
      → drain code (dependents_of no_dependents tasks) (length tasks) (start_of tasks) ≡ ok k
      → Round tasks k × ((k.queue ≡ []) ⊎ (length k.ordered ≡ length tasks))
  drain-queue code k h =
      let (round, ends) =
        drain-Round tasks nodup code (length tasks) (start_of tasks) (start-Round tasks nodup) h in
      (
        round,
        elim ends [
          | inl empty ↦ inl empty
          | inr used ↦ inr (omega (arith, ordered-length-le k round))
        ],
      )

  -- Run as `topologicalTaskIds` runs it, the loop gives all the ids, or stops with nothing queued.
  ordered-Perm :
      (k : Kahn) → Round tasks k → length k.ordered ≡ length tasks → Perm k.ordered (ids tasks)
  ordered-Perm k round full =
      Nodup-perm k.ordered (ids tasks) (ordered-Nodup k round) round.listed
        (rw (length-map tasks (λ (t : Task). t.id)) (omega arith))

  -- If `topologicalTaskIds` returns a list, it holds the id of every task exactly once, and each id
  -- comes after all the dependencies of the task that it names. The ids of the tasks are distinct.
  pub topological_task_ids-IsOrdered :
      (cycle_code limit_code : ErrorCode) {out : List String}
      → topological_task_ids cycle_code limit_code tasks ≡ ok out
      → Perm out (ids tasks) × IsOrdered tasks [] out
  unfolding topological_task_ids
  topological_task_ids-IsOrdered cycle_code limit_code h =
      after_ok
        (drain limit_code (dependents_of no_dependents tasks) (length tasks) (start_of tasks)) _ h
        λ k drained checked.
          after_check (guard (nat_beq (length k.ordered) (length tasks)) cycle_code) _ checked
            λ same e.
              let round = (drain-queue limit_code k drained).0 in
              subst (λ out. Perm out (ids tasks) × IsOrdered tasks [] out) (ok-injective e)
                (
                  ordered-Perm k round (
                      (nat_beq_iff (length k.ordered) (length tasks)).0
                        (guard-eq-ok (nat_beq (length k.ordered) (length tasks)) cycle_code same)),
                  round.in_order,
                )

-- Tasks each of which depends on one of them: no order can begin with any of them.
pub record IsStuck (tasks stuck : List Task) : Type 0 where
  pub among : Subset stuck tasks
  pub waits : (t : Task) → Mem t stuck → (d : String) × Mem d t.dependencies × Mem d (ids stuck)

-- What an order lists first depends on nothing, so no stuck task is ever listed.
IsOrdered-IsStuck :
    (tasks stuck : List Task) (before out : List String)
    → IsStuck tasks stuck
    → IsOrdered tasks before out
    → ((t : Task) → Mem t stuck → ¬ Mem t.id before)
    → (t : Task) → Mem t stuck
    → ¬ Mem t.id out
IsOrdered-IsStuck tasks stuck before [] s h fresh t m listed = not-mem-nil listed
IsOrdered-IsStuck tasks stuck before (i ∷ out) s h fresh t m listed =
    Or.elim ⊥_prop (mem-cons.0 listed) (not_head t m) (
      IsOrdered-IsStuck tasks stuck (before ++ i ∷ []) out s h.1
        (λ u there listed_before.
          Or.elim ⊥_prop (mem-append.0 listed_before) (fresh u there)
            (λ last. Or.elim ⊥_prop (mem-cons.0 last) (not_head u there) not-mem-nil))
        t m)
  where
    not_head : (u : Task) → Mem u stuck → u.id ≢ i
    not_head u there same =
        let (d, needed, blocked) = s.waits u there in
        ∥∥₁_elim (exists_of_mem-map blocked) ⊥_prop λ (v, member, named). fresh v member (
          rw named (
            mem_of_contains before d (
              mem-all (λ d'. contains before d') u.dependencies d needed
                (h.0 u (s.among u there) same))))

-- Where some tasks wait for each other, `topologicalTaskIds` returns no list. The ids of the tasks
-- are distinct.
pub topological_task_ids-IsStuck :
    (tasks stuck : List Task) (cycle_code limit_code : ErrorCode)
    → Nodup (ids tasks)
    → IsStuck tasks stuck
    → stuck ≢ []
    → (out : List String) → topological_task_ids cycle_code limit_code tasks ≢ ok out
topological_task_ids-IsStuck tasks [] cycle_code limit_code nodup s filled out h = filled refl
topological_task_ids-IsStuck tasks (t ∷ stuck) cycle_code limit_code nodup s filled out h =
    let (all_listed, in_order) =
      topological_task_ids-IsOrdered tasks nodup cycle_code limit_code h in
    IsOrdered-IsStuck tasks (t ∷ stuck) [] out s in_order (λ u m there. not-mem-nil there) t
      mem-cons_self
      (Perm.subset (Perm.symm all_listed) t.id
        (mem-map_of_mem (λ (u : Task). u.id) (s.among t mem-cons_self)))

-- The test of it.
pub IsStuck-of_any :
    (tasks stuck : List Task)
    → Subset stuck tasks
    → all (λ t. any (λ d. contains (ids stuck) d) t.dependencies) stuck ≡ true
    → IsStuck tasks stuck
IsStuck-of_any tasks stuck among h = record {
  among = among;
  waits = λ t m.
      let (d, needed, there) =
        any_sound (λ e. contains (ids stuck) e) t.dependencies
          (mem-all (λ u. any (λ e. contains (ids stuck) e) u.dependencies) stuck t m h) in
      (d, needed, mem_of_contains (ids stuck) d there);
}

-- Every dependency is the id of a task.
abbrev pub KnowsAll : List Task → Type 0
KnowsAll tasks = (t : Task) → Mem t tasks → (d : String) → Mem d t.dependencies → Mem d (ids tasks)

-- The test of it.
abbrev pub knows_all : List String → List Task → Bool
knows_all known tasks = all (λ t. all (λ d. contains known d) t.dependencies) tasks

pub KnowsAll-of_knows_all :
    (tasks : List Task) → knows_all (ids tasks) tasks ≡ true → KnowsAll tasks
KnowsAll-of_knows_all tasks h t m d needed = mem_of_contains (ids tasks) d (
    mem-all (λ e. contains (ids tasks) e) t.dependencies d needed
      (mem-all (λ u. all (λ e. contains (ids tasks) e) u.dependencies) tasks t m h))

abbrev pub unlisted : Kahn → Task → Bool
unlisted k t = not (contains k.ordered t.id)

module _ (tasks : List Task) (nodup : Nodup (ids tasks)) (known : KnowsAll tasks) (k : Kahn)
    (round : Round tasks k) (idle : k.queue ≡ []) where
  -- With nothing queued, a task that is not ordered has a dependency that is not ordered.
  unlisted-waits :
      (t : Task)
      → Mem t (filter (unlisted k) tasks)
      → (d : String) × Mem d t.dependencies × Mem d (ids (filter (unlisted k) tasks))
  unlisted-waits t m =
      let (member, out_of_order) = mem-filter (unlisted k) tasks t m in
      let fresh : ¬ Mem t.id k.ordered =
        λ there. cc (out_of_order, ap not (contains_of_mem k.ordered t.id there)) in
      let (d, needed, undone) = missing-ne-zero k.ordered t.dependencies (λ z. fresh (
        subst (λ q. Mem t.id (placed q k.ordered)) idle
          (round.inv.complete t member (omega (arith, round.inv.counts t member, z))))) in
      (
        d,
        needed,
        ∥∥₁_elim (exists_of_mem-map (known t member d needed)) Mem-prop λ (u, among, named).
            subst (λ i. Mem i (ids (filter (unlisted k) tasks))) named
              (mem-map_of_mem (λ (v : Task). v.id)
                (mem-filter_of_mem (unlisted k) tasks u among
                  (ap not (ap (contains k.ordered) named ∙ undone)))),
      )

  pub unlisted-IsStuck : IsStuck tasks (filter (unlisted k) tasks)
  unlisted-IsStuck = record {
    among = λ t m. (mem-filter (unlisted k) tasks t m).0;
    waits = unlisted-waits;
  }

  -- If no task is left over, all are ordered.
  pub unlisted-nil : filter (unlisted k) tasks ≡ [] → length k.ordered ≡ length tasks
  unlisted-nil empty =
      let every : Subset (ids tasks) k.ordered = λ i m.
        ∥∥₁_elim (exists_of_mem-map m) Mem-prop λ (t, member, named).
          elim (Bool-cases (contains k.ordered t.id)) [
            | inl there ↦ rw (← named) (mem_of_contains k.ordered t.id there)
            | inr gone ↦ absurd (
                not-mem-nil (
                  subst (Mem t) empty
                    (mem-filter_of_mem (unlisted k) tasks t member (ap not gone))))
          ] in
      omega (
        arith,
        ordered-length-le tasks nodup k round,
        Nodup-length-le (ids tasks) k.ordered nodup every,
        length-map tasks (λ (t : Task). t.id),
      )
