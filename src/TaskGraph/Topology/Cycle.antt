-- ===== src/TaskGraph/Topology/Cycle.antt =====
-- The errors of `topologicalTaskIds`, of packages/task-graph/src/task-graph.ts.
use mathlib.Core.List.{Nodup}
use ai_development_os.Prelude.{
  string_eq, nat_eq, ℕ, zero, suc, ◌+◌, ◌≡◌, ◌≢◌, inl, inr, String, false, List, [], ◌∷◌, err,
  guard, reject_if, ltb, nat_beq, length, filter, arith, >>=-eq-err, reject_if-eq-err, guard-eq-err,
  Option-cases,
}
use ai_development_os.TaskGraph.Limits.{max_depth}
use ai_development_os.TaskGraph.Types.{Task, ErrorCode}
use ai_development_os.TaskGraph.Heap.{pop}
use ai_development_os.TaskGraph.Topology.{
  Kahn, depth_or_one, visit_dependent, visit_dependents, dependents_of, no_dependents, drain,
  start_of, topological_task_ids,
}
use ai_development_os.TaskGraph.Topology.Counting.{ids}
use ai_development_os.TaskGraph.Topology.Order.{
  IsStuck, KnowsAll, unlisted, unlisted-IsStuck, unlisted-nil, drain-queue,
}

module _ (code : ErrorCode) where
  visit_dependents-err :
      (id : String) (ts : List Task) (k : Kahn) {e : ErrorCode}
      → visit_dependents code id ts k ≡ err e
      → e ≡ code
  unfolding visit_dependents visit_dependent
  visit_dependents-err id [] k h = absurd (cc h)
  visit_dependents-err id (t ∷ ts) k h = elim (>>=-eq-err (visit_dependent code id t k) _ h) [
    | inl first ↦
        elim (>>=-eq-err (reject_if (ltb max_depth (depth_or_one (k.depths id) + 1)) code) _
          first) [
            | inl rejected ↦ reject_if-eq-err _ code rejected
            | inr (_, _, impossible) ↦ absurd (cc impossible)
          ]
    | inr (next, _, later) ↦ visit_dependents-err id ts next later
  ]

  drain-err :
      (dependents : String → List Task) (fuel : ℕ) (k : Kahn) {e : ErrorCode}
      → drain code dependents fuel k ≡ err e
      → e ≡ code
  unfolding drain
  drain-err dependents zero k h = absurd (cc h)
  drain-err dependents (suc fuel) k h = elim (Option-cases (pop k.queue)) [
    | inl empty ↦ absurd (cc (rw (empty, drain) at h))
    | inr ((x, rest), popped) ↦
        elim (>>=-eq-err (visit_dependents code x.id (dependents x.id) _) _
          (rw (popped, drain) at h)) [
            | inl first ↦ visit_dependents-err x.id (dependents x.id) _ first
            | inr (next, _, later) ↦ drain-err dependents fuel next later
          ]
  ]

-- `topologicalTaskIds` reports a cycle only where there is one: a list of tasks, not empty, each of
-- which depends on one of them. The ids of the tasks are distinct, the dependencies are ids of tasks,
-- and the code of a cycle is not the code of a limit.
pub topological_task_ids-cycle :
    (tasks : List Task) (cycle_code limit_code : ErrorCode)
    → Nodup (ids tasks)
    → KnowsAll tasks
    → cycle_code ≢ limit_code
    → topological_task_ids cycle_code limit_code tasks ≡ err cycle_code
    → (stuck : List Task) × IsStuck tasks stuck × (stuck ≢ [])
unfolding topological_task_ids
topological_task_ids-cycle tasks cycle_code limit_code nodup known apart h =
    elim (>>=-eq-err
      (drain limit_code (dependents_of no_dependents tasks) (length tasks) (start_of tasks)) _ h) [
        | inl failed ↦
            absurd (apart (drain-err limit_code _ (length tasks) (start_of tasks) failed))
        | inr (k, drained, checked) ↦
            elim (>>=-eq-err (guard (nat_beq (length k.ordered) (length tasks)) cycle_code) _
              checked) [
                | inl unequal ↦
                    let short =
                      (guard-eq-err (nat_beq (length k.ordered) (length tasks)) cycle_code
                        unequal).0 in
                    let (round, ends) = drain-queue tasks nodup limit_code k drained in
                    elim ends [
                      | inl idle ↦ (
                        filter (unlisted k) tasks,
                        unlisted-IsStuck tasks nodup known k round idle,
                        λ empty. differ k short (unlisted-nil tasks nodup known k round idle empty),
                      )
                      | inr full ↦ absurd (differ k short full)
                    ]
                | inr (_, _, impossible) ↦ absurd (cc impossible)
              ]
      ]
  where
    differ :
        (k : Kahn)
        → nat_beq (length k.ordered) (length tasks) ≡ false
        → length k.ordered ≢ length tasks
    differ k short same = ground (arith, short, same)
