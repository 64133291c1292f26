-- ===== src/TaskGraph/Topology/Unique.antt =====
-- The order that `topologicalTaskIds` returns depends on the tasks, not on the order of insertion of the map
-- that holds them.
use mathlib.Core.Logic.Or
use mathlib.Core.Logic.{∥∥₁_elim}
use mathlib.Core.List.Perm
use mathlib.Core.List.{
  Mem, Nodup, Nodup-cons, Perm, mem-cons, mem-map_of_mem, exists_of_mem-map, not-mem-nil,
}
use mathlib.Core.Bool.{Bool-set}
use ai_development_os.Prelude.{
  string_eq, ℕ, ◌≡◌, refl, sym, ◌∙◌, ap, subst, String, true, List, [], ◌∷◌, ◌++◌, map, ok, ◌==◌,
  beq_refl, length, Nodup-length-le, contains, arith,
}
use ai_development_os.TaskGraph.Types.{Task, ErrorCode}
use ai_development_os.TaskGraph.Topology.{topological_task_ids}
use ai_development_os.TaskGraph.Topology.Counting.{ids}
use ai_development_os.TaskGraph.Topology.Drain.{Along}
use ai_development_os.TaskGraph.Topology.Order.{topological_task_ids-IsOrdered}
use ai_development_os.TaskGraph.Topology.Least.{IsTaken, topological_task_ids-IsTaken}

abbrev pub orders : List Task → List ℕ
orders tasks = map (λ (t : Task). t.order) tasks

-- Tasks with one order have one id.
same_id :
    (tasks : List Task) (x y : Task)
    → Nodup (orders tasks)
    → Mem x tasks
    → Mem y tasks
    → x.order ≡ y.order
    → (x.id == y.id) ≡ true
same_id [] x y nodup mx my same = absurd (not-mem-nil mx)
same_id (z ∷ zs) x y nodup mx my same =
    let (fresh, rest) = Nodup-cons.0 nodup in
    let later : (u v : Task) → Mem u zs → v ≡ z → v.order ≡ u.order → (x.id == y.id) ≡ true =
      λ u v m first e. absurd (
        fresh (
          subst (λ n. Mem n (orders zs)) (sym e ∙ ap (λ (t : Task). t.order) first)
            (mem-map_of_mem (λ (t : Task). t.order) m))) in
    Or.elim (Bool-set _ _) (mem-cons.0 mx)
      (λ x_first.
        Or.elim (Bool-set _ _) (mem-cons.0 my) (λ y_first. rw (x_first, y_first) (beq_refl z.id))
          (λ y_later. later y x y_later x_first same))
      (λ x_later.
        Or.elim (Bool-set _ _) (mem-cons.0 my) (λ y_first. later x y x_later y_first (sym same))
          (λ y_later. same_id zs x y rest x_later y_later same))

module _ (tasks tasks' : List Task) (moved : Perm tasks tasks')
    (distinct : Nodup (orders tasks)) where
  -- Of two first ids, each names a task that could stand in the place of the other.
  same_first :
      (before : List String) (i j : String)
      → IsTaken tasks before i
      → IsTaken tasks' before j
      → (i == j) ≡ true
  same_first before i j h h' = ∥∥₁_elim (exists_of_mem-map h.listed) (Bool-set _ _) λ (x, mx, at_i).
      ∥∥₁_elim (exists_of_mem-map h'.listed) (Bool-set _ _) λ (y, my', at_j).
        let my = Perm.subset (Perm.symm moved) y my' in
        let mx' = Perm.subset moved x mx in
        let first =
          h.least x y mx at_i my (h'.ready y my' at_j) (ap (contains before) at_j ∙ h'.fresh) in
        let second =
          h'.least y x my' at_j mx' (h.ready x mx at_i) (ap (contains before) at_i ∙ h.fresh) in
        rw (← at_i, ← at_j) (same_id tasks x y distinct mx my (omega (arith, first, second)))

  same_order :
      (before out out' : List String)
      → Along (IsTaken tasks) before out
      → Along (IsTaken tasks') before out'
      → length out ≡ length out'
      → out ≡ out'
  same_order before [] [] h h' long = refl
  same_order before [] (j ∷ out') h h' long = absurd (omega arith)
  same_order before (i ∷ out) [] h h' long = absurd (omega arith)
  same_order before (i ∷ out) (j ∷ out') h h' long =
      let same : i ≡ j = (string_eq.decides i j).0 (same_first before i j h.0 h'.0) in
      let rest : out ≡ out' =
        same_order (before ++ i ∷ []) out out' h.1
          (subst (λ k. Along (IsTaken tasks') (before ++ k ∷ []) out') (sym same) h'.1)
          (omega arith) in
      cc (same, rest)

-- The order does not depend on the order of insertion: of two maps with the same tasks, whose ids and
-- orders are distinct, `topologicalTaskIds` returns the same list, if it returns a list of each.
pub topological_task_ids_unique :
    (tasks tasks' : List Task) (cycle_code limit_code : ErrorCode) {out out' : List String}
    → Perm tasks tasks'
    → Nodup (ids tasks)
    → Nodup (orders tasks)
    → topological_task_ids cycle_code limit_code tasks ≡ ok out
    → topological_task_ids cycle_code limit_code tasks' ≡ ok out'
    → out ≡ out'
topological_task_ids_unique tasks tasks' cycle_code limit_code {out} {out'} moved nodup distinct h
      h' =
    let nodup' = Perm.nodup (Perm.map (λ (t : Task). t.id) moved) nodup in
    let (all_listed, _) = topological_task_ids-IsOrdered tasks nodup cycle_code limit_code h in
    let (all_listed', _) = topological_task_ids-IsOrdered tasks' nodup' cycle_code limit_code h' in
    let both : Perm out out' =
      Perm.trans all_listed
        (Perm.trans (Perm.map (λ (t : Task). t.id) moved) (Perm.symm all_listed')) in
    same_order tasks tasks' moved distinct [] out out'
      (topological_task_ids-IsTaken tasks nodup limit_code cycle_code h)
      (topological_task_ids-IsTaken tasks' nodup' limit_code cycle_code h')
      (omega (
        arith,
        Nodup-length-le out out' (Perm.nodup (Perm.symm all_listed) nodup) (Perm.subset both),
        Nodup-length-le out' out (Perm.nodup (Perm.symm all_listed') nodup')
            (Perm.subset (Perm.symm both)),
      ))
