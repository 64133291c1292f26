-- ===== src/TaskGraph/Heap/Up.antt =====
-- `TaskOrderMinHeap`: the loop of `push` restores the order of the heap.
use ai_development_os.Prelude.{
  ℕ, zero, suc, ◌/◌, ◌≤◌, ◌<◌, ◌≡◌, sym, subst, inl, inr, List, leb, length, get_elem?, set,
  Option-cases, nat_eq, arith, if_ind,
}
use ai_development_os.TaskGraph.Types.{Task}
use ai_development_os.TaskGraph.Heap.{sift_up}
use ai_development_os.TaskGraph.Heap.Contents.{length-set}
use ai_development_os.TaskGraph.Heap.Edges.{
  parent, IsHeap, missing-length, LooseAbove, Moved, Moved-at,
}

rise-LooseAbove :
    (items : List Task) (i : ℕ) (task up : Task)
    → Moved items i (parent i) task up
    → 0 < i
    → task.order < up.order
    → LooseAbove (set items i task) i
    → LooseAbove (set (set items i up) (parent i) task) (parent i)
rise-LooseAbove items i task up m positive above v = record {
  elsewhere = λ c p q r. ground (
    arith,
    m.length_before,
    m.length_after,
    m.before c,
    m.before (parent c),
    m.before (parent i),
    m.after c,
    m.after (parent c),
    m.here,
    v.elsewhere c,
    v.across c,
  );
  across = λ c p q r t. ground (
    arith,
    m.length_before,
    m.length_after,
    m.before c,
    m.before (parent i),
    m.before (parent (parent i)),
    m.after c,
    m.after (parent (parent i)),
    m.here,
    v.elsewhere c,
    v.elsewhere (parent i),
    v.across c,
  );
}

up_stands :
    (items : List Task) (i : ℕ) (task up : Task)
    → Moved items i (parent i) task up
    → 0 < i
    → up.order ≤ task.order
    → LooseAbove (set items i task) i
    → IsHeap (set items i task)
up_stands items i task up m positive above v c p q =
    ground (arith, m.length_before, m.before c, m.before (parent c), m.here, v.elsewhere c)

parent-suc : (i : ℕ) → i / 2 ≡ parent (suc i)
parent-suc i = omega arith

pub sift_up-IsHeap :
    (fuel : ℕ) (items : List Task) (i : ℕ) (task : Task)
    → i ≤ fuel
    → i < length items
    → LooseAbove (set items i task) i
    → IsHeap (sift_up fuel items i task)
unfolding sift_up
sift_up-IsHeap zero items i task enough lt v = λ c p q. v.elsewhere c p q (omega arith)
sift_up-IsHeap (suc fuel) items zero task enough lt v = λ c p q. v.elsewhere c p q (omega arith)
sift_up-IsHeap (suc fuel) items (suc i) task enough lt v =
    elim (Option-cases (get_elem? items (i / 2))) [
      | inl missing ↦ absurd (omega (arith, missing-length items (i / 2) missing))
      | inr (up, found) ↦
          let m =
            subst (λ j. Moved items (suc i) j task up) (parent-suc i)
              (Moved-at items (suc i) (i / 2) task up lt found) in
          rw (found, sift_up)
            (if_ind (λ zs. IsHeap zs) (leb up.order task.order)
              (λ stands. up_stands items (suc i) task up m (omega arith) (ground (arith, stands)) v)
              λ moves.
                sift_up-IsHeap fuel (set items (suc i) up) (i / 2) task (omega arith)
                  (omega (arith, length-set items (suc i) up))
                  (subst (λ j. LooseAbove (set (set items (suc i) up) j task) j)
                    (sym (parent-suc i))
                    (rise-LooseAbove items (suc i) task up m (omega arith) (ground (arith, moves))
                      v)))
    ]
