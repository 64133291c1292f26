-- ===== src/TaskGraph/Heap/Order.antt =====
-- `TaskOrderMinHeap` is a heap after `push` and after `pop`, which takes the least task.
use mathlib.Core.Logic.{◌≢◌}
use mathlib.Core.List.{Mem, Perm}
use ai_development_os.Prelude.{
  ℕ, zero, suc, ◌≤◌, ◌<◌, ◌≡◌, refl, sym, subst, true, Option, none, some, List, [], ◌∷◌, ◌++◌, leb,
  length, all, mem-all, nat_eq, arith, length-append,
}
use ai_development_os.TaskGraph.Types.{Task}
use ai_development_os.TaskGraph.Heap.{push, split_last, pop}
use ai_development_os.TaskGraph.Heap.Contents.{set_last, split_last-append, pop-perm}
use ai_development_os.TaskGraph.Heap.Edges.{key, parent, IsHeap, key-set, LooseAbove}
use ai_development_os.TaskGraph.Heap.Up.{sift_up-IsHeap}
use ai_development_os.TaskGraph.Heap.Down.{sift_down-IsHeap}

key-append : (a b : List Task) (j : ℕ) → j < length a → key (a ++ b) j ≡ key a j
key-append [] b j lt = elim lt [ ]
key-append (x ∷ a) b zero lt = refl
key-append (x ∷ a) b (suc j) lt = key-append a b j (omega arith)

pub push-IsHeap : (items : List Task) (task : Task) → IsHeap items → IsHeap (push items task)
unfolding push
push-IsHeap items task h =
    let longer = length-append items (task ∷ []) in
    sift_up-IsHeap (length items) (items ++ task ∷ []) (length items) task (omega arith)
      (omega (arith, longer))
      (subst (λ a. LooseAbove a (length items)) (sym (set_last items task task))
        (record {
          elsewhere = λ c p q r. ground (
            arith,
            longer,
            h c,
            key-append items (task ∷ []) c,
            key-append items (task ∷ []) (parent c),
          );
          across = λ c p q r t. absurd (omega (arith, longer));
        }))

first_below :
    (fuel : ℕ) (a : List Task) (i : ℕ) → IsHeap a → i < fuel → i < length a → key a 0 ≤ key a i
first_below zero a i h f p = absurd (omega arith)
first_below (suc fuel) a zero h f p = omega arith
first_below (suc fuel) a (suc i) h f p =
    let up = parent (suc i) in
    let lower : key a 0 ≤ key a up = first_below fuel a up h (omega arith) (omega arith) in
    omega (arith, h (suc i), lower)

all_least :
    (n : ℕ) (a : List Task)
    → ((i : ℕ) → i < length a → n ≤ key a i)
    → all (λ t. leb n t.order) a ≡ true
all_least n [] h = refl
all_least n (t ∷ a) h =
    let here : n ≤ t.order = h 0 (omega arith) in
    let there = all_least n a (λ i lt. h (suc i) (omega arith)) in ground (arith, here, there)

-- `pop` takes a task of the least order.
pub first_least :
    (root : Task) (a : List Task)
    → IsHeap (root ∷ a)
    → all (λ t. leb root.order t.order) (root ∷ a) ≡ true
first_least root a h =
    all_least root.order (root ∷ a) λ i lt. first_below (suc i) (root ∷ a) i h (omega arith) lt

-- The last task stands in place of the root, and elsewhere the array is as it was.
pop_edge :
    (root last : Task) (front : List Task)
    → IsHeap (root ∷ (front ++ last ∷ []))
    → (c : ℕ) → 0 < c
    → c < length (last ∷ front)
    → parent c ≢ 0
    → key (last ∷ front) (parent c) ≤ key (last ∷ front) c
pop_edge root last front h c p q r =
    let at =
      λ (j : ℕ) (lt : j < length (root ∷ front)). key-append (root ∷ front) (last ∷ []) j lt in
    let put = λ (j : ℕ). key-set (root ∷ front) 0 last j (omega arith) in
    ground (arith, length-append front (last ∷ []), h c, at c, at (parent c), put c, put (parent c))

abbrev LeavesHeap : List Task → Option (Task × List Task) → Type 0
LeavesHeap items none = Unit
LeavesHeap items (some (root, rest)) =
    IsHeap rest × (all (λ t. leb root.order t.order) items ≡ true)

pop-LeavesHeap : (items : List Task) → IsHeap items → LeavesHeap items (pop items)
unfolding pop
pop-LeavesHeap [] h = tt
pop-LeavesHeap (root ∷ []) h = (λ c p q. absurd (omega arith), first_least root [] h)
pop-LeavesHeap (root ∷ x ∷ xs) h =
    let (front, last) = split_last x xs in
    let whole = split_last-append x xs in
    let longer = length-append front (last ∷ []) in
    let old : IsHeap (root ∷ (front ++ last ∷ [])) = subst (λ a. IsHeap (root ∷ a)) whole h in
    (
      sift_down-IsHeap (length (root ∷ front)) (root ∷ front) 0 last (omega arith) (omega arith)
          (record {
            elsewhere = λ c p q r. pop_edge root last front old c p q r;
            across = λ c p q r t. absurd (omega arith);
          }),
      first_least root (x ∷ xs) h,
    )

-- From a heap, `pop` takes out a task of the least order, and leaves a heap of the others.
pub pop_least :
    (items : List Task) (root : Task) (rest : List Task)
    → IsHeap items
    → pop items ≡ some (root, rest)
    → Perm items (root ∷ rest) × IsHeap rest × ((t : Task) → Mem t items → root.order ≤ t.order)
pop_least items root rest h popped =
    let (heap, least) = subst (LeavesHeap items) popped (pop-LeavesHeap items h) in
    (
      pop-perm items root rest popped,
      heap,
      λ t m.
          let here = mem-all (λ u. leb root.order u.order) items t m least in ground (arith, here),
    )
