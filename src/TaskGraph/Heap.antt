-- ===== src/TaskGraph/Heap.antt =====
-- packages/task-graph/src/task-graph.ts: `TaskOrderMinHeap`, the binary heap of the tasks that are
-- free, smallest `order` first, on an array.
pub mod Contents
pub mod Edges
pub mod Up
pub mod Down
pub mod Order
pub mod Erasure
use ai_development_os.Prelude.{
  ℕ, zero, suc, ◌+◌, ◌-◌, ◌*◌, ◌/◌, Bool, true, false, ◌&&◌, Option, none, some, List, [], ◌∷◌,
  ◌++◌, ltb, leb, if◌then◌else◌, length, get_elem?, set, take,
}
use ai_development_os.TaskGraph.Types.{Task}

-- The parent at `p` stands where it is if its order is no larger; else it moves down to `i`.
-- Each round goes from `i` to `(i - 1) / 2`, so as many rounds as the array is long are enough.
unfoldable pub sift_up : ℕ → List Task → ℕ → Task → List Task
sift_up zero items i task = set items i task
sift_up (suc fuel) items zero task = set items zero task
sift_up (suc fuel) items (suc i) task =
    let p = i / 2 in
    elim (get_elem? items p) [
      | none ↦ set items (suc i) task
      | some parent ↦
          let moved = sift_up fuel (set items (suc i) parent) p task in
          if leb parent.order task.order then set items (suc i) task else moved
    ]

unfoldable pub push : List Task → Task → List Task
unfolding sift_up
push items task = sift_up (length items) (items ++ task ∷ []) (length items) task

-- The child to compare with: the right one if it is there and smaller.
unfoldable pub smaller_child : List Task → ℕ → Task → ℕ × Task
smaller_child items i left = elim (get_elem? items (i * 2 + 2)) [
  | none ↦ (i * 2 + 1, left)
  | some right ↦ if ltb right.order left.order then (i * 2 + 2, right) else (i * 2 + 1, left)
]

unfoldable pub sift_down : ℕ → List Task → ℕ → Task → List Task
unfolding smaller_child
sift_down zero items i last = set items i last
sift_down (suc fuel) items i last = elim (get_elem? items (i * 2 + 1)) [
  | none ↦ set items i last
  | some left ↦
      let (c, child) = smaller_child items i left in
      let moved = sift_down fuel (set items i child) c last in
      if leb last.order child.order then set items i last else moved
]

-- `pop` of an array: its items without the last, and the last.
unfoldable pub split_last : Task → List Task → List Task × Task
split_last x [] = ([], x)
split_last x (y ∷ ys) = let (front, last) = split_last y ys in (x ∷ front, last)

unfoldable pub pop : List Task → Option (Task × List Task)
unfolding sift_down split_last
pop [] = none
pop (root ∷ []) = some (root, [])
pop (root ∷ x ∷ xs) =
    let (front, last) = split_last x xs in
    let items = root ∷ front in some (root, sift_down (length items) items 0 last)
