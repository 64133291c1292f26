-- ===== src/TaskGraph/Heap/Erasure.antt =====
-- packages/task-graph/src/task-graph.ts: `TaskOrderMinHeap` looks at nothing but the `order` of a task.
use ai_development_os.Prelude.{
  ℕ, zero, suc, ◌+◌, ◌*◌, ◌/◌, ◌≡◌, refl, ◌∙◌, ap, inl, inr, Option, none, some, List, [], ◌∷◌,
  ◌++◌, map, ltb, leb, length, get_elem?, set, Bool-cases, Option-cases,
}
use ai_development_os.TaskGraph.Types.{Task}
use ai_development_os.TaskGraph.Heap.{sift_up, push, smaller_child, sift_down, split_last, pop}

module _ (f : Task → Task) (same_order : (t : Task) → (f t).order ≡ t.order) where
  abbrev erased : Option Task → Option Task
  erased none = none
  erased (some t) = some (f t)

  set-map :
      (items : List Task) (i : ℕ) (t : Task) → set (map f items) i (f t) ≡ map f (set items i t)
  set-map [] i t = refl
  set-map (x ∷ items) zero t = refl
  set-map (x ∷ items) (suc i) t = ap (λ l. f x ∷ l) (set-map items i t)

  get-map : (items : List Task) (i : ℕ) → get_elem? (map f items) i ≡ erased (get_elem? items i)
  get-map [] i = refl
  get-map (x ∷ items) zero = refl
  get-map (x ∷ items) (suc i) = get-map items i

  pub length-map : (items : List Task) → length (map f items) ≡ length items
  length-map [] = refl
  length-map (x ∷ items) = ap suc (length-map items)

  pub map-snoc : (items : List Task) (t : Task) → map f items ++ f t ∷ [] ≡ map f (items ++ t ∷ [])
  map-snoc [] t = refl
  map-snoc (x ∷ items) t = ap (λ l. f x ∷ l) (map-snoc items t)

  sift_up-map :
      (fuel : ℕ) (items : List Task) (i : ℕ) (t : Task)
      → sift_up fuel (map f items) i (f t) ≡ map f (sift_up fuel items i t)
  unfolding sift_up
  sift_up-map zero items i t = set-map items i t
  sift_up-map (suc fuel) items zero t = set-map items zero t
  sift_up-map (suc fuel) items (suc i) t = elim (Option-cases (get_elem? items (i / 2))) [
    | inl absent ↦
        let absent' = get-map items (i / 2) ∙ ap erased absent in
        rw (absent, absent', sift_up) (set-map items (suc i) t)
    | inr (parent, found) ↦
        let found' = get-map items (i / 2) ∙ ap erased found in
        let moved =
          ap (λ l. sift_up fuel l (i / 2) (f t)) (set-map items (suc i) parent)
          ∙ sift_up-map fuel (set items (suc i) parent) (i / 2) t in
        let same : leb (f parent).order (f t).order ≡ leb parent.order t.order =
          cc (same_order parent, same_order t) in
        elim (Bool-cases (leb parent.order t.order)) [
          | inl low ↦ rw (found, found', same, low, sift_up) (set-map items (suc i) t)
          | inr high ↦ rw (found, found', same, high, sift_up) moved
        ]
  ]

  pub push-map : (items : List Task) (t : Task) → push (map f items) (f t) ≡ map f (push items t)
  unfolding push
  push-map items t =
      rw (length-map items, map-snoc items t)
        (sift_up-map (length items) (items ++ t ∷ []) (length items) t)

  abbrev erased_pair : ℕ × Task → ℕ × Task
  erased_pair (i, t) = (i, f t)

  smaller_child-map :
      (items : List Task) (i : ℕ) (left : Task)
      → smaller_child (map f items) i (f left) ≡ erased_pair (smaller_child items i left)
  unfolding smaller_child
  smaller_child-map items i left = elim (Option-cases (get_elem? items (i * 2 + 2))) [
    | inl absent ↦
        let absent' = get-map items (i * 2 + 2) ∙ ap erased absent in
        rw (absent, absent', smaller_child) refl
    | inr (right, found) ↦
        let found' = get-map items (i * 2 + 2) ∙ ap erased found in
        let same : ltb (f right).order (f left).order ≡ ltb right.order left.order =
          cc (same_order right, same_order left) in
        elim (Bool-cases (ltb right.order left.order)) [
          | inl low ↦ rw (found, found', same, low, smaller_child) refl
          | inr high ↦ rw (found, found', same, high, smaller_child) refl
        ]
  ]

  sift_down-map :
      (fuel : ℕ) (items : List Task) (i : ℕ) (last : Task)
      → sift_down fuel (map f items) i (f last) ≡ map f (sift_down fuel items i last)
  unfolding sift_down
  sift_down-map zero items i last = set-map items i last
  sift_down-map (suc fuel) items i last = elim (Option-cases (get_elem? items (i * 2 + 1))) [
    | inl absent ↦
        let absent' = get-map items (i * 2 + 1) ∙ ap erased absent in
        rw (absent, absent', sift_down) (set-map items i last)
    | inr (left, found) ↦
        let found' = get-map items (i * 2 + 1) ∙ ap erased found in
        let (c, child) = smaller_child items i left in
        let moved =
          ap (λ l. sift_down fuel l c (f last)) (set-map items i child)
          ∙ sift_down-map fuel (set items i child) c last in
        let same : leb (f last).order (f child).order ≡ leb last.order child.order =
          cc (same_order last, same_order child) in
        elim (Bool-cases (leb last.order child.order)) [
          | inl low ↦
              rw (found, found', smaller_child-map items i left, same, low, sift_down)
                (set-map items i last)
          | inr high ↦
              rw (found, found', smaller_child-map items i left, same, high, sift_down) moved
        ]
  ]

  split_last-map :
      (x : Task) (xs : List Task)
      → split_last (f x) (map f xs) ≡ (map f (split_last x xs).0, f (split_last x xs).1)
  unfolding split_last
  split_last-map x [] = refl
  split_last-map x (y ∷ ys) = rw (split_last-map y ys) refl

  abbrev pub erased_pop : Option (Task × List Task) → Option (Task × List Task)
  erased_pop none = none
  erased_pop (some (t, rest)) = some (f t, map f rest)

  pub pop-map : (items : List Task) → pop (map f items) ≡ erased_pop (pop items)
  unfolding pop
  pop-map [] = refl
  pop-map (root ∷ []) = refl
  pop-map (root ∷ x ∷ xs) =
      let (front, last) = split_last x xs in
      rw (split_last-map x xs, length-map front)
        (ap (λ l. some (f root, l)) (sift_down-map (suc (length front)) (root ∷ front) 0 last))
