-- ===== src/TaskGraph/Heap/Down.antt =====
-- `TaskOrderMinHeap`: the loop of `pop` restores the order of the heap.
use ai_development_os.Prelude.{
  ℕ, zero, suc, ◌+◌, ◌*◌, ◌≤◌, ◌<◌, ◌≡◌, sym, subst, inl, inr, some, List, leb, ltb, length,
  get_elem?, set, Option-cases, Bool-cases, Eq-cases, nat_eq, arith, if_ind,
}
use ai_development_os.TaskGraph.Types.{Task}
use ai_development_os.TaskGraph.Heap.{smaller_child, sift_down}
use ai_development_os.TaskGraph.Heap.Contents.{length-set, get_elem?-lt}
use ai_development_os.TaskGraph.Heap.Edges.{
  key, parent, IsHeap, key-found, missing-length, LooseBelow, Moved, Moved-at,
}

-- The child of `i` that moves up into the gap.
record IsSmallest (items : List Task) (i c : ℕ) (child : Task) : Type 0 where
  pub at_c : get_elem? items c ≡ some child
  pub under : parent c ≡ i
  pub positive : 0 < c
  pub inside : c < length items
  pub least : (d : ℕ) → 0 < d → d < length items → parent d ≡ i → child.order ≤ key items d

smaller_child-IsSmallest :
    (items : List Task) (i : ℕ) (left : Task)
    → get_elem? items (i * 2 + 1) ≡ some left
    → let (c, child) = smaller_child items i left in IsSmallest items i c child
unfolding smaller_child
smaller_child-IsSmallest items i left found = elim (Option-cases (get_elem? items (i * 2 + 2))) [
  | inl missing ↦
      rw (missing, smaller_child)
        (record {
          at_c = found;
          under = omega arith;
          positive = omega arith;
          inside = get_elem?-lt items (i * 2 + 1) found;
          least = λ d p q r. ground (
            arith,
            missing-length items (i * 2 + 2) missing,
            key-found items (i * 2 + 1) left found,
          );
        })
  | inr (right, there) ↦ elim (Bool-cases (ltb right.order left.order)) [
    | inl smaller ↦
        rw (there, smaller, smaller_child)
          (record {
            at_c = there;
            under = omega arith;
            positive = omega arith;
            inside = get_elem?-lt items (i * 2 + 2) there;
            least = λ d p q r. ground (
              arith,
              smaller,
              key-found items (i * 2 + 1) left found,
              key-found items (i * 2 + 2) right there,
            );
          })
    | inr larger ↦
        rw (there, larger, smaller_child)
          (record {
            at_c = found;
            under = omega arith;
            positive = omega arith;
            inside = get_elem?-lt items (i * 2 + 1) found;
            least = λ d p q r. ground (
              arith,
              larger,
              key-found items (i * 2 + 1) left found,
              key-found items (i * 2 + 2) right there,
            );
          })
  ]
]

sink-LooseBelow :
    (items : List Task) (i c : ℕ) (last child : Task)
    → Moved items i c last child
    → IsSmallest items i c child
    → child.order < last.order
    → LooseBelow (set items i last) i
    → LooseBelow (set (set items i child) c last) c
sink-LooseBelow items i c last child m s below v = record {
  elsewhere = λ d p q r. elim (Eq-cases d i) [
    | inl (same, _) ↦
        subst (λ e. key after (parent e) ≤ key after e) (sym same)
          (above (subst (λ e. 0 < e) same p))
    | inr (other, _) ↦ ground (
      arith,
      other,
      m.length_before,
      m.length_after,
      m.before d,
      m.before (parent d),
      m.after d,
      m.after (parent d),
      v.elsewhere d,
      s.least d,
    )
  ];
  across = λ d p q r t. ground (
    arith,
    m.length_before,
    m.length_after,
    m.before c,
    m.before d,
    m.after d,
    m.after i,
    m.here,
    v.elsewhere d,
    s.under,
    s.positive,
    s.inside,
  );
}
  where
    after : List Task
    after = set (set items i child) c last

    above : 0 < i → key after (parent i) ≤ key after i
    above p = ground (
      arith,
      m.length_before,
      m.before c,
      m.before (parent i),
      m.after i,
      m.after (parent i),
      m.here,
      v.across c,
      s.under,
      s.positive,
      s.inside,
    )

down_stands :
    (items : List Task) (i c : ℕ) (last child : Task)
    → Moved items i c last child
    → IsSmallest items i c child
    → last.order ≤ child.order
    → LooseBelow (set items i last) i
    → IsHeap (set items i last)
down_stands items i c last child m s below v d p q =
    ground (arith, m.length_before, m.before d, m.before (parent d), v.elsewhere d, s.least d)

pub sift_down-IsHeap :
    (fuel : ℕ) (items : List Task) (i : ℕ) (last : Task)
    → length items ≤ i + fuel
    → i < length items
    → LooseBelow (set items i last) i
    → IsHeap (sift_down fuel items i last)
unfolding sift_down
sift_down-IsHeap zero items i last enough lt v = absurd (omega arith)
sift_down-IsHeap (suc fuel) items i last enough lt v =
    elim (Option-cases (get_elem? items (i * 2 + 1))) [
      | inl missing ↦
          rw (missing, sift_down)
            λ c p q.
              v.elsewhere c p q
                (omega (arith, missing-length items (i * 2 + 1) missing, length-set items i last))
      | inr (left, found) ↦
          rw (found, sift_down)
            (let (c, child) = smaller_child items i left in
              let s = smaller_child-IsSmallest items i left found in
              let m = Moved-at items i c last child lt s.at_c in
              if_ind (λ zs. IsHeap zs) (leb last.order child.order)
                (λ stands. down_stands items i c last child m s (ground (arith, stands)) v)
                λ moves.
                  sift_down-IsHeap fuel (set items i child) c last
                    (omega (arith, length-set items i child, s.under, s.positive))
                    (omega (arith, length-set items i child, s.inside))
                    (sink-LooseBelow items i c last child m s (ground (arith, moves)) v))
    ]
