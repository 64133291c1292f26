-- ===== src/TaskGraph/Heap/Edges.antt =====
-- The edges of the heap, from each place to its parent, and what one step of a loop moves.
use mathlib.Core.Logic.{◌≢◌}
use ai_development_os.Prelude.{
  ℕ, zero, suc, ◌-◌, ◌/◌, ◌≤◌, ◌<◌, ◌≡◌, refl, ap, ◌∙◌, none, some, List, [], ◌∷◌, nat_beq, length,
  get_elem?, set, nat_eq, arith, if◌then◌else◌,
}
use ai_development_os.TaskGraph.Types.{Task}
use ai_development_os.TaskGraph.Heap.Contents.{length-set, get_elem?-lt}

-- The `order` at a place.
abbrev pub key : List Task → ℕ → ℕ
key [] j = 0
key (t ∷ ts) zero = t.order
key (t ∷ ts) (suc j) = key ts j

abbrev pub parent : ℕ → ℕ
parent c = (c - 1) / 2

abbrev pub IsHeap : List Task → Type 0
IsHeap a = (c : ℕ) → 0 < c → c < length a → key a (parent c) ≤ key a c

pub key-found : (a : List Task) (i : ℕ) (t : Task) → get_elem? a i ≡ some t → key a i ≡ t.order
key-found [] i t h = cc h
key-found (x ∷ a) zero t h = cc h
key-found (x ∷ a) (suc i) t h = key-found a i t h

pub key-set :
    (a : List Task) (i : ℕ) (v : Task) (j : ℕ)
    → i < length a
    → key (set a i v) j ≡ (if nat_beq j i then v.order else key a j)
key-set [] i v j h = elim h [ ]
key-set (x ∷ a) zero v zero h = refl
key-set (x ∷ a) zero v (suc j) h = ground arith
key-set (x ∷ a) (suc i) v zero h = ground arith
key-set (x ∷ a) (suc i) v (suc j) h = ground (arith, key-set a i v j (omega arith))

pub missing-length : (a : List Task) (i : ℕ) → get_elem? a i ≡ none → length a ≤ i
missing-length [] i h = omega arith
missing-length (x ∷ a) zero h = absurd (cc h)
missing-length (x ∷ a) (suc i) h = omega (arith, missing-length a i h)

-- The children of `i` are no smaller than the parent of `i`.
abbrev Spans : List Task → ℕ → Type 0
Spans a i = (c : ℕ) → 0 < c → c < length a → parent c ≡ i → 0 < i → key a (parent i) ≤ key a c

-- A heap but for the task at `i`, which may be smaller than its parent.
pub record LooseAbove (a : List Task) (i : ℕ) : Type 0 where
  pub elsewhere : (c : ℕ) → 0 < c → c < length a → c ≢ i → key a (parent c) ≤ key a c
  pub across : Spans a i

-- A heap but for the task at `i`, which may be larger than its children.
pub record LooseBelow (a : List Task) (i : ℕ) : Type 0 where
  pub elsewhere : (c : ℕ) → 0 < c → c < length a → parent c ≢ i → key a (parent c) ≤ key a c
  pub across : Spans a i

-- What stands where after a task has moved from `j` to the gap at `i`, which is now at `j`.
pub record Moved (items : List Task) (i j : ℕ) (task : Task) (moved : Task) : Type 0 where
  pub before :
      (c : ℕ) → key (set items i task) c ≡ (if nat_beq c i then task.order else key items c)
  pub after :
      (c : ℕ)
      → key (set (set items i moved) j task) c
        ≡ (if nat_beq c j then task.order else (if nat_beq c i then moved.order else key items c))
  pub here : key items j ≡ moved.order
  pub length_before : length (set items i task) ≡ length items
  pub length_after : length (set (set items i moved) j task) ≡ length items

pub Moved-at :
    (items : List Task) (i j : ℕ) (task moved : Task)
    → i < length items
    → get_elem? items j ≡ some moved
    → Moved items i j task moved
Moved-at items i j task moved lt found = record {
  before = λ c. key-set items i task c lt;
  after = λ c.
      key-set (set items i moved) j task c
        (omega (arith, length-set items i moved, get_elem?-lt items j found))
      ∙ ap (λ k. if nat_beq c j then task.order else k) (key-set items i moved c lt);
  here = key-found items j moved found;
  length_before = length-set items i task;
  length_after = length-set (set items i moved) j task ∙ length-set items i moved;
}
