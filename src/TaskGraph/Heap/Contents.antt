-- ===== src/TaskGraph/Heap/Contents.antt =====
-- The heap holds what was pushed and not yet popped, each task as often.
use mathlib.Core.List.{Perm, perm_append_singleton}
use mathlib.Core.List.Perm
use ai_development_os.Prelude.{
  ℕ, zero, suc, ◌+◌, ◌*◌, ◌/◌, ◌<◌, ◌≡◌, refl, ap, subst, ◌≢◌, inl, inr, Option, none, some, List,
  [], ◌∷◌, ◌++◌, leb, length, get_elem?, set, Option-cases, arith, length-append, if_ind,
}
use ai_development_os.TaskGraph.Types.{Task}
use ai_development_os.TaskGraph.Heap.{sift_up, push, smaller_child, sift_down, split_last, pop}

some_eq {ℓ} : {A : Type ℓ} {a b : A} → some a ≡ some b → b ≡ a
some_eq h = cc

-- An item at `j` and a new value at the head change places.
set-perm_head {ℓ} :
    {A : Type ℓ} (xs : List A) (j : ℕ) (b v : A)
    → get_elem? xs j ≡ some b
    → Perm (b ∷ set xs j v) (v ∷ xs)
set-perm_head [] j b v h = absurd (cc h)
set-perm_head (x ∷ xs) zero b v h =
    subst (λ y. Perm (b ∷ v ∷ xs) (v ∷ y ∷ xs)) (some_eq h) (Perm.swap v b xs)
set-perm_head (x ∷ xs) (suc j) b v h =
    Perm.trans (Perm.swap x b (set xs j v))
      (Perm.trans (Perm.cons x (set-perm_head xs j b v h)) (Perm.swap v x xs))

-- Two values that one place can take, in either order.
set-perm_swap {ℓ} :
    {A : Type ℓ} (xs : List A) (i : ℕ) (b v : A)
    → i < length xs
    → Perm (v ∷ set xs i b) (b ∷ set xs i v)
set-perm_swap [] i b v lt = elim lt [ ]
set-perm_swap (x ∷ xs) zero b v lt = Perm.swap b v xs
set-perm_swap (x ∷ xs) (suc i) b v lt =
    Perm.trans (Perm.swap x v (set xs i b))
      (Perm.trans (Perm.cons x (set-perm_swap xs i b v (omega arith))) (Perm.swap b x (set xs i v)))

-- Moving the item at `j` to `i` and putting `v` at `j`, instead of putting `v` at `i`.
set-perm_set {ℓ} :
    {A : Type ℓ} (xs : List A) (i j : ℕ) (b v : A)
    → i ≢ j
    → get_elem? xs j ≡ some b
    → i < length xs
    → Perm (set (set xs i b) j v) (set xs i v)
set-perm_set [] i j b v ne h lt = absurd (cc h)
set-perm_set (x ∷ xs) zero zero b v ne h lt = absurd (ne refl)
set-perm_set (x ∷ xs) zero (suc j) b v ne h lt = set-perm_head xs j b v h
set-perm_set (x ∷ xs) (suc i) zero b v ne h lt =
    subst (λ y. Perm (v ∷ set xs i b) (y ∷ set xs i v)) (some_eq h)
      (set-perm_swap xs i b v (omega arith))
set-perm_set (x ∷ xs) (suc i) (suc j) b v ne h lt =
    Perm.cons x (set-perm_set xs i j b v (λ e. ne (ap suc e)) h (omega arith))

pub get_elem?-lt {ℓ} :
    {A : Type ℓ} (xs : List A) (i : ℕ) {a : A} → get_elem? xs i ≡ some a → i < length xs
get_elem?-lt [] i h = absurd (cc h)
get_elem?-lt (x ∷ xs) zero h = omega arith
get_elem?-lt (x ∷ xs) (suc i) h = omega (arith, get_elem?-lt xs i h)

pub length-set {ℓ} : {A : Type ℓ} (xs : List A) (i : ℕ) (v : A) → length (set xs i v) ≡ length xs
length-set [] i v = refl
length-set (x ∷ xs) zero v = refl
length-set (x ∷ xs) (suc i) v = ap suc (length-set xs i v)

sift_up-perm :
    (fuel : ℕ) (items : List Task) (i : ℕ) (task : Task)
    → i < length items
    → Perm (sift_up fuel items i task) (set items i task)
unfolding sift_up
sift_up-perm zero items i task lt = Perm.rfl
sift_up-perm (suc fuel) items zero task lt = Perm.rfl
sift_up-perm (suc fuel) items (suc i) task lt = elim (Option-cases (get_elem? items (i / 2))) [
  | inl missing ↦ rw (missing, sift_up) Perm.rfl
  | inr (parent, found) ↦
      rw (found, sift_up)
        (if_ind (λ zs. Perm zs (set items (suc i) task)) (leb parent.order task.order)
          (λ _. Perm.rfl)
          λ _.
            Perm.trans
              (sift_up-perm fuel (set items (suc i) parent) (i / 2) task
                (rw (length-set items (suc i) parent) (get_elem?-lt items (i / 2) found)))
              (set-perm_set items (suc i) (i / 2) parent task (omega arith) found lt))
]

pub set_last :
    (items : List Task) (task x : Task)
    → set (items ++ x ∷ []) (length items) task ≡ items ++ task ∷ []
set_last [] task x = refl
set_last (y ∷ ys) task x = ap (λ zs. y ∷ zs) (set_last ys task x)

-- A task that is pushed is held besides those that were there.
pub push-perm : (items : List Task) (task : Task) → Perm (push items task) (task ∷ items)
unfolding push
push-perm items task =
    Perm.trans
      (sift_up-perm (length items) (items ++ task ∷ []) (length items) task
        (omega (arith, length-append items (task ∷ []))))
      (rw (set_last items task task) (perm_append_singleton task items))

smaller_child-found :
    (items : List Task) (i : ℕ) (left : Task)
    → get_elem? items (i * 2 + 1) ≡ some left
    → let (c, child) = smaller_child items i left in (get_elem? items c ≡ some child) × (i < c)
unfolding smaller_child
smaller_child-found items i left found = ground (arith, found)

sift_down-perm :
    (fuel : ℕ) (items : List Task) (i : ℕ) (last : Task)
    → i < length items
    → Perm (sift_down fuel items i last) (set items i last)
unfolding sift_down
sift_down-perm zero items i last lt = Perm.rfl
sift_down-perm (suc fuel) items i last lt = elim (Option-cases (get_elem? items (i * 2 + 1))) [
  | inl missing ↦ rw (missing, sift_down) Perm.rfl
  | inr (left, found) ↦
      rw (found, sift_down)
        (let (c, child) = smaller_child items i left in
          let (at_c, below) = smaller_child-found items i left found in
          if_ind (λ zs. Perm zs (set items i last)) (leb last.order child.order) (λ _. Perm.rfl)
            λ _.
              Perm.trans
                (sift_down-perm fuel (set items i child) c last
                  (rw (length-set items i child) (get_elem?-lt items c at_c)))
                (set-perm_set items i c child last (omega arith) at_c lt))
]

pub split_last-append :
    (x : Task) (xs : List Task) → let (front, last) = split_last x xs in x ∷ xs ≡ front ++ last ∷ []
unfolding split_last
split_last-append x [] = refl
split_last-append x (y ∷ ys) = ap (λ zs. x ∷ zs) (split_last-append y ys)

abbrev TakesOne : List Task → Option (Task × List Task) → Type 0
TakesOne items none = items ≡ []
TakesOne items (some (root, rest)) = Perm items (root ∷ rest)

pop-TakesOne : (items : List Task) → TakesOne items (pop items)
unfolding pop
pop-TakesOne [] = refl
pop-TakesOne (x ∷ []) = Perm.rfl
pop-TakesOne (x ∷ y ∷ ys) =
    let (front, last) = split_last y ys in
    Perm.cons x (
      Perm.trans (rw (split_last-append y ys) (perm_append_singleton last front))
        (Perm.symm (sift_down-perm (length (x ∷ front)) (x ∷ front) 0 last (omega arith))))

-- `pop` takes one task out of the heap and keeps the others.
pub pop-perm :
    (items : List Task) (root : Task) (rest : List Task)
    → pop items ≡ some (root, rest)
    → Perm items (root ∷ rest)
pop-perm items root rest h = subst (TakesOne items) h (pop-TakesOne items)

-- `pop` fails on the empty heap only.
pub pop-none : (items : List Task) → pop items ≡ none → items ≡ []
pop-none items h = subst (TakesOne items) h (pop-TakesOne items)
