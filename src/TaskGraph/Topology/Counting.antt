-- ===== src/TaskGraph/Topology/Counting.antt =====
-- Occurrences of ids in lists, and the dependencies that a list of finished ids leaves open.
use text.Mathlib.TextEquality.{eq_iff}
use mathlib.Core.Logic.Or
use native.Mathlib.Bridge.{le_prop}
use native.Mathlib.Nat.{ℕ_set}
use mathlib.Core.List.{not-mem-nil, mem-append, Mem-prop, Mem, Nodup, Nodup-cons}
use mathlib.Core.List.{mem-map_of_mem, mem-cons, mem-cons_self, mem-cons_of_mem, Subset}
use ai_development_os.Prelude.{
  ℕ, ◌+◌, ◌≤◌, ◌≡◌, refl, ◌∙◌, ap, ◌≢◌, inl, inr, String, true, false, List, [], ◌∷◌, ◌++◌, map,
  ◌==◌, string_eq, if◌then◌else◌, length, all, contains, contains-append, if_ind, Eq-cases,
  Bool-cases, beq_refl, beq_of_ne, arith,
}
use ai_development_os.TaskGraph.Types.{Task}
use ai_development_os.TaskGraph.Topology.{update, indegrees, add_dependent, dependents_of}

abbrev pub ids : List Task → List String
ids ts = map (λ t. t.id) ts

abbrev pub count : String → List String → ℕ
count a [] = 0
count a (x ∷ xs) = (if x == a then 1 else 0) + count a xs

-- How many of the dependencies are not finished.
abbrev pub missing : List String → List String → ℕ
missing done [] = 0
missing done (d ∷ ds) = (if contains done d then 0 else 1) + missing done ds

pub missing-nil : (ds : List String) → missing [] ds ≡ length ds
missing-nil [] = refl
missing-nil (d ∷ ds) = omega (arith, missing-nil ds)

-- An id that finishes is missed no more, as often as it was named.
pub missing-snoc :
    (done ds : List String) (a : String)
    → contains done a ≡ false
    → missing done ds ≡ missing (done ++ a ∷ []) ds + count a ds
missing-snoc done [] a fresh = omega arith
missing-snoc done (d ∷ ds) a fresh =
    ground
      (arith, missing-snoc done ds a fresh, contains-append done (a ∷ []) d, eq_iff a d, eq_iff d a)

pub missing-zero :
    (done ds : List String) → missing done ds ≡ 0 → all (λ d. contains done d) ds ≡ true
missing-zero done [] h = refl
missing-zero done (d ∷ ds) h = ground (arith, missing-zero done ds)

pub missing-ne-zero :
    (done ds : List String)
    → missing done ds ≢ 0
    → (d : String) × Mem d ds × (contains done d ≡ false)
missing-ne-zero done [] h = absurd (h refl)
missing-ne-zero done (d ∷ ds) h = elim (Bool-cases (contains done d)) [
  | inl there ↦
      let (e, m, open_e) = missing-ne-zero done ds (λ z. h (ground arith)) in
      (e, mem-cons_of_mem d m, open_e)
  | inr gone ↦ (d, mem-cons_self, gone)
]

-- The number of dependencies is set for every task of the graph.
pub indegrees-other :
    (ts : List Task) (m : String → ℕ) (i : String) → ¬ Mem i (ids ts) → indegrees m ts i ≡ m i
unfolding indegrees
indegrees-other [] m i n = refl
indegrees-other (t ∷ ts) m i n =
    indegrees-other ts (update m t.id (length t.dependencies)) i (λ h. n (mem-cons_of_mem t.id h))
    ∙ rw (beq_of_ne t.id i (λ e. n (rw e mem-cons_self)))

pub indegrees-lem :
    (ts : List Task) (m : String → ℕ)
    → Nodup (ids ts)
    → (s : Task) → Mem s ts
    → indegrees m ts s.id ≡ length s.dependencies
unfolding indegrees
indegrees-lem [] m n s mem = absurd (not-mem-nil mem)
indegrees-lem (t ∷ ts) m n s mem =
    Or.elim (ℕ_set _ _) (mem-cons.0 mem)
      (λ same. rw same (indegrees-other ts _ t.id (Nodup-cons.0 n).0 ∙ rw (beq_refl t.id)))
      (indegrees-lem ts _ (Nodup-cons.0 n).1 s)

count-ids-snoc :
    (ts : List Task) (t : Task) (a : String)
    → count a (ids (ts ++ t ∷ [])) ≡ count a (ids ts) + (if t.id == a then 1 else 0)
count-ids-snoc [] t a = ground arith
count-ids-snoc (s ∷ ts) t a = omega (arith, count-ids-snoc ts t a)

-- Who depends on `x`: each task as often as it names `x`.
add_dependent-count :
    (t : Task) (ds : List String) (m : String → List Task) (x a : String)
    → count a (ids (add_dependent t ds m x))
      ≡ count a (ids (m x)) + (if t.id == a then count x ds else 0)
unfolding add_dependent
add_dependent-count t [] m x a = ground arith
add_dependent-count t (d ∷ ds) m x a =
    let ih = add_dependent-count t ds (update m d (m d ++ t ∷ [])) x a in
    elim (Eq-cases d x) [
      | inl (same, hit) ↦
          let here : count a (ids (update m d (m d ++ t ∷ []) x))
              ≡ count a (ids (m d)) + (if t.id == a then 1 else 0) =
            rw hit (count-ids-snoc (m d) t a) in
          ground (arith, ih, here, ap (λ y. count a (ids (m y))) same, hit)
      | inr (_, other) ↦
          let here : count a (ids (update m d (m d ++ t ∷ []) x)) ≡ count a (ids (m x)) =
            rw other in
          ground (arith, ih, here, other)
    ]

count-absent : (a : String) (xs : List String) → ¬ Mem a xs → count a xs ≡ 0
count-absent a [] n = refl
count-absent a (x ∷ xs) n =
    rw (beq_of_ne x a (λ e. n (rw e mem-cons_self)))
      (omega (arith, count-absent a xs (λ m. n (mem-cons_of_mem x m))))

pub count_mem : (a : String) (xs : List String) → Mem a xs → 1 ≤ count a xs
count_mem a [] m = absurd (not-mem-nil m)
count_mem a (x ∷ xs) m =
    Or.elim le_prop (mem-cons.0 m) (λ same. rw (same, beq_refl x) (omega arith))
      (λ later. omega (arith, count_mem a xs later))

dependents_of-other :
    (ts : List Task) (m : String → List Task) (x a : String)
    → ¬ Mem a (ids ts)
    → count a (ids (dependents_of m ts x)) ≡ count a (ids (m x))
unfolding dependents_of
dependents_of-other [] m x a n = refl
dependents_of-other (t ∷ ts) m x a n =
    let apart = beq_of_ne t.id a (λ e. n (rw e mem-cons_self)) in
    dependents_of-other ts (add_dependent t t.dependencies m) x a (λ h. n (mem-cons_of_mem t.id h))
    ∙ ground (arith, add_dependent-count t t.dependencies m x a, apart)

pub dependents_of-lem :
    (ts : List Task) (m : String → List Task) (x : String)
    → Nodup (ids ts)
    → (s : Task) → Mem s ts
    → count s.id (ids (dependents_of m ts x)) ≡ count s.id (ids (m x)) + count x s.dependencies
unfolding dependents_of
dependents_of-lem [] m x n s mem = absurd (not-mem-nil mem)
dependents_of-lem (t ∷ ts) m x n s mem =
    let (fresh, rest) = Nodup-cons.0 n in
    Or.elim (ℕ_set _ _) (mem-cons.0 mem)
      (λ same. rw same (
        dependents_of-other ts _ x t.id fresh
        ∙ ground (arith, add_dependent-count t t.dependencies m x t.id, beq_refl t.id)))
      λ later.
        let apart =
          beq_of_ne t.id s.id (λ e. fresh (rw e (mem-map_of_mem (λ (u : Task). u.id) later))) in
        dependents_of-lem ts (add_dependent t t.dependencies m) x rest s later
        ∙ ground (arith, add_dependent-count t t.dependencies m x s.id, apart)

add_dependent-known :
    (all_tasks : List Task) (t : Task) (ds : List String) (m : String → List Task)
    → Mem t all_tasks
    → ((x : String) → Subset (m x) all_tasks)
    → (x : String) → Subset (add_dependent t ds m x) all_tasks
unfolding add_dependent
add_dependent-known all_tasks t [] m known h x = h x
add_dependent-known all_tasks t (d ∷ ds) m known h x =
    add_dependent-known all_tasks t ds _ known
      (λ y.
        if_ind (λ l. Subset l all_tasks) (d == y)
          (λ _ a mem. Or.elim Mem-prop (mem-append.0 mem) (h d a) (λ last.
            Or.elim Mem-prop (mem-cons.0 last) (λ same. rw same known)
              (λ none_left. absurd (not-mem-nil none_left))))
          (λ _. h y))
      x

-- The dependents of a task are tasks of the graph.
pub dependents_of-known :
    (all_tasks ts : List Task) (m : String → List Task)
    → Subset ts all_tasks
    → ((x : String) → Subset (m x) all_tasks)
    → (x : String) → Subset (dependents_of m ts x) all_tasks
unfolding dependents_of
dependents_of-known all_tasks [] m sub h x = h x
dependents_of-known all_tasks (t ∷ ts) m sub h x =
    dependents_of-known all_tasks ts _ (λ a mem. sub a (mem-cons_of_mem t mem))
      (add_dependent-known all_tasks t t.dependencies m (sub t mem-cons_self) h) x
