-- ===== src/TaskGraph/Topology/Invariant.antt =====
-- What holds of the variables of the loop of `topologicalTaskIds` between two of its steps.
use mathlib.Core.Logic.Or
use mathlib.Core.List.Perm
use mathlib.Core.List.{
  Mem, Mem-prop, Nodup, Perm, Subset, Nodup-cons, mem-cons, mem-cons_self, mem-cons_of_mem,
}
use native.Mathlib.Nat.{ℕ_set}
use ai_development_os.Prelude.{
  nat_beq_iff, ok-injective, if_ind, subst, reject_if, ltb, ℕ, ◌+◌, ◌-◌, ◌≡◌, refl, ◌∙◌, ap, ◌≢◌,
  inl, inr, String, List, [], ◌∷◌, ◌++◌, ok, ◌==◌, string_eq, nat_eq, Eq-cases, beq_refl, arith,
  after_ok, after_check,
}
use ai_development_os.TaskGraph.Limits.{max_depth}
use ai_development_os.TaskGraph.Types.{Task, ErrorCode}
use ai_development_os.TaskGraph.Heap.{push}
use ai_development_os.TaskGraph.Heap.Contents.{push-perm}
use ai_development_os.TaskGraph.Topology.{
  Kahn, update, depth_or_one, visit_dependent, visit_dependents,
}
use ai_development_os.TaskGraph.Topology.Counting.{ids, count, missing}

-- Queued or ordered already.
abbrev pub placed : List Task → List String → List String
placed queue ordered = ids queue ++ ordered

-- `ds` are the dependents of the last task that are still to be visited.
pub record Inv (tasks ds : List Task) (indegree : String → ℕ) (queue : List Task)
    (ordered : List String) : Type 0 where
  pub counts :
      (t : Task)
      → Mem t tasks
      → indegree t.id ≡ missing ordered t.dependencies + count t.id (ids ds)
  pub free : (i : String) → Mem i (placed queue ordered) → indegree i ≡ 0
  pub distinct : Nodup (placed queue ordered)
  pub known : Subset queue tasks
  pub complete : (t : Task) → Mem t tasks → indegree t.id ≡ 0 → Mem t.id (placed queue ordered)

abbrev lowered : (String → ℕ) → Task → String → ℕ
lowered indegree d = update indegree d.id (indegree d.id - 1)

lowered-zero : (f : String → ℕ) (d : Task) (i : String) → f i ≡ 0 → lowered f d i ≡ 0
lowered-zero f d i z = elim (Eq-cases d.id i) [
  | inl (same, hit) ↦ rw hit (omega (arith, ap f same))
  | inr (_, other) ↦ rw other z
]

module _ {tasks ds : List Task} {f : String → ℕ} {q : List Task} {o : List String} (d : Task)
    (inv : Inv tasks (d ∷ ds) f q o) where
  lowered-counts :
      (t : Task) → Mem t tasks → lowered f d t.id ≡ missing o t.dependencies + count t.id (ids ds)
  lowered-counts t m = elim (Eq-cases d.id t.id) [
    | inl (same, hit) ↦ ground (arith, inv.counts t m, hit, ap f same)
    | inr (_, other) ↦ ground (arith, inv.counts t m, other)
  ]

  -- The count of the visited task reaches zero only where it stood at one.
  lowered-complete :
      (f d.id ≢ 1) → (t : Task) → Mem t tasks → lowered f d t.id ≡ 0 → Mem t.id (placed q o)
  lowered-complete more t m z = elim (Eq-cases d.id t.id) [
    | inl (same, hit) ↦ absurd (more (ground (arith, inv.counts t m, hit, ap f same)))
    | inr (_, other) ↦ inv.complete t m (rw other at z)
  ]

  pub visit-Inv-more : f d.id ≢ 1 → Inv tasks ds (lowered f d) q o
  visit-Inv-more more = record {
    counts = lowered-counts;
    free = λ i m. lowered-zero f d i (inv.free i m);
    distinct = inv.distinct;
    known = inv.known;
    complete = lowered-complete more;
  }

  placed-push : Perm (placed (push q d) o) (d.id ∷ placed q o)
  placed-push = Perm.append_right o (Perm.map (λ (t : Task). t.id) (push-perm q d))

  pub visit-Inv-one : Mem d tasks → f d.id ≡ 1 → Inv tasks ds (lowered f d) (push q d) o
  visit-Inv-one known one = record {
    counts = lowered-counts;
    free = λ i m.
        Or.elim (ℕ_set _ _) (mem-cons.0 (Perm.subset placed-push i m))
          (λ same. rw (same, beq_refl d.id) (omega arith))
          (λ there. lowered-zero f d i (inv.free i there));
    distinct =
        Perm.nodup (Perm.symm placed-push)
          (Nodup-cons.1 (λ there. absurd (omega (arith, inv.free d.id there)), inv.distinct));
    known = λ t m.
        Or.elim Mem-prop (mem-cons.0 (Perm.subset (push-perm q d) t m)) (λ same. rw same known)
          (inv.known t);
    complete = λ t m z. Perm.subset (Perm.symm placed-push) t.id (elim (Eq-cases d.id t.id) [
      | inl (same, _) ↦ rw same mem-cons_self
      | inr (_, other) ↦ mem-cons_of_mem d.id (inv.complete t m (rw other at z))
    ]);
  }

-- The invariant for the record of the loop.
abbrev pub KahnInv : List Task → List Task → Kahn → Type 0
KahnInv tasks ds k = Inv tasks ds k.indegree k.queue k.ordered

pub visit_dependent-Inv :
    (tasks ds : List Task) (code : ErrorCode) (id : String) (d : Task) (k : Kahn) {k' : Kahn}
    → KahnInv tasks (d ∷ ds) k
    → Mem d tasks
    → visit_dependent code id d k ≡ ok k'
    → KahnInv tasks ds k' × (k'.ordered ≡ k.ordered)
unfolding visit_dependent
visit_dependent-Inv tasks ds code id d k inv known h =
    after_check (reject_if (ltb max_depth (depth_or_one (k.depths id) + 1)) code) _ h λ _ e.
      subst (λ next. KahnInv tasks ds next × (next.ordered ≡ k.ordered)) (ok-injective e)
        (
          if_ind (λ q. Inv tasks ds (lowered k.indegree d) q k.ordered) (k.indegree d.id == 1)
              (λ hit. visit-Inv-one d inv known ((nat_beq_iff _ _).0 hit))
              (λ miss. visit-Inv-more d inv (λ one. cc ((nat_beq_iff _ _).1 one, miss))),
          refl,
        )

-- All the dependents of a task visited.
pub visit_dependents-Inv :
    (tasks ds : List Task) (code : ErrorCode) (id : String) (k : Kahn) {k' : Kahn}
    → KahnInv tasks ds k
    → Subset ds tasks
    → visit_dependents code id ds k ≡ ok k'
    → KahnInv tasks [] k' × (k'.ordered ≡ k.ordered)
unfolding visit_dependents
visit_dependents-Inv tasks [] code id k inv known h =
    subst (λ next. KahnInv tasks [] next × (next.ordered ≡ k.ordered)) (ok-injective h) (inv, refl)
visit_dependents-Inv tasks (d ∷ ds) code id k inv known h =
    after_ok (visit_dependent code id d k) _ h λ next e rest.
      let (inv', same) = visit_dependent-Inv tasks ds code id d k inv (known d mem-cons_self) e in
      let (last, same') =
        visit_dependents-Inv tasks ds code id next inv' (λ t m. known t (mem-cons_of_mem d m))
          rest in
      (last, same' ∙ same)
