-- ===== src/TaskGraph/Topology/Drain.antt =====
-- The `while` loop of `topologicalTaskIds`: each round takes out a task whose dependencies are all
-- ordered, and the rounds go on until nothing is free.
use mathlib.Core.Logic.Or
use mathlib.Core.List.Perm
use mathlib.Core.List.{
  Mem, Mem-prop, Nodup, Perm, Subset, Nodup-append, mem-append, mem-append_right, mem-cons,
  mem-cons_self, mem-map_of_mem, mem-cons_of_mem, append-nil, append_assoc, perm_append_singleton,
  not-mem-nil,
}
use ai_development_os.Prelude.{
  string_eq, ℕ, zero, suc, ◌+◌, ◌≤◌, ◌≡◌, sym, ap, subst, ◌⊎◌, inl, inr, String, true, false, some,
  List, [], ◌∷◌, ◌++◌, ok, length, length-append, all, contains, contains_of_not-mem, Option-cases,
  arith, after_ok, ok-injective,
}
use ai_development_os.TaskGraph.Types.{Task, ErrorCode}
use ai_development_os.TaskGraph.Heap.{pop}
use ai_development_os.TaskGraph.Heap.Contents.{pop-perm, pop-none}
use ai_development_os.TaskGraph.Topology.{
  Kahn, visit_dependents, dependents_of, no_dependents, drain,
}
use ai_development_os.TaskGraph.Topology.Counting.{
  ids, missing-snoc, missing-zero, dependents_of-lem, dependents_of-known,
}
use ai_development_os.TaskGraph.Topology.Invariant.{Inv, KahnInv, placed, visit_dependents-Inv}

-- What holds of each item of a list and those before it.
abbrev pub Along : (List String → String → Type 0) → List String → List String → Type 0
Along P before [] = Unit
Along P before (i ∷ rest) = P before i × Along P (before ++ i ∷ []) rest

pub Along-snoc :
    (P : List String → String → Type 0) (before xs : List String) (i : String)
    → Along P before xs
    → P (before ++ xs) i
    → Along P before (xs ++ i ∷ [])
Along-snoc P before [] i h last = (subst (λ b. P b i) (append-nil before) last, tt)
Along-snoc P before (x ∷ xs) i h last = (
  h.0,
  Along-snoc P (before ++ x ∷ []) xs i h.1
      (subst (λ b. P b i) (sym (append_assoc before (x ∷ []) xs)) last),
)

-- The dependencies of the task of this id are before it.
abbrev pub IsReady : List Task → List String → String → Type 0
IsReady tasks before i =
    (t : Task) → Mem t tasks → t.id ≡ i → all (λ d. contains before d) t.dependencies ≡ true

-- Each id of the list comes after all the dependencies of the task that it names.
abbrev pub IsOrdered : List Task → List String → List String → Type 0
IsOrdered tasks = Along (IsReady tasks)

-- The loop's own variables, between two rounds.
pub record Round (tasks : List Task) (k : Kahn) : Type 0 where
  pub inv : KahnInv tasks [] k
  pub in_order : IsOrdered tasks [] k.ordered
  pub listed : Subset k.ordered (ids tasks)

module _ {tasks : List Task} (nodup : Nodup (ids tasks)) {f : String → ℕ} {q rest : List Task}
    {o : List String} {x : Task} (inv : Inv tasks [] f q o) (popped : pop q ≡ some (x, rest)) where
  pub placed-pop : Perm (placed q o) (placed rest (o ++ x.id ∷ []))
  placed-pop =
      Perm.trans (Perm.append_right o (Perm.map (λ (t : Task). t.id) (pop-perm q x rest popped))) (
        rw (← append_assoc (ids rest) o (x.id ∷ []))
          (Perm.symm (perm_append_singleton x.id (ids rest ++ o))))

  pub popped-known : Mem x tasks
  popped-known = inv.known x (Perm.subset (Perm.symm (pop-perm q x rest popped)) x mem-cons_self)

  popped-free : f x.id ≡ 0
  popped-free = inv.free x.id (
      Perm.subset (Perm.symm placed-pop) x.id
        (mem-append_right (ids rest) (mem-append_right o mem-cons_self)))

  pub popped-fresh : contains o x.id ≡ false
  popped-fresh = contains_of_not-mem o x.id λ there.
      (Nodup-append.0 (Nodup-append.0 (Perm.nodup placed-pop inv.distinct)).1).2 x.id there
        mem-cons_self

  -- All that the task depends on is ordered.
  pub popped-ready :
      (t : Task) → Mem t tasks → t.id ≡ x.id → all (λ d. contains o d) t.dependencies ≡ true
  popped-ready t m same =
      missing-zero o t.dependencies (omega (arith, inv.counts t m, ap f same, popped-free))

  pub pop-Inv : Inv tasks (dependents_of no_dependents tasks x.id) f rest (o ++ x.id ∷ [])
  pop-Inv = record {
    counts = λ t m. omega (
      arith,
      inv.counts t m,
      missing-snoc o t.dependencies x.id popped-fresh,
      dependents_of-lem tasks no_dependents x.id nodup t m,
    );
    free = λ i m. inv.free i (Perm.subset (Perm.symm placed-pop) i m);
    distinct = Perm.nodup placed-pop inv.distinct;
    known = λ t m.
        inv.known t (Perm.subset (Perm.symm (pop-perm q x rest popped)) t (mem-cons_of_mem x m));
    complete = λ t m z. Perm.subset placed-pop t.id (inv.complete t m z);
  }

module _ (tasks : List Task) (nodup : Nodup (ids tasks)) (code : ErrorCode) where
  pub popped-Round :
      (k : Kahn) (x : Task) (rest : List Task) {next : Kahn}
      → Round tasks k
      → pop k.queue ≡ some (x, rest)
      → visit_dependents code x.id
          (dependents_of no_dependents tasks x.id)
          (record k { queue = rest; ordered = k.ordered ++ x.id ∷ [] })
        ≡ ok next
      → Round tasks next × (next.ordered ≡ k.ordered ++ x.id ∷ [])
  popped-Round k x rest round popped h =
      let dependents = dependents_of no_dependents tasks x.id in
      let popped_k : Kahn = record k { queue = rest; ordered = k.ordered ++ x.id ∷ [] } in
      let (inv, same) =
        visit_dependents-Inv tasks dependents code x.id popped_k (pop-Inv nodup round.inv popped)
          (dependents_of-known tasks tasks no_dependents (λ a m. m)
            (λ y a m. absurd (not-mem-nil m)) x.id)
          h in
      (
        record {
          inv = inv;
          in_order = rw same (
              Along-snoc (IsReady tasks) [] k.ordered x.id round.in_order
                (popped-ready nodup round.inv popped));
          listed = rw same λ i m. Or.elim Mem-prop (mem-append.0 m) (round.listed i) λ last.
              Or.elim Mem-prop (mem-cons.0 last)
                (λ e.
                  rw e (mem-map_of_mem (λ (t : Task). t.id) (popped-known nodup round.inv popped)))
                (λ none_left. absurd (not-mem-nil none_left));
        },
        same,
      )

  -- The loop keeps the invariant, and stops with nothing queued unless its rounds are used up.
  pub drain-Round :
      (fuel : ℕ) (k : Kahn) {k' : Kahn}
      → Round tasks k
      → drain code (dependents_of no_dependents tasks) fuel k ≡ ok k'
      → Round tasks k' × ((k'.queue ≡ []) ⊎ (fuel + length k.ordered ≤ length k'.ordered))
  unfolding drain
  drain-Round zero k round h =
      subst (λ e. Round tasks e × ((e.queue ≡ []) ⊎ (0 + length k.ordered ≤ length e.ordered)))
        (ok-injective h) (round, inr (omega arith))
  drain-Round (suc fuel) k {k'} round h = elim (Option-cases (pop k.queue)) [
    | inl empty ↦
        subst
          (λ e. Round tasks e × ((e.queue ≡ []) ⊎ (suc fuel + length k.ordered ≤ length e.ordered)))
          (ok-injective (rw (empty, drain) at h)) (round, inl (pop-none k.queue empty))
    | inr ((x, rest), popped) ↦
        after_ok (visit_dependents code x.id (dependents_of no_dependents tasks x.id) _) _
          (rw (popped, drain) at h)
          λ next visited rest_ok.
            let (round', same) = popped-Round k x rest round popped visited in
            let (final, ends) = drain-Round fuel next round' rest_ok in
            (
              final,
              elim ends [
                | inl empty ↦ inl empty
                | inr all_used ↦
                    inr (omega (arith, ap length same, length-append k.ordered (x.id ∷ [])))
              ],
            )
  ]
