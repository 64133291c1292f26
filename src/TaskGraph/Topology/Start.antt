-- ===== src/TaskGraph/Topology/Start.antt =====
-- The variables of `topologicalTaskIds` before its loop: the free tasks are queued.
use mathlib.Core.List.Perm
use mathlib.Core.List.{
  Nodup, Perm, Subset, Nodup-cons, mem-map_of_mem, append-nil, perm_middle, not-mem-nil,
  exists_of_mem-map,
}
use mathlib.Core.Logic.{∥∥₁_elim}
use mathlib.Core.HLevel.{⊥_prop}
use native.Mathlib.Nat.{ℕ_set}
use ai_development_os.Prelude.{
  ℕ, ◌≡◌, refl, sym, ◌∙◌, ap, inl, inr, String, some, none, Bool, List, [], ◌∷◌, ◌++◌, ◌==◌,
  string_eq, nat_eq, if_ind, filter, mem-filter, mem-filter_of_mem, nat_beq_iff, arith, Bool-cases,
}
use ai_development_os.TaskGraph.Types.{Task}
use ai_development_os.TaskGraph.Heap.{push}
use ai_development_os.TaskGraph.Heap.Contents.{push-perm}
use ai_development_os.TaskGraph.Topology.{Kahn, update, indegrees, enqueue_free, start_of}
use ai_development_os.TaskGraph.Topology.Counting.{ids, missing-nil, indegrees-lem}
use ai_development_os.TaskGraph.Topology.Drain.{Round}

abbrev is_free : (String → ℕ) → Task → Bool
is_free f t = f t.id == 0

-- The second loop queues the free tasks and changes nothing else that the order depends on.
enqueue_free-lem :
    (k : Kahn) (ts : List Task)
    → Perm (enqueue_free k ts).queue (filter (is_free k.indegree) ts ++ k.queue)
      × ((enqueue_free k ts).indegree ≡ k.indegree)
      × ((enqueue_free k ts).ordered ≡ k.ordered)
unfolding enqueue_free
enqueue_free-lem k [] = (Perm.rfl, refl, refl)
enqueue_free-lem k (t ∷ ts) = elim (Bool-cases (is_free k.indegree t)) [
  | inl yes_free ↦
      let freed : Kahn = record k {
        depths = update k.depths t.id (some 1);
        queue = push k.queue t;
      } in
      let (perm, same, kept) = enqueue_free-lem freed ts in
      rw (yes_free, enqueue_free)
        (
          Perm.trans perm (
              Perm.trans (Perm.append_left (filter (is_free k.indegree) ts) (push-perm k.queue t))
                (perm_middle (filter (is_free k.indegree) ts) k.queue)),
          same,
          kept,
        )
  | inr not_free ↦ rw (not_free, enqueue_free) (enqueue_free-lem k ts)
]

pub Nodup-filter : (p : Task → Bool) (ts : List Task) → Nodup (ids ts) → Nodup (ids (filter p ts))
Nodup-filter p [] n = n
Nodup-filter p (t ∷ ts) n =
    let (fresh, rest) = Nodup-cons.0 n in
    if_ind (λ l. Nodup (ids l)) (p t)
      (λ _. Nodup-cons.1 (
        λ m. ∥∥₁_elim (exists_of_mem-map m) ⊥_prop (λ (s, there, same).
            fresh (rw (← same) (mem-map_of_mem (λ (u : Task). u.id) (mem-filter p ts s there).0))),
        Nodup-filter p ts rest,
      ))
      (λ _. Nodup-filter p ts rest)

pub start_of-ordered : (tasks : List Task) → (start_of tasks).ordered ≡ []
unfolding start_of
start_of-ordered tasks =
    (enqueue_free-lem
      (record { indegree = indegrees (λ _. 0) tasks; depths = λ _. none; queue = []; ordered = [] })
      tasks).2

-- Before the loop nothing is ordered, and exactly the tasks with no dependency are queued.
pub start-Round : (tasks : List Task) → Nodup (ids tasks) → Round tasks (start_of tasks)
unfolding start_of
start-Round tasks nodup = record {
  inv = record {
    counts = λ t m.
        rw (same, kept)
          (indegrees-lem tasks (λ _. 0) nodup t m ∙ sym (missing-nil t.dependencies) ∙ omega arith);
    free = λ i m.
        ∥∥₁_elim (exists_of_mem-map (rw (kept, append-nil) at m)) (ℕ_set _ _) (λ (t, there, at_i).
          rw (same, ← at_i)
            ((nat_beq_iff (f t.id) 0).0 (mem-filter (is_free f) tasks t (queued t there)).1));
    distinct =
        rw (kept, append-nil)
          (Perm.nodup (Perm.map (λ (t : Task). t.id) (Perm.symm perm))
            (Nodup-filter (is_free f) tasks nodup));
    known = λ t m. (mem-filter (is_free f) tasks t (queued t m)).0;
    complete = λ t m z.
        rw (kept, append-nil)
          (mem-map_of_mem (λ (u : Task). u.id)
            (Perm.subset (Perm.symm perm) t (
              mem-filter_of_mem (is_free f) tasks t m
                ((nat_beq_iff (f t.id) 0).1 (ap (λ (g : String → ℕ). g t.id) (sym same) ∙ z)))));
  };
  in_order = rw kept tt;
  listed = rw kept (λ i m. absurd (not-mem-nil m));
}
  where
    f : String → ℕ
    f = indegrees (λ _. 0) tasks

    k : Kahn
    k = record { indegree = f; depths = λ _. none; queue = []; ordered = [] }

    same : (enqueue_free k tasks).indegree ≡ f
    same = (enqueue_free-lem k tasks).1

    kept : (enqueue_free k tasks).ordered ≡ []
    kept = (enqueue_free-lem k tasks).2

    perm : Perm (enqueue_free k tasks).queue (filter (is_free f) tasks)
    perm = rw append-nil at ((enqueue_free-lem k tasks).0)

    queued : Subset (enqueue_free k tasks).queue (filter (is_free f) tasks)
    queued = Perm.subset perm
