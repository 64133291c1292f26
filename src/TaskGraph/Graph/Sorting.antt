-- ===== src/TaskGraph/Graph/Sorting.antt =====
-- packages/task-graph/src/task-graph.ts: sorting the tasks changes no lookup.
use mathlib.Core.List.Perm
use mathlib.Core.List.{Mem, Nodup, Nodup-cons, mem-cons_self, mem-cons_of_mem}
use ai_development_os.Prelude.{
  ◌≡◌, refl, sym, ◌∙◌, ap, inl, inr, String, Bool, some, List, [], ◌∷◌, ◌==◌, string_eq, Eq-cases,
  if_ind, if◌then◌else◌, beq_refl, beq_of_ne, filter,
}
use ai_development_os.TaskGraph.Types.{Task}
use ai_development_os.TaskGraph.Topology.Counting.{ids}
use ai_development_os.TaskGraph.Graph.{get_task, insert_by, sort_by, order_precedes}
use ai_development_os.TaskGraph.Graph.Arrivals.{sort_by-perm}
use ai_development_os.TaskGraph.Graph.Keeping.{AllFound}

-- Sorting tasks of distinct ids changes no lookup.
get_task-insert :
    (t : Task) (ts : List Task) (i : String)
    → Nodup (ids (t ∷ ts))
    → get_task (insert_by order_precedes t ts) i ≡ get_task (t ∷ ts) i
get_task-insert t [] i nodup = refl
get_task-insert t (s ∷ ts) i nodup =
    let (fresh, rest) = Nodup-cons.0 nodup in
    let (_, rest') = Nodup-cons.0 rest in
    let ih = get_task-insert t ts i (Nodup-cons.1 (λ m. fresh (mem-cons_of_mem s.id m), rest')) in
    if_ind (λ l. get_task l i ≡ get_task (t ∷ s ∷ ts) i) (order_precedes s t)
      (λ _. elim (Eq-cases s.id i) [
        | inl (same, hit) ↦
            rw (hit, beq_of_ne t.id i (λ e. fresh (rw (e ∙ sym same) mem-cons_self))) refl
        | inr (_, miss) ↦ rw miss ih
      ])
      (λ _. refl)

get_task-sort :
    (tasks : List Task) (i : String)
    → Nodup (ids tasks)
    → get_task (sort_by order_precedes tasks) i ≡ get_task tasks i
get_task-sort [] i nodup = refl
get_task-sort (t ∷ ts) i nodup =
    let (_, rest) = Nodup-cons.0 nodup in
    get_task-insert t (sort_by order_precedes ts) i (
      Perm.nodup
        (Perm.symm (Perm.map (λ (u : Task). u.id) (Perm.cons t (sort_by-perm order_precedes ts))))
        nodup)
    ∙ ap (λ o. if t.id == i then some t else o) (get_task-sort ts i rest)

AllFound-cons :
    (s : Task) (tasks ts : List Task)
    → ¬ Mem s.id (ids ts)
    → AllFound tasks ts
    → AllFound (s ∷ tasks) ts
AllFound-cons s tasks [] fresh found = tt
AllFound-cons s tasks (t ∷ ts) fresh found = (
  rw (beq_of_ne s.id t.id (λ e. fresh (rw e mem-cons_self))) found.0,
  AllFound-cons s tasks ts (λ m. fresh (mem-cons_of_mem t.id m)) found.1,
)

AllFound-refl : (tasks : List Task) → Nodup (ids tasks) → AllFound tasks tasks
AllFound-refl [] nodup = tt
AllFound-refl (t ∷ tasks) nodup =
    let (fresh, rest) = Nodup-cons.0 nodup in
    (rw (beq_refl t.id) refl, AllFound-cons t tasks tasks fresh (AllFound-refl tasks rest))

AllFound-same :
    (xs ys ts : List Task)
    → ((i : String) → get_task xs i ≡ get_task ys i)
    → AllFound xs ts
    → AllFound ys ts
AllFound-same xs ys [] same found = tt
AllFound-same xs ys (t ∷ ts) same found =
    (sym (same t.id) ∙ found.0, AllFound-same xs ys ts same found.1)

AllFound-filter :
    (p : Task → Bool) (tasks ts : List Task) → AllFound tasks ts → AllFound tasks (filter p ts)
AllFound-filter p tasks [] found = tt
AllFound-filter p tasks (t ∷ ts) found =
    if_ind (AllFound tasks) (p t) (λ _. (found.0, AllFound-filter p tasks ts found.1))
      (λ _. AllFound-filter p tasks ts found.1)

-- A part of the sorted tasks is found among the tasks.
pub AllFound-sort :
    (p : Task → Bool) (tasks : List Task)
    → Nodup (ids tasks)
    → AllFound tasks (filter p (sort_by order_precedes tasks))
AllFound-sort p tasks nodup = AllFound-filter p tasks (sort_by order_precedes tasks) (
    AllFound-same (sort_by order_precedes tasks) tasks (sort_by order_precedes tasks)
      (λ i. get_task-sort tasks i nodup)
      (AllFound-refl (sort_by order_precedes tasks) (
        Perm.nodup (Perm.symm (Perm.map (λ (u : Task). u.id) (sort_by-perm order_precedes tasks)))
          nodup)))
