-- ===== src/TaskGraph/Graph/States.antt =====
-- packages/task-graph/src/task-graph.ts: what `validateHydratedTaskStates` asks of a task of a sealed
-- graph, and the tasks that a list of dependencies looks up.
use ai_development_os.Prelude.{
  ◌≡◌, refl, inl, inr, String, Bool, true, not, ◌&&◌, ◌||◌, Option, none, some, List, [], ◌∷◌, ◌==◌,
  string_eq, all, contains, Bool-cases, Option-cases, arith,
}
use ai_development_os.TaskGraph.Types.{Task, is_succeeded, is_unsuccessful}
use ai_development_os.TaskGraph.Graph.{get_task}
use ai_development_os.TaskGraph.Graph.Reconcile.{lookup_all, blockers}
use ai_development_os.TaskGraph.Graph.Snapshot.{
  needs_success, has_valid_blockers, has_valid_outcome, is_reconciled, is_consistent,
}

abbrev pub all_succeeded : List Task → Bool
all_succeeded tasks = all (λ d. is_succeeded d.status) tasks

-- All of it but that a pending task waits.
abbrev pub is_lasting : List Task → Task → Bool
is_lasting dependencies t =
    (not (needs_success t.status) || all_succeeded dependencies)
    && (has_valid_blockers (blockers dependencies) t && has_valid_outcome t)

pub is_consistent-of_is_lasting :
    (dependencies : List Task) (t : Task)
    → is_reconciled dependencies t ≡ true
    → is_lasting dependencies t ≡ true
    → is_consistent dependencies t ≡ true
unfolding is_consistent
is_consistent-of_is_lasting dependencies t waits lasts = ground arith

pub is_consistent-parts :
    (dependencies : List Task) (t : Task)
    → is_consistent dependencies t ≡ true
    → (is_reconciled dependencies t ≡ true) × (is_lasting dependencies t ≡ true)
unfolding is_consistent
is_consistent-parts dependencies t h = (ground arith, ground arith)

-- The tasks of a graph, each with the tasks that it depends on.
abbrev pub AreLasting : List Task → Type 0
AreLasting tasks =
    (i : String) (t : Task)
    → get_task tasks i ≡ some t
    → is_lasting (lookup_all tasks t.dependencies) t ≡ true

abbrev pub AreConsistent : List Task → Type 0
AreConsistent tasks =
    (i : String) (t : Task)
    → get_task tasks i ≡ some t
    → is_consistent (lookup_all tasks t.dependencies) t ≡ true

pub AreConsistent-AreLasting : (tasks : List Task) → AreConsistent tasks → AreLasting tasks
AreConsistent-AreLasting tasks h i t found =
    (is_consistent-parts (lookup_all tasks t.dependencies) t (h i t found)).1

abbrev pub found_before : Option Task → List Task → List Task
found_before none rest = rest
found_before (some t) rest = t ∷ rest

pub lookup_all-cons :
    (tasks : List Task) (d : String) (ds : List String)
    → lookup_all tasks (d ∷ ds) ≡ found_before (get_task tasks d) (lookup_all tasks ds)
unfolding lookup_all
lookup_all-cons tasks d ds = elim (Option-cases (get_task tasks d)) [
  | inl gone ↦ rw (gone, lookup_all) refl
  | inr (t, there) ↦ rw (there, lookup_all) refl
]

pub blockers-cons :
    (u : Task) (xs : List Task) (i : String)
    → contains (blockers (u ∷ xs)) i
      ≡ ((is_unsuccessful u.status && (u.id == i)) || contains (blockers xs) i)
blockers-cons u xs i = elim (Bool-cases (is_unsuccessful u.status)) [
  | inl stops ↦ rw stops (ground arith)
  | inr other ↦ rw other refl
]

pub all-more :
    (p q : String → Bool) (is : List String)
    → ((i : String) → p i ≡ true → q i ≡ true)
    → all p is ≡ true
    → all q is ≡ true
all-more p q [] more h = refl
all-more p q (i ∷ is) more h = ground (arith, more i, all-more p q is more)
