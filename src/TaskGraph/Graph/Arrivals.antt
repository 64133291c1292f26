-- ===== src/TaskGraph/Graph/Arrivals.antt =====
-- packages/task-graph/src/task-graph.ts: the tasks that `addTasks` appends, and the sorted list of
-- tasks.
use mathlib.Core.List.Perm
use mathlib.Core.List.{Nodup, Perm, append_assoc, append-nil, Nodup-cons, perm_append_singleton}
use ai_development_os.Prelude.{
  ℕ, ◌+◌, ◌≡◌, refl, subst, inl, inr, String, Bool, true, ◌&&◌, List, [], ◌∷◌, ◌++◌, ok, reject_if,
  reject_if-eq-ok, ◌==◌, string_eq, if_ind, all, contains, contains_of_mem, Bool-cases, arith,
  after_ok, after_check, ok-injective,
}
use ai_development_os.TaskGraph.Limits.{max_dependencies}
use ai_development_os.TaskGraph.Types.{
  Task, TaskDefinition, Timestamp, invalid_argument, cyclic_dependency, duplicate_task,
}
use ai_development_os.TaskGraph.Json.{clone_json_object}
use ai_development_os.TaskGraph.Parsing.{
  assert_identifier, assert_kind, normalize_required_text, normalize_optional_text,
  parse_unique_identifiers, parse_task_definition, list_or_nil, priority_or_zero, metadata_or_empty,
}
use ai_development_os.TaskGraph.Topology.Counting.{ids}
use ai_development_os.TaskGraph.Graph.{put_task, insert_by, sort_by}
use ai_development_os.TaskGraph.Graph.Snapshot.{is_untouched}
use ai_development_os.TaskGraph.Graph.Planning.{parse_definitions}
use ai_development_os.TaskGraph.Graph.Moves.{Moves}

abbrev pub all_untouched : List Task → Bool
all_untouched tasks = all is_untouched tasks

-- A task as `parseTaskDefinition` makes it.
abbrev pub IsNew : ℕ → Timestamp → Task → Type 0
IsNew order at t =
    (is_untouched t ≡ true) × (t.order ≡ order) × (t.created_at ≡ at) × (t.updated_at ≡ at)

pub parse_task_definition-IsNew :
    (d : TaskDefinition) (order : ℕ) (at : Timestamp) {t : Task}
    → parse_task_definition d order at ≡ ok t
    → IsNew order at t
unfolding parse_task_definition is_untouched
parse_task_definition-IsNew d order at h =
    after_ok (assert_identifier invalid_argument d.id) _ h λ id _ h1.
      after_ok
        (parse_unique_identifiers invalid_argument max_dependencies (list_or_nil d.dependencies)) _
        h1
        λ ds _ h2. after_check (reject_if (contains ds id) cyclic_dependency) _ h2 λ _ h3.
          after_ok (assert_kind invalid_argument d.kind) _ h3 λ kind _ h4.
            after_ok (normalize_required_text invalid_argument 300 d.title) _ h4 λ title _ h5.
              after_ok (normalize_optional_text invalid_argument 10000 d.description) _ h5
                λ description _ h6. after_ok (priority_or_zero d.priority) _ h6 λ priority _ h7.
                  after_ok (clone_json_object invalid_argument (metadata_or_empty d.metadata)) _ h7
                    λ metadata _ e. subst (IsNew order at) (ok-injective e) (refl, refl, refl, refl)

-- The parsed tasks are untouched, and their ids are new and distinct.
pub parse_definitions-Nodup :
    (known : List String) (order : ℕ) (at : Timestamp) (ds : List TaskDefinition)
    {parsed : List Task}
    → parse_definitions known order at ds ≡ ok parsed
    → Nodup known
    → Nodup (known ++ ids parsed) × (all_untouched parsed ≡ true)
unfolding parse_definitions
parse_definitions-Nodup known order at [] h nodup =
    subst (λ ps. Nodup (known ++ ids ps) × (all_untouched ps ≡ true)) (ok-injective h)
      (rw append-nil nodup, refl)
parse_definitions-Nodup known order at (d ∷ ds) h nodup =
    after_ok (parse_task_definition d order at) _ h λ t parsed_one h1.
      after_check (reject_if (contains known t.id) duplicate_task) _ h1 λ fresh h2.
        after_ok (parse_definitions (known ++ t.id ∷ []) (order + 1) at ds) _ h2
          λ rest parsed_rest e.
            let apart = reject_if-eq-ok (contains known t.id) duplicate_task fresh in
            let longer : Nodup (known ++ t.id ∷ []) =
              Perm.nodup (Perm.symm (perm_append_singleton t.id known))
                (Nodup-cons.1 (λ m. cc (contains_of_mem known t.id m, apart), nodup)) in
            let (distinct, waiting) =
              parse_definitions-Nodup (known ++ t.id ∷ []) (order + 1) at ds parsed_rest longer in
            subst (λ ps. Nodup (known ++ ids ps) × (all_untouched ps ≡ true)) (ok-injective e)
              (
                subst Nodup (append_assoc known (t.id ∷ []) (ids rest)) distinct,
                rw ((parse_task_definition-IsNew d order at parsed_one).0) waiting,
              )

pub Moves-append : (tasks more : List Task) → Moves tasks (tasks ++ more)
Moves-append [] more i = tt
Moves-append (t ∷ tasks) more i = elim (Bool-cases (t.id == i)) [
  | inl hit ↦ rw hit (record { same_id = refl; final = λ _. refl })
  | inr miss ↦ rw miss (Moves-append tasks more i)
]

pub all-put :
    (p : Task → Bool) (tasks : List Task) (t : Task)
    → all p tasks ≡ true
    → p t ≡ true
    → all p (put_task tasks t) ≡ true
all-put p [] t h new = refl
all-put p (s ∷ tasks) t h new =
    if_ind (λ u. (p u && all p (put_task tasks t)) ≡ true) (s.id == t.id)
      (λ _. rw new (all-put p tasks t (ground (arith, h)) new))
      (λ _. rw (all-put p tasks t (ground (arith, h)) new) (ground (arith, h)))

pub all-append :
    (p : Task → Bool) (xs ys : List Task)
    → all p xs ≡ true
    → all p ys ≡ true
    → all p (xs ++ ys) ≡ true
all-append p [] ys hx hy = hy
all-append p (x ∷ xs) ys hx hy = ground (arith, all-append p xs ys)

insert_by-perm :
    (precedes : Task → Task → Bool) (t : Task) (ts : List Task)
    → Perm (insert_by precedes t ts) (t ∷ ts)
insert_by-perm precedes t [] = Perm.rfl
insert_by-perm precedes t (s ∷ ts) =
    if_ind (λ l. Perm l (t ∷ s ∷ ts)) (precedes s t)
      (λ _. Perm.trans (Perm.cons s (insert_by-perm precedes t ts)) (Perm.swap t s ts))
      (λ _. Perm.rfl)

-- A sorted list holds what it held before.
pub sort_by-perm : (precedes : Task → Task → Bool) (ts : List Task) → Perm (sort_by precedes ts) ts
sort_by-perm precedes [] = Perm.rfl
sort_by-perm precedes (t ∷ ts) =
    Perm.trans (insert_by-perm precedes t (sort_by precedes ts))
      (Perm.cons t (sort_by-perm precedes ts))
