-- ===== src/TaskGraph/Graph/Filing.antt =====
-- packages/task-graph/src/task-graph.ts: `addTasks` and `addDependency` keep the numbers and times of the
-- tasks, and their dependencies, as the parser of snapshots checks them.
use mathlib.Core.List.{Nodup, map-append}
use ai_development_os.Prelude.{
  ℕ, suc, ◌+◌, ◌≤◌, ◌≡◌, refl, sym, ◌∙◌, ap, subst, inl, inr, String, true, false, ◌&&◌, List, [],
  ◌∷◌, ◌++◌, nat_beq, some, ok, guard, guard-eq-ok, reject_if, after_ok, after_check, ok-injective,
  mem-all, find?-mem, ◌==◌, Bool-cases, all, contains, contains-append, length, string_eq, arith,
}
use ai_development_os.Domain.Instants.{text_leb}
use ai_development_os.TaskGraph.Types.{
  Task, TaskDefinition, Timestamp, duplicate_task, unknown_task,
}
use ai_development_os.TaskGraph.Parsing.{parse_task_definition}
use ai_development_os.TaskGraph.Graph.{get_task, put_task}
use ai_development_os.TaskGraph.Graph.Planning.{added, parse_definitions, check_dependencies}
use ai_development_os.TaskGraph.Graph.Touched.{is_touched}
use ai_development_os.TaskGraph.Graph.Moves.{put-ids}
use ai_development_os.TaskGraph.Graph.States.{all-more}
use ai_development_os.TaskGraph.Graph.Arrivals.{all-put, all-append, parse_task_definition-IsNew}
use ai_development_os.TaskGraph.Topology.Counting.{ids}
use ai_development_os.TaskGraph.Graph.Snapshot.{is_contiguous}
use ai_development_os.TaskGraph.Graph.Keeping.{AllKept-refl, put-AllKept, Kept-now}
use ai_development_os.TaskGraph.Graph.Filed.{
  AllKept-dated, is_dated, is_known, AreFiled, AllKept-AreFiled,
}

put-contiguous :
    (tasks : List Task) (c t : Task) (n : ℕ)
    → c.id ≡ t.id
    → c.order ≡ t.order
    → is_contiguous n (put_task tasks c) ≡ is_contiguous n (put_task tasks t)
unfolding is_contiguous
put-contiguous [] c t n same order = refl
put-contiguous (s ∷ tasks) c t n same order =
    let ih = put-contiguous tasks c t (suc n) same order in
    elim (Bool-cases (s.id == t.id)) [
      | inl hit ↦
          rw (subst (λ j. (s.id == j) ≡ true) (sym same) hit, hit)
            (ap (λ b. nat_beq c.order n && b) ih
              ∙ ap (λ o. nat_beq o n && is_contiguous (suc n) (put_task tasks t)) order)
      | inr miss ↦
          rw (subst (λ j. (s.id == j) ≡ false) (sym same) miss, miss)
            (ap (λ b. nat_beq s.order n && b) ih)
    ]

put-length : (tasks : List Task) (c : Task) → length (put_task tasks c) ≡ length tasks
put-length [] c = refl
put-length (s ∷ tasks) c = ap suc (put-length tasks c)

known-snoc :
    (known ds : List String) (d : String)
    → all (λ i. contains known i) ds ≡ true
    → contains known d ≡ true
    → all (λ i. contains known i) (ds ++ d ∷ []) ≡ true
known-snoc known [] d h new = rw new refl
known-snoc known (e ∷ ds) d h new = ground (arith, h, known-snoc known ds d)

-- `addDependency`: a task gets one more dependency.
pub depend-AreFiled :
    (at start now : Timestamp) (next : ℕ) (tasks : List Task) (t : Task) (d : String)
    → text_leb now at ≡ true
    → Nodup (ids tasks)
    → get_task tasks t.id ≡ some t
    → contains (ids tasks) d ≡ true
    → AreFiled start now next tasks
    → AreFiled start at next
        (put_task tasks (record t { dependencies = t.dependencies ++ d ∷ []; updated_at = at }))
depend-AreFiled at start now next tasks t d later nodup found there f =
    let changed : Task = record t { dependencies = t.dependencies ++ d ∷ []; updated_at = at } in
    let dated_now : Task = record t { updated_at = at } in
    let moved =
      AllKept-AreFiled at start now next tasks (put_task tasks dated_now) later
        (put-AllKept at tasks dated_now t nodup found (Kept-now refl refl)) f in
    let member = find?-mem (λ u. u.id == t.id) tasks found in
    record {
      begun = moved.begun;
      contiguous = put-contiguous tasks changed dated_now 0 refl refl ∙ moved.contiguous;
      counted = f.counted ∙ sym (put-length tasks changed);
      dated =
          all-put (is_dated start at) tasks changed
            (AllKept-dated at start now later tasks tasks (AllKept-refl at tasks) f.dated)
            (ground (arith, later, mem-all (is_dated start now) tasks t member f.dated));
      known = rw (put-ids tasks changed) (
          all-put (is_known (ids tasks)) tasks changed f.known (
            known-snoc (ids tasks) t.dependencies d
              (mem-all (is_known (ids tasks)) tasks t member f.known) there));
    }

parse_definitions-filed :
    (known : List String) (order : ℕ) (start at : Timestamp) (ds : List TaskDefinition)
    {parsed : List Task}
    → text_leb start at ≡ true
    → parse_definitions known order at ds ≡ ok parsed
    → (is_contiguous order parsed ≡ true) × (all (is_dated start at) parsed ≡ true)
unfolding parse_definitions is_contiguous
parse_definitions-filed known order start at [] le h =
    subst (λ ps. (is_contiguous order ps ≡ true) × (all (is_dated start at) ps ≡ true))
      (ok-injective h) (refl, refl)
parse_definitions-filed known order start at (d ∷ ds) le h =
    after_ok (parse_task_definition d order at) _ h λ t parsed_one h1.
      after_check (reject_if (contains known t.id) duplicate_task) _ h1 λ fresh h2.
        after_ok (parse_definitions (known ++ t.id ∷ []) (order + 1) at ds) _ h2
          λ rest parsed_rest e.
            let (_, o, c, u) = parse_task_definition-IsNew d order at parsed_one in
            let (ih, ih') =
              parse_definitions-filed (known ++ t.id ∷ []) (order + 1) start at ds le parsed_rest in
            subst (λ ps. (is_contiguous order ps ≡ true) × (all (is_dated start at) ps ≡ true))
              (ok-injective e) (ground (arith, o, ih), ground (arith, le, c, u, ih'))

check_dependencies-known :
    (known : List String) (ts : List Task)
    → check_dependencies known ts ≡ ok tt
    → all (is_known known) ts ≡ true
unfolding check_dependencies
check_dependencies-known known [] h = refl
check_dependencies-known known (t ∷ ts) h =
    after_check (guard (all (λ d. contains known d) t.dependencies) unknown_task) _ h λ ok_one h1.
      ground (
        arith,
        guard-eq-ok (all (λ d. contains known d) t.dependencies) unknown_task ok_one,
        check_dependencies-known known ts h1,
      )

contiguous-append :
    (n : ℕ) (xs ys : List Task)
    → is_contiguous n xs ≡ true
    → is_contiguous (n + length xs) ys ≡ true
    → is_contiguous n (xs ++ ys) ≡ true
unfolding is_contiguous
contiguous-append n [] ys f g = subst (λ m. is_contiguous m ys ≡ true) (omega arith) g
contiguous-append n (x ∷ xs) ys f g = ground (
  arith,
  f,
  contiguous-append (suc n) xs ys (ground (arith, f))
      (subst (λ m. is_contiguous m ys ≡ true) (omega arith) g),
)

length-append : (xs ys : List Task) → length (xs ++ ys) ≡ length xs + length ys
length-append [] ys = omega arith
length-append (x ∷ xs) ys = omega (arith, length-append xs ys)

known-more :
    (known more : List String) (ts : List Task)
    → all (is_known known) ts ≡ true
    → all (is_known (known ++ more)) ts ≡ true
known-more known more [] h = refl
known-more known more (t ∷ ts) h = ground (
  arith,
  h,
  known-more known more ts,
  all-more (contains known) (contains (known ++ more)) t.dependencies
      (λ d there. rw (contains-append known more d) (rw there refl)),
)

-- `addTasks`: new tasks are appended.
pub append-AreFiled :
    (at start now : Timestamp) (next : ℕ) (tasks parsed : List Task) (known : List String)
    (ds : List TaskDefinition)
    → text_leb now at ≡ true
    → parse_definitions known next at ds ≡ ok parsed
    → check_dependencies (ids (tasks ++ parsed)) parsed ≡ ok tt
    → AreFiled start now next tasks
    → AreFiled start at (next + length parsed) (tasks ++ parsed)
append-AreFiled at start now next tasks parsed known ds later hp hc f =
    let (numbered, dated) =
      parse_definitions-filed known next start at ds (ground (arith, later, f.begun)) hp in
    record {
      begun = ground (arith, later, f.begun);
      contiguous =
          contiguous-append 0 tasks parsed f.contiguous
            (subst (λ m. is_contiguous m parsed ≡ true) (f.counted ∙ omega arith) numbered);
      counted = ap (λ m. m + length parsed) f.counted ∙ sym (length-append tasks parsed);
      dated =
          all-append (is_dated start at) tasks parsed
            (AllKept-dated at start now later tasks tasks (AllKept-refl at tasks) f.dated) dated;
      known =
          all-append (is_known (ids (tasks ++ parsed))) tasks parsed
            (subst (λ is. all (is_known is) tasks ≡ true)
              (sym (map-append (λ (t : Task). t.id) tasks parsed))
              (known-more (ids tasks) (ids parsed) tasks f.known))
            (check_dependencies-known (ids (tasks ++ parsed)) parsed hc);
    }

-- The new tasks are touched, and each of them is told.
pub parse_definitions-is_touched :
    (known : List String) (order : ℕ) (at : Timestamp) (ds : List TaskDefinition)
    {parsed : List Task}
    → parse_definitions known order at ds ≡ ok parsed
    → 1 ≤ length ds
    → is_touched at parsed ≡ true
unfolding parse_definitions
parse_definitions-is_touched known order at [] h some_one = absurd (omega (arith, some_one))
parse_definitions-is_touched known order at (d ∷ ds) h some_one =
    after_ok (parse_task_definition d order at) _ h λ t parsed_one h1.
      after_check (reject_if (contains known t.id) duplicate_task) _ h1 λ fresh h2.
        after_ok (parse_definitions (known ++ t.id ∷ []) (order + 1) at ds) _ h2
          λ rest parsed_rest e.
            let (_, _, _, now) = parse_task_definition-IsNew d order at parsed_one in
            subst (λ ps. is_touched at ps ≡ true) (ok-injective e) (ground (arith, now))

pub is_touched-append :
    (at : Timestamp) (tasks parsed : List Task)
    → is_touched at parsed ≡ true
    → is_touched at (tasks ++ parsed) ≡ true
is_touched-append at [] parsed h = h
is_touched-append at (t ∷ tasks) parsed h = ground (arith, is_touched-append at tasks parsed h)

pub is_touched-told :
    (at : Timestamp) (parsed : List Task) → is_touched at parsed ≡ true → 1 ≤ length (added parsed)
is_touched-told at [] h = absurd (cc h)
is_touched-told at (t ∷ parsed) h = omega arith
