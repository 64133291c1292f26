-- ===== src/TaskGraph/Graph/Numbering.antt =====
-- packages/task-graph/src/task-graph.ts: the numbers of events and versions.
use mathlib.Core.List.{Nodup-nil}
use ai_development_os.Prelude.{
  ℕ, suc, ◌+◌, ◌≤◌, ◌≡◌, refl, sym, ◌∙◌, ap, subst, inl, inr, String, true, Option, List, [], ◌∷◌,
  ◌++◌, ok, or_fail, filter, length, ltb, Bool-cases, arith, after_ok, ok-injective,
}
use ai_development_os.TaskGraph.Types.{Event, Change, Timestamp, GraphStatus, invalid_argument}
use ai_development_os.TaskGraph.Parsing.{assert_identifier}
use ai_development_os.TaskGraph.Graph.{
  Graph, create, number_events, with_status_change, calculate_graph_status, commit,
}
use ai_development_os.TaskGraph.Graph.Machine.{Reachable, created, commanded}
use ai_development_os.TaskGraph.Graph.Shapes.{IsWellFormed, IsCommit}
use ai_development_os.TaskGraph.Graph.Steps.{IsStep, apply-IsStep, apply-IsWellFormed}

-- The events are numbered one by one, after `from` and up to `to`.
abbrev pub IsRun : ℕ → List Event → ℕ → Type 0
IsRun from [] to = from ≡ to
IsRun from (e ∷ es) to = (e.sequence ≡ suc from) × IsRun (suc from) es to

IsRun-append : (a b c : ℕ) (xs ys : List Event) → IsRun a xs b → IsRun b ys c → IsRun a (xs ++ ys) c
IsRun-append a b c [] ys f g = subst (λ m. IsRun m ys c) (sym f) g
IsRun-append a b c (x ∷ xs) ys f g = (f.0, IsRun-append (suc a) b c xs ys f.1 g)

IsRun-le : (a b : ℕ) (es : List Event) → IsRun a es b → a ≤ b
IsRun-le a b [] h = omega (arith, h)
IsRun-le a b (e ∷ es) h = omega (arith, IsRun-le (suc a) b es h.1)

abbrev unread : ℕ → List Event → List Event
unread n es = filter (λ e. ltb n e.sequence) es

unread-all : (n a b : ℕ) (es : List Event) → n ≤ a → IsRun a es b → unread n es ≡ es
unread-all n a b [] le h = refl
unread-all n a b (e ∷ es) le h =
    rw later (ap (λ l. e ∷ l) (unread-all n (suc a) b es (omega arith) h.1))
  where
    later : ltb n e.sequence ≡ true
    later = ground (arith, h.0)

-- What is left of a run after an acknowledgement is a run that ends where it ended.
unread-IsRun : (n a b : ℕ) (es : List Event) → IsRun a es b → (s : ℕ) × IsRun s (unread n es) b
unread-IsRun n a b [] h = (a, h)
unread-IsRun n a b (e ∷ es) h = elim (Bool-cases (ltb n e.sequence)) [
  | inl kept ↦ rw kept (
    a,
    (
      h.0,
      subst (λ l. IsRun (suc a) l b)
          (sym (unread-all n (suc a) b es (ground (arith, h.0, kept)) h.1)) h.1,
    ),
  )
  | inr dropped ↦ rw dropped (unread-IsRun n (suc a) b es h.1)
]

number_events-IsRun :
    (g : Graph) (at : Timestamp) (s i n : ℕ) (cs : List Change)
    → IsRun s (number_events g at s i n cs) (s + length cs)
unfolding number_events
number_events-IsRun g at s i n [] = omega arith
number_events-IsRun g at s i n (c ∷ cs) = (
  refl,
  subst (λ m. IsRun (suc s) (number_events g at (suc s) (suc i) n cs) m) (omega arith)
      (number_events-IsRun g at (suc s) (suc i) n cs),
)

-- The events that are not acknowledged are numbered up to the last one.
abbrev pub IsNumbered : Graph → Type 0
IsNumbered g = (s : ℕ) × IsRun s g.events g.event_sequence

abbrev pub Versioned : ℕ → List Event → Type 0
Versioned v [] = Unit
Versioned v (e ∷ es) = (e.aggregate_version ≡ v) × Versioned v es

number_events-Versioned :
    (g : Graph) (at : Timestamp) (s i n : ℕ) (cs : List Change)
    → Versioned g.version (number_events g at s i n cs)
unfolding number_events
number_events-Versioned g at s i n [] = tt
number_events-Versioned g at s i n (c ∷ cs) =
    (refl, number_events-Versioned g at (suc s) (suc i) n cs)

-- What a commit appends.
pub record Appends (g g' : Graph) : Type 0 where
  pub appended : List Event
  pub events : g'.events ≡ g.events ++ appended
  pub numbered : IsRun g.event_sequence appended g'.event_sequence
  pub versioned : Versioned (suc g.version) appended
  pub next_version : g'.version ≡ suc g.version

commit-Appends :
    (g : Graph) (at : Timestamp) (previous : GraphStatus) (pending : List Change)
    → Appends g (commit g at previous pending)
unfolding commit
commit-Appends g at previous pending =
    let moved : Graph = record g { version = suc g.version; updated_at = at } in
    let changes = with_status_change previous (calculate_graph_status moved) pending in
    record {
      appended = number_events moved at g.event_sequence 0 (length changes) changes;
      events = refl;
      numbered = number_events-IsRun moved at g.event_sequence 0 (length changes) changes;
      versioned = number_events-Versioned moved at g.event_sequence 0 (length changes) changes;
      next_version = refl;
    }

IsCommit-Appends : (g g' : Graph) → IsCommit g g' → Appends g g'
IsCommit-Appends g g' k =
    let a =
      subst (Appends k.base) (sym k.committed)
        (commit-Appends k.base k.timestamp k.previous k.pending) in
    record {
      appended = a.appended;
      events = a.events ∙ ap (λ es. es ++ a.appended) k.keeps.same_events;
      numbered = subst (λ s. IsRun s a.appended g'.event_sequence) k.keeps.same_sequence a.numbered;
      versioned = subst (λ v. Versioned (suc v) a.appended) k.keeps.same_version a.versioned;
      next_version = a.next_version ∙ ap suc k.keeps.same_version;
    }

IsStep-IsNumbered : (g g' : Graph) → IsStep g g' → IsNumbered g → IsNumbered g'
IsStep-IsNumbered g g' (inl k) (s, run) =
    let a = IsCommit-Appends g g' k in
    (
      s,
      subst (λ es. IsRun s es g'.event_sequence) (sym a.events)
          (IsRun-append s g.event_sequence g'.event_sequence g.events a.appended run a.numbered),
    )
IsStep-IsNumbered g g' (inr (inl (n, _, same))) (s, run) =
    subst IsNumbered (sym same) (unread-IsRun n s g.event_sequence g.events run)
IsStep-IsNumbered g g' (inr (inr same)) numbered = subst IsNumbered (sym same) numbered

created-lem :
    (graph_id project_id : String) (reading : Option Timestamp) {g : Graph}
    → create graph_id project_id reading ≡ ok g
    → IsWellFormed g × IsNumbered g
unfolding create
created-lem graph_id project_id reading h =
    after_ok (or_fail reading invalid_argument) _ h λ at _ h1.
      after_ok (assert_identifier invalid_argument graph_id) _ h1 λ gid _ h2.
        after_ok (assert_identifier invalid_argument project_id) _ h2 λ pid _ e.
          subst (λ x. IsWellFormed x × IsNumbered x) (ok-injective e)
            (record { distinct = Nodup-nil; untouched = λ _. refl }, (0, refl))

-- In every graph that `create` and the commands lead to, the ids of the tasks are distinct, the tasks
-- of a graph in planning are pending and have no blocker, output or failure, and the events that are
-- not acknowledged are numbered one by one up to the number that the graph counts.
pub Reachable-IsNumbered : (g : Graph) → Reachable g → IsWellFormed g × IsNumbered g
Reachable-IsNumbered g (created graph_id project_id reading h) =
    created-lem graph_id project_id reading h
Reachable-IsNumbered g (commanded {g = before} clock c r h) =
    let (formed, numbered) = Reachable-IsNumbered before r in
    (
      apply-IsWellFormed clock before c formed h,
      IsStep-IsNumbered before g (apply-IsStep clock before c formed h) numbered,
    )
