-- ===== src/TaskGraph/Graph/Steps.antt =====
-- packages/task-graph/src/task-graph.ts: what one call of a method does to the graph.
use ai_development_os.Prelude.{
  ℕ, ◌≤◌, ◌≡◌, refl, true, sym, ap, subst, ◌⊎◌, inl, inr, ok, filter, ltb, arith, after_ok,
  after_check, ok-injective,
}
use ai_development_os.TaskGraph.Types.{
  TaskStatus, Event, invalid_argument, is_ready, is_running, running, waiting, needs_resolution,
}
use ai_development_os.TaskGraph.Parsing.{assert_integer}
use ai_development_os.TaskGraph.Graph.{
  Graph, Clock, assert_not_reentrant_mutation, acknowledge_events, commit,
}
use ai_development_os.TaskGraph.Graph.Execution.{is_paused}
use ai_development_os.TaskGraph.Graph.Machine.{
  Command, add, depend, close, start, wait, escalate, resume, succeed, fail, cancel, cancel_rest,
  acknowledge, graph_of, apply,
}
use ai_development_os.TaskGraph.Graph.Moves.{Moves, Moves-refl}
use ai_development_os.TaskGraph.Graph.Orders.{AreOrderable}
use ai_development_os.TaskGraph.Graph.Shapes.{
  IsWellFormed, IsCommit, IsValid, IsFiled, is_going, after_graph, perform_transition-IsCommit,
}
use ai_development_os.TaskGraph.Graph.Commits.{
  succeed_task-IsCommit, fail_task-IsCommit, cancel_task-IsCommit, cancel_remaining-IsCommit,
}
use ai_development_os.TaskGraph.Graph.PlanningCommits.{
  seal-IsCommit, add_tasks-IsCommit, add_dependency-IsCommit,
}

-- The graph after events are acknowledged.
abbrev pub acknowledged : Graph → ℕ → Graph
acknowledged g through = record g {
  events = filter (λ (e : Event). ltb through e.sequence) g.events;
}

is_running-is_going : (s : TaskStatus) → is_running s ≡ true → is_going s ≡ true
is_running-is_going s h = ground (arith, h)

is_ready-is_going : (s : TaskStatus) → is_ready s ≡ true → is_going s ≡ true
is_ready-is_going s h = ground (arith, h)

is_paused-is_going : (s : TaskStatus) → is_paused s ≡ true → is_going s ≡ true
is_paused-is_going s h = ground (arith, h)

-- A call that succeeds commits once, acknowledges events, or changes nothing.
abbrev pub IsStep : Graph → Graph → Type 0
IsStep g g' =
    IsCommit g g' ⊎ (((n : ℕ) × (n ≤ g.event_sequence) × (g' ≡ acknowledged g n)) ⊎ (g' ≡ g))

acknowledge_events-eq-ok :
    (g : Graph) (n : ℕ) {g' : Graph}
    → graph_of (acknowledge_events g n) ≡ ok g'
    → (m : ℕ) × (m ≤ g.event_sequence) × (g' ≡ acknowledged g m)
unfolding acknowledge_events assert_integer
acknowledge_events-eq-ok g n h = after_graph (acknowledge_events g n) h λ a h0.
    after_check (assert_not_reentrant_mutation g) _ h0 λ _ h1.
      after_ok (assert_integer invalid_argument 0 g.event_sequence n) _ h1
        λ m checked e. (m, ground (arith, checked), sym (ap (λ pair. pair.0) (ok-injective e)))

pub apply-IsStep :
    (clock : Clock) (g : Graph) (c : Command) {g' : Graph}
    → IsWellFormed g
    → apply clock g c ≡ ok g'
    → IsStep g g'
unfolding apply
apply-IsStep clock g (add ds v) w h = inl (add_tasks-IsCommit clock g w ds v h)
apply-IsStep clock g (depend t d v) w h = inl (add_dependency-IsCommit clock g w t d v h)
apply-IsStep clock g (close v) w h = inl (seal-IsCommit clock g w v h)
apply-IsStep clock g (start t o) w h =
    inl (perform_transition-IsCommit clock g w t is_ready running o is_ready-is_going refl h)
apply-IsStep clock g (wait t o) w h =
    inl (perform_transition-IsCommit clock g w t is_running waiting o is_running-is_going refl h)
apply-IsStep clock g (escalate t o) w h = inl (
    perform_transition-IsCommit clock g w t is_running needs_resolution o is_running-is_going refl
      h)
apply-IsStep clock g (resume t o) w h =
    inl (perform_transition-IsCommit clock g w t is_paused running o is_paused-is_going refl h)
apply-IsStep clock g (succeed t outputs o) w h = inl (succeed_task-IsCommit clock g w t outputs o h)
apply-IsStep clock g (fail t failure o) w h = inl (fail_task-IsCommit clock g w t failure o h)
apply-IsStep clock g (cancel t o) w h = inl (cancel_task-IsCommit clock g w t o h)
apply-IsStep clock g (cancel_rest o) w h = elim (cancel_remaining-IsCommit clock g w o h) [
  | inl same ↦ inr (inr same)
  | inr committed ↦ inl committed
]
apply-IsStep clock g (acknowledge n) w h = inr (inl (acknowledge_events-eq-ok g n h))

-- What a call keeps: what each of the three keeps.
pub apply-keeps :
    (P : Graph → Type 0) (clock : Clock) (g : Graph) (c : Command) {g' : Graph}
    → IsWellFormed g
    → ((k : IsCommit g g') → P (commit k.base k.timestamp k.previous k.pending))
    → ((n : ℕ) → P (acknowledged g n))
    → P g
    → apply clock g c ≡ ok g'
    → P g'
apply-keeps P clock g c w committed read before h = elim (apply-IsStep clock g c w h) [
  | inl k ↦ subst P (sym k.committed) (committed k)
  | inr (inl (n, _, same)) ↦ subst P (sym same) (read n)
  | inr (inr same) ↦ subst P (sym same) before
]

-- No call removes a task, and a task that has succeeded, failed, been cancelled or been blocked is
-- never changed again. The graph is well formed.
pub apply-Moves :
    (clock : Clock) (g : Graph) (c : Command) {g' : Graph}
    → IsWellFormed g
    → apply clock g c ≡ ok g'
    → Moves g.tasks g'.tasks
unfolding commit
apply-Moves clock g c w =
    apply-keeps (λ x. Moves g.tasks x.tasks) clock g c w (λ k. k.moves) (λ n. Moves-refl g.tasks)
      (Moves-refl g.tasks)

pub apply-IsWellFormed :
    (clock : Clock) (g : Graph) (c : Command) {g' : Graph}
    → IsWellFormed g
    → apply clock g c ≡ ok g'
    → IsWellFormed g'
unfolding commit
apply-IsWellFormed clock g c w =
    apply-keeps IsWellFormed clock g c w
      (λ k. record { distinct = k.formed.distinct; untouched = k.formed.untouched })
      (λ n. record { distinct = w.distinct; untouched = w.untouched }) w

pub apply-IsValid :
    (clock : Clock) (g : Graph) (c : Command) {g' : Graph}
    → IsWellFormed g
    → IsValid g
    → apply clock g c ≡ ok g'
    → IsValid g'
unfolding commit
apply-IsValid clock g c w valid =
    apply-keeps IsValid clock g c w (λ k. k.valid valid) (λ n. valid) valid

pub apply-IsFiled :
    (clock : Clock) (g : Graph) (c : Command) {g' : Graph}
    → IsWellFormed g
    → IsFiled g
    → apply clock g c ≡ ok g'
    → IsFiled g'
unfolding commit
apply-IsFiled clock g c w filed =
    apply-keeps IsFiled clock g c w (λ k. k.filed filed) (λ n. filed) filed

pub apply-AreOrderable :
    (clock : Clock) (g : Graph) (c : Command) {g' : Graph}
    → IsWellFormed g
    → AreOrderable g.tasks
    → apply clock g c ≡ ok g'
    → AreOrderable g'.tasks
unfolding commit
apply-AreOrderable clock g c w before =
    apply-keeps (λ x. AreOrderable x.tasks) clock g c w (λ k. k.orderable before) (λ n. before)
      before
