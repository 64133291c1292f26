-- ===== src/TaskGraph/Graph/Refusals.antt =====
-- packages/task-graph/src/task-graph.ts: calls that are refused, from the clock's callback or for
-- another version of the graph.
use ai_development_os.Prelude.{
  ℕ, ◌-◌, ◌≡◌, sym, ◌∙◌, ap, String, Bool, true, Option, none, some, ok, err, guard-eq-ok,
  reject_if, leb, ltb, nat_beq, nat_beq_iff, arith, after_ok, after_check, ok-injective, subst,
  ◌||◌, Bool,
}
use ai_development_os.TaskGraph.Limits.{max_sequence}
use ai_development_os.TaskGraph.Types.{
  TaskStatus, is_ready, is_running, running, waiting, needs_resolution, reentrant_mutation,
  invalid_argument, concurrency_conflict,
}
use ai_development_os.TaskGraph.Parsing.{
  MutationOptions, assert_integer, normalize_optional_text, parse_expected_version,
  parse_mutation_options,
}
use ai_development_os.TaskGraph.Graph.{
  Graph, Clock, max_events_for_command, assert_not_reentrant_mutation, assert_planning,
  assert_execution, assert_expected_version, acknowledge_events,
}
use ai_development_os.TaskGraph.Graph.Planning.{begin_planning, add_tasks, add_dependency, seal}
use ai_development_os.TaskGraph.Graph.Execution.{
  is_paused, begin_execution, perform_transition, succeed_task, fail_task, cancel_task,
  cancel_remaining,
}
use ai_development_os.TaskGraph.Graph.Machine.{
  Command, add, depend, close, start, wait, escalate, resume, succeed, fail, cancel, cancel_rest,
  acknowledge, graph_of, apply,
}
use ai_development_os.TaskGraph.Graph.Shapes.{after_graph}

-- While the clock runs, every call that changes the graph is refused as reentrant.
apply-reentrant :
    (clock : Clock) (g : Graph) (c : Command)
    → g.clock_active ≡ true
    → apply clock g c ≡ err reentrant_mutation
unfolding apply add_tasks add_dependency seal begin_planning begin_execution perform_transition
    succeed_task fail_task cancel_task cancel_remaining acknowledge_events
    assert_not_reentrant_mutation
apply-reentrant clock g (add ds v) h = rw h
apply-reentrant clock g (depend t d v) h = rw h
apply-reentrant clock g (close v) h = rw h
apply-reentrant clock g (start t o) h = rw h
apply-reentrant clock g (wait t o) h = rw h
apply-reentrant clock g (escalate t o) h = rw h
apply-reentrant clock g (resume t o) h = rw h
apply-reentrant clock g (succeed t outputs o) h = rw h
apply-reentrant clock g (fail t failure o) h = rw h
apply-reentrant clock g (cancel t o) h = rw h
apply-reentrant clock g (cancel_rest o) h = rw h
apply-reentrant clock g (acknowledge n) h = rw h

-- The version that a call names.
abbrev pub named_version : Command → Option ℕ
named_version (add ds v) = v
named_version (depend t d v) = v
named_version (close v) = v
named_version (start t o) = o.expected_version
named_version (wait t o) = o.expected_version
named_version (escalate t o) = o.expected_version
named_version (resume t o) = o.expected_version
named_version (succeed t outputs o) = o.expected_version
named_version (fail t failure o) = o.expected_version
named_version (cancel t o) = o.expected_version
named_version (cancel_rest o) = o.expected_version
named_version (acknowledge n) = none

assert_integer-eq-ok :
    (least most v : ℕ) {w : ℕ} → assert_integer invalid_argument least most v ≡ ok w → w ≡ v
unfolding assert_integer
assert_integer-eq-ok least most v h = ground arith

assert_expected_version-eq-ok :
    (g : Graph) (v : ℕ) → assert_expected_version g (some v) ≡ ok tt → v ≡ g.version
unfolding assert_expected_version
assert_expected_version-eq-ok g v h =
    after_check
      (reject_if
        (leb max_sequence g.version || ltb (max_sequence - max_events_for_command) g.event_sequence)
        invalid_argument)
      _ h
      λ _ h1. after_ok (assert_integer invalid_argument 0 max_sequence v) _ h1 λ w checked h2.
        sym (assert_integer-eq-ok 0 max_sequence v checked)
        ∙ (nat_beq_iff w g.version).0 (guard-eq-ok (nat_beq w g.version) concurrency_conflict h2)

parse_expected_version-eq-ok :
    (expected : Option ℕ) (v : ℕ) {parsed : Option ℕ}
    → expected ≡ some v
    → parse_expected_version expected ≡ ok parsed
    → parsed ≡ some v
unfolding parse_expected_version
parse_expected_version-eq-ok expected v named h =
    after_ok (assert_integer invalid_argument 0 max_sequence v) _ (rw named at h) λ w checked e.
      sym (ok-injective e) ∙ ap (λ x. some x) (assert_integer-eq-ok 0 max_sequence v checked)

begin_planning-version :
    (g : Graph) (expected : Option ℕ) (v : ℕ)
    → expected ≡ some v
    → begin_planning g expected ≡ ok tt
    → v ≡ g.version
unfolding begin_planning
begin_planning-version g expected v named h =
    after_check (assert_not_reentrant_mutation g) _ h λ _ h1.
      after_check (assert_planning g) _ h1 λ _ h2.
        after_ok (parse_expected_version expected) _ h2 λ parsed e h3.
          assert_expected_version-eq-ok g v (
            subst (λ o. assert_expected_version g o ≡ ok tt)
              (parse_expected_version-eq-ok expected v named e) h3)

begin_execution-version :
    (g : Graph) (o : MutationOptions) (v : ℕ) {reason : Option String}
    → o.expected_version ≡ some v
    → begin_execution g o ≡ ok reason
    → v ≡ g.version
unfolding begin_execution parse_mutation_options
begin_execution-version g o v named h = after_check (assert_not_reentrant_mutation g) _ h λ _ h1.
    after_check (assert_execution g) _ h1 λ _ h2.
      after_ok (parse_mutation_options o) _ h2 λ parsed e h3.
        after_check (assert_expected_version g parsed.expected_version) _ h3 λ same _.
          after_ok (parse_expected_version o.expected_version) _ e λ version ev e1.
            after_ok (normalize_optional_text invalid_argument 1000 o.reason) _ e1 λ reason _ e2.
              assert_expected_version-eq-ok g v (
                subst (λ x. assert_expected_version g x ≡ ok tt)
                  (ap (λ (m : MutationOptions). m.expected_version) (sym (ok-injective e2))
                    ∙ parse_expected_version-eq-ok o.expected_version v named ev)
                  same)

transition-version :
    (clock : Clock) (g : Graph) (t : String) (allowed : TaskStatus → Bool) (target : TaskStatus)
    (o : MutationOptions) (v : ℕ) {g' : Graph}
    → o.expected_version ≡ some v
    → graph_of (perform_transition clock g t allowed target o) ≡ ok g'
    → v ≡ g.version
unfolding perform_transition
transition-version clock g t allowed target o v named h =
    after_graph (perform_transition clock g t allowed target o) h λ a h0.
      after_ok (begin_execution g o) _ h0
        λ reason begun _. begin_execution-version g o v named begun

-- A call that names a version succeeds only if the graph has that version.
apply-version :
    (clock : Clock) (g : Graph) (c : Command) (v : ℕ) {g' : Graph}
    → named_version c ≡ some v
    → apply clock g c ≡ ok g'
    → v ≡ g.version
unfolding apply add_tasks add_dependency seal succeed_task fail_task cancel_task cancel_remaining
apply-version clock g (add ds o) v named h = after_graph (add_tasks clock g ds o) h λ a h0.
    after_check (begin_planning g o) _ h0 λ begun _. begin_planning-version g o v named begun
apply-version clock g (depend t d o) v named h =
    after_check (begin_planning g o) _ h λ begun _. begin_planning-version g o v named begun
apply-version clock g (close o) v named h =
    after_check (begin_planning g o) _ h λ begun _. begin_planning-version g o v named begun
apply-version clock g (start t o) v named h =
    transition-version clock g t is_ready running o v named h
apply-version clock g (wait t o) v named h =
    transition-version clock g t is_running waiting o v named h
apply-version clock g (escalate t o) v named h =
    transition-version clock g t is_running needs_resolution o v named h
apply-version clock g (resume t o) v named h =
    transition-version clock g t is_paused running o v named h
apply-version clock g (succeed t outputs o) v named h =
    after_graph (succeed_task clock g t outputs o) h λ a h0.
      after_ok (begin_execution g o) _ h0
        λ reason begun _. begin_execution-version g o v named begun
apply-version clock g (fail t failure o) v named h =
    after_graph (fail_task clock g t failure o) h λ a h0.
      after_ok (begin_execution g o) _ h0
        λ reason begun _. begin_execution-version g o v named begun
apply-version clock g (cancel t o) v named h = after_graph (cancel_task clock g t o) h λ a h0.
    after_ok (begin_execution g o) _ h0 λ reason begun _. begin_execution-version g o v named begun
apply-version clock g (cancel_rest o) v named h =
    after_ok (begin_execution g o) _ h λ reason begun _. begin_execution-version g o v named begun
apply-version clock g (acknowledge n) v named h = absurd (cc named)
