-- ===== src/TaskGraph/Tests.antt =====
-- packages/task-graph/src/task-graph.ts: the theorems at concrete graphs.
use ai_development_os.Prelude
use ai_development_os.Prelude.{
  zero, suc, arith, nat_eq, ◌≡◌, ◌≢◌, Bool, true, false, some, refl, String, none, List, [], ◌∷◌,
  ok, err, string_eq, Nodup-of_is_nodup, pos,
}
use ai_development_os.TaskGraph.Json.{null}
use ai_development_os.TaskGraph.Types.{Task, TaskDefinition, Checked, ready, running}
use ai_development_os.TaskGraph.Heap
use ai_development_os.TaskGraph.Topology.{topological_task_ids}
use ai_development_os.TaskGraph.Parsing
use ai_development_os.TaskGraph.Json
use ai_development_os.TaskGraph.Topology
use ai_development_os.TaskGraph.Parsing.{MutationOptions}
use ai_development_os.TaskGraph.Graph
use ai_development_os.TaskGraph.Graph.{Graph, Clock, create}
use ai_development_os.TaskGraph.Graph.Reconcile
use ai_development_os.TaskGraph.Graph.Planning
use ai_development_os.TaskGraph.Graph.Execution
use ai_development_os.TaskGraph.Graph.Machine.{Command, add, fail, apply, created, commanded}
use ai_development_os.TaskGraph.Graph.Moves.{Moves}
use ai_development_os.TaskGraph.Graph.Shapes.{IsWellFormed}
use ai_development_os.TaskGraph.Graph.Steps.{apply-Moves}
use ai_development_os.TaskGraph.Graph.Snapshot.{is_reconciled}
use ai_development_os.TaskGraph.Graph.Waiting.{reconcile_pending_tasks-is_reconciled}
use ai_development_os.TaskGraph.Graph.Numbering.{IsNumbered, Reachable-IsNumbered}
use ai_development_os.TaskGraph.Topology.Counting.{ids}
use ai_development_os.TaskGraph.Samples.{sample}

-- A clock that stands still.
abbrev pub clock : Clock
clock g = some 7

abbrev pub no_options : MutationOptions
no_options = record { expected_version = none; reason = none }

abbrev pub or_else : Checked Graph → Graph → Graph
or_else (ok g) other = g
or_else (err e) other = other

abbrev pub planned : Graph
planned = record {
  graph_id = "g";
  project_id = "p";
  tasks = [];
  version = 0;
  event_sequence = 0;
  is_sealed = false;
  created_at = 5;
  updated_at = 5;
  events = [];
  next_order = 0;
  clock_active = false;
}

abbrev pub definition : TaskDefinition
definition = record {
  id = "a";
  kind = "work";
  title = "Work";
  description = none;
  dependencies = none;
  priority = none;
  metadata = none;
}

abbrev pub add_one : Command
add_one = add (definition ∷ []) none

abbrev pub with_task : Graph
with_task = or_else (apply clock planned add_one) planned

pub add_one-accepted : apply clock planned add_one ≡ ok with_task
unfolding apply Planning.add_tasks Graph.assert_not_reentrant_mutation Graph.assert_planning
    Parsing.parse_expected_version Graph.assert_expected_version Graph.read_timestamp
    Parsing.parse_task_definition Parsing.assert_identifier Parsing.is_identifier Prelude.matches
    Parsing.parse_unique_identifiers Parsing.assert_kind Parsing.is_kind
    Parsing.normalize_required_text Prelude.utf16_length Prelude.trim Prelude.each_of
    Prelude.keep_or_drop Prelude.trim_end Prelude.trim_start Execution.begin_execution
    Execution.cancel_each Execution.cancel_remaining Execution.cancel_task Execution.fail_task
    Execution.perform_transition Execution.settle_task Execution.succeed_task
    Planning.add_dependency Planning.begin_planning Planning.check_dependencies
    Planning.parse_definitions Planning.seal Planning.with_dependency Reconcile.join_ids
    Reconcile.lookup_all Reconcile.reconcile_each Reconcile.reconcile_pending_tasks
    Reconcile.reconcile_task Reconcile.reconciled Graph.acknowledge_events Graph.assert_execution
    Graph.assert_transition Graph.calculate_graph_status Graph.commit Graph.number_events
    Graph.ordered_tasks Graph.require_task Graph.set_task_status Heap.pop Heap.push Heap.sift_down
    Heap.sift_up Heap.smaller_child Heap.split_last Json.clone_json Json.clone_json_object
    Parsing.assert_integer Parsing.assert_priority Parsing.is_failure_code
    Parsing.normalize_optional_text Parsing.parse_failure Parsing.parse_mutation_options
    Topology.add_dependent Topology.assert_graph_edge_limit Topology.check_edges
    Topology.dependents_of Topology.drain Topology.enqueue_free Topology.indegrees Topology.start_of
    topological_task_ids Topology.visit_dependent Topology.visit_dependents
add_one-accepted = refl

-- The first task of the chain is ready, and starts.
abbrev sealed_chain : Graph
sealed_chain = record planned {
  tasks = record (sample "a" [] 0) { status = ready } ∷ sample "b" ("a" ∷ []) 1 ∷ [];
  version = 2;
  event_sequence = 5;
  is_sealed = true;
  next_order = 2;
}

sealed_chain-IsWellFormed : IsWellFormed sealed_chain
sealed_chain-IsWellFormed = record {
  distinct = Nodup-of_is_nodup (ids sealed_chain.tasks) refl;
  untouched = λ h. absurd (cc h);
}

abbrev fail_first : Command
fail_first = fail "a" (record { code = "E1"; message = "lost"; retryable = false }) no_options

abbrev failed_chain : Graph
failed_chain = or_else (apply clock sealed_chain fail_first) sealed_chain

fail_first-accepted : apply clock sealed_chain fail_first ≡ ok failed_chain
unfolding apply Execution.fail_task Graph.assert_not_reentrant_mutation Graph.assert_execution
    Parsing.parse_mutation_options Parsing.parse_expected_version Parsing.normalize_optional_text
    Graph.assert_expected_version Graph.require_task Parsing.assert_identifier Parsing.is_identifier
    Prelude.matches Graph.assert_transition Parsing.parse_failure Parsing.is_failure_code
    Parsing.normalize_required_text Prelude.utf16_length Prelude.each_of Prelude.keep_or_drop
    Prelude.trim Prelude.trim_end Prelude.trim_start Execution.begin_execution Execution.cancel_each
    Execution.cancel_remaining Execution.cancel_task Execution.perform_transition
    Execution.settle_task Execution.succeed_task Planning.add_dependency Planning.add_tasks
    Planning.begin_planning Planning.check_dependencies Planning.parse_definitions Planning.seal
    Planning.with_dependency Reconcile.join_ids Reconcile.lookup_all Reconcile.reconcile_each
    Reconcile.reconcile_pending_tasks Reconcile.reconcile_task Reconcile.reconciled
    Graph.acknowledge_events Graph.assert_planning Graph.calculate_graph_status Graph.commit
    Graph.number_events Graph.ordered_tasks Graph.read_timestamp Graph.set_task_status Heap.pop
    Heap.push Heap.sift_down Heap.sift_up Heap.smaller_child Heap.split_last Json.clone_json
    Json.clone_json_object Parsing.assert_integer Parsing.assert_kind Parsing.assert_priority
    Parsing.is_kind Parsing.parse_task_definition Parsing.parse_unique_identifiers
    Topology.add_dependent Topology.assert_graph_edge_limit Topology.check_edges
    Topology.dependents_of Topology.drain Topology.enqueue_free Topology.indegrees Topology.start_of
    topological_task_ids Topology.visit_dependent Topology.visit_dependents
fail_first-accepted = refl

apply-Moves_example : Moves sealed_chain.tasks failed_chain.tasks
apply-Moves_example =
    apply-Moves clock sealed_chain fail_first sealed_chain-IsWellFormed fail_first-accepted

pub planned-accepted : create "g" "p" (some 5) ≡ ok planned
unfolding create Parsing.assert_identifier Parsing.is_identifier Prelude.matches
planned-accepted = refl

Reachable-IsNumbered_example : IsWellFormed with_task × IsNumbered with_task
Reachable-IsNumbered_example =
    Reachable-IsNumbered with_task
      (commanded clock add_one (created "g" "p" (some 5) planned-accepted) add_one-accepted)

-- The first task runs, and the second waits for it.
abbrev running_chain : List Task
running_chain = record (sample "a" [] 0) { status = running } ∷ sample "b" ("a" ∷ []) 1 ∷ []

running_chain-reconciled :
    Reconcile.reconcile_pending_tasks 7 running_chain [] ≡ ok (running_chain, [])
unfolding Reconcile.reconcile_pending_tasks topological_task_ids Heap.pop Heap.push
running_chain-reconciled = refl

reconcile_pending_tasks-is_reconciled_example :
    is_reconciled (Reconcile.lookup_all running_chain ("a" ∷ [])) (sample "b" ("a" ∷ []) 1) ≡ true
reconcile_pending_tasks-is_reconciled_example =
    reconcile_pending_tasks-is_reconciled 7 running_chain []
      (Nodup-of_is_nodup (ids running_chain) refl) running_chain-reconciled "b"
      (sample "b" ("a" ∷ []) 1) refl

abbrev fail_second_version : Command
fail_second_version =
    fail "a" (record { code = "E1"; message = "lost"; retryable = false })
      (record no_options { expected_version = some 2 })

fail_second_version-accepted : apply clock sealed_chain fail_second_version ≡ ok failed_chain
unfolding apply Execution.fail_task Graph.assert_not_reentrant_mutation Graph.assert_execution
    Parsing.parse_mutation_options Parsing.parse_expected_version Parsing.normalize_optional_text
    Graph.assert_expected_version Graph.require_task Parsing.assert_identifier Parsing.is_identifier
    Prelude.matches Graph.assert_transition Parsing.parse_failure Parsing.is_failure_code
    Parsing.normalize_required_text Prelude.utf16_length Prelude.each_of Prelude.keep_or_drop
    Prelude.trim Prelude.trim_end Prelude.trim_start Execution.begin_execution Execution.cancel_each
    Execution.cancel_remaining Execution.cancel_task Execution.perform_transition
    Execution.settle_task Execution.succeed_task Planning.add_dependency Planning.add_tasks
    Planning.begin_planning Planning.check_dependencies Planning.parse_definitions Planning.seal
    Planning.with_dependency Reconcile.join_ids Reconcile.lookup_all Reconcile.reconcile_each
    Reconcile.reconcile_pending_tasks Reconcile.reconcile_task Reconcile.reconciled
    Graph.acknowledge_events Graph.assert_planning Graph.calculate_graph_status Graph.commit
    Graph.number_events Graph.ordered_tasks Graph.read_timestamp Graph.set_task_status Heap.pop
    Heap.push Heap.sift_down Heap.sift_up Heap.smaller_child Heap.split_last Json.clone_json
    Json.clone_json_object Parsing.assert_integer Parsing.assert_kind Parsing.assert_priority
    Parsing.is_kind Parsing.parse_task_definition Parsing.parse_unique_identifiers
    Topology.add_dependent Topology.assert_graph_edge_limit Topology.check_edges
    Topology.dependents_of Topology.drain Topology.enqueue_free Topology.indegrees Topology.start_of
    topological_task_ids Topology.visit_dependent Topology.visit_dependents
fail_second_version-accepted = refl
