-- ===== src/TaskGraph/HydrationTests.antt =====
-- packages/task-graph/src/task-graph.ts: a graph whose task has failed, and its snapshot.
use ai_development_os.Prelude
use ai_development_os.TaskGraph.Heap
use ai_development_os.TaskGraph.Parsing
use ai_development_os.TaskGraph.Json
use ai_development_os.TaskGraph.Topology
use ai_development_os.TaskGraph.Graph
use ai_development_os.TaskGraph.Graph.Reconcile
use ai_development_os.TaskGraph.Graph.Planning
use ai_development_os.TaskGraph.Graph.Execution
use ai_development_os.Prelude.{
  arith, ◌≤◌, leb, ℕ, nat_eq, String, ◌≡◌, refl, true, all, any, false, none, some, List, [], ◌∷◌,
  ok, string_eq,
}
use ai_development_os.TaskGraph.Types.{Task, GraphStatus, ready, succeeded}
use ai_development_os.TaskGraph.Graph.Progress.{Reachable-progresses}
use ai_development_os.TaskGraph.Samples.{sample}
use ai_development_os.TaskGraph.Graph.Execution.{settle_task, is_failable}
use ai_development_os.TaskGraph.Graph.Returns.{settle_task_returns}
use ai_development_os.TaskGraph.Topology.{topological_task_ids}
use ai_development_os.TaskGraph.Graph.{Graph, get_task, read_timestamp, calculate_graph_status}
use ai_development_os.TaskGraph.Graph.Snapshot.{
  is_contiguous, check_tasks, check_versions, to_snapshot, validate_hydrated_task_states,
}
use ai_development_os.TaskGraph.Graph.Machine.{
  Command, close, fail, apply, Reachable, created, commanded,
}
use ai_development_os.TaskGraph.Graph.Hydration.{Reachable-validates, Reachable-check_tasks}
use ai_development_os.TaskGraph.Graph.Filed.{is_known}
use ai_development_os.TaskGraph.Topology.Counting.{ids}
use ai_development_os.TaskGraph.Tests.{
  clock, no_options, or_else, planned, add_one, with_task, add_one-accepted, planned-accepted,
}

abbrev closed : Graph
closed = or_else (apply clock with_task (close none)) planned

close-accepted : apply clock with_task (close none) ≡ ok closed
unfolding apply Planning.add_tasks Graph.assert_not_reentrant_mutation Graph.assert_planning
    Parsing.parse_expected_version Graph.assert_expected_version Graph.read_timestamp
    Parsing.parse_task_definition Parsing.assert_identifier Parsing.is_identifier Prelude.matches
    Parsing.parse_unique_identifiers Parsing.assert_kind Parsing.is_kind
    Parsing.normalize_required_text Prelude.utf16_length Prelude.trim Prelude.each_of
    Prelude.keep_or_drop Prelude.trim_end Prelude.trim_start Execution.begin_execution
    Execution.cancel_each Execution.cancel_remaining Execution.cancel_task Execution.fail_task
    Execution.perform_transition Execution.settle_task Execution.succeed_task
    Planning.add_dependency Planning.begin_planning Planning.check_dependencies
    Planning.parse_definitions Planning.seal Planning.with_dependency Reconcile.join_ids
    Reconcile.lookup_all Reconcile.reconcile_each Reconcile.reconcile_pending_tasks
    Reconcile.reconcile_task Reconcile.reconciled Graph.acknowledge_events Graph.assert_execution
    Graph.assert_transition Graph.calculate_graph_status Graph.commit Graph.number_events
    Graph.ordered_tasks Graph.require_task Graph.set_task_status Heap.pop Heap.push Heap.sift_down
    Heap.sift_up Heap.smaller_child Heap.split_last Json.clone_json Json.clone_json_object
    Parsing.assert_integer Parsing.assert_priority Parsing.is_failure_code
    Parsing.normalize_optional_text Parsing.parse_failure Parsing.parse_mutation_options
    Topology.add_dependent Topology.assert_graph_edge_limit Topology.check_edges
    Topology.dependents_of Topology.drain Topology.enqueue_free Topology.indegrees Topology.start_of
    topological_task_ids Topology.visit_dependent Topology.visit_dependents
close-accepted = refl

abbrev fail_it : Command
fail_it = fail "a" (record { code = "E1"; message = "lost"; retryable = false }) no_options

abbrev failed_graph : Graph
failed_graph = or_else (apply clock closed fail_it) planned

fail_it-accepted : apply clock closed fail_it ≡ ok failed_graph
unfolding apply Planning.add_tasks Graph.assert_not_reentrant_mutation Graph.assert_planning
    Parsing.parse_expected_version Graph.assert_expected_version Graph.read_timestamp
    Parsing.parse_task_definition Parsing.assert_identifier Parsing.is_identifier Prelude.matches
    Parsing.parse_unique_identifiers Parsing.assert_kind Parsing.is_kind
    Parsing.normalize_required_text Prelude.utf16_length Prelude.trim Prelude.each_of
    Prelude.keep_or_drop Prelude.trim_end Prelude.trim_start Execution.begin_execution
    Execution.cancel_each Execution.cancel_remaining Execution.cancel_task Execution.fail_task
    Execution.perform_transition Execution.settle_task Execution.succeed_task
    Planning.add_dependency Planning.begin_planning Planning.check_dependencies
    Planning.parse_definitions Planning.seal Planning.with_dependency Reconcile.join_ids
    Reconcile.lookup_all Reconcile.reconcile_each Reconcile.reconcile_pending_tasks
    Reconcile.reconcile_task Reconcile.reconciled Graph.acknowledge_events Graph.assert_execution
    Graph.assert_transition Graph.calculate_graph_status Graph.commit Graph.number_events
    Graph.ordered_tasks Graph.require_task Graph.set_task_status Heap.pop Heap.push Heap.sift_down
    Heap.sift_up Heap.smaller_child Heap.split_last Json.clone_json Json.clone_json_object
    Parsing.assert_integer Parsing.assert_priority Parsing.is_failure_code
    Parsing.normalize_optional_text Parsing.parse_failure Parsing.parse_mutation_options
    Topology.add_dependent Topology.assert_graph_edge_limit Topology.check_edges
    Topology.dependents_of Topology.drain Topology.enqueue_free Topology.indegrees Topology.start_of
    topological_task_ids Topology.visit_dependent Topology.visit_dependents
fail_it-accepted = refl

failed_graph-start : failed_graph.created_at ≡ 5
unfolding apply Planning.add_tasks Graph.assert_not_reentrant_mutation Graph.assert_planning
    Parsing.parse_expected_version Graph.assert_expected_version Graph.read_timestamp
    Parsing.parse_task_definition Parsing.assert_identifier Parsing.is_identifier Prelude.matches
    Parsing.parse_unique_identifiers Parsing.assert_kind Parsing.is_kind
    Parsing.normalize_required_text Prelude.utf16_length Prelude.trim Prelude.each_of
    Prelude.keep_or_drop Prelude.trim_end Prelude.trim_start Execution.begin_execution
    Execution.cancel_each Execution.cancel_remaining Execution.cancel_task Execution.fail_task
    Execution.perform_transition Execution.settle_task Execution.succeed_task
    Planning.add_dependency Planning.begin_planning Planning.check_dependencies
    Planning.parse_definitions Planning.seal Planning.with_dependency Reconcile.join_ids
    Reconcile.lookup_all Reconcile.reconcile_each Reconcile.reconcile_pending_tasks
    Reconcile.reconcile_task Reconcile.reconciled Graph.acknowledge_events Graph.assert_execution
    Graph.assert_transition Graph.calculate_graph_status Graph.commit Graph.number_events
    Graph.ordered_tasks Graph.require_task Graph.set_task_status Heap.pop Heap.push Heap.sift_down
    Heap.sift_up Heap.smaller_child Heap.split_last Json.clone_json Json.clone_json_object
    Parsing.assert_integer Parsing.assert_priority Parsing.is_failure_code
    Parsing.normalize_optional_text Parsing.parse_failure Parsing.parse_mutation_options
    Topology.add_dependent Topology.assert_graph_edge_limit Topology.check_edges
    Topology.dependents_of Topology.drain Topology.enqueue_free Topology.indegrees Topology.start_of
    topological_task_ids Topology.visit_dependent Topology.visit_dependents
failed_graph-start = refl

closed-Reachable : Reachable closed
closed-Reachable =
    commanded clock (close none)
      (commanded clock add_one (created "g" "p" (some 5) planned-accepted) add_one-accepted)
      close-accepted

failed_graph-Reachable : Reachable failed_graph
failed_graph-Reachable = commanded clock fail_it closed-Reachable fail_it-accepted

Reachable-validates_example :
    validate_hydrated_task_states
      (to_snapshot failed_graph).tasks
      (to_snapshot failed_graph).is_sealed
    ≡ ok tt
Reachable-validates_example = Reachable-validates failed_graph failed_graph-Reachable

Reachable-check_tasks_example :
    ((to_snapshot failed_graph).tasks ≡ failed_graph.tasks)
    × (is_contiguous 0 (to_snapshot failed_graph).tasks ≡ true)
    × (check_tasks (to_snapshot failed_graph) [] (to_snapshot failed_graph).tasks ≡ ok tt)
    × (check_versions (to_snapshot failed_graph) (to_snapshot failed_graph).tasks ≡ ok tt)
    × (all (is_known (ids (to_snapshot failed_graph).tasks)) (to_snapshot failed_graph).tasks
        ≡ true)
    × (all (λ t. leb t.created_at t.updated_at) (to_snapshot failed_graph).tasks ≡ true)
    × ((to_snapshot failed_graph).created_at ≤ (to_snapshot failed_graph).updated_at)
Reachable-check_tasks_example =
    Reachable-check_tasks failed_graph failed_graph-Reachable (omega (arith, failed_graph-start))

-- The task of the graph, which is ready.
abbrev first_task : Task
first_task = record (sample "a" [] 0) {
  metadata = Json.obj Json.end;
  status = ready;
  created_at = 7;
  updated_at = 7;
}

first_task-found : get_task closed.tasks "a" ≡ some first_task
unfolding apply Planning.add_tasks Graph.assert_not_reentrant_mutation Graph.assert_planning
    Parsing.parse_expected_version Graph.assert_expected_version Graph.read_timestamp
    Parsing.parse_task_definition Parsing.assert_identifier Parsing.is_identifier Prelude.matches
    Parsing.parse_unique_identifiers Parsing.assert_kind Parsing.is_kind
    Parsing.normalize_required_text Prelude.utf16_length Prelude.trim Prelude.each_of
    Prelude.keep_or_drop Prelude.trim_end Prelude.trim_start Execution.begin_execution
    Execution.cancel_each Execution.cancel_remaining Execution.cancel_task Execution.fail_task
    Execution.perform_transition Execution.settle_task Execution.succeed_task
    Planning.add_dependency Planning.begin_planning Planning.check_dependencies
    Planning.parse_definitions Planning.seal Planning.with_dependency Reconcile.join_ids
    Reconcile.lookup_all Reconcile.reconcile_each Reconcile.reconcile_pending_tasks
    Reconcile.reconcile_task Reconcile.reconciled Graph.acknowledge_events Graph.assert_execution
    Graph.assert_transition Graph.calculate_graph_status Graph.commit Graph.number_events
    Graph.ordered_tasks Graph.require_task Graph.set_task_status Heap.pop Heap.push Heap.sift_down
    Heap.sift_up Heap.smaller_child Heap.split_last Json.clone_json Json.clone_json_object
    Parsing.assert_integer Parsing.assert_priority Parsing.is_failure_code
    Parsing.normalize_optional_text Parsing.parse_failure Parsing.parse_mutation_options
    Topology.add_dependent Topology.assert_graph_edge_limit Topology.check_edges
    Topology.dependents_of Topology.drain Topology.enqueue_free Topology.indegrees Topology.start_of
    topological_task_ids Topology.visit_dependent Topology.visit_dependents
first_task-found = refl

clock-read : read_timestamp clock closed ≡ ok 7
unfolding apply Planning.add_tasks Graph.assert_not_reentrant_mutation Graph.assert_planning
    Parsing.parse_expected_version Graph.assert_expected_version Graph.read_timestamp
    Parsing.parse_task_definition Parsing.assert_identifier Parsing.is_identifier Prelude.matches
    Parsing.parse_unique_identifiers Parsing.assert_kind Parsing.is_kind
    Parsing.normalize_required_text Prelude.utf16_length Prelude.trim Prelude.each_of
    Prelude.keep_or_drop Prelude.trim_end Prelude.trim_start Execution.begin_execution
    Execution.cancel_each Execution.cancel_remaining Execution.cancel_task Execution.fail_task
    Execution.perform_transition Execution.settle_task Execution.succeed_task
    Planning.add_dependency Planning.begin_planning Planning.check_dependencies
    Planning.parse_definitions Planning.seal Planning.with_dependency Reconcile.join_ids
    Reconcile.lookup_all Reconcile.reconcile_each Reconcile.reconcile_pending_tasks
    Reconcile.reconcile_task Reconcile.reconciled Graph.acknowledge_events Graph.assert_execution
    Graph.assert_transition Graph.calculate_graph_status Graph.commit Graph.number_events
    Graph.ordered_tasks Graph.require_task Graph.set_task_status Heap.pop Heap.push Heap.sift_down
    Heap.sift_up Heap.smaller_child Heap.split_last Json.clone_json Json.clone_json_object
    Parsing.assert_integer Parsing.assert_priority Parsing.is_failure_code
    Parsing.normalize_optional_text Parsing.parse_failure Parsing.parse_mutation_options
    Topology.add_dependent Topology.assert_graph_edge_limit Topology.check_edges
    Topology.dependents_of Topology.drain Topology.enqueue_free Topology.indegrees Topology.start_of
    topological_task_ids Topology.visit_dependent Topology.visit_dependents
clock-read = refl

settle_task_returns_example :
    (result : Graph × Task) × (settle_task clock closed first_task ("r" ∷ []) none succeeded none
      ≡ ok result)
settle_task_returns_example =
    settle_task_returns clock closed first_task ("r" ∷ []) none succeeded none closed-Reachable
      first_task-found clock-read

closed-active : calculate_graph_status closed ≡ GraphStatus.active
unfolding apply Planning.add_tasks Graph.assert_not_reentrant_mutation Graph.assert_planning
    Parsing.parse_expected_version Graph.assert_expected_version Graph.read_timestamp
    Parsing.parse_task_definition Parsing.assert_identifier Parsing.is_identifier Prelude.matches
    Parsing.parse_unique_identifiers Parsing.assert_kind Parsing.is_kind
    Parsing.normalize_required_text Prelude.utf16_length Prelude.trim Prelude.each_of
    Prelude.keep_or_drop Prelude.trim_end Prelude.trim_start Execution.begin_execution
    Execution.cancel_each Execution.cancel_remaining Execution.cancel_task Execution.fail_task
    Execution.perform_transition Execution.settle_task Execution.succeed_task
    Planning.add_dependency Planning.begin_planning Planning.check_dependencies
    Planning.parse_definitions Planning.seal Planning.with_dependency Reconcile.join_ids
    Reconcile.lookup_all Reconcile.reconcile_each Reconcile.reconcile_pending_tasks
    Reconcile.reconcile_task Reconcile.reconciled Graph.acknowledge_events Graph.assert_execution
    Graph.assert_transition Graph.calculate_graph_status Graph.commit Graph.number_events
    Graph.ordered_tasks Graph.require_task Graph.set_task_status Heap.pop Heap.push Heap.sift_down
    Heap.sift_up Heap.smaller_child Heap.split_last Json.clone_json Json.clone_json_object
    Parsing.assert_integer Parsing.assert_priority Parsing.is_failure_code
    Parsing.normalize_optional_text Parsing.parse_failure Parsing.parse_mutation_options
    Topology.add_dependent Topology.assert_graph_edge_limit Topology.check_edges
    Topology.dependents_of Topology.drain Topology.enqueue_free Topology.indegrees Topology.start_of
    topological_task_ids Topology.visit_dependent Topology.visit_dependents
closed-active = refl

Reachable-progresses_example : any (λ (t : Task). is_failable t.status) closed.tasks ≡ true
Reachable-progresses_example = Reachable-progresses closed closed-Reachable closed-active
