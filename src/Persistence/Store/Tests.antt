-- ===== src/Persistence/Store/Tests.antt =====
-- packages/persistence-memory/src/memory-adapter.ts: the theorems at a store with one aggregate.
use ai_development_os.Prelude.{
  ℕ, zero, suc, Option, ◌+◌, ◌≤◌, ◌≡◌, ◌≢◌, refl, String, true, none, some, List, [], ◌∷◌, Result,
  ok, err, lookup, All, length, is_nodup, map, string_eq, arith,
}
use ai_development_os.Domain.Guards.{Timestamp}
use ai_development_os.Persistence.Store.State.{
  StoredAggregate, MemoryState, empty_state, StoreError, concurrency_conflict, key_eq,
}
use ai_development_os.Persistence.Store.Inputs.{
  AggregateInput, EventInput, UpdateInput, ValidatedAggregateWrite, EnqueueInput, ClaimInput,
  Checked, validate_update_aggregate_input,
}
use ai_development_os.Persistence.Store.Operations.{
  Outcome, create, update, get, enqueue, aggregate_key,
}
use ai_development_os.Persistence.Store.Transaction as Transaction
use ai_development_os.Persistence.Store.Transaction.{Work, Reply, returns, throws, calls, transact}
use ai_development_os.Persistence.Store.Inputs.{parse_optional_id}
use ai_development_os.Domain.Guards.{max_safe_integer}
use ai_development_os.Persistence.Store.Operations.{to_event_record}
use ai_development_os.Persistence.Store.Invariant.{IsWellFormed}
use ai_development_os.Persistence.Store.History.{
  Reachable, created, transacted, Reachable-IsWellFormed, transact-Grows,
}
use ai_development_os.Persistence.Store.Growth.{Grows}
use ai_development_os.Persistence.Store.Versions.{
  Updated, update-Updated, update-conflict, create-get,
}
use ai_development_os.Persistence.Store.Samples.{hash, clock, key, letter}

abbrev input : AggregateInput
input = record { key = key; schema_version = 1; payload = "{}"; trace_id = none }

abbrev first : StoredAggregate
first = record {
  key = key;
  schema_version = 1;
  aggregate_version = 1;
  payload_text = "{}";
  checksum = "{}";
  created_at = 100;
  updated_at = 100;
  trace_id = none;
}

abbrev with_first : MemoryState
with_first = record empty_state { aggregates = first ∷ [] }

created_first :
    ◌≡◌ {A = Outcome StoredAggregate}
      (create hash (some 100) input empty_state)
      (ok first, with_first)
unfolding create ai_development_os.Persistence.Store.Operations.attempt
    ai_development_os.Persistence.Store.Inputs.validate_create_aggregate_input
    ai_development_os.Persistence.Store.Inputs.prepare_payload
    ai_development_os.Prelude.utf16_length ai_development_os.Persistence.Store.Inputs.parse_id
    ai_development_os.Domain.Guards.ensure_string ai_development_os.Prelude.matches
    ai_development_os.Persistence.Store.Inputs.parse_schema_version
    ai_development_os.Domain.Guards.ensure_safe_integer
    ai_development_os.Persistence.Store.Inputs.parse_optional_id
    ai_development_os.Persistence.Store.Operations.to_envelope
    ai_development_os.Persistence.Store.Inputs.verify_checksum
created_first = refl

create-get_example :
    (lookup aggregate_key (empty_state.aggregates) key ≡ none)
    × (first.aggregate_version ≡ 1)
    × (get hash key with_first ≡ ok (some first))
create-get_example = create-get hash (some 100) input empty_state created_first

abbrev change : UpdateInput
change = record { base = record input { payload = "[]" }; expected_version = 1 }

abbrev second : StoredAggregate
second = record first {
  aggregate_version = 2;
  payload_text = "[]";
  checksum = "[]";
  updated_at = 101;
}

abbrev with_second : MemoryState
with_second = record empty_state { aggregates = second ∷ [] }

updated_first :
    ◌≡◌ {A = Outcome StoredAggregate}
      (update hash (some 101) change with_first)
      (ok second, with_second)
unfolding update ai_development_os.Persistence.Store.Operations.attempt
    validate_update_aggregate_input
    ai_development_os.Persistence.Store.Inputs.validate_create_aggregate_input
    ai_development_os.Persistence.Store.Inputs.prepare_payload
    ai_development_os.Prelude.utf16_length ai_development_os.Persistence.Store.Inputs.parse_id
    ai_development_os.Domain.Guards.ensure_string ai_development_os.Prelude.matches
    ai_development_os.Persistence.Store.Inputs.parse_schema_version
    ai_development_os.Domain.Guards.ensure_safe_integer
    ai_development_os.Persistence.Store.Inputs.parse_optional_id
    ai_development_os.Persistence.Store.Operations.to_envelope
    ai_development_os.Persistence.Store.Inputs.verify_checksum
updated_first = refl

update-Updated_example : Updated hash change with_first with_second second
update-Updated_example = update-Updated hash (some 101) change with_first updated_first

abbrev valid_change : ValidatedAggregateWrite × ℕ
valid_change = (
  record { key = key; schema_version = 1; payload_text = "[]"; checksum = "[]"; trace_id = none },
  1,
)

change_accepted : validate_update_aggregate_input hash change ≡ ok valid_change
unfolding validate_update_aggregate_input
    ai_development_os.Persistence.Store.Inputs.validate_create_aggregate_input
    ai_development_os.Persistence.Store.Inputs.prepare_payload
    ai_development_os.Prelude.utf16_length ai_development_os.Persistence.Store.Inputs.parse_id
    ai_development_os.Domain.Guards.ensure_string ai_development_os.Prelude.matches
    ai_development_os.Persistence.Store.Inputs.parse_schema_version
    ai_development_os.Domain.Guards.ensure_safe_integer
    ai_development_os.Persistence.Store.Inputs.parse_optional_id
change_accepted = refl

update-conflict_example :
    ◌≡◌ {A = Outcome StoredAggregate}
      (update hash (some 102) change with_second)
      (err concurrency_conflict, with_second)
update-conflict_example =
    update-conflict hash (some 101) (some 102) change change with_first updated_first
      change_accepted refl refl

-- The work catches what the second operation throws.
abbrev work : Work (Checked Reply)
work = calls (Transaction.enqueue letter) λ _.
    calls (Transaction.enqueue letter)
      λ answer. calls (Transaction.create input) λ _. returns answer

abbrev after_work : MemoryState
after_work = (transact hash clock work empty_state).1

after_work-Reachable : Reachable hash after_work
after_work-Reachable = transacted (Checked Reply) clock work empty_state created

empty-IsWellFormed : IsWellFormed empty_state
empty-IsWellFormed = Reachable-IsWellFormed hash empty_state created

Reachable-IsWellFormed_example : IsWellFormed after_work
Reachable-IsWellFormed_example = Reachable-IsWellFormed hash after_work after_work-Reachable

transact-Grows_example :
    Grows empty_state after_work
    × ((e : StoreError)
        → (transact hash clock work empty_state).0 ≡ err e
        → after_work ≡ empty_state)
transact-Grows_example = transact-Grows hash clock work empty_state empty-IsWellFormed

abbrev noted : EventInput
noted = record {
  event_id = "e-1";
  key = key;
  aggregate_version = 1;
  event_type = "changed";
  event_schema_version = 1;
  payload = "{}";
  occurred_at = 5;
  trace_id = none;
  causation_id = none;
}

-- A clock that fails once.
abbrev unsteady : ℕ → Option Timestamp
unsteady zero = none
unsteady (suc n) = some 100

-- The work catches that the event could not be appended.
abbrev noting : Work (Checked Reply)
noting = calls (Transaction.append noted) λ answer. returns answer

-- The number of the event is counted all the same.
counted_event :
    (transact hash unsteady noting empty_state).1 ≡ record empty_state { event_sequence = 1 }
unfolding transact Transaction.run_work Transaction.execute
    ai_development_os.Persistence.Store.Operations.append
    ai_development_os.Persistence.Store.Operations.attempt
    ai_development_os.Persistence.Store.Inputs.validate_append_event_input
    ai_development_os.Persistence.Store.Inputs.prepare_payload
    ai_development_os.Prelude.utf16_length ai_development_os.Persistence.Store.Inputs.parse_id
    ai_development_os.Domain.Guards.ensure_string ai_development_os.Prelude.matches
    ai_development_os.Persistence.Store.Inputs.parse_kind
    ai_development_os.Persistence.Store.Inputs.parse_schema_version
    ai_development_os.Domain.Guards.ensure_safe_integer
    ai_development_os.Persistence.Store.Inputs.parse_optional_id
counted_event = refl
