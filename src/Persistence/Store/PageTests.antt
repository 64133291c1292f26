-- ===== src/Persistence/Store/PageTests.antt =====
-- packages/persistence-memory/src/memory-adapter.ts: the theorem on pages, at a store with two events.
use ai_development_os.Prelude.{
  ℕ, ◌+◌, ◌≤◌, ◌≡◌, ◌≢◌, refl, String, true, none, some, List, [], ◌∷◌, Result, ok, err, lookup,
  All, length, is_nodup, map, string_eq, arith,
}
use ai_development_os.Domain.Guards.{Timestamp}
use ai_development_os.Persistence.Store.State.{
  project, StoredEvent, MemoryState, empty_state, key_eq,
}
use ai_development_os.Persistence.Store.Inputs.{
  AggregateInput, UpdateInput, ValidatedAggregateWrite, EnqueueInput, ClaimInput, Checked,
  validate_update_aggregate_input,
}
use ai_development_os.Persistence.Store.Inputs.{parse_optional_id}
use ai_development_os.Domain.Guards.{max_safe_integer}
use ai_development_os.Persistence.Store.Operations.{to_event_record}
use ai_development_os.Persistence.Store.Paging.{
  EventQuery, sequence, list_events, follow_events, normalize_page_size,
}
use ai_development_os.Persistence.Store.Pages.{follow_events-all}
use ai_development_os.Persistence.Store.Invariant.{IsWellFormed}
use ai_development_os.Persistence.Store.Samples.{hash, key}

abbrev recorded : String → ℕ → StoredEvent
recorded id n = record {
  event_id = id;
  key = key;
  aggregate_version = 1;
  event_type = "changed";
  event_schema_version = 1;
  payload_text = "{}";
  checksum = "{}";
  occurred_at = 5;
  recorded_at = 100;
  global_sequence = n;
  trace_id = none;
  causation_id = none;
}

abbrev with_events : MemoryState
with_events = record empty_state {
  events = recorded "e-1" 1 ∷ recorded "e-2" 2 ∷ [];
  event_sequence = 2;
}

with_events-IsWellFormed : IsWellFormed with_events
with_events-IsWellFormed = record {
  aggregate_keys = refl;
  event_ids = refl;
  event_order = omega arith;
  event_bound = omega arith;
  message_ids = refl;
  message_numbers = refl;
  entries = refl;
  keys = refl;
}

abbrev one_by_one : EventQuery
one_by_one = record { aggregate_type = some project; aggregate_id = some "p-1"; limit = some 1 }

one_by_one-page :
    list_events hash one_by_one none with_events
    ≡ ok (record { items = recorded "e-1" 1 ∷ []; next_cursor = some (sequence 1) })
unfolding list_events parse_optional_id ai_development_os.Persistence.Store.Inputs.parse_id
    ai_development_os.Domain.Guards.ensure_string ai_development_os.Prelude.utf16_length
    ai_development_os.Prelude.matches normalize_page_size
    ai_development_os.Domain.Guards.ensure_safe_integer
    ai_development_os.Persistence.Store.Paging.decode_sequence to_event_record
    ai_development_os.Persistence.Store.Inputs.verify_checksum
    ai_development_os.Persistence.Store.Paging.build_page
one_by_one-page = refl

one_by_one-readable : All (λ e. to_event_record hash e ≡ ok e) (with_events.events)
unfolding to_event_record ai_development_os.Persistence.Store.Inputs.verify_checksum
one_by_one-readable = (refl, (refl, tt))

one_by_one-named : parse_optional_id (some "p-1") ≡ ok (some "p-1")
unfolding parse_optional_id ai_development_os.Persistence.Store.Inputs.parse_id
    ai_development_os.Domain.Guards.ensure_string ai_development_os.Prelude.utf16_length
    ai_development_os.Prelude.matches
one_by_one-named = refl

one_by_one-sized : normalize_page_size (some 1) ≡ ok 1
unfolding normalize_page_size ai_development_os.Domain.Guards.ensure_safe_integer
one_by_one-sized = refl

one_by_one-safe :
    All (λ (e : StoredEvent). e.global_sequence ≤ max_safe_integer) (with_events.events)
one_by_one-safe = omega arith

follow_events-all_example :
    follow_events hash one_by_one with_events 3 none
    ≡ ok (some (recorded "e-1" 1 ∷ recorded "e-2" 2 ∷ []))
follow_events-all_example =
    follow_events-all hash one_by_one with_events 1 with_events-IsWellFormed one_by_one-readable
      one_by_one-safe one_by_one-named refl one_by_one-sized
