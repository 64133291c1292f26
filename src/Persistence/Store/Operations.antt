-- ===== src/Persistence/Store/Operations.antt =====
-- packages/persistence-memory/src/memory-adapter.ts: the operations of a transaction. Each takes the
-- time of the clock and the state, and gives its answer, or what it throws, and the state it leaves.
use ai_development_os.Prelude.{
  ℕ, ◌+◌, String, Option, none, some, ok, err, ◌>>=◌, or_fail, guard, lookup, put, ◌==◌, string_eq,
  nat_eq,
}
use ai_development_os.Domain.Guards.{Timestamp}
use ai_development_os.Persistence.Outbox as Outbox
use ai_development_os.Persistence.Outbox.{
  Message, pending, is_claimable, apply_claim, apply_acknowledge, apply_schedule_retry,
  apply_dead_letter,
}
use ai_development_os.Persistence.Store.State.{
  AggregateKey, StoredAggregate, StoredEvent, StoredOutbox, IdempotencyEntry, MemoryState,
  message_id, StoreError, outbox_conflict, concurrency_conflict, not_found, duplicate_id,
  duplicate_idempotency_key, storage_failure, key_eq,
}
use ai_development_os.Persistence.Store.Inputs.{
  Checked, validated, parse_id, verify_checksum, AggregateInput, UpdateInput,
  ValidatedAggregateWrite, validate_create_aggregate_input, validate_update_aggregate_input,
  EventInput, ValidatedEventAppend, validate_append_event_input, EnqueueInput,
  ValidatedOutboxEnqueue, validate_enqueue_outbox_input,
}

abbrev pub Outcome : Type 0 → Type 0
Outcome A = Checked A × MemoryState

-- What throws leaves the state as it is at that moment.
unfoldable pub attempt : {A B : Type 0} → MemoryState → Checked A → (A → Outcome B) → Outcome B
attempt s (ok a) rest = rest a
attempt s (err e) rest = (err e, s)

-- `if (map.has(key)) throw error`.
abbrev pub absent : {A : Type 0} → Option A → StoreError → Checked (Unit {0})
absent none e = ok tt
absent (some a) e = err e

abbrev pub in_outbox : {A : Type 0} → Outbox.Checked A → Checked A
in_outbox (ok a) = ok a
in_outbox (err e) = err (outbox_conflict e)

-- `clock.now().toISOString()`, which throws when the clock gives no valid date.
abbrev pub read_clock : Option Timestamp → Checked Timestamp
read_clock now = or_fail now storage_failure

unfoldable pub to_envelope : (String → String) → StoredAggregate → Checked StoredAggregate
to_envelope hash stored =
    verify_checksum hash stored.payload_text stored.checksum >>= λ _. ok stored

unfoldable pub to_event_record : (String → String) → StoredEvent → Checked StoredEvent
to_event_record hash stored =
    verify_checksum hash stored.payload_text stored.checksum >>= λ _. ok stored

unfoldable pub to_outbox_message : (String → String) → StoredOutbox → Checked StoredOutbox
to_outbox_message hash stored =
    verify_checksum hash stored.payload_text stored.checksum >>= λ _. ok stored

abbrev pub aggregate_key : StoredAggregate → AggregateKey
aggregate_key a = a.key

abbrev pub event_id_of : StoredEvent → String
event_id_of e = e.event_id

abbrev pub entry_key : IdempotencyEntry → String
entry_key entry = entry.idempotency_key

abbrev pub created_aggregate : ValidatedAggregateWrite → Timestamp → StoredAggregate
created_aggregate write now = record {
  key = write.key;
  schema_version = write.schema_version;
  aggregate_version = 1;
  payload_text = write.payload_text;
  checksum = write.checksum;
  created_at = now;
  updated_at = now;
  trace_id = write.trace_id;
}

abbrev pub set_aggregate : MemoryState → StoredAggregate → MemoryState
set_aggregate s stored = record s { aggregates = put aggregate_key s.aggregates stored }

unfoldable pub create :
    (String → String) → Option Timestamp → AggregateInput → MemoryState → Outcome StoredAggregate
create hash now input s =
    attempt s (validated (validate_create_aggregate_input hash input)) λ write.
      attempt s (absent (lookup aggregate_key s.aggregates write.key) concurrency_conflict) λ _.
        attempt s (read_clock now) λ at. (
          to_envelope hash (created_aggregate write at),
          set_aggregate s (created_aggregate write at),
        )

abbrev pub updated_aggregate :
    StoredAggregate → ValidatedAggregateWrite → ℕ → Timestamp → StoredAggregate
updated_aggregate existing write expected_version now = record existing {
  schema_version = write.schema_version;
  aggregate_version = expected_version + 1;
  payload_text = write.payload_text;
  checksum = write.checksum;
  updated_at = now;
  trace_id = write.trace_id;
}

unfoldable pub update :
    (String → String) → Option Timestamp → UpdateInput → MemoryState → Outcome StoredAggregate
update hash now input s =
    attempt s (validated (validate_update_aggregate_input hash input)) λ valid.
      attempt s (or_fail (lookup aggregate_key s.aggregates valid.0.key) not_found) λ existing.
        attempt s (guard (existing.aggregate_version == valid.1) concurrency_conflict) λ _.
          attempt s (read_clock now) λ at. (
            to_envelope hash (updated_aggregate existing valid.0 valid.1 at),
            set_aggregate s (updated_aggregate existing valid.0 valid.1 at),
          )

abbrev pub found_aggregate :
    (String → String) → Option StoredAggregate → Checked (Option StoredAggregate)
found_aggregate hash none = ok none
found_aggregate hash (some stored) = to_envelope hash stored >>= λ a. ok (some a)

unfoldable pub get :
    (String → String) → AggregateKey → MemoryState → Checked (Option StoredAggregate)
get hash key s = validated (parse_id key.id) >>= λ id.
    found_aggregate hash (lookup aggregate_key s.aggregates (record key { id = id }))

abbrev pub recorded_event : ValidatedEventAppend → ℕ → Timestamp → StoredEvent
recorded_event input sequence now = record {
  event_id = input.event_id;
  key = input.key;
  aggregate_version = input.aggregate_version;
  event_type = input.event_type;
  event_schema_version = input.event_schema_version;
  payload_text = input.payload_text;
  checksum = input.checksum;
  occurred_at = input.occurred_at;
  recorded_at = now;
  global_sequence = sequence;
  trace_id = input.trace_id;
  causation_id = input.causation_id;
}

abbrev pub next_event_number : MemoryState → MemoryState
next_event_number s = record s { event_sequence = s.event_sequence + 1 }

abbrev pub set_event : MemoryState → StoredEvent → MemoryState
set_event s stored = record s { events = put event_id_of s.events stored }

-- The number is counted before the clock is read.
unfoldable pub append :
    (String → String) → Option Timestamp → EventInput → MemoryState → Outcome StoredEvent
append hash now raw s = attempt s (validated (validate_append_event_input hash raw)) λ input.
    attempt s (absent (lookup event_id_of s.events input.event_id) duplicate_id) λ _.
      let counted = next_event_number s in
      attempt counted (read_clock now) λ at.
        let stored = recorded_event input counted.event_sequence at in
        (to_event_record hash stored, set_event counted stored)

abbrev pub time_or : Option Timestamp → Timestamp → Timestamp
time_or none now = now
time_or (some at) now = at

abbrev pub queued_message : ValidatedOutboxEnqueue → ℕ → Timestamp → StoredOutbox
queued_message input sequence now = record {
  delivery = record {
    message_id = input.message_id;
    status = pending;
    available_at = time_or input.available_at now;
    lease_owner = none;
    lease_expires_at = none;
    attempt_count = 0;
    acknowledged_at = none;
    dead_lettered_at = none;
    last_failure_category = none;
  };
  topic = input.topic;
  schema_version = input.schema_version;
  payload_text = input.payload_text;
  checksum = input.checksum;
  idempotency_key = input.idempotency_key;
  created_at = now;
  sequence = sequence;
  trace_id = input.trace_id;
}

abbrev pub entry_of : StoredOutbox → IdempotencyEntry
entry_of m = record { idempotency_key = m.idempotency_key; message_id = message_id m }

abbrev pub set_queued : MemoryState → StoredOutbox → MemoryState
set_queued s stored = record s {
  outbox = put message_id s.outbox stored;
  idempotency_keys = put entry_key s.idempotency_keys (entry_of stored);
  outbox_sequence = s.outbox_sequence + 1;
}

unfoldable pub enqueue :
    (String → String) → Option Timestamp → EnqueueInput → MemoryState → Outcome StoredOutbox
enqueue hash now raw s = attempt s (validated (validate_enqueue_outbox_input hash raw)) λ input.
    attempt s (absent (lookup message_id s.outbox input.message_id) duplicate_id) λ _.
      attempt s
        (absent (lookup entry_key s.idempotency_keys input.idempotency_key)
          duplicate_idempotency_key)
        λ _. attempt s (read_clock now) λ at.
          let stored = queued_message input (s.outbox_sequence + 1) at in
          (to_outbox_message hash stored, set_queued s stored)

abbrev pub set_message : MemoryState → StoredOutbox → MemoryState
set_message s m = record s { outbox = put message_id s.outbox m }
