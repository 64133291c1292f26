-- ===== src/Persistence/Store/ClaimTests.antt =====
-- packages/persistence-memory/src/memory-adapter.ts: the theorems on claims, at a store with one message.
use ai_development_os.Prelude.{
  ℕ, ◌+◌, ◌≤◌, ◌≡◌, ◌≢◌, refl, String, true, none, some, List, [], ◌∷◌, Result, ok, err, lookup,
  All, length, is_nodup, map, string_eq, arith,
}
use ai_development_os.Domain.Guards.{Timestamp}
use ai_development_os.Persistence.Outbox.{Message, pending, leased}
use ai_development_os.Persistence.Store.State.{
  StoredOutbox, MemoryState, empty_state, message_id, key_eq,
}
use ai_development_os.Persistence.Store.Inputs.{
  AggregateInput, UpdateInput, ValidatedAggregateWrite, EnqueueInput, ClaimInput, Checked,
  validate_update_aggregate_input,
}
use ai_development_os.Persistence.Store.Operations.{
  Outcome, create, update, get, enqueue, aggregate_key,
}
use ai_development_os.Persistence.Store.Messages.{claim}
use ai_development_os.Persistence.Store.Transaction as Transaction
use ai_development_os.Persistence.Store.Transaction.{Work, Reply, returns, throws, calls, transact}
use ai_development_os.Persistence.Store.Inputs.{parse_optional_id}
use ai_development_os.Domain.Guards.{max_safe_integer}
use ai_development_os.Persistence.Store.Operations.{to_event_record}
use ai_development_os.Persistence.Store.Invariant.{IsWellFormed}
use ai_development_os.Persistence.Store.Claims.{Held, Taken}
use ai_development_os.Persistence.Store.Leases.{claim-Taken, claim-excludes}
use ai_development_os.Persistence.Store.Samples.{hash, clock, letter}

abbrev queued : StoredOutbox
queued = record {
  delivery = record {
    message_id = "m-1";
    status = pending;
    available_at = 100;
    lease_owner = none;
    lease_expires_at = none;
    attempt_count = 0;
    acknowledged_at = none;
    dead_lettered_at = none;
    last_failure_category = none;
  };
  topic = "mail";
  schema_version = 1;
  payload_text = "{}";
  checksum = "{}";
  idempotency_key = "k-1";
  created_at = 100;
  sequence = 1;
  trace_id = none;
}

abbrev with_message : MemoryState
with_message = record empty_state {
  outbox = queued ∷ [];
  idempotency_keys = record { idempotency_key = "k-1"; message_id = "m-1" } ∷ [];
  outbox_sequence = 1;
}

abbrev only_letter : Work (Checked Reply)
only_letter = calls (Transaction.enqueue letter) λ answer. returns answer

queued_letter : (transact hash clock only_letter empty_state).1 ≡ with_message
unfolding transact Transaction.run_work Transaction.execute enqueue
    ai_development_os.Persistence.Store.Operations.attempt
    ai_development_os.Persistence.Store.Inputs.validate_enqueue_outbox_input
    ai_development_os.Persistence.Store.Inputs.prepare_payload
    ai_development_os.Prelude.utf16_length ai_development_os.Persistence.Store.Inputs.parse_id
    ai_development_os.Domain.Guards.ensure_string ai_development_os.Prelude.matches
    ai_development_os.Persistence.Store.Inputs.parse_kind
    ai_development_os.Persistence.Store.Inputs.parse_schema_version
    ai_development_os.Domain.Guards.ensure_safe_integer
    ai_development_os.Persistence.Store.Inputs.parse_optional_id
queued_letter = refl

with_message-IsWellFormed : IsWellFormed with_message
with_message-IsWellFormed = record {
  aggregate_keys = refl;
  event_ids = refl;
  event_order = tt;
  event_bound = tt;
  message_ids = refl;
  message_numbers = refl;
  entries = refl;
  keys = refl;
}

abbrev demand : ClaimInput
demand = record { owner = "w-1"; lease_duration_ms = 50; limit = none }

abbrev leased_letter : StoredOutbox
leased_letter = record queued {
  delivery = record (queued.delivery) {
    status = leased;
    lease_owner = some "w-1";
    lease_expires_at = some 160;
    attempt_count = 1;
  };
}

abbrev with_lease : MemoryState
with_lease = record with_message { outbox = leased_letter ∷ [] }

claimed_letter :
    ◌≡◌ {A = Outcome (List StoredOutbox)}
      (claim hash (some 110) demand with_message)
      (ok (leased_letter ∷ []), with_lease)
unfolding claim ai_development_os.Persistence.Store.Operations.attempt
    ai_development_os.Persistence.Store.Inputs.validate_claim_outbox_input
    ai_development_os.Persistence.Store.Inputs.parse_id
    ai_development_os.Domain.Guards.ensure_string ai_development_os.Prelude.utf16_length
    ai_development_os.Prelude.matches ai_development_os.Domain.Guards.ensure_safe_integer
    ai_development_os.Persistence.Store.Messages.lease_expiry
    ai_development_os.Persistence.Store.Messages.claim_each
    ai_development_os.Persistence.Outbox.is_claimable
    ai_development_os.Persistence.Store.Operations.to_outbox_message
    ai_development_os.Persistence.Store.Inputs.verify_checksum
    ai_development_os.Persistence.Outbox.apply_claim
claimed_letter = refl

claimed_nothing :
    ◌≡◌ {A = Outcome (List StoredOutbox)}
      (claim hash (some 120) demand with_lease)
      (ok [], with_lease)
unfolding claim ai_development_os.Persistence.Store.Operations.attempt
    ai_development_os.Persistence.Store.Inputs.validate_claim_outbox_input
    ai_development_os.Persistence.Store.Inputs.parse_id
    ai_development_os.Domain.Guards.ensure_string ai_development_os.Prelude.utf16_length
    ai_development_os.Prelude.matches ai_development_os.Domain.Guards.ensure_safe_integer
    ai_development_os.Persistence.Store.Messages.lease_expiry
    ai_development_os.Persistence.Store.Messages.claim_each
    ai_development_os.Persistence.Outbox.is_claimable
claimed_nothing = refl

claim-Taken_example :
    (length (leased_letter ∷ []) ≤ 1)
    × All (Taken 110 demand with_message) (leased_letter ∷ [])
    × All (λ m. Held "w-1" 160 with_lease (message_id m)) (leased_letter ∷ [])
claim-Taken_example = claim-Taken hash 110 demand with_message refl claimed_letter

claim-excludes_example : All (λ m. All (λ n. message_id m ≢ message_id n) []) (leased_letter ∷ [])
claim-excludes_example =
    claim-excludes hash 110 120 demand demand with_message with_message-IsWellFormed claimed_letter
      claimed_nothing refl
