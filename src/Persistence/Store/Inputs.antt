-- ===== src/Persistence/Store/Inputs.antt =====
-- packages/persistence/src/records.ts and checksum.ts: the validation of what a caller writes. `hash` is
-- the SHA-256 of a text.
use ai_development_os.Prelude.{
  ℕ, String, Bool, ◌||◌, Option, none, some, Result, ok, err, ◌>>=◌, guard, leb, nat_beq,
  utf16_length, matches, is_alphanumeric, if◌then◌else◌, ◌==◌, string_eq,
}
use ai_development_os.Domain.Errors.{DomainError, validation_failed, payload_too_large}
use ai_development_os.Domain.Errors as Errors
use ai_development_os.Domain.Guards.{
  Timestamp, ensure_string, ensure_safe_integer, ensure_nullable, is_identifier, max_safe_integer,
}
use ai_development_os.Persistence.Outbox.{is_kind}
use ai_development_os.Persistence.Store.State.{
  AggregateKey, StoreError, invalid, corruption_detected,
}

abbrev pub Checked : Type 0 → Type 0
Checked A = Result StoreError A

abbrev pub validated : {A : Type 0} → Errors.Checked A → Checked A
validated (ok a) = ok a
validated (err e) = err (invalid e)

unfoldable pub parse_id : String → Errors.Checked String
parse_id value = ensure_string is_identifier 1 128 value

unfoldable pub parse_kind : String → Errors.Checked String
parse_kind value = ensure_string is_kind 1 64 value

unfoldable pub parse_schema_version : ℕ → Errors.Checked ℕ
parse_schema_version value = ensure_safe_integer value 1 1000000

unfoldable pub parse_optional_id : Option String → Errors.Checked (Option String)
parse_optional_id value = ensure_nullable parse_id value

pub record Prepared : Type 0 where
  pub text : String
  pub checksum : String

unfoldable pub prepare_payload : (String → String) → String → Errors.Checked Prepared
prepare_payload hash text =
    if leb (utf16_length text) 10000000
    then ok (record { text = text; checksum = hash text })
    else err (validation_failed payload_too_large)

unfoldable pub verify_checksum : (String → String) → String → String → Checked (Unit {0})
verify_checksum hash text checksum = guard (hash text == checksum) corruption_detected

-- `CreateAggregateInput`.
pub record AggregateInput : Type 0 where
  pub key : AggregateKey
  pub schema_version : ℕ
  pub payload : String
  pub trace_id : Option String

-- `UpdateAggregateInput`.
pub record UpdateInput : Type 0 where
  pub base : AggregateInput
  pub expected_version : ℕ

pub record ValidatedAggregateWrite : Type 0 where
  pub key : AggregateKey
  pub schema_version : ℕ
  pub payload_text : String
  pub checksum : String
  pub trace_id : Option String

abbrev pub parse_key : AggregateKey → Errors.Checked AggregateKey
parse_key key = parse_id key.id >>= λ id. ok (record key { id = id })

unfoldable pub validate_create_aggregate_input :
    (String → String) → AggregateInput → Errors.Checked ValidatedAggregateWrite
validate_create_aggregate_input hash input = do
  prepared ← prepare_payload hash input.payload
  key ← parse_key input.key
  schema_version ← parse_schema_version input.schema_version
  trace_id ← parse_optional_id input.trace_id
  ok (record {
    key = key;
    schema_version = schema_version;
    payload_text = prepared.text;
    checksum = prepared.checksum;
    trace_id = trace_id;
  })

unfoldable pub validate_update_aggregate_input :
    (String → String) → UpdateInput → Errors.Checked (ValidatedAggregateWrite × ℕ)
validate_update_aggregate_input hash input = do
  base ← validate_create_aggregate_input hash input.base
  expected_version ← ensure_safe_integer input.expected_version 1 max_safe_integer
  ok (base, expected_version)

-- `AppendEventInput`.
pub record EventInput : Type 0 where
  pub event_id : String
  pub key : AggregateKey
  pub aggregate_version : ℕ
  pub event_type : String
  pub event_schema_version : ℕ
  pub payload : String
  pub occurred_at : Timestamp
  pub trace_id : Option String
  pub causation_id : Option String

pub record ValidatedEventAppend : Type 0 where
  pub event_id : String
  pub key : AggregateKey
  pub aggregate_version : ℕ
  pub event_type : String
  pub event_schema_version : ℕ
  pub payload_text : String
  pub checksum : String
  pub occurred_at : Timestamp
  pub trace_id : Option String
  pub causation_id : Option String

unfoldable pub validate_append_event_input :
    (String → String) → EventInput → Errors.Checked ValidatedEventAppend
validate_append_event_input hash input = do
  prepared ← prepare_payload hash input.payload
  event_id ← parse_id input.event_id
  key ← parse_key input.key
  aggregate_version ← ensure_safe_integer input.aggregate_version 1 max_safe_integer
  event_type ← parse_kind input.event_type
  event_schema_version ← parse_schema_version input.event_schema_version
  trace_id ← parse_optional_id input.trace_id
  causation_id ← parse_optional_id input.causation_id
  ok (record {
    event_id = event_id;
    key = key;
    aggregate_version = aggregate_version;
    event_type = event_type;
    event_schema_version = event_schema_version;
    payload_text = prepared.text;
    checksum = prepared.checksum;
    occurred_at = input.occurred_at;
    trace_id = trace_id;
    causation_id = causation_id;
  })

-- `EnqueueOutboxInput`.
pub record EnqueueInput : Type 0 where
  pub message_id : String
  pub topic : String
  pub schema_version : ℕ
  pub payload : String
  pub idempotency_key : String
  pub available_at : Option Timestamp
  pub trace_id : Option String

pub record ValidatedOutboxEnqueue : Type 0 where
  pub message_id : String
  pub topic : String
  pub schema_version : ℕ
  pub payload_text : String
  pub checksum : String
  pub idempotency_key : String
  pub available_at : Option Timestamp
  pub trace_id : Option String

abbrev pub is_idempotency_key : String → Bool
is_idempotency_key =
    matches is_alphanumeric
      (λ c.
        is_alphanumeric c
        || (nat_beq c b'.' || (nat_beq c b'_' || (nat_beq c b':' || nat_beq c b'-'))))
      255

unfoldable pub validate_enqueue_outbox_input :
    (String → String) → EnqueueInput → Errors.Checked ValidatedOutboxEnqueue
validate_enqueue_outbox_input hash input = do
  prepared ← prepare_payload hash input.payload
  message_id ← parse_id input.message_id
  topic ← parse_kind input.topic
  schema_version ← parse_schema_version input.schema_version
  idempotency_key ← ensure_string is_idempotency_key 1 256 input.idempotency_key
  trace_id ← parse_optional_id input.trace_id
  ok (record {
    message_id = message_id;
    topic = topic;
    schema_version = schema_version;
    payload_text = prepared.text;
    checksum = prepared.checksum;
    idempotency_key = idempotency_key;
    available_at = input.available_at;
    trace_id = trace_id;
  })

-- `ClaimOutboxInput`.
pub record ClaimInput : Type 0 where
  pub owner : String
  pub lease_duration_ms : ℕ
  pub limit : Option ℕ

pub record ValidatedOutboxClaim : Type 0 where
  pub owner : String
  pub lease_duration_ms : ℕ
  pub limit : ℕ

abbrev pub claim_limit : Option ℕ → Errors.Checked ℕ
claim_limit none = ok 1
claim_limit (some limit) = ensure_safe_integer limit 1 100

unfoldable pub validate_claim_outbox_input : ClaimInput → Errors.Checked ValidatedOutboxClaim
validate_claim_outbox_input input = do
  owner ← parse_id input.owner
  lease_duration_ms ← ensure_safe_integer input.lease_duration_ms 1 86400000
  limit ← claim_limit input.limit
  ok (record { owner = owner; lease_duration_ms = lease_duration_ms; limit = limit })
