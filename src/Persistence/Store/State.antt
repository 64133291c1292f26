-- ===== src/Persistence/Store/State.antt =====
-- packages/persistence-memory/src/memory-adapter.ts: what the store keeps (`MemoryState`). A payload
-- is its canonical JSON text. The two-level map of the aggregates is one map by type and id.
use ai_development_os.Prelude.{
  ℕ, ◌≡◌, ◌↔◌, refl, subst, arith, String, Bool, true, false, ◌&&◌, Option, List, [], ◌==◌,
  string_eq, Eq,
}
use ai_development_os.Domain.Errors.{DomainError}
use ai_development_os.Domain.Guards.{Timestamp}
use ai_development_os.Persistence.Outbox.{Message, OutboxError}

pub data AggregateType : Type 0 where
  artifact_manifest budget_account project task_graph task_run telemetry_ledger : AggregateType

-- The place of an aggregate: its type and its id.
pub record AggregateKey : Type 0 where
  pub kind : AggregateType
  pub id : String

pub record StoredAggregate : Type 0 where
  pub key : AggregateKey
  pub schema_version : ℕ
  pub aggregate_version : ℕ
  pub payload_text : String
  pub checksum : String
  pub created_at : Timestamp
  pub updated_at : Timestamp
  pub trace_id : Option String

pub record StoredEvent : Type 0 where
  pub event_id : String
  pub key : AggregateKey
  pub aggregate_version : ℕ
  pub event_type : String
  pub event_schema_version : ℕ
  pub payload_text : String
  pub checksum : String
  pub occurred_at : Timestamp
  pub recorded_at : Timestamp
  pub global_sequence : ℕ
  pub trace_id : Option String
  pub causation_id : Option String

-- `delivery` has the fields that the transitions read and write.
pub record StoredOutbox : Type 0 where
  pub delivery : Message
  pub topic : String
  pub schema_version : ℕ
  pub payload_text : String
  pub checksum : String
  pub idempotency_key : String
  pub created_at : Timestamp
  pub sequence : ℕ
  pub trace_id : Option String

pub record StoredArtifact : Type 0 where
  pub id : String
  pub payload_text : String
  pub checksum : String

-- `idempotencyKeys` maps a key to the id of its message.
pub record IdempotencyEntry : Type 0 where
  pub idempotency_key : String
  pub message_id : String

pub record MemoryState : Type 0 where
  pub aggregates : List StoredAggregate
  pub events : List StoredEvent
  pub event_sequence : ℕ
  pub outbox : List StoredOutbox
  pub idempotency_keys : List IdempotencyEntry
  pub outbox_sequence : ℕ
  pub artifacts : List StoredArtifact
  pub manifests : List StoredArtifact

abbrev pub empty_state : MemoryState
empty_state = record {
  aggregates = [];
  events = [];
  event_sequence = 0;
  outbox = [];
  idempotency_keys = [];
  outbox_sequence = 0;
  artifacts = [];
  manifests = [];
}

abbrev pub message_id : StoredOutbox → String
message_id m = m.delivery.message_id

-- `PersistenceError` by its code, or what a validation or a transition of the outbox throws.
pub data StoreError : Type 0 where
  invalid : DomainError → StoreError
  outbox_conflict : OutboxError → StoreError
  concurrency_conflict not_found duplicate_id duplicate_idempotency_key : StoreError
  corruption_detected storage_failure invalid_cursor : StoreError

abbrev pub kind_beq : AggregateType → AggregateType → Bool
kind_beq artifact_manifest artifact_manifest = true
kind_beq budget_account budget_account = true
kind_beq project project = true
kind_beq task_graph task_graph = true
kind_beq task_run task_run = true
kind_beq telemetry_ledger telemetry_ledger = true
kind_beq _ _ = false

abbrev pub key_beq : AggregateKey → AggregateKey → Bool
key_beq a b = kind_beq a.kind b.kind && a.id == b.id

kind_beq_refl : (a : AggregateType) → kind_beq a a ≡ true
kind_beq_refl artifact_manifest = refl
kind_beq_refl budget_account = refl
kind_beq_refl project = refl
kind_beq_refl task_graph = refl
kind_beq_refl task_run = refl
kind_beq_refl telemetry_ledger = refl

kind_beq-eq : (a b : AggregateType) → kind_beq a b ≡ true → a ≡ b
kind_beq-eq a b h = ground arith

pub key_beq_iff : (a b : AggregateKey) → (key_beq a b ≡ true) ↔ (a ≡ b)
key_beq_iff a b = (
  λ h. cc (
    kind_beq-eq a.kind b.kind (ground (arith, h)),
    (string_eq.decides a.id b.id).0 (ground (arith, h)),
  ),
  λ same.
      subst (λ c. key_beq a c ≡ true) same
        (rw (kind_beq_refl a.kind, (string_eq.decides a.id a.id).1 refl) refl),
)

instance abbrev pub key_eq : Eq AggregateKey
key_eq = record { beq = key_beq; decides = key_beq_iff }
