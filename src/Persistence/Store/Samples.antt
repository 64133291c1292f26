-- ===== src/Persistence/Store/Samples.antt =====
-- packages/persistence-memory/src/memory-adapter.ts: what the tests of the store share.
use ai_development_os.Prelude.{Option, some, ℕ, ◌+◌, String, none, string_eq}
use ai_development_os.Domain.Guards.{Timestamp}
use ai_development_os.Persistence.Store.State.{project, AggregateKey, key_eq}
use ai_development_os.Persistence.Store.Inputs.{EnqueueInput}

abbrev pub hash : String → String
hash text = text

abbrev pub clock : ℕ → Option Timestamp
clock n = some (100 + n)

abbrev pub key : AggregateKey
key = record { kind = project; id = "p-1" }

abbrev pub letter : EnqueueInput
letter = record {
  message_id = "m-1";
  topic = "mail";
  schema_version = 1;
  payload = "{}";
  idempotency_key = "k-1";
  available_at = none;
  trace_id = none;
}
