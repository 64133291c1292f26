-- ===== src/Persistence/Store/Transaction.antt =====
-- packages/persistence-memory/src/memory-adapter.ts: `transact`. The work of a transaction is a program
-- that calls operations, sees what each answers or throws, and returns or throws in the end.
use ai_development_os.Prelude.{ℕ, suc, String, Option, List, ok, err, lookup, put, string_eq}
use ai_development_os.Domain.Guards.{Timestamp}
use ai_development_os.Persistence.Store.State.{
  AggregateKey, StoredAggregate, StoredEvent, StoredOutbox, StoredArtifact, MemoryState, StoreError,
  duplicate_id,
}
use ai_development_os.Persistence.Store.Inputs.{
  Checked, validated, Prepared, prepare_payload, AggregateInput, UpdateInput, EventInput,
  EnqueueInput, ClaimInput,
}
use ai_development_os.Persistence.Store.Operations as Operations
use ai_development_os.Persistence.Store.Messages as Messages
use ai_development_os.Persistence.Store.Operations.{Outcome, attempt, absent}

-- The text of a descriptor or manifest that its parser accepted, and the id that it has.
pub record ArtifactInput : Type 0 where
  pub id : String
  pub payload : String

abbrev pub artifact_id : StoredArtifact → String
artifact_id a = a.id

abbrev pub stored_artifact : ArtifactInput → Prepared → StoredArtifact
stored_artifact input prepared = record {
  id = input.id;
  payload_text = prepared.text;
  checksum = prepared.checksum;
}

unfoldable pub put_descriptor :
    (String → String) → ArtifactInput → MemoryState → Outcome ArtifactInput
put_descriptor hash input s =
    attempt s (absent (lookup artifact_id s.artifacts input.id) duplicate_id) λ _.
      attempt s (validated (prepare_payload hash input.payload)) λ prepared. (
        ok input,
        record s { artifacts = put artifact_id s.artifacts (stored_artifact input prepared) },
      )

unfoldable pub put_manifest :
    (String → String) → ArtifactInput → MemoryState → Outcome ArtifactInput
put_manifest hash input s =
    attempt s (absent (lookup artifact_id s.manifests input.id) duplicate_id) λ _.
      attempt s (validated (prepare_payload hash input.payload)) λ prepared. (
        ok input,
        record s { manifests = put artifact_id s.manifests (stored_artifact input prepared) },
      )

-- The operations that may write.
pub data Operation : Type 0 where
  create : AggregateInput → Operation
  update : UpdateInput → Operation
  get : AggregateKey → Operation
  append : EventInput → Operation
  enqueue : EnqueueInput → Operation
  claim : ClaimInput → Operation
  acknowledge : (message_id owner : String) → Operation
  schedule_retry :
      (message_id owner : String) (retry_at : Timestamp) (failure_category : Option String)
      → Operation
  dead_letter : (message_id owner failure_category : String) → Operation
  get_message : (message_id : String) → Operation
  store_descriptor : ArtifactInput → Operation
  store_manifest : ArtifactInput → Operation

pub data Reply : Type 0 where
  aggregate : StoredAggregate → Reply
  maybe_aggregate : Option StoredAggregate → Reply
  event : StoredEvent → Reply
  message : StoredOutbox → Reply
  maybe_message : Option StoredOutbox → Reply
  messages : List StoredOutbox → Reply
  artifact : ArtifactInput → Reply

abbrev pub reply_with : {A : Type 0} → (A → Reply) → Checked A → Checked Reply
reply_with f (ok a) = ok (f a)
reply_with f (err e) = err e

abbrev pub outcome_with : {A : Type 0} → (A → Reply) → Outcome A → Outcome Reply
outcome_with f (answer, s) = (reply_with f answer, s)

unfoldable pub execute :
    (String → String) → Option Timestamp → Operation → MemoryState → Outcome Reply
execute hash now (create input) s = outcome_with aggregate (Operations.create hash now input s)
execute hash now (update input) s = outcome_with aggregate (Operations.update hash now input s)
execute hash now (get key) s = (reply_with maybe_aggregate (Operations.get hash key s), s)
execute hash now (append input) s = outcome_with event (Operations.append hash now input s)
execute hash now (enqueue input) s = outcome_with message (Operations.enqueue hash now input s)
execute hash now (claim input) s = outcome_with messages (Messages.claim hash now input s)
execute hash now (acknowledge id owner) s =
    outcome_with message (Messages.acknowledge hash now id owner s)
execute hash now (schedule_retry id owner retry_at category) s =
    outcome_with message (Messages.schedule_retry hash id owner retry_at category s)
execute hash now (dead_letter id owner category) s =
    outcome_with message (Messages.dead_letter hash now id owner category s)
execute hash now (get_message id) s = (reply_with maybe_message (Messages.get_message hash id s), s)
execute hash now (store_descriptor input) s = outcome_with artifact (put_descriptor hash input s)
execute hash now (store_manifest input) s = outcome_with artifact (put_manifest hash input s)

-- What a caller does in a transaction. It may catch what an operation throws.
pub data Work (A : Type 0) : Type 0 where
  returns : A → Work A
  throws : StoreError → Work A
  calls : Operation → (Checked Reply → Work A) → Work A

-- The clock is read at most once by each operation: `clock n` is its time at the nth, none when it fails.
unfoldable pub run_work :
    {A : Type 0} → (String → String) → (ℕ → Option Timestamp) → ℕ → Work A → MemoryState → Outcome A
run_work hash clock n (returns a) s = (ok a, s)
run_work hash clock n (throws e) s = (err e, s)
run_work hash clock n (calls operation next) s =
    let (answer, s') = execute hash (clock n) operation s in
    run_work hash clock (suc n) (next answer) s'

-- `restoreState(state, snapshot)`, if the work threw.
abbrev pub settle : {A : Type 0} → MemoryState → Outcome A → Outcome A
settle snapshot (ok a, s) = (ok a, s)
settle snapshot (err e, s) = (err e, snapshot)

unfoldable pub transact :
    {A : Type 0} → (String → String) → (ℕ → Option Timestamp) → Work A → MemoryState → Outcome A
transact hash clock work s = settle s (run_work hash clock 0 work s)
