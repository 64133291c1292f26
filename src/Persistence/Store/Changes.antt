-- ===== src/Persistence/Store/Changes.antt =====
-- packages/persistence-memory/src/memory-adapter.ts: what an operation, or several, may do to the store.
use ai_development_os.Prelude.{
  ◌+◌, ◌≡◌, refl, Option, none, some, ok, err, lookup, put, string_eq, nat_eq,
}
use ai_development_os.Persistence.Store.State.{
  StoredAggregate, StoredEvent, StoredOutbox, StoredArtifact, MemoryState, message_id, StoreError,
  key_eq,
}
use ai_development_os.Persistence.Store.Inputs.{Checked}
use ai_development_os.Persistence.Store.Operations.{
  Outcome, attempt, absent, aggregate_key, event_id_of, entry_key, set_aggregate, set_event,
  set_queued, set_message, next_event_number,
}
use ai_development_os.Persistence.Store.Transaction.{artifact_id}

-- A new aggregate has version 1, and a new version of one has the next number and the first's time.
abbrev pub Succeeds : Option StoredAggregate → StoredAggregate → Type 0
Succeeds none a = a.aggregate_version ≡ 1
Succeeds (some existing) a =
    (a.aggregate_version ≡ existing.aggregate_version + 1) × (a.created_at ≡ existing.created_at)

-- Another delivery of a message that is in the outbox.
pub record Replaces (s : MemoryState) (m : StoredOutbox) : Type 0 where
  pub old : StoredOutbox
  pub there : lookup message_id s.outbox (message_id m) ≡ some old
  pub same_content : m ≡ record old { delivery = m.delivery }

pub data Change : MemoryState → MemoryState → Type 0 where
  keep : (s : MemoryState) → Change s s
  follow : (s t u : MemoryState) → Change s t → Change t u → Change s u
  write_aggregate :
      (s : MemoryState) (a : StoredAggregate)
      → Succeeds (lookup aggregate_key s.aggregates a.key) a
      → Change s (set_aggregate s a)
  append_event :
      (s : MemoryState) (e : StoredEvent)
      → lookup event_id_of s.events e.event_id ≡ none
      → e.global_sequence ≡ s.event_sequence + 1
      → Change s (set_event (next_event_number s) e)
  skip_event : (s : MemoryState) → Change s (next_event_number s)
  queue :
      (s : MemoryState) (m : StoredOutbox)
      → lookup message_id s.outbox (message_id m) ≡ none
      → lookup entry_key s.idempotency_keys m.idempotency_key ≡ none
      → m.sequence ≡ s.outbox_sequence + 1
      → Change s (set_queued s m)
  redeliver : (s : MemoryState) (m : StoredOutbox) → Replaces s m → Change s (set_message s m)
  describe :
      (s : MemoryState) (a : StoredArtifact)
      → lookup artifact_id s.artifacts a.id ≡ none
      → Change s (record s { artifacts = put artifact_id s.artifacts a })
  list_contents :
      (s : MemoryState) (a : StoredArtifact)
      → lookup artifact_id s.manifests a.id ≡ none
      → Change s (record s { manifests = put artifact_id s.manifests a })

-- The state that a step leaves, whether it throws or not, is a change of the one it found.
pub record Leads {A : Type 0} (s : MemoryState) (o : Outcome A) : Type 0 where
  pub change : Change s (o.1)

pub attempt-Leads :
    {A B : Type 0} (s : MemoryState) (m : Checked A) (k : A → Outcome B)
    → ((a : A) → m ≡ ok a → Leads s (k a))
    → Leads s (attempt s m k)
unfolding attempt
attempt-Leads s (ok a) k there = there a refl
attempt-Leads s (err e) k there = record { change = keep s }

-- A step that had changed the state before it throws or goes on.
pub attempt-Leads_after :
    {A B : Type 0} (s t : MemoryState) (m : Checked A) (k : A → Outcome B)
    → Change s t
    → ((a : A) → m ≡ ok a → Leads s (k a))
    → Leads s (attempt t m k)
unfolding attempt
attempt-Leads_after s t (ok a) k c there = there a refl
attempt-Leads_after s t (err e) k c there = record { change = c }

pub Leads-then :
    {A : Type 0} (s t : MemoryState) (o : Outcome A) → Change s t → Leads t o → Leads s o
Leads-then s t o c l = record { change = follow s t (o.1) c l.change }

pub absent-eq-ok : {A : Type 0} (o : Option A) (e : StoreError) → absent o e ≡ ok tt → o ≡ none
absent-eq-ok none e h = refl
absent-eq-ok (some a) e h = absurd (cc h)
