-- ===== src/Persistence/Store/Growth.antt =====
-- packages/persistence-memory/src/memory-adapter.ts: a change of the store keeps what was recorded.
use ai_development_os.Prelude.{
  append-nil, append_assoc, ℕ, ◌≤◌, ◌≡◌, refl, sym, ◌∙◌, ap, subst, inl, inr, String, Option, some,
  List, [], ◌∷◌, ◌++◌, Eq-cases, lookup, put, lookup-key, lookup-put-same, lookup-put-other,
  put-absent, map-put, map-put-absent, map, string_eq, nat_eq, arith,
}
use ai_development_os.Domain.Guards.{Timestamp}
use ai_development_os.Persistence.Store.State.{
  AggregateKey, StoredAggregate, StoredOutbox, MemoryState, message_id, key_eq,
}
use ai_development_os.Persistence.Store.Operations.{
  aggregate_key, event_id_of, entry_key, entry_of, set_aggregate,
}
use ai_development_os.Persistence.Store.Transaction.{artifact_id}
use ai_development_os.Persistence.Store.Changes.{
  Succeeds, Replaces, Change, keep, follow, write_aggregate, append_event, skip_event, queue,
  redeliver, describe, list_contents,
}

-- A list has new items behind those from before.
abbrev pub Extends {ℓ} : {A : Type ℓ} → List A → List A → Type ℓ
Extends {A = A} old all = (new : List A) × (all ≡ old ++ new)

Extends-same {ℓ} : {A : Type ℓ} (xs : List A) → Extends xs xs
Extends-same xs = ([], sym (append-nil xs))

Extends-trans {ℓ} : {A : Type ℓ} (xs ys zs : List A) → Extends xs ys → Extends ys zs → Extends xs zs
Extends-trans xs ys zs (more, e) (most, f) =
    (more ++ most, f ∙ ap (λ l. l ++ most) e ∙ append_assoc xs more most)

-- A message less the state of its delivery: its id and its content.
pub record Content : Type 0 where
  pub message_id : String
  pub topic : String
  pub schema_version : ℕ
  pub payload_text : String
  pub checksum : String
  pub idempotency_key : String
  pub created_at : Timestamp
  pub sequence : ℕ
  pub trace_id : Option String

abbrev content_with : StoredOutbox → String → Content
content_with m id = record {
  message_id = id;
  topic = m.topic;
  schema_version = m.schema_version;
  payload_text = m.payload_text;
  checksum = m.checksum;
  idempotency_key = m.idempotency_key;
  created_at = m.created_at;
  sequence = m.sequence;
  trace_id = m.trace_id;
}

abbrev pub content_of : StoredOutbox → Content
content_of m = content_with m (message_id m)

abbrev pub Keeps : MemoryState → MemoryState → Type 0
Keeps s t =
    (k : AggregateKey) (a : StoredAggregate)
    → lookup aggregate_key s.aggregates k ≡ some a
    → (b : StoredAggregate) × (lookup aggregate_key t.aggregates k ≡ some b)
      × (a.aggregate_version ≤ b.aggregate_version)
      × (b.created_at ≡ a.created_at)

-- Nothing that was recorded is lost.
pub record Grows (s t : MemoryState) : Type 0 where
  pub events_kept : Extends s.events t.events
  pub messages_kept : Extends (map content_of s.outbox) (map content_of t.outbox)
  pub keys_kept : Extends s.idempotency_keys t.idempotency_keys
  pub artifacts_kept : Extends s.artifacts t.artifacts
  pub manifests_kept : Extends s.manifests t.manifests
  pub aggregates_kept : Keeps s t

write-Keeps :
    (s : MemoryState) (a : StoredAggregate)
    → Succeeds (lookup aggregate_key s.aggregates a.key) a
    → Keeps s (set_aggregate s a)
write-Keeps s a next k old there = elim (Eq-cases a.key k) [
  | inl (same, _) ↦
      let found : lookup aggregate_key s.aggregates a.key ≡ some old =
        ap (lookup aggregate_key s.aggregates) same ∙ there in
      let (version, time) = subst (λ o. Succeeds o a) found next in
      (
        a,
        ap (lookup aggregate_key (put aggregate_key s.aggregates a)) (sym same)
            ∙ lookup-put-same aggregate_key s.aggregates a,
        omega (arith, version),
        time,
      )
  | inr (apart, _) ↦
      (old, lookup-put-other aggregate_key s.aggregates a k apart ∙ there, omega arith, refl)
]

Keeps-same : (s : MemoryState) → Keeps s s
Keeps-same s k a there = (a, there, omega arith, refl)

Grows-trans : (s t u : MemoryState) → Grows s t → Grows t u → Grows s u
Grows-trans s t u f g = record {
  events_kept = Extends-trans s.events t.events u.events f.events_kept g.events_kept;
  messages_kept =
      Extends-trans (map content_of s.outbox) (map content_of t.outbox) (map content_of u.outbox)
        f.messages_kept g.messages_kept;
  keys_kept =
      Extends-trans s.idempotency_keys t.idempotency_keys u.idempotency_keys f.keys_kept
        g.keys_kept;
  artifacts_kept =
      Extends-trans s.artifacts t.artifacts u.artifacts f.artifacts_kept g.artifacts_kept;
  manifests_kept =
      Extends-trans s.manifests t.manifests u.manifests f.manifests_kept g.manifests_kept;
  aggregates_kept = λ k a there.
      let (b, found, later, time) = f.aggregates_kept k a there in
      let (c, last, latest, first) = g.aggregates_kept k b found in
      (c, last, omega (arith, later, latest), first ∙ time);
}

-- A message that replaces another has the same content.
content_of-same :
    (s : MemoryState) (m : StoredOutbox) (r : Replaces s m) → content_of m ≡ content_of r.old
content_of-same s m r =
    ap (λ (o : StoredOutbox). content_with o (message_id m)) r.same_content
    ∙ ap (content_with r.old) (sym (lookup-key message_id s.outbox (message_id m) r.there))

module _ (s : MemoryState) where
  -- A change of the aggregates and of the counters only.
  written :
      (t : MemoryState)
      → t.events ≡ s.events
      → t.outbox ≡ s.outbox
      → t.idempotency_keys ≡ s.idempotency_keys
      → t.artifacts ≡ s.artifacts
      → t.manifests ≡ s.manifests
      → Keeps s t
      → Grows s t
  written t events outbox keys artifacts manifests kept = record {
    events_kept = ([], events ∙ sym (append-nil s.events));
    messages_kept = ([], ap (map content_of) outbox ∙ sym (append-nil (map content_of s.outbox)));
    keys_kept = ([], keys ∙ sym (append-nil s.idempotency_keys));
    artifacts_kept = ([], artifacts ∙ sym (append-nil s.artifacts));
    manifests_kept = ([], manifests ∙ sym (append-nil s.manifests));
    aggregates_kept = kept;
  }

  Grows-same : Grows s s
  Grows-same = written s refl refl refl refl refl (Keeps-same s)

pub Change-Grows : {s t : MemoryState} → Change s t → Grows s t
Change-Grows (keep s) = Grows-same s
Change-Grows (follow s t u first second) =
    Grows-trans s t u (Change-Grows first) (Change-Grows second)
Change-Grows (write_aggregate s a next) =
    written s _ refl refl refl refl refl (write-Keeps s a next)
Change-Grows (append_event s e free numbered) =
    let same = Grows-same s in
    record {
      events_kept = (e ∷ [], put-absent event_id_of s.events e free);
      messages_kept = same.messages_kept;
      keys_kept = same.keys_kept;
      artifacts_kept = same.artifacts_kept;
      manifests_kept = same.manifests_kept;
      aggregates_kept = Keeps-same s;
    }
Change-Grows (skip_event s) = written s _ refl refl refl refl refl (Keeps-same s)
Change-Grows (queue s m free unused numbered) =
    let same = Grows-same s in
    record {
      events_kept = same.events_kept;
      messages_kept = (content_of m ∷ [], map-put-absent message_id content_of s.outbox m free);
      keys_kept = (entry_of m ∷ [], put-absent entry_key s.idempotency_keys (entry_of m) unused);
      artifacts_kept = same.artifacts_kept;
      manifests_kept = same.manifests_kept;
      aggregates_kept = Keeps-same s;
    }
Change-Grows (redeliver s m r) =
    let same = Grows-same s in
    record {
      events_kept = same.events_kept;
      messages_kept = (
        [],
        map-put message_id content_of s.outbox m r.there (content_of-same s m r)
            ∙ sym (append-nil (map content_of s.outbox)),
      );
      keys_kept = same.keys_kept;
      artifacts_kept = same.artifacts_kept;
      manifests_kept = same.manifests_kept;
      aggregates_kept = Keeps-same s;
    }
Change-Grows (describe s a free) =
    let same = Grows-same s in
    record {
      events_kept = same.events_kept;
      messages_kept = same.messages_kept;
      keys_kept = same.keys_kept;
      artifacts_kept = (a ∷ [], put-absent artifact_id s.artifacts a free);
      manifests_kept = same.manifests_kept;
      aggregates_kept = Keeps-same s;
    }
Change-Grows (list_contents s a free) =
    let same = Grows-same s in
    record {
      events_kept = same.events_kept;
      messages_kept = same.messages_kept;
      keys_kept = same.keys_kept;
      artifacts_kept = same.artifacts_kept;
      manifests_kept = (a ∷ [], put-absent artifact_id s.manifests a free);
      aggregates_kept = Keeps-same s;
    }
