-- ===== src/Persistence/Store/Invariant.antt =====
-- packages/persistence-memory/src/memory-adapter.ts: what every state of the store satisfies.
use ai_development_os.Prelude.{
  ℕ, zero, suc, ◌+◌, ◌≤◌, ◌≡◌, subst, All, All-map, All-append_one, refl, sym, ◌∙◌, ap, true, none,
  List, [], ◌∷◌, ◌++◌, lookup, put-absent, lookup-key, map-put, map-put-absent, is_nodup-put,
  is_nodup, map, string_eq, nat_eq, arith,
}
use ai_development_os.Persistence.Store.State.{
  StoredEvent, StoredOutbox, MemoryState, empty_state, message_id, key_eq,
}
use ai_development_os.Persistence.Store.Operations.{
  aggregate_key, event_id_of, entry_key, entry_of, set_queued, set_message,
}
use ai_development_os.Persistence.Store.Messages.{sequence_of}
use ai_development_os.Persistence.Store.Sequences.{Ascending, Ascending-append_one}
use ai_development_os.Persistence.Store.Changes.{
  Replaces, Change, keep, follow, write_aggregate, append_event, skip_event, queue, redeliver,
  describe, list_contents,
}

-- 1, 2, ..., n.
abbrev pub count_up : ℕ → List ℕ
count_up zero = []
count_up (suc n) = count_up n ++ (suc n ∷ [])

abbrev pub event_number : StoredEvent → ℕ
event_number e = e.global_sequence

-- Ids and keys are distinct, the events are in the order of their numbers, which are not above the last
-- one, the messages are numbered from 1 on in their order, and the idempotency keys are those of the
-- messages.
pub record IsWellFormed (s : MemoryState) : Type 0 where
  pub aggregate_keys : is_nodup (map aggregate_key s.aggregates) ≡ true
  pub event_ids : is_nodup (map event_id_of s.events) ≡ true
  pub event_order : Ascending event_number s.events
  pub event_bound : All (λ e. event_number e ≤ s.event_sequence) s.events
  pub message_ids : is_nodup (map message_id s.outbox) ≡ true
  pub message_numbers : map sequence_of s.outbox ≡ count_up s.outbox_sequence
  pub entries : s.idempotency_keys ≡ map entry_of s.outbox
  pub keys : is_nodup (map entry_key s.idempotency_keys) ≡ true

pub empty_state-IsWellFormed : IsWellFormed empty_state
empty_state-IsWellFormed = record {
  aggregate_keys = refl;
  event_ids = refl;
  event_order = tt;
  event_bound = tt;
  message_ids = refl;
  message_numbers = refl;
  entries = refl;
  keys = refl;
}

count_up-next : (n k : ℕ) → k ≡ n + 1 → count_up n ++ (k ∷ []) ≡ count_up (n + 1)
count_up-next n k h = rw (h, add_one n) refl
  where
    add_one : (m : ℕ) → m + 1 ≡ suc m
    add_one m = omega arith

redelivered-IsWellFormed :
    (s : MemoryState) (m : StoredOutbox)
    → Replaces s m
    → IsWellFormed s
    → IsWellFormed (set_message s m)
redelivered-IsWellFormed s m r w = record {
  aggregate_keys = w.aggregate_keys;
  event_ids = w.event_ids;
  event_order = w.event_order;
  event_bound = w.event_bound;
  message_ids = is_nodup-put message_id s.outbox m w.message_ids;
  message_numbers =
      map-put message_id sequence_of s.outbox m r.there (ap sequence_of r.same_content)
      ∙ w.message_numbers;
  entries =
      w.entries
      ∙ sym (
          map-put message_id entry_of s.outbox m r.there (
            cc (
              ap (λ (o : StoredOutbox). o.idempotency_key) r.same_content,
              lookup-key message_id s.outbox (message_id m) r.there,
            )));
  keys = w.keys;
}

queued-IsWellFormed :
    (s : MemoryState) (m : StoredOutbox)
    → lookup message_id s.outbox (message_id m) ≡ none
    → lookup entry_key s.idempotency_keys m.idempotency_key ≡ none
    → m.sequence ≡ s.outbox_sequence + 1
    → IsWellFormed s
    → IsWellFormed (set_queued s m)
queued-IsWellFormed s m free unused numbered w = record {
  aggregate_keys = w.aggregate_keys;
  event_ids = w.event_ids;
  event_order = w.event_order;
  event_bound = w.event_bound;
  message_ids = is_nodup-put message_id s.outbox m w.message_ids;
  message_numbers =
      map-put-absent message_id sequence_of s.outbox m free
      ∙ ap (λ ns. ns ++ (m.sequence ∷ [])) w.message_numbers
      ∙ count_up-next s.outbox_sequence m.sequence numbered;
  entries =
      put-absent entry_key s.idempotency_keys (entry_of m) unused
      ∙ ap (λ es. es ++ (entry_of m ∷ [])) w.entries
      ∙ sym (map-put-absent message_id entry_of s.outbox m free);
  keys = is_nodup-put entry_key s.idempotency_keys (entry_of m) w.keys;
}

pub Change-IsWellFormed : {s t : MemoryState} → Change s t → IsWellFormed s → IsWellFormed t
Change-IsWellFormed (keep s) w = w
Change-IsWellFormed (follow s t u first second) w =
    Change-IsWellFormed second (Change-IsWellFormed first w)
Change-IsWellFormed (write_aggregate s a next) w = record {
  aggregate_keys = is_nodup-put aggregate_key s.aggregates a w.aggregate_keys;
  event_ids = w.event_ids;
  event_order = w.event_order;
  event_bound = w.event_bound;
  message_ids = w.message_ids;
  message_numbers = w.message_numbers;
  entries = w.entries;
  keys = w.keys;
}
Change-IsWellFormed (append_event s e free numbered) w = record {
  aggregate_keys = w.aggregate_keys;
  event_ids = is_nodup-put event_id_of s.events e w.event_ids;
  event_order = subst (Ascending event_number) (sym (put-absent event_id_of s.events e free)) (
      Ascending-append_one event_number s.events e
        (All-map s.events (λ x below. omega (arith, below, numbered)) w.event_bound) w.event_order);
  event_bound =
      subst (All (λ x. event_number x ≤ s.event_sequence + 1))
        (sym (put-absent event_id_of s.events e free))
        (All-append_one (λ x. event_number x ≤ s.event_sequence + 1) s.events e
          (All-map s.events (λ x below. omega (arith, below)) w.event_bound)
          (omega (arith, numbered)));
  message_ids = w.message_ids;
  message_numbers = w.message_numbers;
  entries = w.entries;
  keys = w.keys;
}
Change-IsWellFormed (skip_event s) w = record {
  aggregate_keys = w.aggregate_keys;
  event_ids = w.event_ids;
  event_order = w.event_order;
  event_bound = All-map s.events (λ x below. omega (arith, below)) w.event_bound;
  message_ids = w.message_ids;
  message_numbers = w.message_numbers;
  entries = w.entries;
  keys = w.keys;
}
Change-IsWellFormed (queue s m free unused numbered) w =
    queued-IsWellFormed s m free unused numbered w
Change-IsWellFormed (redeliver s m r) w = redelivered-IsWellFormed s m r w
Change-IsWellFormed (describe s a free) w = record {
  aggregate_keys = w.aggregate_keys;
  event_ids = w.event_ids;
  event_order = w.event_order;
  event_bound = w.event_bound;
  message_ids = w.message_ids;
  message_numbers = w.message_numbers;
  entries = w.entries;
  keys = w.keys;
}
Change-IsWellFormed (list_contents s a free) w = record {
  aggregate_keys = w.aggregate_keys;
  event_ids = w.event_ids;
  event_order = w.event_order;
  event_bound = w.event_bound;
  message_ids = w.message_ids;
  message_numbers = w.message_numbers;
  entries = w.entries;
  keys = w.keys;
}
