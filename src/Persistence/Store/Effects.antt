-- ===== src/Persistence/Store/Effects.antt =====
-- packages/persistence-memory/src/memory-adapter.ts: every operation is a change, whatever it answers.
use ai_development_os.Prelude.{
  ◌+◌, ◌≡◌, refl, sym, ◌∙◌, ap, subst, String, true, Option, [], lookup, lookup-key, lookup-own,
  All-map, or_fail-eq-ok, guard-eq-ok, string_eq, nat_eq, is_nodup, map, if_ind, nat_beq_iff,
}
use ai_development_os.Domain.Guards.{Timestamp}
use ai_development_os.Persistence.Store.State.{MemoryState, message_id, key_eq}
use ai_development_os.Persistence.Store.Inputs.{
  AggregateInput, UpdateInput, EventInput, EnqueueInput, ClaimInput,
}
use ai_development_os.Persistence.Store.Operations as Operations
use ai_development_os.Persistence.Store.Operations.{
  Outcome, attempt, absent, next_event_number, aggregate_key, event_id_of, entry_key, set_aggregate,
  set_event, set_queued, set_message, in_outbox, to_outbox_message,
}
use ai_development_os.Persistence.Store.Messages as Messages
use ai_development_os.Persistence.Store.Messages.{
  insert_in_sequence, sorted_by_sequence, sequence_of, with_delivery, claim_each,
}
use ai_development_os.Persistence.Store.Transaction as Transaction
use ai_development_os.Persistence.Store.Transaction.{
  artifact_id, ArtifactInput, Operation, execute, create, update, get, append, enqueue, claim,
  acknowledge, schedule_retry, dead_letter, get_message, store_descriptor, store_manifest,
}
use ai_development_os.Persistence.Store.Changes.{
  Succeeds, Replaces, Change, keep, write_aggregate, append_event, skip_event, queue, redeliver,
  describe, list_contents, Leads, attempt-Leads, attempt-Leads_after, absent-eq-ok,
}
use ai_development_os.Persistence.Store.Deliveries.{
  in_outbox-eq-ok, Replaces-of_delivery, apply_acknowledge-id, apply_schedule_retry-id,
  apply_dead_letter-id, All-sorted_by_sequence, claim_each-Leads,
}

module _ (hash : String → String) (now : Option Timestamp) where
  create-Leads :
      (input : AggregateInput) (s : MemoryState) → Leads s (Operations.create hash now input s)
  unfolding Operations.create
  create-Leads input s = attempt-Leads s _ _ λ write _. attempt-Leads s _ _ λ _ free.
      attempt-Leads s _ _ λ at _. record {
        change = write_aggregate s _ (
            subst (λ o. Succeeds o (Operations.created_aggregate write at))
              (sym (absent-eq-ok _ _ free)) refl);
      }

  update-Leads :
      (input : UpdateInput) (s : MemoryState) → Leads s (Operations.update hash now input s)
  unfolding Operations.update
  update-Leads input s = attempt-Leads s _ _ λ valid _. attempt-Leads s _ _ λ existing found.
      attempt-Leads s _ _ λ _ same. attempt-Leads s _ _ λ at _.
        let there = or_fail-eq-ok _ _ found in
        let named = lookup-key aggregate_key s.aggregates valid.0.key there in
        record {
          change = write_aggregate s _ (
              subst (λ o. Succeeds o (Operations.updated_aggregate existing valid.0 valid.1 at))
                (sym there ∙ ap (lookup aggregate_key s.aggregates) (sym named))
                (ap (λ v. v + 1) (sym ((nat_beq_iff _ _).0 (guard-eq-ok _ _ same))), refl));
        }

  append-Leads :
      (input : EventInput) (s : MemoryState) → Leads s (Operations.append hash now input s)
  unfolding Operations.append
  append-Leads input s = attempt-Leads s _ _ λ valid _. attempt-Leads s _ _ λ _ free.
      attempt-Leads_after s (next_event_number s) _ _ (skip_event s)
        λ at _. record { change = append_event s _ (absent-eq-ok _ _ free) refl }

  enqueue-Leads :
      (input : EnqueueInput) (s : MemoryState) → Leads s (Operations.enqueue hash now input s)
  unfolding Operations.enqueue
  enqueue-Leads input s = attempt-Leads s _ _ λ valid _. attempt-Leads s _ _ λ _ free.
      attempt-Leads s _ _ λ _ unused.
        attempt-Leads s _ _ λ at _. record {
          change = queue s _ (absent-eq-ok _ _ free) (absent-eq-ok _ _ unused) refl;
        }

  claim-Leads :
      (input : ClaimInput) (s : MemoryState)
      → is_nodup (map message_id s.outbox) ≡ true
      → Leads s (Messages.claim hash now input s)
  unfolding Messages.claim
  claim-Leads input s distinct = attempt-Leads s _ _ λ valid _. attempt-Leads s _ _ λ at _.
      attempt-Leads s _ _ λ expires_at _.
        claim_each-Leads hash valid.limit valid.owner at expires_at
          (sorted_by_sequence sequence_of s.outbox) [] s
          (All-sorted_by_sequence (Replaces s) sequence_of s.outbox (
            All-map s.outbox (λ m own. record { old = m; there = own; same_content = refl })
              (lookup-own message_id s.outbox distinct)))

  acknowledge-Leads :
      (id owner : String) (s : MemoryState) → Leads s (Messages.acknowledge hash now id owner s)
  unfolding Messages.acknowledge Messages.require_message
  acknowledge-Leads id owner s = attempt-Leads s _ _ λ parsed _. attempt-Leads s _ _ λ stored found.
      attempt-Leads s _ _ λ at _. attempt-Leads s _ _ λ result done. record {
        change =
            if_ind (Change s) (result.0)
              (λ _. redeliver s _ (
                Replaces-of_delivery s parsed stored (result.1) (or_fail-eq-ok _ _ found)
                  (apply_acknowledge-id stored.delivery owner at (in_outbox-eq-ok _ done))))
              (λ _. keep s);
      }

  schedule_retry-Leads :
      (id owner : String) (at : Timestamp) (category : Option String) (s : MemoryState)
      → Leads s (Messages.schedule_retry hash id owner at category s)
  unfolding Messages.schedule_retry Messages.require_message
  schedule_retry-Leads id owner at category s = attempt-Leads s _ _ λ parsed _.
      attempt-Leads s _ _ λ stored found. attempt-Leads s _ _ λ delivery done. record {
        change = redeliver s _ (
            Replaces-of_delivery s parsed stored delivery (or_fail-eq-ok _ _ found)
              (apply_schedule_retry-id stored.delivery owner at category (in_outbox-eq-ok _ done)));
      }

  dead_letter-Leads :
      (id owner category : String) (s : MemoryState)
      → Leads s (Messages.dead_letter hash now id owner category s)
  unfolding Messages.dead_letter Messages.require_message
  dead_letter-Leads id owner category s = attempt-Leads s _ _ λ parsed _.
      attempt-Leads s _ _ λ stored found. attempt-Leads s _ _ λ at _.
        attempt-Leads s _ _ λ delivery done. record {
          change = redeliver s _ (
              Replaces-of_delivery s parsed stored delivery (or_fail-eq-ok _ _ found)
                (apply_dead_letter-id stored.delivery owner category at (in_outbox-eq-ok _ done)));
        }

  put_descriptor-Leads :
      (input : ArtifactInput) (s : MemoryState) → Leads s (Transaction.put_descriptor hash input s)
  unfolding Transaction.put_descriptor
  put_descriptor-Leads input s =
      attempt-Leads s _ _ λ _ free.
        attempt-Leads s _ _ λ _ _. record { change = describe s _ (absent-eq-ok _ _ free) }

  put_manifest-Leads :
      (input : ArtifactInput) (s : MemoryState) → Leads s (Transaction.put_manifest hash input s)
  unfolding Transaction.put_manifest
  put_manifest-Leads input s = attempt-Leads s _ _ λ _ free.
      attempt-Leads s _ _ λ _ _. record { change = list_contents s _ (absent-eq-ok _ _ free) }

  -- Every operation.
  pub execute-Change :
      (operation : Operation) (s : MemoryState)
      → is_nodup (map message_id s.outbox) ≡ true
      → Change s (execute hash now operation s).1
  unfolding execute
  execute-Change (create input) s distinct = (create-Leads input s).change
  execute-Change (update input) s distinct = (update-Leads input s).change
  execute-Change (get key) s distinct = keep s
  execute-Change (append input) s distinct = (append-Leads input s).change
  execute-Change (enqueue input) s distinct = (enqueue-Leads input s).change
  execute-Change (claim input) s distinct = (claim-Leads input s distinct).change
  execute-Change (acknowledge id owner) s distinct = (acknowledge-Leads id owner s).change
  execute-Change (schedule_retry id owner at category) s distinct =
      (schedule_retry-Leads id owner at category s).change
  execute-Change (dead_letter id owner category) s distinct =
      (dead_letter-Leads id owner category s).change
  execute-Change (get_message id) s distinct = keep s
  execute-Change (store_descriptor input) s distinct = (put_descriptor-Leads input s).change
  execute-Change (store_manifest input) s distinct = (put_manifest-Leads input s).change
