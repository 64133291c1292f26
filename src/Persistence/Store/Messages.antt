-- ===== src/Persistence/Store/Messages.antt =====
-- packages/persistence-memory/src/memory-adapter.ts: the operations on the messages of the outbox.
use ai_development_os.Prelude.{
  ℕ, String, true, false, Option, none, some, List, [], ◌∷◌, ◌++◌, ok, ◌>>=◌, or_fail, leb, length,
  lookup, if◌then◌else◌, string_eq,
}
use ai_development_os.Domain.Guards.{Timestamp}
use ai_development_os.Domain.Instants.{add_ms}
use ai_development_os.Persistence.Outbox.{
  Message, is_claimable, apply_claim, apply_acknowledge, apply_schedule_retry, apply_dead_letter,
}
use ai_development_os.Persistence.Store.State.{
  StoredOutbox, MemoryState, message_id, not_found, storage_failure,
}
use ai_development_os.Persistence.Store.Inputs.{
  Checked, validated, parse_id, ClaimInput, validate_claim_outbox_input,
}
use ai_development_os.Persistence.Store.Operations.{
  Outcome, attempt, read_clock, in_outbox, to_outbox_message, set_message,
}

-- `[...values].sort((a, b) => a.sequence - b.sequence)`, which keeps equal items in their order.
abbrev pub insert_in_sequence {ℓ} : {A : Type ℓ} → (A → ℕ) → A → List A → List A
insert_in_sequence f x [] = x ∷ []
insert_in_sequence f x (y ∷ ys) =
    if leb (f x) (f y) then x ∷ y ∷ ys else y ∷ insert_in_sequence f x ys

abbrev pub sorted_by_sequence {ℓ} : {A : Type ℓ} → (A → ℕ) → List A → List A
sorted_by_sequence f [] = []
sorted_by_sequence f (x ∷ xs) = insert_in_sequence f x (sorted_by_sequence f xs)

abbrev pub sequence_of : StoredOutbox → ℕ
sequence_of m = m.sequence

abbrev pub with_delivery : StoredOutbox → Message → StoredOutbox
with_delivery stored delivery = record stored { delivery = delivery }

-- The loop of `claim`: the messages are those at its start.
unfoldable pub claim_each :
    (String → String)
    → ℕ
    → String
    → Timestamp
    → Timestamp
    → List StoredOutbox
    → List StoredOutbox
    → MemoryState
    → Outcome (List StoredOutbox)
claim_each hash limit owner now expires_at [] claimed s = (ok claimed, s)
claim_each hash limit owner now expires_at (stored ∷ rest) claimed s =
    elim (leb limit (length claimed)) [
      | true ↦ (ok claimed, s)
      | false ↦ elim (is_claimable stored.delivery now) [
        | true ↦
            let next = with_delivery stored (apply_claim stored.delivery owner expires_at) in
            attempt (set_message s next) (to_outbox_message hash next) λ message.
              claim_each hash limit owner now expires_at rest (claimed ++ (message ∷ []))
                (set_message s next)
        | false ↦ claim_each hash limit owner now expires_at rest claimed s
      ]
    ]

unfoldable pub lease_expiry : Timestamp → ℕ → Checked Timestamp
lease_expiry now lease_duration_ms = or_fail (add_ms now lease_duration_ms) storage_failure

unfoldable pub claim :
    (String → String) → Option Timestamp → ClaimInput → MemoryState → Outcome (List StoredOutbox)
claim hash now raw s = attempt s (validated (validate_claim_outbox_input raw)) λ input.
    attempt s (read_clock now) λ at.
      attempt s (lease_expiry at input.lease_duration_ms) λ expires_at.
        claim_each hash input.limit input.owner at expires_at
          (sorted_by_sequence sequence_of s.outbox) [] s

unfoldable pub require_message : String → MemoryState → Checked StoredOutbox
require_message id s = or_fail (lookup message_id s.outbox id) not_found

unfoldable pub acknowledge :
    (String → String) → Option Timestamp → String → String → MemoryState → Outcome StoredOutbox
acknowledge hash now raw_id owner s = attempt s (validated (parse_id raw_id)) λ id.
    attempt s (require_message id s) λ stored. attempt s (read_clock now) λ at.
      attempt s (in_outbox (apply_acknowledge stored.delivery owner at)) λ result.
        let next = with_delivery stored result.1 in
        (to_outbox_message hash next, if result.0 then set_message s next else s)

unfoldable pub schedule_retry :
    (String → String)
    → String
    → String
    → Timestamp
    → Option String
    → MemoryState
    → Outcome StoredOutbox
schedule_retry hash raw_id owner retry_at failure_category s =
    attempt s (validated (parse_id raw_id)) λ id. attempt s (require_message id s) λ stored.
      attempt s (in_outbox (apply_schedule_retry stored.delivery owner retry_at failure_category))
        λ delivery. (
          to_outbox_message hash (with_delivery stored delivery),
          set_message s (with_delivery stored delivery),
        )

unfoldable pub dead_letter :
    (String → String)
    → Option Timestamp
    → String
    → String
    → String
    → MemoryState
    → Outcome StoredOutbox
dead_letter hash now raw_id owner failure_category s = attempt s (validated (parse_id raw_id)) λ id.
    attempt s (require_message id s) λ stored. attempt s (read_clock now) λ at.
      attempt s (in_outbox (apply_dead_letter stored.delivery owner failure_category at))
        λ delivery. (
          to_outbox_message hash (with_delivery stored delivery),
          set_message s (with_delivery stored delivery),
        )

abbrev pub found_message : (String → String) → Option StoredOutbox → Checked (Option StoredOutbox)
found_message hash none = ok none
found_message hash (some stored) = to_outbox_message hash stored >>= λ m. ok (some m)

unfoldable pub get_message :
    (String → String) → String → MemoryState → Checked (Option StoredOutbox)
get_message hash raw_id s =
    validated (parse_id raw_id) >>= λ id. found_message hash (lookup message_id s.outbox id)
