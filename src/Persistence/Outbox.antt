-- ===== src/Persistence/Outbox.antt =====
-- packages/persistence/src/outbox-logic.ts: the transitions of a message of the outbox, over the
-- fields that they read and write (`OutboxTransitionState`).
pub mod Settling
pub mod Lifecycle
use ai_development_os.Domain.Instants.{text_leb}
use ai_development_os.Prelude.{
  ℕ, ◌+◌, String, Bool, true, false, ◌||◌, ◌&&◌, Option, none, some, Result, ok, err, ◌>>=◌, ◌>>◌,
  guard, or_fail, leb, nat_beq, ◌==◌, string_eq, option_eq, matches, is_lower, is_digit,
}
use ai_development_os.Domain.Errors.{DomainError}
use ai_development_os.Domain.Guards.{Timestamp, ensure_string, ensure_nullable, is_identifier}

pub data OutboxStatus : Type 0 where
  pending leased acknowledged dead_lettered : OutboxStatus

pub record Message : Type 0 where
  pub message_id : String
  pub status : OutboxStatus
  pub available_at : Timestamp
  pub lease_owner : Option String
  pub lease_expires_at : Option Timestamp
  pub attempt_count : ℕ
  pub acknowledged_at : Option Timestamp
  pub dead_lettered_at : Option Timestamp
  pub last_failure_category : Option String

-- A validation that fails, or `OUTBOX_STATE_CONFLICT`.
pub data OutboxError : Type 0 where
  invalid : DomainError → OutboxError
  not_leased : OutboxStatus → OutboxError
  different_owner : OutboxError

abbrev pub Checked : Type 0 → Type 0
Checked A = Result OutboxError A

abbrev pub validated : {A : Type 0} → Result DomainError A → Checked A
validated (ok a) = ok a
validated (err e) = err (invalid e)

unfoldable pub parse_persisted_id : String → Checked String
parse_persisted_id value = validated (ensure_string is_identifier 1 128 value)

-- `KIND_PATTERN`.
abbrev pub is_kind : String → Bool
is_kind =
    matches is_lower
      (λ c. is_lower c || (is_digit c || (nat_beq c b'.' || (nat_beq c b'_' || nat_beq c b'-')))) 63

unfoldable pub parse_failure_category : String → Checked String
parse_failure_category value = validated (ensure_string is_kind 1 64 value)

abbrev pub parse_nullable_category : Option String → Checked (Option String)
parse_nullable_category none = ok none
parse_nullable_category (some category) =
    parse_failure_category category >>= λ parsed. ok (some parsed)

abbrev pub has_passed : Option Timestamp → Timestamp → Bool
has_passed none now = false
has_passed (some at) now = text_leb at now

unfoldable pub is_claimable : Message → Timestamp → Bool
is_claimable m now = elim m.status [
  | pending ↦ text_leb m.available_at now
  | leased ↦ has_passed m.lease_expires_at now
  | acknowledged ↦ false
  | dead_lettered ↦ false
]

unfoldable pub apply_claim : Message → String → Timestamp → Message
apply_claim m owner expires_at = record m {
  status = leased;
  lease_owner = some owner;
  lease_expires_at = some expires_at;
  attempt_count = m.attempt_count + 1;
}

abbrev pub is_leased : OutboxStatus → Bool
is_leased leased = true
is_leased _ = false

unfoldable pub require_leased_by_owner : Message → String → Checked (Unit {0})
require_leased_by_owner m owner = do
  guard (is_leased m.status) (not_leased m.status)
  guard (m.lease_owner == some owner) different_owner

abbrev pub is_acknowledged : OutboxStatus → Bool
is_acknowledged acknowledged = true
is_acknowledged _ = false

-- The result says whether the message changed.
unfoldable pub apply_acknowledge : Message → String → Timestamp → Checked (Bool × Message)
apply_acknowledge m owner now = do
  parsed ← parse_persisted_id owner
  elim (is_acknowledged m.status) [
    | true ↦ ok (false, m)
    | false ↦ do
      require_leased_by_owner m parsed
      ok (
        true,
        record m {
          status = acknowledged;
          acknowledged_at = some now;
          lease_owner = none;
          lease_expires_at = none;
        },
      )
  ]

abbrev pub category_or : Option String → Option String → Option String
category_or none previous = previous
category_or (some category) previous = some category

unfoldable pub apply_schedule_retry : Message → String → Timestamp → Option String → Checked Message
apply_schedule_retry m owner retry_at failure_category = do
  parsed ← parse_persisted_id owner
  category ← parse_nullable_category failure_category
  require_leased_by_owner m parsed
  ok (record m {
    status = pending;
    available_at = retry_at;
    lease_owner = none;
    lease_expires_at = none;
    last_failure_category = category_or category m.last_failure_category;
  })

unfoldable pub apply_dead_letter : Message → String → String → Timestamp → Checked Message
apply_dead_letter m owner failure_category now = do
  parsed ← parse_persisted_id owner
  category ← parse_failure_category failure_category
  require_leased_by_owner m parsed
  ok (record m {
    status = dead_lettered;
    dead_lettered_at = some now;
    lease_owner = none;
    lease_expires_at = none;
    last_failure_category = some category;
  })
