-- ===== src/Persistence/Tests.antt =====
-- packages/persistence/src/outbox-logic.ts: the theorems at concrete messages.
use ai_development_os.Prelude
use ai_development_os.Prelude.{◌≡◌, refl, String, Option, some, none, ok, true, false, ◌⊎◌}
use ai_development_os.Domain.Guards
use ai_development_os.Persistence.Outbox
use ai_development_os.Persistence.Outbox.{Message, leased, acknowledged}
use ai_development_os.Persistence.Outbox.Lifecycle.{
  perform, acknowledge, perform-owner, perform-is_coherent, perform-ended,
}
use ai_development_os.Persistence.Outbox.Settling.{is_coherent}

abbrev leased_message : Message
leased_message = record {
  message_id = "m-1";
  status = leased;
  available_at = 1;
  lease_owner = some "worker";
  lease_expires_at = some 9;
  attempt_count = 1;
  acknowledged_at = none;
  dead_lettered_at = none;
  last_failure_category = none;
}

abbrev acknowledged_message : Message
acknowledged_message = record leased_message {
  status = acknowledged;
  lease_owner = none;
  lease_expires_at = none;
  acknowledged_at = some 5;
}

acknowledge-accepted : perform leased_message (acknowledge "worker" 5) ≡ ok acknowledged_message
unfolding perform Outbox.apply_acknowledge Outbox.parse_persisted_id Guards.ensure_string
    Prelude.utf16_length Prelude.matches Outbox.require_leased_by_owner
acknowledge-accepted = refl

again-accepted : perform acknowledged_message (acknowledge "other" 6) ≡ ok acknowledged_message
unfolding perform Outbox.apply_acknowledge Outbox.parse_persisted_id Guards.ensure_string
    Prelude.utf16_length Prelude.matches
again-accepted = refl

perform-owner_example :
    (acknowledged_message ≡ leased_message)
    ⊎ ((leased_message.status ≡ leased) × (leased_message.lease_owner ≡ some "worker"))
perform-owner_example =
    perform-owner leased_message (acknowledge "worker" 5) "worker" refl acknowledge-accepted

perform-is_coherent_example : is_coherent acknowledged_message ≡ true
perform-is_coherent_example =
    perform-is_coherent leased_message (acknowledge "worker" 5) refl acknowledge-accepted

perform-ended_example : acknowledged_message ≡ acknowledged_message
perform-ended_example =
    perform-ended acknowledged_message (acknowledge "other" 6) refl again-accepted
