-- ===== src/Router/Circuit/State.antt =====
-- packages/router/src/circuit.ts: the state of a circuit breaker and an event, and their parsers.
use ai_development_os.Prelude.{
  ℕ, String, Bool, true, false, not, ◌&&◌, Option, none, some, List, [], Result, ok, err, ◌>>=◌,
  ◌>>◌, guard, map_result, leb, length, is_nodup, ◌==◌, string_eq,
}
use ai_development_os.Domain.Errors.{
  DomainError, Issue, validation_failed, too_many_items, duplicate_event, inconsistent_circuit,
  fingerprint_mismatch,
}
use ai_development_os.Domain.Errors as Errors
use ai_development_os.Domain.Guards.{Timestamp, ensure_string, ensure_safe_integer, is_identifier}
use ai_development_os.Router.Shared.{is_hex_64, is_safe_kind}

pub data CircuitBreakerPhase : Type 0 where
  closed open_phase half_open : CircuitBreakerPhase

pub data CircuitEventKind : Type 0 where
  success retryable_failure terminal_provider_failure admit_probe : CircuitEventKind

pub record CircuitBreakerIdentity : Type 0 where
  pub provider_instance_id : String
  pub contract_model_id : String
  pub operation_class : String

-- `Omit<CircuitBreakerState, "fingerprint">`, less the two version numbers, which are constants.
pub record Unsigned : Type 0 where
  pub identity : CircuitBreakerIdentity
  pub phase : CircuitBreakerPhase
  pub consecutive_failures : ℕ
  pub opened_at : Option Timestamp
  pub cool_down_until : Option Timestamp
  pub probe_in_flight : Bool
  pub last_event_at : Option Timestamp
  pub remembered_event_ids : List String

pub record CircuitBreakerState : Type 0 where
  pub unsigned : Unsigned
  pub fingerprint : String

pub record CircuitBreakerEvent : Type 0 where
  pub event_id : String
  pub occurred_at : Timestamp
  pub kind : CircuitEventKind
  pub identity_fingerprint : String

-- What `digest` gives for an identity and for an unsigned state.
pub record Digest : Type 0 where
  pub of_identity : CircuitBreakerIdentity → String
  pub of_unsigned : Unsigned → String

-- A validation that fails, or the `RangeError` of `toISOString`.
pub data CircuitError : Type 0 where
  invalid : DomainError → CircuitError
  range_error : CircuitError

abbrev pub Checked : Type 0 → Type 0
Checked A = Result CircuitError A

abbrev pub validated : {A : Type 0} → Errors.Checked A → Checked A
validated (ok a) = ok a
validated (err e) = err (invalid e)

-- `fail(path, code, ...)`.
abbrev pub fail_with : Issue → CircuitError
fail_with issue = invalid (validation_failed issue)

unfoldable pub parse_identity : CircuitBreakerIdentity → Checked CircuitBreakerIdentity
parse_identity value = do
  provider ← validated (ensure_string is_identifier 1 128 value.provider_instance_id)
  model ← validated (ensure_string is_identifier 1 128 value.contract_model_id)
  operation ← validated (ensure_string is_safe_kind 1 64 value.operation_class)
  ok (record {
    provider_instance_id = provider;
    contract_model_id = model;
    operation_class = operation;
  })

abbrev pub parse_event_id : String → Checked String
parse_event_id value = validated (ensure_string is_identifier 1 128 value)

abbrev pub is_null : Option Timestamp → Bool
is_null none = true
is_null (some at) = false

-- The phase agrees with the fields that describe it.
unfoldable pub is_consistent :
    CircuitBreakerPhase → Option Timestamp → Option Timestamp → Bool → Bool
is_consistent closed opened until probing = is_null opened && (is_null until && not probing)
is_consistent open_phase opened until probing =
    not (is_null opened) && (not (is_null until) && not probing)
is_consistent half_open opened until probing =
    not (is_null opened) && (not (is_null until) && probing)

unfoldable pub parse_unsigned : Unsigned → Checked Unsigned
parse_unsigned u = do
  guard (leb (length u.remembered_event_ids) 10000) (fail_with too_many_items)
  ids ← map_result parse_event_id u.remembered_event_ids
  guard (is_nodup ids) (fail_with duplicate_event)
  identity ← parse_identity u.identity
  failures ← validated (ensure_safe_integer u.consecutive_failures 0 1000000)
  guard (is_consistent u.phase u.opened_at u.cool_down_until u.probe_in_flight)
      (fail_with inconsistent_circuit)
  ok (record u { identity = identity; consecutive_failures = failures; remembered_event_ids = ids })

unfoldable pub parse_circuit_breaker_state :
    Digest → CircuitBreakerState → Checked CircuitBreakerState
parse_circuit_breaker_state d value = do
  unsigned ← parse_unsigned value.unsigned
  fingerprint ← validated (ensure_string is_hex_64 64 64 value.fingerprint)
  guard (d.of_unsigned unsigned == fingerprint) (fail_with fingerprint_mismatch)
  ok (record { unsigned = unsigned; fingerprint = fingerprint })

unfoldable pub create_circuit_breaker_state :
    Digest → CircuitBreakerIdentity → Checked CircuitBreakerState
create_circuit_breaker_state d identity = do
  parsed ← parse_identity identity
  let unsigned : Unsigned = record {
    identity = parsed;
    phase = closed;
    consecutive_failures = 0;
    opened_at = none;
    cool_down_until = none;
    probe_in_flight = false;
    last_event_at = none;
    remembered_event_ids = [];
  }
  parse_circuit_breaker_state d
      (record { unsigned = unsigned; fingerprint = d.of_unsigned unsigned })

unfoldable pub parse_event : CircuitBreakerEvent → Checked CircuitBreakerEvent
parse_event value = do
  event_id ← parse_event_id value.event_id
  fingerprint ← validated (ensure_string is_hex_64 64 64 value.identity_fingerprint)
  ok (record value { event_id = event_id; identity_fingerprint = fingerprint })
