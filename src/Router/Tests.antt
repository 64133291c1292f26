-- ===== src/Router/Tests.antt =====
-- packages/router/src/circuit.ts: the theorems at a circuit that one failure opens.
use ai_development_os.Prelude.{
  ℕ, ◌≤◌, ◌≡◌, ◌≢◌, refl, ap, ◌⊎◌, String, true, false, none, some, List, [], ◌∷◌, ok, length,
  arith,
}
use ai_development_os.Router.Circuit.State.{
  closed, open_phase, success, retryable_failure, admit_probe, CircuitBreakerIdentity, Unsigned,
  CircuitEventKind, CircuitBreakerState, CircuitBreakerEvent, Digest, CircuitBreakerPhase,
  parse_circuit_breaker_state, create_circuit_breaker_state,
}
use ai_development_os.Router.Circuit.Transition.{
  CircuitConfiguration, CircuitBreakerTransition, transition_result, duplicate_event,
  circuit_opened, transition_circuit_breaker,
}
use ai_development_os.Router.Circuit.Machine.{Move, circuit_of}
use ai_development_os.Router.Circuit.Sealing.{Remembers}
use ai_development_os.Router.Circuit.Phases.{transition_circuit_breaker-Follows}
use ai_development_os.Router.Circuit.Progress.{IsHex, InRange, transition_circuit_breaker-Returns}
use ai_development_os.Router.Circuit.Retries.{
  transition_circuit_breaker-again, transition_circuit_breaker-bounded,
}
use ai_development_os.Router.Circuit.Recovery.{IsNew, transition_circuit_breaker-recovers}

abbrev zeros : String
zeros = "0000000000000000000000000000000000000000000000000000000000000000"

abbrev digest : Digest
digest = record { of_identity = λ _. zeros; of_unsigned = λ _. zeros }

digest-IsHex : IsHex digest
unfolding ai_development_os.Domain.Guards.ensure_string ai_development_os.Prelude.utf16_length
    ai_development_os.Prelude.matches
digest-IsHex u = refl

abbrev configuration : CircuitConfiguration
configuration = record { failure_threshold = 1; cool_down_ms = 100; maximum_remembered_events = 2 }

configuration-InRange : InRange configuration
configuration-InRange = record { positive = omega arith; bounded = omega arith }

abbrev identity : CircuitBreakerIdentity
identity = record {
  provider_instance_id = "local";
  contract_model_id = "small";
  operation_class = "generate";
}

abbrev created : CircuitBreakerState
created = record {
  unsigned = record {
    identity = identity;
    phase = closed;
    consecutive_failures = 0;
    opened_at = none;
    cool_down_until = none;
    probe_in_flight = false;
    last_event_at = none;
    remembered_event_ids = [];
  };
  fingerprint = zeros;
}

create_accepted : create_circuit_breaker_state digest identity ≡ ok created
unfolding create_circuit_breaker_state ai_development_os.Router.Circuit.State.parse_identity
    ai_development_os.Domain.Guards.ensure_string ai_development_os.Prelude.utf16_length
    ai_development_os.Prelude.matches parse_circuit_breaker_state
    ai_development_os.Router.Circuit.State.parse_unsigned
    ai_development_os.Domain.Guards.ensure_safe_integer
    ai_development_os.Router.Circuit.State.is_consistent
create_accepted = refl

abbrev event : String → ℕ → CircuitEventKind → CircuitBreakerEvent
event id at kind = record {
  event_id = id;
  occurred_at = at;
  kind = kind;
  identity_fingerprint = zeros;
}

abbrev opened : CircuitBreakerState
opened = record {
  unsigned = record {
    identity = identity;
    phase = open_phase;
    consecutive_failures = 1;
    opened_at = some 5;
    cool_down_until = some 105;
    probe_in_flight = false;
    last_event_at = some 5;
    remembered_event_ids = "e-1" ∷ [];
  };
  fingerprint = zeros;
}

abbrev failed : CircuitBreakerEvent
failed = event "e-1" 5 retryable_failure

abbrev opening : CircuitBreakerTransition
opening = transition_result true circuit_opened created opened "e-1"

opened_once : transition_circuit_breaker digest configuration created failed ≡ ok opening
unfolding transition_circuit_breaker parse_circuit_breaker_state
    ai_development_os.Router.Circuit.State.parse_unsigned
    ai_development_os.Router.Circuit.State.parse_identity
    ai_development_os.Domain.Guards.ensure_string ai_development_os.Prelude.utf16_length
    ai_development_os.Prelude.matches ai_development_os.Domain.Guards.ensure_safe_integer
    ai_development_os.Router.Circuit.State.is_consistent
    ai_development_os.Router.Circuit.State.parse_event
    ai_development_os.Router.Circuit.Transition.dispatch
    ai_development_os.Router.Circuit.Transition.apply_kind
    ai_development_os.Router.Circuit.Transition.record_failure
    ai_development_os.Router.Circuit.Transition.trip
    ai_development_os.Router.Circuit.Transition.seal_state
opened_once = refl

opened-parsed : parse_circuit_breaker_state digest opened ≡ ok opened
unfolding parse_circuit_breaker_state ai_development_os.Router.Circuit.State.parse_unsigned
    ai_development_os.Domain.Guards.ensure_string ai_development_os.Prelude.utf16_length
    ai_development_os.Prelude.matches ai_development_os.Router.Circuit.State.parse_identity
    ai_development_os.Domain.Guards.ensure_safe_integer
    ai_development_os.Router.Circuit.State.is_consistent
opened-parsed = refl

created-parsed : parse_circuit_breaker_state digest created ≡ ok created
unfolding parse_circuit_breaker_state ai_development_os.Router.Circuit.State.parse_unsigned
    ai_development_os.Router.Circuit.State.parse_identity
    ai_development_os.Domain.Guards.ensure_string ai_development_os.Prelude.utf16_length
    ai_development_os.Prelude.matches ai_development_os.Domain.Guards.ensure_safe_integer
    ai_development_os.Router.Circuit.State.is_consistent
created-parsed = refl

opened-differs : opened ≢ created
opened-differs same = cc (ap (λ (s : CircuitBreakerState). s.unsigned.consecutive_failures) same)

transition_circuit_breaker-Follows_example :
    (opened ≡ created)
    ⊎ (Move configuration 5 retryable_failure (circuit_of created) (circuit_of opened)
        × Remembers digest configuration created failed opened)
transition_circuit_breaker-Follows_example =
    transition_circuit_breaker-Follows digest configuration created failed opened_once

transition_circuit_breaker-Returns_example :
    (t : CircuitBreakerTransition) × (transition_circuit_breaker digest configuration created failed
      ≡ ok t)
unfolding ai_development_os.Router.Circuit.State.parse_event
    ai_development_os.Domain.Guards.ensure_string ai_development_os.Prelude.utf16_length
    ai_development_os.Prelude.matches
transition_circuit_breaker-Returns_example =
    transition_circuit_breaker-Returns digest digest-IsHex configuration configuration-InRange
      created failed created-parsed refl (omega arith) (omega arith)

transition_circuit_breaker-again_example :
    transition_circuit_breaker digest configuration opened failed
    ≡ ok (transition_result true duplicate_event opened opened "e-1")
transition_circuit_breaker-again_example =
    transition_circuit_breaker-again digest configuration created failed opened_once opened-differs

transition_circuit_breaker-bounded_example : length opened.unsigned.remembered_event_ids ≤ 2
transition_circuit_breaker-bounded_example =
    transition_circuit_breaker-bounded digest configuration created failed (omega arith)
      (omega arith) opened_once

abbrev IsNewAt : CircuitBreakerEvent → Type 0
IsNewAt e = IsNew digest opened e

probe-IsNew : IsNewAt (event "e-2" 105 admit_probe)
unfolding ai_development_os.Router.Circuit.State.parse_event
    ai_development_os.Domain.Guards.ensure_string ai_development_os.Prelude.utf16_length
    ai_development_os.Prelude.matches
probe-IsNew = record { parsed = refl; mine = refl; fresh = refl; ordered = refl }

answer-IsNew : IsNewAt (event "e-3" 110 success)
unfolding ai_development_os.Router.Circuit.State.parse_event
    ai_development_os.Domain.Guards.ensure_string ai_development_os.Prelude.utf16_length
    ai_development_os.Prelude.matches
answer-IsNew = record { parsed = refl; mine = refl; fresh = refl; ordered = refl }

transition_circuit_breaker-recovers_example :
    (t t' : CircuitBreakerTransition) × (transition_circuit_breaker digest configuration opened
        (event "e-2" 105 admit_probe)
      ≡ ok t)
    × (transition_circuit_breaker digest configuration t.state (event "e-3" 110 success) ≡ ok t')
    × (t'.state.unsigned.phase ≡ closed)
    × (t'.state.unsigned.consecutive_failures ≡ 0)
transition_circuit_breaker-recovers_example =
    transition_circuit_breaker-recovers digest configuration opened (event "e-2" 105 admit_probe)
      (event "e-3" 110 success) digest-IsHex configuration-InRange opened-parsed refl refl
      (omega arith) probe-IsNew refl (omega arith) answer-IsNew refl refl refl (omega arith)
