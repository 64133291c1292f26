-- ===== src/Router/Circuit/Transition.antt =====
-- packages/router/src/circuit.ts: `transitionCircuitBreaker`.
use ai_development_os.Prelude.{
  ℕ, ◌+◌, ◌-◌, String, Bool, true, false, not, ◌||◌, none, some, List, [], ◌∷◌, ◌++◌, ok, ◌>>=◌,
  or_fail, leb, nat_beq, length, drop, contains, ◌==◌, string_eq, if◌then◌else◌,
}
use ai_development_os.Domain.Guards.{ensure_safe_integer}
use ai_development_os.Router.Circuit.Time.{is_out_of_order, is_cooling, add_ms}
use ai_development_os.Router.Circuit.State.{
  CircuitBreakerPhase, closed, open_phase, half_open, success, retryable_failure,
  terminal_provider_failure, admit_probe, CircuitEventKind, Unsigned, CircuitBreakerState,
  CircuitBreakerEvent, Digest, range_error, Checked, validated, parse_circuit_breaker_state,
  parse_event,
}

-- `RouterConfiguration.circuitBreaker`.
pub record CircuitConfiguration : Type 0 where
  pub failure_threshold : ℕ
  pub cool_down_ms : ℕ
  pub maximum_remembered_events : ℕ

pub data CircuitTransitionCode : Type 0 where
  success_recorded failure_recorded circuit_opened probe_admitted : CircuitTransitionCode
  circuit_closed circuit_reopened : CircuitTransitionCode
  duplicate_event out_of_order_event event_not_applicable identity_mismatch : CircuitTransitionCode

-- The digest of the transition itself is left out: nothing reads it.
pub record CircuitBreakerTransition : Type 0 where
  pub accepted : Bool
  pub code : CircuitTransitionCode
  pub prior_fingerprint : String
  pub state : CircuitBreakerState
  pub event_id : String

-- `xs.slice(-n)`, which is all of `xs` for `n` = 0.
abbrev pub slice_last {ℓ} : {A : Type ℓ} → ℕ → List A → List A
slice_last n xs = if nat_beq n 0 then xs else drop (length xs - n) xs

abbrev pub forget : Unsigned → ℕ → Unsigned
forget u maximum = record u { remembered_event_ids = slice_last maximum u.remembered_event_ids }

unfoldable pub seal_state : Digest → Unsigned → ℕ → Checked CircuitBreakerState
seal_state d u maximum =
    parse_circuit_breaker_state d
      (record { unsigned = forget u maximum; fingerprint = d.of_unsigned (forget u maximum) })

abbrev pub transition_result :
    Bool
    → CircuitTransitionCode
    → CircuitBreakerState
    → CircuitBreakerState
    → String
    → CircuitBreakerTransition
transition_result accepted code prior state event_id = record {
  accepted = accepted;
  code = code;
  prior_fingerprint = prior.fingerprint;
  state = state;
  event_id = event_id;
}

-- A result that leaves the state as it was.
abbrev pub unchanged :
    Bool
    → CircuitTransitionCode
    → CircuitBreakerState
    → CircuitBreakerEvent
    → Checked CircuitBreakerTransition
unchanged accepted code s e = ok (transition_result accepted code s s e.event_id)

-- `common`: the event is remembered.
abbrev pub remember : Unsigned → CircuitBreakerEvent → Unsigned
remember u e = record u {
  last_event_at = some e.occurred_at;
  remembered_event_ids = u.remembered_event_ids ++ (e.event_id ∷ []);
}

abbrev pub is_open : CircuitBreakerPhase → Bool
is_open open_phase = true
is_open _ = false

abbrev pub is_half_open : CircuitBreakerPhase → Bool
is_half_open half_open = true
is_half_open _ = false

abbrev pub close : Unsigned → ℕ → Unsigned
close u failures = record u {
  phase = closed;
  consecutive_failures = failures;
  opened_at = none;
  cool_down_until = none;
  probe_in_flight = false;
}

unfoldable pub admit :
    Digest
    → CircuitConfiguration
    → CircuitBreakerState
    → CircuitBreakerEvent
    → Checked CircuitBreakerTransition
admit d configuration s e =
    if not (is_open s.unsigned.phase) || is_cooling s.unsigned.cool_down_until e.occurred_at
    then unchanged false event_not_applicable s e
    else do
      next ←
          seal_state d
            (record (remember s.unsigned e) { phase = half_open; probe_in_flight = true })
            configuration.maximum_remembered_events
      ok (transition_result true probe_admitted s next e.event_id)

unfoldable pub record_success :
    Digest
    → CircuitConfiguration
    → CircuitBreakerState
    → CircuitBreakerEvent
    → Checked CircuitBreakerTransition
record_success d configuration s e = do
  next ← seal_state d (close (remember s.unsigned e) 0) configuration.maximum_remembered_events
  ok (
      transition_result true
        (if is_half_open s.unsigned.phase then circuit_closed else success_recorded) s next
        e.event_id)

unfoldable pub trip :
    Digest
    → CircuitConfiguration
    → CircuitBreakerState
    → CircuitBreakerEvent
    → ℕ
    → Checked CircuitBreakerTransition
trip d configuration s e failures = do
  cool_down_until ← or_fail (add_ms e.occurred_at configuration.cool_down_ms) range_error
  next ←
      seal_state d
        (record (remember s.unsigned e) {
          phase = open_phase;
          consecutive_failures = failures;
          opened_at = some e.occurred_at;
          cool_down_until = some cool_down_until;
          probe_in_flight = false;
        })
        configuration.maximum_remembered_events
  ok (
      transition_result true
        (if is_half_open s.unsigned.phase then circuit_reopened else circuit_opened) s next
        e.event_id)

unfoldable pub count_failure :
    Digest
    → CircuitConfiguration
    → CircuitBreakerState
    → CircuitBreakerEvent
    → ℕ
    → Checked CircuitBreakerTransition
count_failure d configuration s e failures = do
  next ←
      seal_state d (close (remember s.unsigned e) failures) configuration.maximum_remembered_events
  ok (transition_result true failure_recorded s next e.event_id)

unfoldable pub record_failure :
    Digest
    → CircuitConfiguration
    → CircuitBreakerState
    → CircuitBreakerEvent
    → Checked CircuitBreakerTransition
record_failure d configuration s e = do
  failures ← validated (ensure_safe_integer (s.unsigned.consecutive_failures + 1) 0 1000000)
  if is_half_open s.unsigned.phase || leb configuration.failure_threshold failures
      then trip d configuration s e failures
      else count_failure d configuration s e failures

-- The event is for this circuit, new and in order.
unfoldable pub apply_kind :
    Digest
    → CircuitConfiguration
    → CircuitBreakerState
    → CircuitBreakerEvent
    → CircuitEventKind
    → Checked CircuitBreakerTransition
apply_kind d configuration s e admit_probe = admit d configuration s e
apply_kind d configuration s e success =
    if is_open s.unsigned.phase
    then unchanged false event_not_applicable s e
    else record_success d configuration s e
apply_kind d configuration s e retryable_failure =
    if is_open s.unsigned.phase
    then unchanged false event_not_applicable s e
    else record_failure d configuration s e
apply_kind d configuration s e terminal_provider_failure =
    if is_open s.unsigned.phase
    then unchanged false event_not_applicable s e
    else record_failure d configuration s e

unfoldable pub dispatch :
    Digest
    → CircuitConfiguration
    → CircuitBreakerState
    → CircuitBreakerEvent
    → Checked CircuitBreakerTransition
dispatch d configuration s e =
    if not (e.identity_fingerprint == d.of_identity s.unsigned.identity)
    then unchanged false identity_mismatch s e
    else if contains s.unsigned.remembered_event_ids e.event_id
    then unchanged true duplicate_event s e
    else if is_out_of_order s.unsigned.last_event_at e.occurred_at
    then unchanged false out_of_order_event s e
    else apply_kind d configuration s e e.kind

unfoldable pub transition_circuit_breaker :
    Digest
    → CircuitConfiguration
    → CircuitBreakerState
    → CircuitBreakerEvent
    → Checked CircuitBreakerTransition
transition_circuit_breaker d configuration state event = do
  s ← parse_circuit_breaker_state d state
  e ← parse_event event
  dispatch d configuration s e
