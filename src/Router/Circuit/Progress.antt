-- ===== src/Router/Circuit/Progress.antt =====
-- packages/router/src/circuit.ts: a transition of an accepted state gives a result.
use ai_development_os.Prelude.{
  is_nodup-append_one, ◌+◌, ◌≤◌, ◌<◌, ◌≡◌, refl, Bool, true, false, not, ◌||◌, Option, [], ◌∷◌,
  ◌++◌, ok, ◌>>=◌, map_result, leb, contains, is_nodup, ◌==◌, string_eq, arith, if_ind,
}
use ai_development_os.Domain.Guards.{Timestamp, ensure_string, ensure_safe_integer_accepts}
use ai_development_os.Router.Shared.{is_hex_64}
use ai_development_os.Router.Circuit.Time.{is_out_of_order, is_cooling, add_ms-within, max_time}
use ai_development_os.Router.Circuit.State.{
  CircuitBreakerPhase, closed, open_phase, half_open, CircuitEventKind, success, retryable_failure,
  terminal_provider_failure, admit_probe, Unsigned, CircuitBreakerState, CircuitBreakerEvent,
  Digest, Checked, parse_circuit_breaker_state, parse_event, parse_event_id, is_consistent,
}
use ai_development_os.Router.Circuit.Transition.{
  CircuitConfiguration, is_open, is_half_open, forget, seal_state, admit, record_success,
  record_failure, trip, count_failure, apply_kind, dispatch, transition_circuit_breaker,
}
use ai_development_os.Router.Circuit.Parsing.{
  IsValid, parse_circuit_breaker_state-eq-ok, parse_circuit_breaker_state_accepts,
  parse_event-eq-ok,
}
use ai_development_os.Router.Circuit.Memory.{
  length-slice_last, slice_last_ind, map_result-drop, map_result-append_one, is_nodup-drop,
}

-- The code does not throw.
abbrev pub Returns : {A : Type 0} → Checked A → Type 0
Returns {A} m = (a : A) × (m ≡ ok a)

Returns-then :
    {A B : Type 0} (m : Checked A) (f : A → Checked B)
    → Returns m
    → ((a : A) → Returns (f a))
    → Returns (m >>= f)
Returns-then m f (a, h) k = rw h (k a)

-- A digest is 64 hexadecimal digits, as that of SHA-256 is.
abbrev pub IsHex : Digest → Type 0
IsHex d = (u : Unsigned) → ensure_string is_hex_64 64 64 (d.of_unsigned u) ≡ ok (d.of_unsigned u)

-- The ranges that the configuration's parser enforces, as far as a transition needs them.
pub record InRange (c : CircuitConfiguration) : Type 0 where
  pub positive : 0 < c.maximum_remembered_events
  pub bounded : c.maximum_remembered_events ≤ 10000

-- A probe finds the times that the open circuit had.
probe_is_consistent :
    (phase : CircuitBreakerPhase) (opened until : Option Timestamp) (flying : Bool) (at : Timestamp)
    → (not (is_open phase) || is_cooling until at) ≡ false
    → is_consistent phase opened until flying ≡ true
    → is_consistent half_open opened until true ≡ true
unfolding is_consistent
probe_is_consistent open_phase opened until flying at admitted h = ground (arith, h)
probe_is_consistent closed opened until flying at admitted h = absurd (cc admitted)
probe_is_consistent half_open opened until flying at admitted h = absurd (cc admitted)

module _ (d : Digest) (hex : IsHex d) (c : CircuitConfiguration) (range : InRange c) where
  seal_state-Returns :
      (s : CircuitBreakerState) (e : CircuitBreakerEvent) (u : Unsigned)
      → IsValid s.unsigned
      → parse_event_id e.event_id ≡ ok e.event_id
      → contains s.unsigned.remembered_event_ids e.event_id ≡ false
      → u.identity ≡ s.unsigned.identity
      → u.remembered_event_ids ≡ s.unsigned.remembered_event_ids ++ (e.event_id ∷ [])
      → u.consecutive_failures ≤ 1000000
      → is_consistent u.phase u.opened_at u.cool_down_until u.probe_in_flight ≡ true
      → Returns (seal_state d u c.maximum_remembered_events)
  unfolding seal_state
  seal_state-Returns s e u valid named fresh same ids small consistent = (
    record {
      unsigned = forget u c.maximum_remembered_events;
      fingerprint = d.of_unsigned (forget u c.maximum_remembered_events);
    },
    parse_circuit_breaker_state_accepts d (forget u c.maximum_remembered_events)
        (record {
          count = omega (
            arith,
            length-slice_last c.maximum_remembered_events u.remembered_event_ids range.positive,
            range.bounded,
          );
          ids =
              slice_last_ind (λ ys. map_result parse_event_id ys ≡ ok ys)
                c.maximum_remembered_events _ (λ m ys. map_result-drop parse_event_id m ys)
                (rw ids (map_result-append_one parse_event_id _ _ valid.ids named));
          distinct =
              slice_last_ind (λ ys. is_nodup ys ≡ true) c.maximum_remembered_events _
                (λ m ys. is_nodup-drop m ys)
                (rw ids (
                  is_nodup-append_one s.unsigned.remembered_event_ids e.event_id valid.distinct
                    fresh));
          named = rw same valid.named;
          failures = small;
          consistent = consistent;
        })
        (hex (forget u c.maximum_remembered_events)),
  )

  module _ (s : CircuitBreakerState) (e : CircuitBreakerEvent) (valid : IsValid s.unsigned)
      (named : parse_event_id e.event_id ≡ ok e.event_id)
      (few : s.unsigned.consecutive_failures < 1000000)
      (in_time : e.occurred_at + c.cool_down_ms ≤ max_time) where
    abbrev Fresh : Type 0
    Fresh = contains s.unsigned.remembered_event_ids e.event_id ≡ false

    admit-Returns : Fresh → Returns (admit d c s e)
    unfolding admit
    admit-Returns fresh =
        if_ind Returns
          (not (is_open s.unsigned.phase) || is_cooling s.unsigned.cool_down_until e.occurred_at)
          (λ _. (_, refl))
          (λ admitted.
            Returns-then (seal_state d _ _) _
              (seal_state-Returns s e _ valid named fresh refl refl valid.failures
                (probe_is_consistent s.unsigned.phase _ _ _ _ admitted valid.consistent))
              (λ next. (_, refl)))

    record_success-Returns : Fresh → Returns (record_success d c s e)
    unfolding record_success is_consistent
    record_success-Returns fresh =
        Returns-then (seal_state d _ _) _
          (seal_state-Returns s e _ valid named fresh refl refl (omega arith) refl)
          (λ next. (_, refl))

    record_failure-Returns : Fresh → Returns (record_failure d c s e)
    unfolding record_failure trip count_failure is_consistent
    record_failure-Returns fresh =
        rw
          (ensure_safe_integer_accepts (s.unsigned.consecutive_failures + 1) 0 1000000 (omega arith)
            (omega (arith, few)) (omega (arith, few)))
          (if_ind Returns
            (is_half_open s.unsigned.phase
              || leb c.failure_threshold (s.unsigned.consecutive_failures + 1))
            (λ _. rw (add_ms-within _ _ in_time) (
              Returns-then (seal_state d _ _) _
                (seal_state-Returns s e _ valid named fresh refl refl (omega (arith, few)) refl)
                (λ next. (_, refl))))
            (λ _.
              Returns-then (seal_state d _ _) _
                (seal_state-Returns s e _ valid named fresh refl refl (omega (arith, few)) refl)
                (λ next. (_, refl))))

    apply_kind-Returns : (kind : CircuitEventKind) → Fresh → Returns (apply_kind d c s e kind)
    unfolding apply_kind
    apply_kind-Returns admit_probe fresh = admit-Returns fresh
    apply_kind-Returns success fresh =
        if_ind Returns (is_open s.unsigned.phase) (λ _. (_, refl))
          (λ _. record_success-Returns fresh)
    apply_kind-Returns retryable_failure fresh =
        if_ind Returns (is_open s.unsigned.phase) (λ _. (_, refl))
          (λ _. record_failure-Returns fresh)
    apply_kind-Returns terminal_provider_failure fresh =
        if_ind Returns (is_open s.unsigned.phase) (λ _. (_, refl))
          (λ _. record_failure-Returns fresh)

    dispatch-Returns : Returns (dispatch d c s e)
    unfolding dispatch
    dispatch-Returns =
        if_ind Returns (not (e.identity_fingerprint == d.of_identity s.unsigned.identity))
          (λ _. (_, refl))
          λ _.
            if_ind Returns (contains s.unsigned.remembered_event_ids e.event_id) (λ _. (_, refl))
              λ fresh.
                if_ind Returns (is_out_of_order s.unsigned.last_event_at e.occurred_at)
                  (λ _. (_, refl)) (λ _. apply_kind-Returns e.kind fresh)

  -- A transition gives a result, for a state and an event that the parsers accept, when the configuration
  -- is in range, fewer than a million failures in a row are counted, a `Date` can hold the end of the
  -- cool-down, and a digest is 64 hexadecimal digits.
  pub transition_circuit_breaker-Returns :
      (s : CircuitBreakerState) (e : CircuitBreakerEvent)
      → parse_circuit_breaker_state d s ≡ ok s
      → parse_event e ≡ ok e
      → s.unsigned.consecutive_failures < 1000000
      → e.occurred_at + c.cool_down_ms ≤ max_time
      → Returns (transition_circuit_breaker d c s e)
  unfolding transition_circuit_breaker
  transition_circuit_breaker-Returns s e hs he few in_time =
      rw (hs, he)
        (dispatch-Returns s e (parse_circuit_breaker_state-eq-ok d s hs).1
          (parse_event-eq-ok e he).1 few in_time)
