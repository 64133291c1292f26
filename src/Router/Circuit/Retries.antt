-- ===== src/Router/Circuit/Retries.antt =====
-- packages/router/src/circuit.ts: an event that is sent again, and how many events are remembered.
use ai_development_os.Prelude.{
  ◌≢◌, after_ok, ◌≤◌, ◌<◌, ◌≡◌, refl, sym, ap, ◌∙◌, subst, inl, inr, String, true, List, ok, length,
  contains, ◌==◌, string_eq, Bool-cases,
}
use ai_development_os.Router.Circuit.State.{
  CircuitBreakerState, CircuitBreakerEvent, Digest, parse_circuit_breaker_state, parse_event,
}
use ai_development_os.Router.Circuit.Transition.{
  CircuitConfiguration, CircuitBreakerTransition, transition_result, duplicate_event, dispatch,
  transition_circuit_breaker,
}
use ai_development_os.Router.Circuit.Parsing.{parse_circuit_breaker_state-eq-ok, parse_event-eq-ok}
use ai_development_os.Router.Circuit.Memory.{length-slice_last, contains-slice_last}
use ai_development_os.Router.Circuit.Sealing.{Remembers}
use ai_development_os.Router.Circuit.Phases.{transition_circuit_breaker-Follows}

module _ (d : Digest) (c : CircuitConfiguration) where
  -- What the parsers and `dispatch` gave.
  pub parts :
      (s : CircuitBreakerState) (e : CircuitBreakerEvent) {t : CircuitBreakerTransition}
      → transition_circuit_breaker d c s e ≡ ok t
      → (parse_event e ≡ ok e) × (dispatch d c s e ≡ ok t)
  unfolding transition_circuit_breaker
  parts s e h = after_ok (parse_circuit_breaker_state d s) _ h λ parsed hs h1.
      after_ok (parse_event e) _ h1 λ event he h2.
        let same = (parse_event-eq-ok e he).0 in
        (rw same at he, rw ((parse_circuit_breaker_state-eq-ok d s hs).0, same) at h2)

  -- A state that changed was changed by an event for its circuit.
  for_this_circuit :
      (s : CircuitBreakerState) (e : CircuitBreakerEvent) {t : CircuitBreakerTransition}
      → dispatch d c s e ≡ ok t
      → t.state ≢ s
      → (e.identity_fingerprint == d.of_identity s.unsigned.identity) ≡ true
  unfolding dispatch
  for_this_circuit s e {t} h changed =
      elim (Bool-cases (e.identity_fingerprint == d.of_identity s.unsigned.identity)) [
        | inl mine ↦ mine
        | inr other ↦ absurd (changed (cc (rw other at h)))
      ]

  dispatch-seen :
      (s : CircuitBreakerState) (e : CircuitBreakerEvent)
      → (e.identity_fingerprint == d.of_identity s.unsigned.identity) ≡ true
      → contains s.unsigned.remembered_event_ids e.event_id ≡ true
      → dispatch d c s e ≡ ok (transition_result true duplicate_event s s e.event_id)
  unfolding dispatch
  dispatch-seen s e mine seen = rw (mine, seen) refl

  remembered_again :
      (s : CircuitBreakerState) (e : CircuitBreakerEvent) (s' : CircuitBreakerState)
      → parse_event e ≡ ok e
      → (e.identity_fingerprint == d.of_identity s.unsigned.identity) ≡ true
      → Remembers d c s e s'
      → transition_circuit_breaker d c s' e
        ≡ ok (transition_result true duplicate_event s' s' e.event_id)
  unfolding transition_circuit_breaker
  remembered_again s e s' he mine r =
      rw (r.accepted, he)
        (dispatch-seen s' e
          (ap (λ i. e.identity_fingerprint == d.of_identity i) r.same_circuit ∙ mine)
          (ap (λ ys. contains ys e.event_id) r.recent
            ∙ contains-slice_last c.maximum_remembered_events s.unsigned.remembered_event_ids
                e.event_id))

  -- An event that changed the state is recognised when it is sent again: the second transition reports a
  -- duplicate and leaves the state as the first one left it.
  pub transition_circuit_breaker-again :
      (s : CircuitBreakerState) (e : CircuitBreakerEvent) {t : CircuitBreakerTransition}
      → transition_circuit_breaker d c s e ≡ ok t
      → t.state ≢ s
      → transition_circuit_breaker d c t.state e
        ≡ ok (transition_result true duplicate_event t.state t.state e.event_id)
  transition_circuit_breaker-again s e {t} h changed =
      let (he, hd) = parts s e h in
      elim (transition_circuit_breaker-Follows d c s e h) [
        | inl same ↦ absurd (changed same)
        | inr (move, r) ↦ remembered_again s e t.state he (for_this_circuit s e hd changed) r
      ]

  -- A circuit that remembers no more events than are configured never remembers more. At least one event
  -- is to be remembered.
  pub transition_circuit_breaker-bounded :
      (s : CircuitBreakerState) (e : CircuitBreakerEvent) {t : CircuitBreakerTransition}
      → 0 < c.maximum_remembered_events
      → length s.unsigned.remembered_event_ids ≤ c.maximum_remembered_events
      → transition_circuit_breaker d c s e ≡ ok t
      → length t.state.unsigned.remembered_event_ids ≤ c.maximum_remembered_events
  transition_circuit_breaker-bounded s e {t} positive small h =
      elim (transition_circuit_breaker-Follows d c s e h) [
        | inl same ↦
            subst
              (λ (r : CircuitBreakerState).
                length r.unsigned.remembered_event_ids ≤ c.maximum_remembered_events)
              (sym same) small
        | inr (move, r) ↦
            subst (λ (ys : List String). length ys ≤ c.maximum_remembered_events) (sym r.recent)
              (length-slice_last c.maximum_remembered_events _ positive)
      ]
