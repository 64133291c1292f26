-- ===== src/Router/Circuit/Sealing.antt =====
-- packages/router/src/circuit.ts: `sealState`, which ends every change of a state.
use ai_development_os.Prelude.{ℕ, ◌≡◌, sym, subst, ap, ◌∙◌, [], ◌∷◌, ◌++◌, some, ok, string_eq}
use ai_development_os.Router.Circuit.State.{
  CircuitEventKind, Unsigned, CircuitBreakerState, CircuitBreakerEvent, Digest,
  parse_circuit_breaker_state,
}
use ai_development_os.Router.Circuit.Transition.{
  CircuitConfiguration, forget, slice_last, seal_state,
}
use ai_development_os.Router.Circuit.Parsing.{parse_circuit_breaker_state-eq-ok}
use ai_development_os.Router.Circuit.Machine.{Move, view, circuit_of}

-- What sealing gives: the state that was sealed, with fewer events remembered.
pub seal_state-eq-ok :
    (d : Digest) (u : Unsigned) (maximum : ℕ) {s : CircuitBreakerState}
    → seal_state d u maximum ≡ ok s
    → s ≡ record { unsigned = forget u maximum; fingerprint = d.of_unsigned (forget u maximum) }
unfolding seal_state
seal_state-eq-ok d u maximum h = (parse_circuit_breaker_state-eq-ok d _ h).0

-- What every change of a state does besides: the circuit stays the same one, the event is its last one
-- and is remembered with the most recent of the others, and the parser accepts the new state.
pub record Remembers (d : Digest) (c : CircuitConfiguration) (s : CircuitBreakerState)
    (e : CircuitBreakerEvent) (s' : CircuitBreakerState) : Type 0 where
  pub same_circuit : s'.unsigned.identity ≡ s.unsigned.identity
  pub last : s'.unsigned.last_event_at ≡ some e.occurred_at
  pub recent :
      s'.unsigned.remembered_event_ids
      ≡ slice_last c.maximum_remembered_events
          (s.unsigned.remembered_event_ids ++ (e.event_id ∷ []))
  pub accepted : parse_circuit_breaker_state d s' ≡ ok s'

pub seal_state-parsed :
    (d : Digest) (u : Unsigned) (maximum : ℕ) {s : CircuitBreakerState}
    → seal_state d u maximum ≡ ok s
    → parse_circuit_breaker_state d s ≡ ok s
unfolding seal_state
seal_state-parsed d u maximum {s} h =
    subst (λ r. parse_circuit_breaker_state d r ≡ ok s) (sym (seal_state-eq-ok d u maximum h)) h

-- A state that is sealed after an event.
pub seal_state-moves :
    (d : Digest) (c : CircuitConfiguration) (s : CircuitBreakerState) (e : CircuitBreakerEvent)
    (kind : CircuitEventKind) (u : Unsigned) {s' : CircuitBreakerState}
    → u.identity ≡ s.unsigned.identity
    → u.last_event_at ≡ some e.occurred_at
    → u.remembered_event_ids ≡ s.unsigned.remembered_event_ids ++ (e.event_id ∷ [])
    → Move c e.occurred_at kind
        (circuit_of s)
        (view u.phase u.consecutive_failures u.cool_down_until)
    → seal_state d u c.maximum_remembered_events ≡ ok s'
    → Move c e.occurred_at kind (circuit_of s) (circuit_of s') × Remembers d c s e s'
seal_state-moves d c s e kind u {s'} named last ids move h =
    let made = seal_state-eq-ok d u c.maximum_remembered_events h in
    (
      subst (λ r. Move c e.occurred_at kind (circuit_of s) (circuit_of r)) (sym made) move,
      record {
        same_circuit = ap (λ (r : CircuitBreakerState). r.unsigned.identity) made ∙ named;
        last = ap (λ (r : CircuitBreakerState). r.unsigned.last_event_at) made ∙ last;
        recent =
            ap (λ (r : CircuitBreakerState). r.unsigned.remembered_event_ids) made
            ∙ ap (slice_last c.maximum_remembered_events) ids;
        accepted = seal_state-parsed d u c.maximum_remembered_events h;
      },
    )
