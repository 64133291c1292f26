-- ===== src/Router/Circuit/Phases.antt =====
-- packages/router/src/circuit.ts: the transitions are moves of the abstract circuit.
use ai_development_os.Prelude.{
  ◌+◌, ◌≡◌, refl, subst, ◌⊎◌, inl, inr, true, false, not, ◌||◌, some, ok, or_fail, or_fail-eq-ok,
  leb, ◌==◌, string_eq, contains, after_ok, ok-injective, Bool-cases, if◌then◌else◌,
}
use ai_development_os.Domain.Guards.{ensure_safe_integer, ensure_safe_integer-eq-ok}
use ai_development_os.Router.Circuit.Time.{is_out_of_order, add_ms-eq-some, is_cooling, add_ms}
use ai_development_os.Router.Circuit.State.{
  CircuitEventKind, success, retryable_failure, terminal_provider_failure, admit_probe,
  CircuitBreakerState, CircuitBreakerEvent, Digest, Checked, validated, parse_circuit_breaker_state,
  parse_event,
}
use ai_development_os.Router.Circuit.Transition.{
  CircuitConfiguration, CircuitBreakerTransition, is_open, is_half_open, seal_state, admit,
  unchanged, event_not_applicable, record_success, record_failure, trip, count_failure, apply_kind,
  dispatch, transition_circuit_breaker,
}
use ai_development_os.Router.Circuit.Parsing.{
  parse_circuit_breaker_state-eq-ok, parse_event-eq-ok, validated-eq-ok,
}
use ai_development_os.Router.Circuit.Machine.{
  Move, circuit_of, blocked, passing, is_failure, admit_move, success_move, trip_move, count_move,
}
use ai_development_os.Router.Circuit.Sealing.{Remembers, seal_state-moves}

module _ (d : Digest) (c : CircuitConfiguration) where
  -- The state after a transition: as before, or one move of the circuit on.
  abbrev pub Follows :
      CircuitBreakerState → CircuitBreakerEvent → CircuitEventKind → CircuitBreakerState → Type 0
  Follows s e kind s' =
      (s' ≡ s) ⊎ (Move c e.occurred_at kind (circuit_of s) (circuit_of s') × Remembers d c s e s')

  -- What holds of the result of a chain holds of the transition.
  pub settles :
      {s : CircuitBreakerState} {e : CircuitBreakerEvent} {kind : CircuitEventKind}
      (made : CircuitBreakerTransition) {t : CircuitBreakerTransition}
      → ◌≡◌ {A = Checked CircuitBreakerTransition} (ok made) (ok t)
      → Follows s e kind made.state
      → Follows s e kind t.state
  settles {s} {e} {kind} made {t} same f =
      subst (λ (r : CircuitBreakerTransition). Follows s e kind r.state) (ok-injective same) f

  admit-Follows :
      (s : CircuitBreakerState) (e : CircuitBreakerEvent) {t : CircuitBreakerTransition}
      → admit d c s e ≡ ok t
      → Follows s e admit_probe t.state
  unfolding admit
  admit-Follows s e {t} h =
      elim (Bool-cases
        (not (is_open s.unsigned.phase) || is_cooling s.unsigned.cool_down_until e.occurred_at)) [
          | inl refused ↦ settles _ (rw refused at h) (inl refl)
          | inr admitted ↦ after_ok (seal_state d _ _) _ (rw admitted at h) λ next sealed done.
              settles _ done (
                inr (
                  seal_state-moves d c s e admit_probe _ refl refl refl
                    (admit_move c s.unsigned.phase _ _ _ admitted) sealed))
        ]

  success-Follows :
      (s : CircuitBreakerState) (e : CircuitBreakerEvent) {t : CircuitBreakerTransition}
      → is_open s.unsigned.phase ≡ false
      → record_success d c s e ≡ ok t
      → Follows s e success t.state
  unfolding record_success
  success-Follows s e shut h = after_ok (seal_state d _ _) _ h λ next sealed done. settles _ done (
      inr (
        seal_state-moves d c s e success _ refl refl refl
          (success_move c s.unsigned.phase _ _ _ shut) sealed))

  trip-Follows :
      (s : CircuitBreakerState) (e : CircuitBreakerEvent) (kind : CircuitEventKind)
      {t : CircuitBreakerTransition}
      → Move c e.occurred_at kind
          (circuit_of s)
          (blocked (s.unsigned.consecutive_failures + 1) (some (e.occurred_at + c.cool_down_ms)))
      → trip d c s e (s.unsigned.consecutive_failures + 1) ≡ ok t
      → Follows s e kind t.state
  unfolding trip
  trip-Follows s e kind move h =
      after_ok (or_fail (add_ms e.occurred_at c.cool_down_ms) _) _ h λ until added h1.
        after_ok (seal_state d _ _) _ h1 λ next sealed done. settles _ done (
          inr (
            seal_state-moves d c s e kind _ refl refl refl
              (rw (add_ms-eq-some _ _ (or_fail-eq-ok _ _ added)) move) sealed))

  count_failure-Follows :
      (s : CircuitBreakerState) (e : CircuitBreakerEvent) (kind : CircuitEventKind)
      {t : CircuitBreakerTransition}
      → Move c e.occurred_at kind (circuit_of s) (passing (s.unsigned.consecutive_failures + 1))
      → count_failure d c s e (s.unsigned.consecutive_failures + 1) ≡ ok t
      → Follows s e kind t.state
  unfolding count_failure
  count_failure-Follows s e kind move h = after_ok (seal_state d _ _) _ h λ next sealed done.
      settles _ done (inr (seal_state-moves d c s e kind _ refl refl refl move sealed))

  failure-Follows :
      (s : CircuitBreakerState) (e : CircuitBreakerEvent) (kind : CircuitEventKind)
      {t : CircuitBreakerTransition}
      → is_failure kind ≡ true
      → is_open s.unsigned.phase ≡ false
      → record_failure d c s e ≡ ok t
      → Follows s e kind t.state
  unfolding record_failure
  failure-Follows s e kind {t} failed shut h =
      after_ok (validated (ensure_safe_integer (s.unsigned.consecutive_failures + 1) 0 1000000)) _ h
        λ failures counted h1.
          let (same, _, _, _) = ensure_safe_integer-eq-ok _ 0 1000000 (validated-eq-ok _ counted) in
          counted_on (rw same at h1)
    where
      counted_on :
          (if is_half_open s.unsigned.phase
                || leb c.failure_threshold (s.unsigned.consecutive_failures + 1)
              then trip d c s e (s.unsigned.consecutive_failures + 1)
              else count_failure d c s e (s.unsigned.consecutive_failures + 1))
            ≡ ok t
          → Follows s e kind t.state
      counted_on h2 =
          elim (Bool-cases (
            is_half_open s.unsigned.phase
            || leb c.failure_threshold (s.unsigned.consecutive_failures + 1))) [
              | inl full ↦
                  trip-Follows s e kind (trip_move c s.unsigned.phase _ _ _ kind shut failed full)
                    (rw full at h2)
              | inr few ↦
                  count_failure-Follows s e kind
                    (count_move c s.unsigned.phase _ _ e.occurred_at kind shut failed few)
                    (rw few at h2)
            ]

  -- An open circuit refuses all but a probe.
  unless_open :
      (s : CircuitBreakerState) (e : CircuitBreakerEvent) (kind : CircuitEventKind)
      (m : Checked CircuitBreakerTransition) {t : CircuitBreakerTransition}
      → (if is_open s.unsigned.phase then unchanged false event_not_applicable s e else m) ≡ ok t
      → (is_open s.unsigned.phase ≡ false → m ≡ ok t → Follows s e kind t.state)
      → Follows s e kind t.state
  unless_open s e kind m h k = elim (Bool-cases (is_open s.unsigned.phase)) [
    | inl held ↦ settles _ (rw held at h) (inl refl)
    | inr shut ↦ k shut (rw shut at h)
  ]

  apply_kind-Follows :
      (s : CircuitBreakerState) (e : CircuitBreakerEvent) (kind : CircuitEventKind)
      {t : CircuitBreakerTransition}
      → apply_kind d c s e kind ≡ ok t
      → Follows s e kind t.state
  unfolding apply_kind
  apply_kind-Follows s e admit_probe h = admit-Follows s e h
  apply_kind-Follows s e success h = unless_open s e success _ h (success-Follows s e)
  apply_kind-Follows s e retryable_failure h =
      unless_open s e retryable_failure _ h (failure-Follows s e retryable_failure refl)
  apply_kind-Follows s e terminal_provider_failure h =
      unless_open s e terminal_provider_failure _ h
        (failure-Follows s e terminal_provider_failure refl)

  -- Every branch leaves the state as it was but the last.
  pub dispatch-Follows :
      (s : CircuitBreakerState) (e : CircuitBreakerEvent) {t : CircuitBreakerTransition}
      → dispatch d c s e ≡ ok t
      → Follows s e e.kind t.state
  unfolding dispatch
  dispatch-Follows s e {t} h =
      elim (Bool-cases (not (e.identity_fingerprint == d.of_identity s.unsigned.identity))) [
        | inl other ↦ settles _ (rw other at h) (inl refl)
        | inr mine ↦ elim (Bool-cases (contains s.unsigned.remembered_event_ids e.event_id)) [
          | inl seen ↦ settles _ (rw (mine, seen) at h) (inl refl)
          | inr fresh ↦ elim (Bool-cases (is_out_of_order s.unsigned.last_event_at e.occurred_at)) [
            | inl late ↦ settles _ (rw (mine, fresh, late) at h) (inl refl)
            | inr ordered ↦ apply_kind-Follows s e e.kind (rw (mine, fresh, ordered) at h)
          ]
        ]
      ]

  -- A transition that succeeds leaves the state as it was, or it is a move of the abstract circuit at
  -- the time of the event, under the configured threshold and cool-down. Then the circuit is the same
  -- one, the event is its last one and is remembered with the most recent of the others, and the parser
  -- accepts the new state.
  pub transition_circuit_breaker-Follows :
      (s : CircuitBreakerState) (e : CircuitBreakerEvent) {t : CircuitBreakerTransition}
      → transition_circuit_breaker d c s e ≡ ok t
      → Follows s e e.kind t.state
  unfolding transition_circuit_breaker
  transition_circuit_breaker-Follows s e {t} h =
      after_ok (parse_circuit_breaker_state d s) _ h λ parsed hs h1.
        after_ok (parse_event e) _ h1 λ event he h2.
          dispatch-Follows s e
            (rw ((parse_circuit_breaker_state-eq-ok d s hs).0, (parse_event-eq-ok e he).0) at h2)
