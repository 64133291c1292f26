-- ===== src/Router/Circuit/Recovery.antt =====
-- packages/router/src/circuit.ts: an open circuit recovers, by a probe and its success.
use ai_development_os.Prelude.{
  ok-injective, ◌+◌, after_ok, ◌≤◌, ◌<◌, ◌≡◌, refl, sym, ap, ◌∙◌, subst, inl, inr, String, Bool,
  true, false, not, ◌||◌, List, [], ◌∷◌, ok, contains, contains-append, ◌==◌, string_eq, arith,
  if◌then◌else◌,
}
use ai_development_os.Router.Circuit.Time.{is_out_of_order, is_cooling, max_time}
use ai_development_os.Router.Circuit.State.{
  closed, open_phase, half_open, CircuitEventKind, success, admit_probe, Unsigned,
  CircuitBreakerState, CircuitBreakerEvent, Digest, Checked, parse_circuit_breaker_state,
  parse_event,
}
use ai_development_os.Router.Circuit.Transition.{
  CircuitConfiguration, CircuitBreakerTransition, is_open, seal_state, admit, unchanged,
  event_not_applicable, record_success, apply_kind, dispatch, transition_circuit_breaker,
}
use ai_development_os.Router.Circuit.Memory.{slice_last_ind, contains-drop-false}
use ai_development_os.Router.Circuit.Sealing.{Remembers}
use ai_development_os.Router.Circuit.Phases.{transition_circuit_breaker-Follows}
use ai_development_os.Router.Circuit.Retries.{parts}
use ai_development_os.Router.Circuit.Time.{text_leb}
use ai_development_os.Router.Circuit.Sealing.{seal_state-eq-ok}
use ai_development_os.Router.Circuit.Progress.{IsHex, InRange, transition_circuit_breaker-Returns}

-- An event of a kind that the circuit accepts: it is for this circuit, new, and later than the last one.
pub record IsNew (d : Digest) (s : CircuitBreakerState) (e : CircuitBreakerEvent) : Type 0 where
  pub parsed : parse_event e ≡ ok e
  pub mine : (e.identity_fingerprint == d.of_identity s.unsigned.identity) ≡ true
  pub fresh : contains s.unsigned.remembered_event_ids e.event_id ≡ false
  pub ordered : is_out_of_order s.unsigned.last_event_at e.occurred_at ≡ false

module _ (d : Digest) (c : CircuitConfiguration) where
  new_event :
      (s : CircuitBreakerState) (e : CircuitBreakerEvent) {t : CircuitBreakerTransition}
      → IsNew d s e
      → transition_circuit_breaker d c s e ≡ ok t
      → apply_kind d c s e e.kind ≡ ok t
  unfolding dispatch
  new_event s e new h = rw (new.mine, new.fresh, new.ordered) at (parts d c s e h).1

  -- The phase and the count of the state that was sealed.
  reads :
      (s : CircuitBreakerState) (e : CircuitBreakerEvent) (u : Unsigned)
      {made : CircuitBreakerTransition} {t : CircuitBreakerTransition} {f : String}
      → ◌≡◌ {A = Checked CircuitBreakerTransition} (ok made) (ok t)
      → made.state ≡ record { unsigned = u; fingerprint = f }
      → (t.state.unsigned.phase ≡ u.phase)
        × (t.state.unsigned.consecutive_failures ≡ u.consecutive_failures)
  reads s e u done same =
      let state_of = λ (r : CircuitBreakerTransition). r.state in
      let whole = ap state_of (sym (ok-injective done)) ∙ same in
      (
        ap (λ (r : CircuitBreakerState). r.unsigned.phase) whole,
        ap (λ (r : CircuitBreakerState). r.unsigned.consecutive_failures) whole,
      )

  admit-phase :
      (s : CircuitBreakerState) (e : CircuitBreakerEvent) {t : CircuitBreakerTransition}
      → (not (is_open s.unsigned.phase) || is_cooling s.unsigned.cool_down_until e.occurred_at)
        ≡ false
      → admit d c s e ≡ ok t
      → (t.state.unsigned.phase ≡ half_open)
        × (t.state.unsigned.consecutive_failures ≡ s.unsigned.consecutive_failures)
  unfolding admit
  admit-phase s e {t} admitted h =
      after_ok (seal_state d _ _) _ (rw admitted at h)
        λ next sealed done. reads s e _ done (seal_state-eq-ok d _ _ sealed)

  success-phase :
      (s : CircuitBreakerState) (e : CircuitBreakerEvent) {t : CircuitBreakerTransition}
      → record_success d c s e ≡ ok t
      → (t.state.unsigned.phase ≡ closed) × (t.state.unsigned.consecutive_failures ≡ 0)
  unfolding record_success
  success-phase s e {t} h =
      after_ok (seal_state d _ _) _ h
        λ next sealed done. reads s e _ done (seal_state-eq-ok d _ _ sealed)

  -- After a probe, an event that was new before is still new.
  still-IsNew :
      (s s' : CircuitBreakerState) (p a : CircuitBreakerEvent)
      → IsNew d s a
      → (p.event_id == a.event_id) ≡ false
      → text_leb a.occurred_at p.occurred_at ≡ false
      → Remembers d c s p s'
      → IsNew d s' a
  still-IsNew s s' p a new differs later r = record {
    parsed = new.parsed;
    mine = ap (λ i. a.identity_fingerprint == d.of_identity i) r.same_circuit ∙ new.mine;
    fresh =
        subst (λ (ys : List String). contains ys a.event_id ≡ false) (sym r.recent)
          (slice_last_ind (λ (ys : List String). contains ys a.event_id ≡ false)
            c.maximum_remembered_events _ (λ m ys. contains-drop-false m ys a.event_id)
            (rw
              (
                contains-append s.unsigned.remembered_event_ids (p.event_id ∷ []) a.event_id,
                new.fresh,
                differs,
              )
              refl));
    ordered = ap (λ o. is_out_of_order o a.occurred_at) r.last ∙ later;
  }

  probe_succeeds :
      (s : CircuitBreakerState) (a : CircuitBreakerEvent) {t : CircuitBreakerTransition}
      → IsNew d s a
      → a.kind ≡ success
      → s.unsigned.phase ≡ half_open
      → transition_circuit_breaker d c s a ≡ ok t
      → (t.state.unsigned.phase ≡ closed) × (t.state.unsigned.consecutive_failures ≡ 0)
  unfolding apply_kind
  probe_succeeds s a {t} new kind phase h =
      let applied : apply_kind d c s a success ≡ ok t =
        subst (λ (k : CircuitEventKind). apply_kind d c s a k ≡ ok t) kind (new_event s a new h) in
      success-phase s a (
        subst
          (λ (b : Bool).
            (if b then unchanged false event_not_applicable s a else record_success d c s a) ≡ ok t)
          (ap is_open phase) applied)

  -- The first half: the probe is admitted.
  probe_admitted :
      (s : CircuitBreakerState) (p : CircuitBreakerEvent) {t : CircuitBreakerTransition}
      → s.unsigned.phase ≡ open_phase
      → is_cooling s.unsigned.cool_down_until p.occurred_at ≡ false
      → IsNew d s p
      → p.kind ≡ admit_probe
      → transition_circuit_breaker d c s p ≡ ok t
      → (t.state.unsigned.phase ≡ half_open)
        × (t.state.unsigned.consecutive_failures ≡ s.unsigned.consecutive_failures)
        × Remembers d c s p t.state
  unfolding apply_kind
  probe_admitted s p {t} phase cooled new kind h =
      let applied : apply_kind d c s p admit_probe ≡ ok t =
        subst (λ (k : CircuitEventKind). apply_kind d c s p k ≡ ok t) kind (new_event s p new h) in
      let opened : is_open s.unsigned.phase ≡ true = ap is_open phase in
      let (half, failures) = admit-phase s p (rw (opened, cooled) refl) applied in
      elim (transition_circuit_breaker-Follows d c s p h) [
        | inl same ↦
            absurd (cc (half, phase, ap (λ (r : CircuitBreakerState). r.unsigned.phase) same))
        | inr (move, r) ↦ (half, failures, r)
      ]

  -- An open circuit recovers: when the cool-down is over, a new probe is admitted, and a later new event
  -- of success closes the circuit and clears its count of failures. Both transitions give a result, for a
  -- state that the parser accepts, under the ranges of the configuration and of times, with fewer than a
  -- million failures counted in a row and digests of 64 hexadecimal digits.
  pub transition_circuit_breaker-recovers :
      (s : CircuitBreakerState) (p a : CircuitBreakerEvent)
      → IsHex d
      → InRange c
      → parse_circuit_breaker_state d s ≡ ok s
      → s.unsigned.phase ≡ open_phase
      → is_cooling s.unsigned.cool_down_until p.occurred_at ≡ false
      → s.unsigned.consecutive_failures < 1000000
      → IsNew d s p
      → p.kind ≡ admit_probe
      → p.occurred_at + c.cool_down_ms ≤ max_time
      → IsNew d s a
      → (p.event_id == a.event_id) ≡ false
      → text_leb a.occurred_at p.occurred_at ≡ false
      → a.kind ≡ success
      → a.occurred_at + c.cool_down_ms ≤ max_time
      → (t t' : CircuitBreakerTransition) × (transition_circuit_breaker d c s p ≡ ok t)
        × (transition_circuit_breaker d c t.state a ≡ ok t')
        × (t'.state.unsigned.phase ≡ closed)
        × (t'.state.unsigned.consecutive_failures ≡ 0)
  transition_circuit_breaker-recovers s p a hex range hs phase cooled few newp kindp timep newa
        differs later kinda timea =
      let (t, ht) = transition_circuit_breaker-Returns d hex c range s p hs newp.parsed few timep in
      let (half, failures, r) = probe_admitted s p phase cooled newp kindp ht in
      let new = still-IsNew s t.state p a newa differs later r in
      let (t', ht') =
        transition_circuit_breaker-Returns d hex c range t.state a r.accepted newa.parsed
          (omega (arith, failures, few)) timea in
      let (shut, cleared) = probe_succeeds t.state a new kinda half ht' in
      (t, t', ht, ht', shut, cleared)
