-- ===== src/Router/Circuit/Parsing.antt =====
-- packages/router/src/circuit.ts: what the parsers of a state and of an event accept.
use ai_development_os.Prelude.{
  ℕ, ◌≤◌, ◌≡◌, refl, sym, ap, ◌∙◌, String, Bool, true, List, [], ◌∷◌, Result, ok, err, guard,
  guard-eq-ok, map_result, leb, length, is_nodup, ◌==◌, string_eq, arith, after_ok, after_check,
  beq_refl, le→leb,
}
use ai_development_os.Domain.Guards.{
  ensure_string, ensure_safe_integer, ensure_safe_integer-eq-ok, ensure_safe_integer_accepts,
  is_identifier,
}
use ai_development_os.Domain.Errors as Errors
use ai_development_os.Domain.Usage.Parsing.{ensure_string-eq-ok}
use ai_development_os.Router.Shared.{is_hex_64, is_safe_kind}
use ai_development_os.Router.Circuit.State.{
  Unsigned, CircuitBreakerIdentity, CircuitBreakerState, CircuitBreakerEvent, Digest, Checked,
  validated, parse_identity, parse_event_id, parse_unsigned, is_consistent,
  parse_circuit_breaker_state, parse_event,
}

pub validated-eq-ok : {A : Type 0} (m : Errors.Checked A) {a : A} → validated m ≡ ok a → m ≡ ok a
validated-eq-ok (ok b) h = cc h
validated-eq-ok (err e) h = absurd (cc h)

string_same :
    (p : String → Bool) (lo hi : ℕ) (v : String) {r : String}
    → validated (ensure_string p lo hi v) ≡ ok r
    → r ≡ v
string_same p lo hi v h = ensure_string-eq-ok p lo hi v (validated-eq-ok _ h)

pub map_result-eq-ok {ℓ μ} :
    {E : Type μ} {A : Type ℓ} (f : A → Result E A) (xs : List A) {ys : List A}
    → ((x y : A) → f x ≡ ok y → y ≡ x)
    → map_result f xs ≡ ok ys
    → ys ≡ xs
map_result-eq-ok f [] same h = cc h
map_result-eq-ok f (x ∷ xs) {ys} same h = after_ok (f x) _ h λ y hy h1.
    after_ok (map_result f xs) _ h1
      λ zs hzs h2. cc (h2, same x y hy, map_result-eq-ok f xs same hzs)

pub parse_identity-eq-ok :
    (v : CircuitBreakerIdentity) {r : CircuitBreakerIdentity} → parse_identity v ≡ ok r → r ≡ v
unfolding parse_identity
parse_identity-eq-ok v h =
    after_ok (validated (ensure_string is_identifier 1 128 v.provider_instance_id)) _ h λ a ha h1.
      after_ok (validated (ensure_string is_identifier 1 128 v.contract_model_id)) _ h1 λ b hb h2.
        after_ok (validated (ensure_string is_safe_kind 1 64 v.operation_class)) _ h2
          λ c hc h3. cc (h3, string_same _ _ _ _ ha, string_same _ _ _ _ hb, string_same _ _ _ _ hc)

-- What the parser asks of a state, its fingerprint apart.
pub record IsValid (u : Unsigned) : Type 0 where
  pub count : length u.remembered_event_ids ≤ 10000
  pub ids : map_result parse_event_id u.remembered_event_ids ≡ ok u.remembered_event_ids
  pub distinct : is_nodup u.remembered_event_ids ≡ true
  pub named : parse_identity u.identity ≡ ok u.identity
  pub failures : u.consecutive_failures ≤ 1000000
  pub consistent : is_consistent u.phase u.opened_at u.cool_down_until u.probe_in_flight ≡ true

-- The facts about the identifiers and the fields, of the parts of a successful parse.
pub parse_unsigned-eq-ok :
    (u : Unsigned) {r : Unsigned} → parse_unsigned u ≡ ok r → (r ≡ u) × IsValid u
unfolding parse_unsigned
parse_unsigned-eq-ok u {r} h =
    after_check (guard (leb (length u.remembered_event_ids) 10000) _) _ h λ hcount h1.
      after_ok (map_result parse_event_id u.remembered_event_ids) _ h1 λ ids hids h2.
        after_check (guard (is_nodup ids) _) _ h2 λ hnodup h3.
          after_ok (parse_identity u.identity) _ h3 λ identity hidentity h4.
            after_ok (validated (ensure_safe_integer u.consecutive_failures 0 1000000)) _ h4
              λ failures hfailures h5.
                after_check
                  (guard (is_consistent u.phase u.opened_at u.cool_down_until u.probe_in_flight) _)
                  _ h5
                  λ hconsistent h6.
                    let same_ids : ids ≡ u.remembered_event_ids =
                      map_result-eq-ok parse_event_id _ (λ x y e. string_same _ _ _ _ e) hids in
                    let same_identity : identity ≡ u.identity = parse_identity-eq-ok _ hidentity in
                    let (same_failures, _, small, _) =
                      ensure_safe_integer-eq-ok _ 0 1000000 (validated-eq-ok _ hfailures) in
                    (
                      cc (h6, same_ids, same_identity, same_failures),
                      record {
                        count = ground (arith, guard-eq-ok _ _ hcount);
                        ids = rw same_ids at hids;
                        distinct = ap is_nodup (sym same_ids) ∙ guard-eq-ok _ _ hnodup;
                        named = rw same_identity at hidentity;
                        failures = small;
                        consistent = guard-eq-ok _ _ hconsistent;
                      },
                    )

pub parse_unsigned_accepts : (u : Unsigned) → IsValid u → parse_unsigned u ≡ ok u
unfolding parse_unsigned
parse_unsigned_accepts u v =
    rw
      (
        le→leb _ _ v.count,
        v.ids,
        v.distinct,
        v.named,
        ensure_safe_integer_accepts u.consecutive_failures 0 1000000 (omega arith) v.failures
            (omega (arith, v.failures)),
        v.consistent,
      )
      refl

pub parse_circuit_breaker_state-eq-ok :
    (d : Digest) (s : CircuitBreakerState) {r : CircuitBreakerState}
    → parse_circuit_breaker_state d s ≡ ok r
    → (r ≡ s) × IsValid s.unsigned × (d.of_unsigned s.unsigned ≡ s.fingerprint)
unfolding parse_circuit_breaker_state
parse_circuit_breaker_state-eq-ok d s {r} h = after_ok (parse_unsigned s.unsigned) _ h λ u hu h1.
    after_ok (validated (ensure_string is_hex_64 64 64 s.fingerprint)) _ h1 λ f hf h2.
      after_check (guard (d.of_unsigned u == f) _) _ h2 λ hsame h3.
        let (same, valid) = parse_unsigned-eq-ok _ hu in
        let same_text = string_same _ _ _ _ hf in
        (
          cc (h3, same, same_text),
          valid,
          cc (same, same_text, (string_eq.decides _ _).0 (guard-eq-ok _ _ hsame)),
        )

-- A state signed by the digest passes, if the digest gives 64 hexadecimal digits.
pub parse_circuit_breaker_state_accepts :
    (d : Digest) (u : Unsigned)
    → IsValid u
    → ensure_string is_hex_64 64 64 (d.of_unsigned u) ≡ ok (d.of_unsigned u)
    → ◌≡◌ {A = Checked CircuitBreakerState}
        (parse_circuit_breaker_state d (record { unsigned = u; fingerprint = d.of_unsigned u }))
        (ok (record { unsigned = u; fingerprint = d.of_unsigned u }))
unfolding parse_circuit_breaker_state
parse_circuit_breaker_state_accepts d u v hex =
    rw (parse_unsigned_accepts u v, hex, beq_refl (d.of_unsigned u)) refl

pub parse_event-eq-ok :
    (e : CircuitBreakerEvent) {r : CircuitBreakerEvent}
    → parse_event e ≡ ok r
    → (r ≡ e) × (parse_event_id e.event_id ≡ ok e.event_id)
unfolding parse_event
parse_event-eq-ok e h = after_ok (parse_event_id e.event_id) _ h λ id hid h1.
    after_ok (validated (ensure_string is_hex_64 64 64 e.identity_fingerprint)) _ h1 λ f hf h2.
      let same = string_same _ _ _ _ hid in (cc (h2, same, string_same _ _ _ _ hf), rw same at hid)
