-- ===== src/Domain/Account/Restoring.antt =====
-- packages/domain/src/budget-account.ts: what a command leaves can be stored and read back: the parser of
-- states keeps it as it is.
use ai_development_os.Prelude.{
  ◌<◌, ◌≡◌, refl, sym, subst, inl, inr, String, ◌&&◌, none, some, [], ◌∷◌, ok, guard, reject_if,
  reject_if-eq-ok, or_fail, or_fail-eq-ok, ◌==◌, string_eq, nat_eq, option_eq, length,
  length-append, length-map, leb, arith, after_ok, after_check, after_then, ok-injective,
  Bool-cases, Option-cases,
}
use ai_development_os.Domain.Errors.{invariant_violation, unknown_reservation, budget_exceeded}
use ai_development_os.Domain.Guards.{Timestamp, max_safe_integer, is_identifier}
use ai_development_os.Domain.Usage.{UsageAmounts, parse_usage_amounts, usage_amounts_equal}
use ai_development_os.Domain.Usage.Parsing.{parse_usage_amounts-eq-ok, ensure_string-eq-ok}
use ai_development_os.Domain.Account.{
  ReservationStatus, held, committed, released, cancelled, Reservation, AccountState,
  max_reservations, is_held, parse_reservation_id, parse_account_state,
  assert_currency_matches_budget,
}
use ai_development_os.Domain.Account.Admission.{evaluate_reservation}
use ai_development_os.Domain.Account.Commands.{
  check_version, find_reservation, new_reservation, replay_reserve, is_open, place_reservation,
  reserve_budget, same_usage, settle_with_usage, commit_reservation, SettleCommand, Terminal,
  release, cancel, has_ended_as, end_hold, settle_without_usage, release_reservation,
  cancel_reservation, cancel_if_held, cancel_account,
}
use ai_development_os.Domain.Account.Validity.{IsSound, append-AreSound, map-AreSound, find-IsSound}
use ai_development_os.Domain.Account.Lifecycle.{Command, reserve, commit, settle, cancel_all, run}
use ai_development_os.Domain.Account.Parsed.{
  Parses, Parses-of_parsed, parse_account_state-of_Parses, next-Parses, replaced-Parses,
  ended-IsSound, cancelled-IsSound, cancel_if_held-id, committed-IsSound,
}

settle_with_usage-Parses :
    (s : AccountState) (actual : UsageAmounts) (at : Timestamp) (existing : Reservation)
    {s' : AccountState}
    → Parses s
    → s.version < max_safe_integer
    → IsSound s.budget
        (record existing { status = committed; actual = some actual; settled_at = some at })
    → (status : ReservationStatus) → settle_with_usage s actual at existing status ≡ ok s'
    → Parses s'
unfolding settle_with_usage
settle_with_usage-Parses s actual at existing p room sound held h =
    subst Parses (ok-injective h) (replaced-Parses s _ p room sound)
settle_with_usage-Parses s actual at existing p room sound committed h =
    after_then (same_usage existing.actual actual && (existing.settled_at == some at)) (ok s) _ h
      λ _ e. subst Parses (ok-injective e) p
settle_with_usage-Parses s actual at existing p room sound released h = absurd (cc h)
settle_with_usage-Parses s actual at existing p room sound cancelled h = absurd (cc h)

end_hold-Parses :
    (s : AccountState) (terminal : Terminal) (at : Timestamp) (existing : Reservation)
    {s' : AccountState}
    → Parses s
    → s.version < max_safe_integer
    → IsSound s.budget existing
    → end_hold s terminal at existing ≡ ok s'
    → Parses s'
unfolding end_hold
end_hold-Parses s terminal at existing p room sound h =
    elim (Bool-cases (has_ended_as terminal existing.status)) [
      | inl ended ↦
          after_then (existing.settled_at == some at) (ok s) _ (rw ended at h)
            λ _ e. subst Parses (ok-injective e) p
      | inr holding ↦ after_then (is_held existing.status) _ _ (rw holding at h) λ holds e.
          subst Parses (ok-injective e)
            (replaced-Parses s _ p room (ended-IsSound s.budget terminal at existing holds sound))
    ]

settle_without_usage-Parses :
    (s : AccountState) (c : SettleCommand) (terminal : Terminal) {s' : AccountState}
    → Parses s
    → s.version < max_safe_integer
    → settle_without_usage s c terminal ≡ ok s'
    → Parses s'
unfolding settle_without_usage
settle_without_usage-Parses s c terminal p room h =
    after_ok (parse_reservation_id c.reservation_id) _ h λ id _ h1.
      after_check (check_version s c.expected_version) _ h1 λ _ h2.
        after_ok
          (or_fail (find_reservation s.reservations id) (invariant_violation unknown_reservation)) _
          h2
          λ existing found h3.
            end_hold-Parses s terminal c.settled_at existing p room
              (find-IsSound s.budget [] s.reservations id p.sound (or_fail-eq-ok _ _ found)) h3

place_reservation-Parses :
    (s : AccountState) (id : String) (estimate : UsageAmounts) (at : Timestamp) {s' : AccountState}
    → Parses s
    → s.version < max_safe_integer
    → parse_reservation_id id ≡ ok id
    → parse_usage_amounts estimate ≡ ok estimate
    → find_reservation s.reservations id ≡ none
    → place_reservation s id estimate at ≡ ok s'
    → Parses s'
unfolding place_reservation evaluate_reservation
place_reservation-Parses s id estimate at p room named valid absent h =
    after_check (guard (is_open s.status) _) _ h λ _ h1.
      after_check (reject_if (leb max_reservations (length s.reservations)) _) _ h1 λ space h2.
        after_ok (evaluate_reservation s estimate) _ h2 λ d judged h3.
          after_check (guard d.allowed (budget_exceeded d)) _ h3 λ _ e.
            after_ok (parse_usage_amounts estimate) _ judged λ parsed he j1.
              after_check (assert_currency_matches_budget s.budget parsed) _ j1 λ priced _.
                let same = parse_usage_amounts-eq-ok estimate he in
                let shorter = reject_if-eq-ok _ _ space in
                subst Parses (ok-injective e) (
                  next-Parses s _ p room refl refl refl
                    (ground (
                      arith,
                      shorter,
                      length-append s.reservations (new_reservation id estimate at ∷ []),
                    ))
                    (append-AreSound s.budget [] s.reservations (new_reservation id estimate at)
                      p.sound
                      (record {
                        actual = refl;
                        consistent = refl;
                        named = named;
                        estimate = valid;
                        estimate_currency =
                            subst (λ u. assert_currency_matches_budget s.budget u ≡ ok tt) same
                              priced;
                        actual_currency = refl;
                      })
                      refl absent))

run-Parses :
    (s : AccountState) (c : Command) {s' : AccountState}
    → Parses s
    → s.version < max_safe_integer
    → run s c ≡ ok s'
    → Parses s'
unfolding run reserve_budget commit_reservation release_reservation cancel_reservation
    cancel_account replay_reserve parse_reservation_id
run-Parses s (reserve c) p room h =
    after_ok (parse_reservation_id c.reservation_id) _ h λ id hid h1.
      after_ok (parse_usage_amounts c.estimate) _ h1 λ estimate he h2.
        after_check (check_version s c.expected_version) _ h2 λ _ h3.
          elim (Option-cases (find_reservation s.reservations id)) [
            | inl fresh ↦
                place_reservation-Parses s id estimate c.requested_at p room
                  (subst (λ i. parse_reservation_id i ≡ ok id)
                    (sym (ensure_string-eq-ok is_identifier 1 128 c.reservation_id hid)) hid)
                  (subst (λ u. parse_usage_amounts u ≡ ok estimate)
                    (sym (parse_usage_amounts-eq-ok c.estimate he)) he)
                  fresh (rw fresh at h3)
            | inr (existing, found) ↦
                after_then
                  (is_held existing.status
                    && (usage_amounts_equal existing.estimate estimate
                        && (existing.created_at == c.requested_at)))
                  (ok s) _ (rw found at h3) (λ _ e. subst Parses (ok-injective e) p)
          ]
run-Parses s (commit c) p room h = after_ok (parse_reservation_id c.reservation_id) _ h λ id _ h1.
    after_ok (parse_usage_amounts c.actual) _ h1 λ actual ha h2.
      after_check (assert_currency_matches_budget s.budget actual) _ h2 λ priced h3.
        after_check (check_version s c.expected_version) _ h3 λ _ h4.
          after_ok
            (or_fail (find_reservation s.reservations id) (invariant_violation unknown_reservation))
            _ h4
            λ existing found h5.
              settle_with_usage-Parses s actual c.settled_at existing p room
                (committed-IsSound s.budget actual c.settled_at existing
                  (subst (λ u. parse_usage_amounts u ≡ ok actual)
                    (sym (parse_usage_amounts-eq-ok c.actual ha)) ha)
                  priced
                  (find-IsSound s.budget [] s.reservations id p.sound (or_fail-eq-ok _ _ found)))
                existing.status h5
run-Parses s (settle release c) p room h = settle_without_usage-Parses s c release p room h
run-Parses s (settle cancel c) p room h = settle_without_usage-Parses s c cancel p room h
run-Parses s (cancel_all c) p room h = after_check (check_version s c.expected_version) _ h λ _ h1.
    elim (Bool-cases (is_open s.status)) [
      | inl opened ↦ subst Parses (ok-injective (rw opened at h1)) (
          next-Parses s _ p room refl refl refl
            (let short = p.short in
              ground (arith, short, length-map s.reservations (cancel_if_held c.cancelled_at)))
            (map-AreSound s.budget (cancel_if_held c.cancelled_at) [] s.reservations
              (cancelled-IsSound s.budget c.cancelled_at) (cancel_if_held-id c.cancelled_at)
              p.sound))
      | inr closed ↦ subst Parses (ok-injective (rw closed at h1)) p
    ]

-- What a command leaves can be read back: if the parser of states keeps an account as it is, it keeps what a
-- command that succeeds makes of it. The version is not yet the last safe integer.
pub run-parse_account_state :
    (s : AccountState) (c : Command) {s' : AccountState}
    → parse_account_state s ≡ ok s
    → s.version < max_safe_integer
    → run s c ≡ ok s'
    → parse_account_state s' ≡ ok s'
run-parse_account_state s c {s'} parsed room h =
    parse_account_state-of_Parses s' (run-Parses s c (Parses-of_parsed s parsed) room h)
