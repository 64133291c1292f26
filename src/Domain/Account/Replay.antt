-- ===== src/Domain/Account/Replay.antt =====
-- packages/domain/src/budget-account.ts: commands that are sent again, and commands that name the
-- version of the account.
use ai_development_os.Prelude.{
  ℕ, ◌≡◌, refl, sym, subst, inl, inr, String, ◌&&◌, Option, none, some, ok, guard, reject_if,
  or_fail, or_fail-eq-ok, guard-eq-ok, leb, ◌==◌, string_eq, nat_eq, option_eq, nat_beq,
  nat_beq_iff, length, beq_refl, after_ok, after_check, after_then, ok-injective, Bool-cases,
}
use ai_development_os.Domain.Errors.{
  Checked, invariant_violation, unknown_reservation, budget_exceeded, concurrency_conflict,
}
use ai_development_os.Domain.Guards.{Timestamp}
use ai_development_os.Domain.Usage.{UsageAmounts, parse_usage_amounts, usage_amounts_equal}
use ai_development_os.Domain.Account.{
  Reservation, AccountState, parse_reservation_id, is_held, assert_currency_matches_budget,
  max_reservations,
}
use ai_development_os.Domain.Account.Admission.{evaluate_reservation}
use ai_development_os.Domain.Account.Commands.{
  check_version, find_reservation, replay_reserve, is_open, new_reservation, place_reservation,
  reserve_budget, commit_reservation, release, cancel, settle_without_usage, release_reservation,
  cancel_reservation, cancel_account,
}
use ai_development_os.Domain.Account.Lifecycle.{
  Command, reserve, commit, settle, cancel_all, run, expected_version,
}
use ai_development_os.Domain.Account.Endings.{
  find-append, usage_amounts_equal_refl, replay-settle, replay-settle_with_usage,
}

same_version :
    (s : AccountState) (v : ℕ) (expected : Option ℕ)
    → expected ≡ some v
    → check_version s expected ≡ ok tt
    → v ≡ s.version
same_version s v expected named same =
    (nat_beq_iff v s.version).0
      (guard-eq-ok (nat_beq v s.version) concurrency_conflict (rw named at same))

-- A command that names a version succeeds only if the account has that version.
run-version :
    (s : AccountState) (c : Command) (v : ℕ) {s' : AccountState}
    → expected_version c ≡ some v
    → run s c ≡ ok s'
    → v ≡ s.version
unfolding run reserve_budget commit_reservation release_reservation cancel_reservation
    settle_without_usage cancel_account
run-version s (reserve c) v named h =
    after_ok (parse_reservation_id c.reservation_id) _ h λ id _ h1.
      after_ok (parse_usage_amounts c.estimate) _ h1 λ estimate _ h2.
        after_check (check_version s c.expected_version) _ h2
          λ same _. same_version s v c.expected_version named same
run-version s (commit c) v named h = after_ok (parse_reservation_id c.reservation_id) _ h λ id _ h1.
    after_ok (parse_usage_amounts c.actual) _ h1 λ actual _ h2.
      after_check (assert_currency_matches_budget s.budget actual) _ h2 λ _ h3.
        after_check (check_version s c.expected_version) _ h3
          λ same _. same_version s v c.expected_version named same
run-version s (settle release c) v named h =
    after_ok (parse_reservation_id c.reservation_id) _ h λ id _ h1.
      after_check (check_version s c.expected_version) _ h1
        λ same _. same_version s v c.expected_version named same
run-version s (settle cancel c) v named h =
    after_ok (parse_reservation_id c.reservation_id) _ h λ id _ h1.
      after_check (check_version s c.expected_version) _ h1
        λ same _. same_version s v c.expected_version named same
run-version s (cancel_all c) v named h =
    after_check (check_version s c.expected_version) _ h
      λ same _. same_version s v c.expected_version named same

-- The answer of `reserveBudget` once it has looked for the id.
abbrev answer :
    AccountState → String → UsageAmounts → Timestamp → Option Reservation → Checked AccountState
answer s id estimate at (some existing) = replay_reserve s estimate at existing
answer s id estimate at none = place_reservation s id estimate at

replay-place_reservation :
    (s : AccountState) (id : String) (estimate : UsageAmounts) (at : Timestamp) {s' : AccountState}
    → find_reservation s.reservations id ≡ none
    → place_reservation s id estimate at ≡ ok s'
    → answer s' id estimate at (find_reservation s'.reservations id) ≡ ok s'
unfolding place_reservation replay_reserve
replay-place_reservation s id estimate at fresh h =
    after_check (guard (is_open s.status) _) _ h λ _ h1.
      after_check (reject_if (leb max_reservations (length s.reservations)) _) _ h1 λ _ h2.
        after_ok (evaluate_reservation s estimate) _ h2 λ d _ h3.
          after_check (guard d.allowed (budget_exceeded d)) _ h3 λ _ e.
            subst (λ t. answer t id estimate at (find_reservation t.reservations id) ≡ ok t)
              (ok-injective e)
              (rw (
                find-append s.reservations (new_reservation id estimate at) fresh,
                usage_amounts_equal_refl estimate,
                beq_refl at,
              ))

replay-reserve :
    (s : AccountState) (id : String) (estimate : UsageAmounts) (at : Timestamp)
    (found : Option Reservation) {s' : AccountState}
    → find_reservation s.reservations id ≡ found
    → answer s id estimate at found ≡ ok s'
    → answer s' id estimate at (find_reservation s'.reservations id) ≡ ok s'
unfolding replay_reserve
replay-reserve s id estimate at none fresh h = replay-place_reservation s id estimate at fresh h
replay-reserve s id estimate at (some existing) found h =
    after_then
      (is_held existing.status
        && (usage_amounts_equal existing.estimate estimate && (existing.created_at == at)))
      (ok s) _ h
      λ same e.
        subst (λ t. answer t id estimate at (find_reservation t.reservations id) ≡ ok t)
          (ok-injective e) (rw (found, same))

-- A command that names no version can be sent again: on the account that it left, it succeeds and
-- changes nothing.
pub run-run :
    (s : AccountState) (c : Command) {s' : AccountState}
    → expected_version c ≡ none
    → run s c ≡ ok s'
    → run s' c ≡ ok s'
unfolding run reserve_budget commit_reservation release_reservation cancel_reservation
    settle_without_usage cancel_account
run-run s (reserve c) unversioned h =
    after_ok (parse_reservation_id c.reservation_id) _ h λ id hid h1.
      after_ok (parse_usage_amounts c.estimate) _ h1 λ estimate he h2.
        after_check (check_version s c.expected_version) _ h2 λ _ h3.
          rw (hid, he, unversioned)
            (replay-reserve s id estimate c.requested_at (find_reservation s.reservations id) refl
              h3)
run-run s (commit c) unversioned h =
    after_ok (parse_reservation_id c.reservation_id) _ h λ id hid h1.
      after_ok (parse_usage_amounts c.actual) _ h1 λ actual ha h2.
        after_check (assert_currency_matches_budget s.budget actual) _ h2 λ money h3.
          after_check (check_version s c.expected_version) _ h3 λ _ h4.
            after_ok
              (or_fail (find_reservation s.reservations id)
                (invariant_violation unknown_reservation))
              _ h4
              λ existing found h5.
                let (same_budget, r, there, again) =
                  replay-settle_with_usage s id actual c.settled_at existing existing.status
                    (or_fail-eq-ok _ _ found) refl h5 in
                let paid =
                  subst (λ b. assert_currency_matches_budget b actual ≡ ok tt) (sym same_budget)
                    money in
                rw (hid, ha, unversioned, there, paid) again
run-run s (settle release c) unversioned h =
    after_ok (parse_reservation_id c.reservation_id) _ h
      λ id hid _. replay-settle s id c release hid unversioned h
run-run s (settle cancel c) unversioned h =
    after_ok (parse_reservation_id c.reservation_id) _ h
      λ id hid _. replay-settle s id c cancel hid unversioned h
run-run s (cancel_all c) unversioned h =
    after_check (check_version s c.expected_version) _ h λ _ h1.
      elim (Bool-cases (is_open s.status)) [
        | inl was_open ↦
            subst (λ t. cancel_account t c ≡ ok t) (ok-injective (rw was_open at h1))
              (rw unversioned)
        | inr closed ↦
            subst (λ t. cancel_account t c ≡ ok t) (ok-injective (rw closed at h1))
              (rw (unversioned, closed))
      ]
