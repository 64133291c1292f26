-- ===== src/Domain/Account/Lifecycle.antt =====
-- packages/domain/src/budget-account.ts: what the commands do to the reservations and the version of
-- an account.
use mathlib.Core.List.{Nodup}
use ai_development_os.Prelude.{
  ℕ, ◌+◌, ◌≡◌, refl, subst, ◌⊎◌, inl, inr, String, ◌&&◌, Option, some, ok, guard, reject_if,
  or_fail, or_fail-eq-ok, leb, ◌==◌, string_eq, nat_eq, option_eq, length, after_ok, after_check,
  after_then, ok-injective, Option-cases, Bool-cases,
}
use ai_development_os.Domain.Errors.{
  Checked, invariant_violation, unknown_reservation, budget_exceeded,
}
use ai_development_os.Domain.Guards.{Timestamp}
use ai_development_os.Domain.Usage.{UsageAmounts, parse_usage_amounts, usage_amounts_equal}
use ai_development_os.Domain.Account.{
  ReservationStatus, held, committed, released, cancelled, Reservation, AccountState,
  parse_reservation_id, is_held, assert_currency_matches_budget, max_reservations,
}
use ai_development_os.Domain.Account.Admission.{evaluate_reservation}
use ai_development_os.Domain.Account.Commands.{
  check_version, find_reservation, with_reservation, ReserveCommand, replay_reserve, is_open,
  place_reservation, reserve_budget, CommitCommand, same_usage, settle_with_usage,
  commit_reservation, SettleCommand, Terminal, release, cancel, has_ended_as, end_hold,
  settle_without_usage, release_reservation, cancel_reservation, CancelAccountCommand,
  cancel_account,
}
use ai_development_os.Domain.Account.Keeping.{
  IsKept, reservation_ids, IsKept-append, IsKept-refl, replace-IsKept, is_held-held, map-IsKept,
}

-- The calls that change an account.
pub data Command : Type 0 where
  reserve : ReserveCommand → Command
  commit : CommitCommand → Command
  settle : Terminal → SettleCommand → Command
  cancel_all : CancelAccountCommand → Command

unfoldable pub run : AccountState → Command → Checked AccountState
unfolding release_reservation cancel_reservation
run s (reserve c) = reserve_budget s c
run s (commit c) = commit_reservation s c
run s (settle release c) = release_reservation s c
run s (settle cancel c) = cancel_reservation s c
run s (cancel_all c) = cancel_account s c

abbrev pub expected_version : Command → Option ℕ
expected_version (reserve c) = c.expected_version
expected_version (commit c) = c.expected_version
expected_version (settle terminal c) = c.expected_version
expected_version (cancel_all c) = c.expected_version

-- What a command leaves: the account as it was, or the next version of it with the reservations kept.
pub record IsStep (s s' : AccountState) : Type 0 where
  pub kept : IsKept s.reservations s'.reservations
  pub versioned : (s' ≡ s) ⊎ (s'.version ≡ s.version + 1)
  pub same_budget : s'.budget ≡ s.budget

same_state :
    (s : AccountState) {s' : AccountState}
    → ◌≡◌ {A = Checked AccountState} (ok s) (ok s')
    → IsStep s s'
same_state s e =
    subst (IsStep s) (ok-injective e)
      (record { kept = IsKept-refl s.reservations; versioned = inl refl; same_budget = refl })

settle_with_usage-IsStep :
    (s : AccountState) (id : String) (actual : UsageAmounts) (at : Timestamp)
    (existing : Reservation) (status : ReservationStatus) {s' : AccountState}
    → Nodup (reservation_ids s.reservations)
    → find_reservation s.reservations id ≡ some existing
    → existing.status ≡ status
    → settle_with_usage s actual at existing status ≡ ok s'
    → IsStep s s'
unfolding settle_with_usage with_reservation
settle_with_usage-IsStep s id actual at existing held nodup found status h =
    subst (IsStep s) (ok-injective h) (record {
      kept = replace-IsKept s.reservations id existing _ nodup found (record {
        same_id = refl;
        same_estimate = refl;
        same_start = refl;
        settled_once = inr status;
      });
      versioned = inr refl;
      same_budget = refl;
    })
settle_with_usage-IsStep s id actual at existing committed nodup found status h =
    after_then (same_usage existing.actual actual && (existing.settled_at == some at)) (ok s) _ h
      (λ _ e. same_state s e)
settle_with_usage-IsStep s id actual at existing released nodup found status h = absurd (cc h)
settle_with_usage-IsStep s id actual at existing cancelled nodup found status h = absurd (cc h)

end_hold-IsStep :
    (s : AccountState) (id : String) (terminal : Terminal) (at : Timestamp) (existing : Reservation)
    {s' : AccountState}
    → Nodup (reservation_ids s.reservations)
    → find_reservation s.reservations id ≡ some existing
    → end_hold s terminal at existing ≡ ok s'
    → IsStep s s'
unfolding end_hold with_reservation
end_hold-IsStep s id terminal at existing nodup found h =
    elim (Bool-cases (has_ended_as terminal existing.status)) [
      | inl ended ↦
          after_then (existing.settled_at == some at) (ok s) _ (rw ended at h)
            (λ _ e. same_state s e)
      | inr holding ↦ after_then (is_held existing.status) _ _ (rw holding at h) λ holds e.
          subst (IsStep s) (ok-injective e) (record {
            kept = replace-IsKept s.reservations id existing _ nodup found (record {
              same_id = refl;
              same_estimate = refl;
              same_start = refl;
              settled_once = inr (is_held-held existing.status holds);
            });
            versioned = inr refl;
            same_budget = refl;
          })
    ]

place_reservation-IsStep :
    (s : AccountState) (id : String) (estimate : UsageAmounts) (at : Timestamp) {s' : AccountState}
    → place_reservation s id estimate at ≡ ok s'
    → IsStep s s'
unfolding place_reservation
place_reservation-IsStep s id estimate at h = after_check (guard (is_open s.status) _) _ h λ _ h1.
    after_check (reject_if (leb max_reservations (length s.reservations)) _) _ h1 λ _ h2.
      after_ok (evaluate_reservation s estimate) _ h2 λ d _ h3.
        after_check (guard d.allowed (budget_exceeded d)) _ h3 λ _ e.
          subst (IsStep s) (ok-injective e) (record {
            kept = IsKept-append s.reservations _;
            versioned = inr refl;
            same_budget = refl;
          })

settle_without_usage-IsStep :
    (s : AccountState) (c : SettleCommand) (terminal : Terminal) {s' : AccountState}
    → Nodup (reservation_ids s.reservations)
    → settle_without_usage s c terminal ≡ ok s'
    → IsStep s s'
unfolding settle_without_usage
settle_without_usage-IsStep s c terminal nodup h =
    after_ok (parse_reservation_id c.reservation_id) _ h λ id _ h1.
      after_check (check_version s c.expected_version) _ h1 λ _ h2.
        after_ok
          (or_fail (find_reservation s.reservations id) (invariant_violation unknown_reservation)) _
          h2
          λ existing found h3.
            end_hold-IsStep s id terminal c.settled_at existing nodup (or_fail-eq-ok _ _ found) h3

-- A command that succeeds keeps every reservation at its place, with its id, its estimate and its
-- time of request, and changes it only if it is a hold. It keeps the budget, and leaves either the
-- same account or the next version. The ids of the reservations are distinct.
pub run-IsStep :
    (s : AccountState) (c : Command) {s' : AccountState}
    → Nodup (reservation_ids s.reservations)
    → run s c ≡ ok s'
    → IsStep s s'
unfolding run reserve_budget commit_reservation cancel_account replay_reserve
run-IsStep s (reserve c) nodup h = after_ok (parse_reservation_id c.reservation_id) _ h λ id _ h1.
    after_ok (parse_usage_amounts c.estimate) _ h1 λ estimate _ h2.
      after_check (check_version s c.expected_version) _ h2 λ _ h3.
        elim (Option-cases (find_reservation s.reservations id)) [
          | inl fresh ↦ place_reservation-IsStep s id estimate c.requested_at (rw fresh at h3)
          | inr (existing, found) ↦
              after_then
                (is_held existing.status
                  && (usage_amounts_equal existing.estimate estimate
                      && (existing.created_at == c.requested_at)))
                (ok s) _ (rw found at h3) (λ _ e. same_state s e)
        ]
run-IsStep s (commit c) nodup h = after_ok (parse_reservation_id c.reservation_id) _ h λ id _ h1.
    after_ok (parse_usage_amounts c.actual) _ h1 λ actual _ h2.
      after_check (assert_currency_matches_budget s.budget actual) _ h2 λ _ h3.
        after_check (check_version s c.expected_version) _ h3 λ _ h4.
          after_ok
            (or_fail (find_reservation s.reservations id) (invariant_violation unknown_reservation))
            _ h4
            λ existing found h5.
              settle_with_usage-IsStep s id actual c.settled_at existing existing.status nodup
                (or_fail-eq-ok _ _ found) refl h5
run-IsStep s (settle release c) nodup h = settle_without_usage-IsStep s c release nodup h
run-IsStep s (settle cancel c) nodup h = settle_without_usage-IsStep s c cancel nodup h
run-IsStep s (cancel_all c) nodup h = after_check (check_version s c.expected_version) _ h λ _ h1.
    elim (Bool-cases (is_open s.status)) [
      | inl was_open ↦ subst (IsStep s) (ok-injective (rw was_open at h1)) (record {
        kept = map-IsKept c.cancelled_at s.reservations;
        versioned = inr refl;
        same_budget = refl;
      })
      | inr closed ↦ same_state s (rw closed at h1)
    ]
