-- ===== src/Domain/Account.antt =====
-- packages/domain/src/budget-account.ts: an account with its reservations, and the commands on it.
-- A command returns the next state or throws; the state that it was given is never changed.
pub mod Admission
pub mod Commands
pub mod Keeping
pub mod Validity
pub mod Lifecycle
pub mod Parsed
pub mod Restoring
pub mod Endings
pub mod Replay
pub mod Totals
pub mod Limits
use ai_development_os.Prelude.{
  ℕ, ◌+◌, ◌≤◌, ◌≡◌, refl, String, Bool, true, false, not, ◌&&◌, ◌||◌, Option, none, some, List, [],
  ◌∷◌, ◌++◌, map, Result, ok, err, ◌>>=◌, ◌>>◌, guard, reject_if, or_fail, ltb, leb, ◌==◌,
  string_eq, nat_eq, option_eq, if◌then◌else◌, length, filter, find?, contains, map_result,
}
use ai_development_os.Domain.Errors.{
  Dimension, input_tokens, output_tokens, total_tokens, money, duration, Severity, hard, soft,
  LimitBreach, BudgetDecision, currency_mismatch, inconsistent_reservation, duplicate_reservation,
  bad_reservations, reservation_differs, account_cancelled, too_many_reservations,
  unknown_reservation, committed_differently, not_held, settled_at_another_time, validation_failed,
  invariant_violation, budget_exceeded, concurrency_conflict, Checked,
}
use ai_development_os.Domain.Guards.{
  max_safe_integer, Timestamp, ensure_safe_integer, ensure_string, ensure_nullable, is_identifier,
}
use ai_development_os.Domain.Money.{Money}
use ai_development_os.Domain.Usage.{
  UsageAmounts, parse_usage_amounts, add_usage_amounts, zero_usage, usage_amounts_equal,
  BudgetScope, parse_budget_scope,
}
use ai_development_os.Domain.Usage.{total_tokens as sum_tokens}
use ai_development_os.Domain.Budget.{
  TokenBudget, MonetaryBudget, TimeBudget, AggregateBudget, parse_aggregate_budget,
}

abbrev pub max_reservations : ℕ
max_reservations = 10000

pub data ReservationStatus : Type 0 where
  held committed released cancelled : ReservationStatus

pub data AccountStatus : Type 0 where
  open_account cancelled_account : AccountStatus

pub record Reservation : Type 0 where
  pub id : String
  pub status : ReservationStatus
  pub estimate : UsageAmounts
  pub actual : Option UsageAmounts
  pub created_at : Timestamp
  pub settled_at : Option Timestamp

pub record AccountState : Type 0 where
  pub scope : BudgetScope
  pub budget : AggregateBudget
  pub status : AccountStatus
  pub version : ℕ
  pub reservations : List Reservation

unfoldable pub parse_reservation_id : String → Checked String
parse_reservation_id value = ensure_string is_identifier 1 128 value

abbrev pub is_held : ReservationStatus → Bool
is_held held = true
is_held _ = false

abbrev pub is_committed : ReservationStatus → Bool
is_committed committed = true
is_committed _ = false

abbrev pub is_some {ℓ} : {A : Type ℓ} → Option A → Bool
is_some none = false
is_some (some _) = true

-- The four tests of `parseReservation`: what a status says of the other fields.
abbrev pub is_consistent : ReservationStatus → Option UsageAmounts → Option Timestamp → Bool
is_consistent held actual settled = not (is_some actual) && not (is_some settled)
is_consistent committed actual settled = is_some settled && is_some actual
is_consistent released actual settled = is_some settled && not (is_some actual)
is_consistent cancelled actual settled = is_some settled && not (is_some actual)

unfoldable pub parse_reservation : Reservation → Checked Reservation
parse_reservation r = do
  actual ← ensure_nullable parse_usage_amounts r.actual
  guard (is_consistent r.status actual r.settled_at) (validation_failed inconsistent_reservation)
  id ← parse_reservation_id r.id
  estimate ← parse_usage_amounts r.estimate
  ok (record {
    id = id;
    status = r.status;
    estimate = estimate;
    actual = actual;
    created_at = r.created_at;
    settled_at = r.settled_at;
  })

-- The amounts are in the currency of the budget, where both have one.
abbrev pub same_currency : Option MonetaryBudget → Option Money → Bool
same_currency none cost = true
same_currency (some b) none = true
same_currency (some b) (some cost) = cost.currency == b.limit.currency

abbrev pub assert_currency_matches_budget : AggregateBudget → UsageAmounts → Checked (Unit {0})
assert_currency_matches_budget budget amounts =
    guard (same_currency budget.money amounts.cost) (validation_failed currency_mismatch)

abbrev pub check_actual_currency : AggregateBudget → Option UsageAmounts → Checked (Unit {0})
check_actual_currency budget none = ok tt
check_actual_currency budget (some actual) = assert_currency_matches_budget budget actual

-- The loop over the reservations, with the set of the ids that were seen.
unfoldable pub parse_reservations :
    AggregateBudget → List String → List Reservation → Checked (List Reservation)
parse_reservations budget seen [] = ok []
parse_reservations budget seen (r ∷ rs) = do
  reservation ← parse_reservation r
  reject_if (contains seen reservation.id) (validation_failed duplicate_reservation)
  assert_currency_matches_budget budget reservation.estimate
  check_actual_currency budget reservation.actual
  rest ← parse_reservations budget (reservation.id ∷ seen) rs
  ok (reservation ∷ rest)

unfoldable pub parse_account_state : AccountState → Checked AccountState
parse_account_state s = do
  reject_if (ltb max_reservations (length s.reservations)) (validation_failed bad_reservations)
  budget ← parse_aggregate_budget s.budget
  reservations ← parse_reservations budget [] s.reservations
  scope ← parse_budget_scope s.scope
  version ← ensure_safe_integer s.version 0 max_safe_integer
  ok (record {
    scope = scope;
    budget = budget;
    status = s.status;
    version = version;
    reservations = reservations;
  })

unfoldable pub create_account : BudgetScope → AggregateBudget → Checked AccountState
create_account scope budget = parse_account_state (record {
  scope = scope;
  budget = budget;
  status = open_account;
  version = 0;
  reservations = [];
})

-- `rs.reduce((sum, r) => addUsageAmounts(sum, amounts(r)), sum)`.
unfoldable pub sum_amounts :
    (Reservation → UsageAmounts) → UsageAmounts → List Reservation → Checked UsageAmounts
sum_amounts amounts sum [] = ok sum
sum_amounts amounts sum (r ∷ rs) =
    add_usage_amounts sum (amounts r) >>= λ next. sum_amounts amounts next rs

unfoldable pub reserved_totals : AccountState → Checked UsageAmounts
reserved_totals s =
    sum_amounts (λ r. r.estimate) zero_usage (filter (λ r. is_held r.status) s.reservations)

abbrev pub actual_or_zero : Option UsageAmounts → UsageAmounts
actual_or_zero none = zero_usage
actual_or_zero (some actual) = actual

unfoldable pub committed_totals : AccountState → Checked UsageAmounts
committed_totals s =
    sum_amounts (λ r. actual_or_zero r.actual) zero_usage
      (filter (λ r. is_committed r.status) s.reservations)
