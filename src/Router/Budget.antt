-- ===== src/Router/Budget.antt =====
-- packages/router/src/budget.ts: `planBudgetReservation`, which reserves nothing itself: it answers a command
-- for the budget account of packages/domain. Fingerprints are left out. A cost estimate and a token estimate
-- are what their parsers accept.
pub mod Reservations
pub mod Settlement
pub mod Reconciliation
mod Tests
use ai_development_os.Prelude.{
  ℕ, ◌+◌, ◌-◌, ◌*◌, ◌/◌, String, Bool, true, false, not, ◌&&◌, Option, none, some, Result, ok, err,
  ◌>>=◌, leb, if◌then◌else◌, ◌==◌, nat_eq, string_eq,
}
use ai_development_os.Domain.Errors.{DomainError, BudgetDecision, Checked}
use ai_development_os.Domain.Guards.{max_safe_integer, Timestamp, ensure_safe_integer}
use ai_development_os.Domain.Money.{Money, create_money}
use ai_development_os.Domain.Usage.{UsageAmounts, parse_usage_amounts}
use ai_development_os.Domain.Budget.{MonetaryBudget}
use ai_development_os.Domain.Account.{
  AccountState, same_currency, parse_reservation_id, parse_account_state,
}
use ai_development_os.Domain.Account.Admission.{evaluate_reservation}
use ai_development_os.Domain.Account.Commands.{ReserveCommand}

-- What is thrown: an error of the router, or one of the domain.
pub data PlanError : Type 0 where
  arithmetic_overflow : PlanError
  refused : DomainError → PlanError

abbrev pub of_domain : {A : Type 0} → Checked A → Result PlanError A
of_domain (ok a) = ok a
of_domain (err e) = err (refused e)

pub data RoutingCost : Type 0 where
  known : String → ℕ → RoutingCost
  unknown : RoutingCost

pub record TokenEstimate : Type 0 where
  pub input_tokens : ℕ
  pub cached_input_tokens : Option ℕ
  pub output_allowance_tokens : ℕ
  pub reasoning_allowance_tokens : ℕ

-- `RouterConfiguration["reservation"]`, in basis points, and `requireKnownCostWhenBudgeted`.
pub record ReservationSettings : Type 0 where
  pub token_margin : ℕ
  pub cost_margin : ℕ
  pub duration_margin : ℕ
  pub requires_known_cost : Bool

pub record ReservationInput : Type 0 where
  pub account : AccountState
  pub reservation_id : String
  pub requested_at : Timestamp
  pub tokens : TokenEstimate
  pub cost : RoutingCost
  pub expected_duration : ℕ
  pub settings : ReservationSettings

pub data PlanCode : Type 0 where
  fit exceeds_budget cost_unknown currency_differs : PlanCode

-- `allowed` says whether the code is `fit`.
pub record ReservationPlan : Type 0 where
  pub code : PlanCode
  pub account_version : ℕ
  pub estimate : UsageAmounts
  pub decision : Option BudgetDecision
  pub command : Option ReserveCommand

-- `ceilRatio`.
abbrev pub ceil_ratio : ℕ → ℕ → ℕ
ceil_ratio numerator denominator = (numerator + denominator - 1) / denominator

-- `checkedNumber`.
abbrev pub checked_number : ℕ → Result PlanError ℕ
checked_number value = if leb value max_safe_integer then ok value else err arithmetic_overflow

unfoldable pub with_margin : ℕ → ℕ → Result PlanError ℕ
with_margin value basis_points = checked_number (value + ceil_ratio (value * basis_points) 10000)

unfoldable pub cost_with_margin : RoutingCost → ℕ → Result PlanError (Option Money)
cost_with_margin unknown margin = ok none
cost_with_margin (known currency amount) margin = do
  micros ← with_margin amount margin
  money ← of_domain (create_money currency micros)
  ok (some money)

abbrev pub cached_with_margin : Option ℕ → ℕ → Result PlanError ℕ
cached_with_margin none margin = ok 0
cached_with_margin (some tokens) margin = with_margin tokens margin

unfoldable pub usage_with_margin :
    TokenEstimate → Option Money → ℕ → ReservationSettings → Result PlanError UsageAmounts
usage_with_margin t cost expected settings = do
  input ← with_margin t.input_tokens settings.token_margin
  output ← with_margin t.output_allowance_tokens settings.token_margin
  cached ← cached_with_margin t.cached_input_tokens settings.token_margin
  reasoning ← with_margin t.reasoning_allowance_tokens settings.token_margin
  elapsed ← with_margin expected settings.duration_margin
  of_domain (
      parse_usage_amounts (record {
        tokens = record {
          input_tokens = input;
          output_tokens = output;
          cached_input_tokens = cached;
          reasoning_tokens = reasoning;
        };
        cost = cost;
        duration_ms = elapsed;
      }))

-- The budget has money, and the cost is not known.
abbrev pub lacks_cost : Option MonetaryBudget → RoutingCost → Bool
lacks_cost (some budget) unknown = true
lacks_cost _ _ = false

abbrev pub decided : AccountState → ReserveCommand → BudgetDecision → ReservationPlan
decided account command decision = record {
  code = if decision.allowed then fit else exceeds_budget;
  account_version = account.version;
  estimate = command.estimate;
  decision = some decision;
  command = if decision.allowed then some command else none;
}

abbrev pub refused_plan : AccountState → UsageAmounts → PlanCode → ReservationPlan
refused_plan account estimate code = record {
  code = code;
  account_version = account.version;
  estimate = estimate;
  decision = none;
  command = none;
}

unfoldable pub plan_for :
    AccountState → RoutingCost → Bool → ReserveCommand → Checked ReservationPlan
plan_for account cost requires_known_cost command =
    if lacks_cost account.budget.money cost && requires_known_cost
    then ok (refused_plan account command.estimate cost_unknown)
    else (if not (same_currency account.budget.money command.estimate.cost)
        then ok (refused_plan account command.estimate currency_differs)
        else (evaluate_reservation account command.estimate >>= λ decision.
            ok (decided account command decision)))

abbrev pub command_for : ReservationInput → AccountState → String → UsageAmounts → ReserveCommand
command_for i account id estimate = record {
  reservation_id = id;
  estimate = estimate;
  requested_at = i.requested_at;
  expected_version = some account.version;
}

unfoldable pub plan_budget_reservation : ReservationInput → Result PlanError ReservationPlan
plan_budget_reservation i = do
  account ← of_domain (parse_account_state i.account)
  id ← of_domain (parse_reservation_id i.reservation_id)
  expected ← of_domain (ensure_safe_integer i.expected_duration 0 10000000000000)
  cost ← cost_with_margin i.cost i.settings.cost_margin
  estimate ← usage_with_margin i.tokens cost expected i.settings
  of_domain
      (plan_for account i.cost i.settings.requires_known_cost (command_for i account id estimate))
