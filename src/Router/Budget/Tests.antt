-- ===== src/Router/Budget/Tests.antt =====
-- packages/router/src/budget.ts: a plan that fits an account with room for it.
use ai_development_os.Prelude.{
  ℕ, ◌≤◌, ◌<◌, ◌≡◌, refl, String, true, false, string_eq, nat_eq, Option, none, some, List, [], ◌∷◌,
  ok,
}
use ai_development_os.Domain.Errors.{total_tokens, soft}
use ai_development_os.Domain.Usage.{UsageAmounts, task}
use ai_development_os.Domain.Account.{AccountState, open_account, parse_account_state}
use ai_development_os.Domain.Account.Commands.{ReserveCommand, new_reservation, reserve_budget}
use ai_development_os.Domain.Account.Totals.{with_hold}
use ai_development_os.Router.Budget.{
  ReservationInput, ReservationPlan, PlanError, unknown, fit, plan_budget_reservation, command_for,
  with_margin,
}
use ai_development_os.Domain.Account.Lifecycle.{commit}
use ai_development_os.Router.Budget.Settlement.{
  ReconcileAction, commit_usage, end_as, ReconcileInput, ReconcileCode, planned,
  actual_cost_unknown, actual_currency_differs, invalid_state, ReconciliationPlan, unplanned,
  previewed, attempt_command, lacks_actual_cost, reconcile_commit, reconcile_with,
  reconcile_budget_reservation,
}
use ai_development_os.Router.Budget.Reconciliation.{Explains, reconcile_budget_reservation-Explains}
use ai_development_os.Router.Budget.Reservations.{
  plan_budget_reservation-accepted, with_margin-rounds_up,
}

abbrev account : AccountState
account = record {
  scope = record { scope_type = task; scope_id = "t-1" };
  budget = record {
    tokens = some (record {
      max_total_tokens = 200;
      max_input_tokens = none;
      max_output_tokens = none;
      soft_max_total_tokens = some 100;
    });
    money = none;
    time = none;
  };
  status = open_account;
  version = 0;
  reservations = [];
}

abbrev input : ReservationInput
input = record {
  account = account;
  reservation_id = "r-1";
  requested_at = 1000;
  tokens = record {
    input_tokens = 100;
    cached_input_tokens = none;
    output_allowance_tokens = 45;
    reasoning_allowance_tokens = 0;
  };
  cost = unknown;
  expected_duration = 10;
  settings = record {
    token_margin = 1000;
    cost_margin = 1000;
    duration_margin = 1000;
    requires_known_cost = true;
  };
}

-- With a margin of a tenth, rounded up.
abbrev estimate : UsageAmounts
estimate = record {
  tokens = record {
    input_tokens = 110;
    output_tokens = 50;
    cached_input_tokens = 0;
    reasoning_tokens = 0;
  };
  cost = none;
  duration_ms = 11;
}

-- The soft limit is passed.
abbrev plan : ReservationPlan
plan = record {
  code = fit;
  account_version = 0;
  estimate = estimate;
  decision = some (record {
    allowed = true;
    breaches =
        record {
          dimension = total_tokens;
          severity = soft;
          limit = 100;
          attempted = 160;
          currency = none;
        }
        ∷ [];
  });
  command = some (command_for input account "r-1" estimate);
}

account-parsed : parse_account_state account ≡ ok account
unfolding ai_development_os.Domain.Account.parse_account_state
    ai_development_os.Domain.Budget.parse_aggregate_budget
    ai_development_os.Domain.Budget.parse_token_budget
    ai_development_os.Domain.Guards.ensure_safe_integer
    ai_development_os.Domain.Account.parse_reservations
    ai_development_os.Domain.Usage.parse_budget_scope ai_development_os.Domain.Guards.ensure_string
    ai_development_os.Prelude.utf16_length ai_development_os.Prelude.matches
account-parsed = refl

plan_budget_reservation-input : plan_budget_reservation input ≡ ok plan
unfolding ai_development_os.Domain.Account.parse_account_state
    ai_development_os.Domain.Budget.parse_aggregate_budget
    ai_development_os.Domain.Budget.parse_token_budget
    ai_development_os.Domain.Guards.ensure_safe_integer
    ai_development_os.Domain.Account.parse_reservations
    ai_development_os.Domain.Usage.parse_budget_scope ai_development_os.Domain.Guards.ensure_string
    ai_development_os.Prelude.utf16_length ai_development_os.Prelude.matches
    ai_development_os.Router.Budget.plan_budget_reservation
    ai_development_os.Domain.Account.parse_reservation_id
    ai_development_os.Router.Budget.cost_with_margin
    ai_development_os.Router.Budget.usage_with_margin ai_development_os.Router.Budget.with_margin
    ai_development_os.Router.Budget.plan_for ai_development_os.Domain.Usage.parse_usage_amounts
    ai_development_os.Domain.Usage.parse_token_usage
    ai_development_os.Domain.Account.Admission.collect_breaches
    ai_development_os.Domain.Account.Admission.evaluate_reservation
    ai_development_os.Domain.Account.Admission.money_breaches
    ai_development_os.Domain.Account.Admission.prospective_usage
    ai_development_os.Domain.Account.Admission.time_breaches
    ai_development_os.Domain.Account.Admission.token_breaches
    ai_development_os.Domain.Account.committed_totals
    ai_development_os.Domain.Account.reserved_totals ai_development_os.Domain.Account.sum_amounts
    ai_development_os.Domain.Usage.add_cost ai_development_os.Domain.Usage.add_token_usage
    ai_development_os.Domain.Usage.add_usage_amounts ai_development_os.Domain.Usage.total_tokens
plan_budget_reservation-input = refl

plan_budget_reservation-accepted_example :
    (c : ReserveCommand) × (plan.command ≡ some c)
    × (reserve_budget account c ≡ ok (with_hold account "r-1" plan.estimate 1000))
plan_budget_reservation-accepted_example =
    plan_budget_reservation-accepted input {p = plan} plan_budget_reservation-input refl
      account-parsed refl refl refl

with_margin-rounds_up_example : (451000 ≤ 460000) × (460000 < 461000)
unfolding with_margin
with_margin-rounds_up_example = with_margin-rounds_up 41 1000 {amount = 46} refl

abbrev held_account : AccountState
held_account = record account {
  version = 1;
  reservations = new_reservation "r-1" estimate 1000 ∷ [];
}

abbrev commitment : ReconcileInput
commitment = record {
  account = held_account;
  reservation_id = "r-1";
  settled_at = 2000;
  action = commit_usage;
  actual = some estimate;
}

abbrev commitment_plan : ReconciliationPlan
commitment_plan = record {
  code = planned;
  account_version = 1;
  command = some (
      commit (record {
        reservation_id = "r-1";
        actual = estimate;
        settled_at = 2000;
        expected_version = some 1;
      }));
  preview_version = some 2;
}

held_account-parsed : parse_account_state held_account ≡ ok held_account
unfolding ai_development_os.Domain.Account.parse_account_state
    ai_development_os.Domain.Budget.parse_aggregate_budget
    ai_development_os.Domain.Budget.parse_token_budget
    ai_development_os.Domain.Guards.ensure_safe_integer
    ai_development_os.Domain.Account.parse_reservations
    ai_development_os.Domain.Usage.parse_budget_scope ai_development_os.Domain.Guards.ensure_string
    ai_development_os.Prelude.utf16_length ai_development_os.Prelude.matches
    ai_development_os.Domain.Account.parse_reservation
    ai_development_os.Domain.Account.parse_reservation_id
    ai_development_os.Domain.Usage.parse_usage_amounts
    ai_development_os.Domain.Usage.parse_token_usage
held_account-parsed = refl

reconcile_budget_reservation-commitment :
    reconcile_budget_reservation commitment ≡ ok commitment_plan
unfolding ai_development_os.Domain.Account.parse_account_state
    ai_development_os.Domain.Budget.parse_aggregate_budget
    ai_development_os.Domain.Budget.parse_token_budget
    ai_development_os.Domain.Guards.ensure_safe_integer
    ai_development_os.Domain.Account.parse_reservations
    ai_development_os.Domain.Usage.parse_budget_scope ai_development_os.Domain.Guards.ensure_string
    ai_development_os.Prelude.utf16_length ai_development_os.Prelude.matches
    ai_development_os.Domain.Account.parse_reservation
    ai_development_os.Domain.Account.parse_reservation_id
    ai_development_os.Domain.Usage.parse_usage_amounts
    ai_development_os.Domain.Usage.parse_token_usage
    ai_development_os.Router.Budget.Settlement.reconcile_budget_reservation
    ai_development_os.Router.Budget.Settlement.reconcile_commit
    ai_development_os.Domain.Account.Lifecycle.run
    ai_development_os.Domain.Account.Commands.commit_reservation
    ai_development_os.Domain.Account.Commands.settle_with_usage
    ai_development_os.Domain.Account.Commands.with_reservation
    ai_development_os.Domain.Account.Commands.replace_reservation
reconcile_budget_reservation-commitment = refl

reconcile_budget_reservation-Explains_example :
    Explains held_account "r-1" commitment.settled_at commitment.actual commitment.action
      commitment_plan planned
reconcile_budget_reservation-Explains_example =
    reconcile_budget_reservation-Explains commitment {p = commitment_plan}
      reconcile_budget_reservation-commitment held_account-parsed
