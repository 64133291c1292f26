-- ===== src/Domain/Tests.antt =====
-- packages/domain/src/budget-account.ts: the theorems at concrete accounts and commands.
use ai_development_os.Prelude.{
  ℕ, arith, nat_eq, ◌≡◌, ◌⊎◌, refl, String, Option, none, some, List, [], ◌∷◌, ok, ◌>>=◌, string_eq,
  Nodup-of_is_nodup,
}
use ai_development_os.Prelude
use ai_development_os.Domain.Guards
use ai_development_os.Domain.Usage
use ai_development_os.Domain.Usage.{TokenUsage, UsageAmounts, BudgetScope, task}
use ai_development_os.Domain.Budget.{AggregateBudget}
use ai_development_os.Domain.Account
use ai_development_os.Domain.Account.{AccountState, open_account}
use ai_development_os.Domain.Account.Admission
use ai_development_os.Domain.Account.Commands
use ai_development_os.Domain.Account.Commands.{ReserveCommand, SettleCommand, release}
use ai_development_os.Domain.Account.Lifecycle.{Command, reserve, settle, run, IsStep, run-IsStep}
use ai_development_os.Domain.Account.Keeping.{reservation_ids}
use ai_development_os.Domain.Account.Totals.{used_totals, with_hold}
use ai_development_os.Domain.Account.Limits.{Fits, IsHeldAlready, reserve_budget-Fits}
use ai_development_os.Domain.Account.Restoring.{run-parse_account_state}
use ai_development_os.Domain.Account.Replay.{run-run}

abbrev hundred_tokens : UsageAmounts
hundred_tokens = record {
  tokens = record {
    input_tokens = 60;
    output_tokens = 40;
    cached_input_tokens = 0;
    reasoning_tokens = 0;
  };
  cost = none;
  duration_ms = 5;
}

abbrev budget : AggregateBudget
budget = record {
  tokens = some (record {
    max_total_tokens = 150;
    max_input_tokens = none;
    max_output_tokens = some 50;
    soft_max_total_tokens = none;
  });
  money = none;
  time = none;
}

abbrev account : AccountState
account = record {
  scope = record { scope_type = task; scope_id = "t-1" };
  budget = budget;
  status = open_account;
  version = 3;
  reservations = [];
}

abbrev command : ReserveCommand
command = record {
  reservation_id = "r-1";
  estimate = hundred_tokens;
  requested_at = 10;
  expected_version = none;
}

abbrev versioned : ReserveCommand
versioned = record command { expected_version = some 3 }

abbrev after : AccountState
after = with_hold account "r-1" hundred_tokens 10

command-accepted : Commands.reserve_budget account command ≡ ok after
unfolding Commands.reserve_budget Commands.place_reservation Account.parse_reservation_id
    Guards.ensure_string Prelude.utf16_length Prelude.matches Prelude.each_of
    Usage.parse_usage_amounts Usage.parse_token_usage Guards.ensure_safe_integer
    Admission.evaluate_reservation Admission.prospective_usage Account.reserved_totals
    Account.sum_amounts Account.committed_totals Usage.add_usage_amounts Usage.add_cost
    Usage.add_token_usage Admission.collect_breaches Admission.token_breaches Usage.total_tokens
    Admission.money_breaches Admission.time_breaches
command-accepted = refl

reserve_budget-Fits_example :
    ((after ≡ account) × IsHeldAlready account command)
    ⊎ ((after ≡ with_hold account "r-1" hundred_tokens 10)
        × (used : UsageAmounts) × (used_totals after ≡ ok used)
        × Fits budget used)
reserve_budget-Fits_example = reserve_budget-Fits account command command-accepted

-- The hold is released.
abbrev release_command : Command
release_command =
    settle release (record { reservation_id = "r-1"; settled_at = 20; expected_version = none })

abbrev released_reservations : AccountState
released_reservations =
    Commands.with_reservation after (record (Commands.new_reservation "r-1" hundred_tokens 10) {
      status = Account.released;
      settled_at = some 20;
    })

release-accepted : run after release_command ≡ ok released_reservations
unfolding run Commands.settle_without_usage Account.parse_reservation_id Guards.ensure_string
    Prelude.utf16_length Prelude.matches Commands.end_hold
release-accepted = refl

run-IsStep_example : IsStep after released_reservations
run-IsStep_example =
    run-IsStep after release_command (Nodup-of_is_nodup (reservation_ids after.reservations) refl)
      release-accepted

run-run_example : run released_reservations release_command ≡ ok released_reservations
run-run_example = run-run after release_command refl release-accepted

versioned-accepted : run account (reserve versioned) ≡ ok after
unfolding Commands.reserve_budget Commands.place_reservation Account.parse_reservation_id
    Guards.ensure_string Prelude.utf16_length Prelude.matches Prelude.each_of
    Usage.parse_usage_amounts Usage.parse_token_usage Guards.ensure_safe_integer
    Admission.evaluate_reservation Admission.prospective_usage Account.reserved_totals
    Account.sum_amounts Account.committed_totals Usage.add_usage_amounts Usage.add_cost
    Usage.add_token_usage Admission.collect_breaches Admission.token_breaches Usage.total_tokens
    Admission.money_breaches Admission.time_breaches run
versioned-accepted = refl

after-parsed : Account.parse_account_state after ≡ ok after
unfolding Account.parse_account_state Account.parse_reservations Account.parse_reservation
    Account.parse_reservation_id Guards.ensure_string Prelude.utf16_length Prelude.matches
    Usage.parse_usage_amounts Usage.parse_token_usage Usage.parse_budget_scope
    Guards.ensure_safe_integer ai_development_os.Domain.Budget.parse_aggregate_budget
    ai_development_os.Domain.Budget.parse_token_budget
after-parsed = refl

run-parse_account_state_example :
    Account.parse_account_state released_reservations ≡ ok released_reservations
run-parse_account_state_example =
    run-parse_account_state after release_command after-parsed (omega arith) release-accepted

hundred_tokens-accepted : Usage.parse_usage_amounts hundred_tokens ≡ ok hundred_tokens
unfolding Usage.parse_usage_amounts Usage.parse_token_usage Guards.ensure_safe_integer
hundred_tokens-accepted = refl
