-- ===== src/Router/Budget/Settlement.antt =====
-- packages/router/src/budget.ts: `reconcileBudgetReservation`, which settles nothing itself: it answers a
-- command and the version that the account would have.
use ai_development_os.Prelude.{
  string_eq, ℕ, String, Bool, true, false, not, Option, none, some, ok, err, ◌>>=◌, if◌then◌else◌,
}
use ai_development_os.Domain.Errors.{Checked}
use ai_development_os.Domain.Guards.{Timestamp, ensure_nullable}
use ai_development_os.Domain.Money.{Money}
use ai_development_os.Domain.Usage.{UsageAmounts, parse_usage_amounts}
use ai_development_os.Domain.Budget.{MonetaryBudget}
use ai_development_os.Domain.Account.{
  AccountState, same_currency, parse_reservation_id, parse_account_state,
}
use ai_development_os.Domain.Account.Commands.{Terminal}
use ai_development_os.Domain.Account.Lifecycle.{Command, commit, settle, run}

-- `"commit"`, or `"release"` and `"cancel"`, which end a hold without usage.
pub data ReconcileAction : Type 0 where
  commit_usage : ReconcileAction
  end_as : Terminal → ReconcileAction

pub record ReconcileInput : Type 0 where
  pub account : AccountState
  pub reservation_id : String
  pub settled_at : Timestamp
  pub action : ReconcileAction
  pub actual : Option UsageAmounts

pub data ReconcileCode : Type 0 where
  planned actual_cost_unknown actual_currency_differs invalid_state : ReconcileCode

-- The action is that of the input.
pub record ReconciliationPlan : Type 0 where
  pub code : ReconcileCode
  pub account_version : ℕ
  pub command : Option Command
  pub preview_version : Option ℕ

abbrev pub unplanned : AccountState → ReconcileCode → ReconciliationPlan
unplanned account code = record {
  code = code;
  account_version = account.version;
  command = none;
  preview_version = none;
}

-- What the account makes of the command; an error of any kind is caught.
abbrev pub previewed : AccountState → Command → Checked AccountState → ReconciliationPlan
previewed account command (err e) = unplanned account invalid_state
previewed account command (ok next) = record {
  code = planned;
  account_version = account.version;
  command = some command;
  preview_version = some next.version;
}

abbrev pub attempt_command : AccountState → Command → ReconciliationPlan
attempt_command account command = previewed account command (run account command)

abbrev pub lacks_actual_cost : Option MonetaryBudget → Option Money → Bool
lacks_actual_cost (some budget) none = true
lacks_actual_cost _ _ = false

unfoldable pub reconcile_commit :
    AccountState → String → Timestamp → Option UsageAmounts → ReconciliationPlan
reconcile_commit account id settled_at none = unplanned account actual_cost_unknown
reconcile_commit account id settled_at (some actual) =
    if lacks_actual_cost account.budget.money actual.cost
    then unplanned account actual_cost_unknown
    else (if not (same_currency account.budget.money actual.cost)
        then unplanned account actual_currency_differs
        else attempt_command account (
            commit (record {
              reservation_id = id;
              actual = actual;
              settled_at = settled_at;
              expected_version = some account.version;
            })))

abbrev pub reconcile_with :
    AccountState → String → Timestamp → Option UsageAmounts → ReconcileAction → ReconciliationPlan
reconcile_with account id settled_at actual commit_usage =
    reconcile_commit account id settled_at actual
reconcile_with account id settled_at actual (end_as terminal) = attempt_command account (
    settle terminal (record {
      reservation_id = id;
      settled_at = settled_at;
      expected_version = some account.version;
    }))

unfoldable pub reconcile_budget_reservation : ReconcileInput → Checked ReconciliationPlan
reconcile_budget_reservation i = do
  account ← parse_account_state i.account
  id ← parse_reservation_id i.reservation_id
  actual ← ensure_nullable parse_usage_amounts i.actual
  ok (reconcile_with account id i.settled_at actual i.action)
