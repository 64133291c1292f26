-- ===== src/Domain/Account/Admission.antt =====
-- packages/domain/src/budget-account.ts: which limits a prospective usage breaches, and the
-- admission check of a reservation.
use ai_development_os.Prelude.{
  ℕ, ◌+◌, String, Bool, true, false, Option, none, some, List, [], ◌∷◌, ◌++◌, ok, ◌>>=◌, ◌>>◌, ltb,
  if◌then◌else◌, filter,
}
use ai_development_os.Domain.Errors.{
  Dimension, input_tokens, output_tokens, total_tokens, money, duration, Severity, hard, soft,
  LimitBreach, BudgetDecision, Checked,
}
use ai_development_os.Domain.Money.{Money}
use ai_development_os.Domain.Usage.{
  TokenUsage, UsageAmounts, parse_usage_amounts, add_usage_amounts,
}
use ai_development_os.Domain.Usage.{total_tokens as sum_tokens}
use ai_development_os.Domain.Budget.{TokenBudget, MonetaryBudget, TimeBudget, AggregateBudget}
use ai_development_os.Domain.Account.{
  AccountState, assert_currency_matches_budget, reserved_totals, committed_totals,
}

-- `push`: one breach, if the limit is exceeded.
abbrev pub breach : Dimension → Severity → ℕ → ℕ → Option String → List LimitBreach
breach dimension severity limit attempted currency =
    if ltb limit attempted
    then record {
      dimension = dimension;
      severity = severity;
      limit = limit;
      attempted = attempted;
      currency = currency;
    }
      ∷ []
    else []

abbrev pub breach_optional : Dimension → Severity → Option ℕ → ℕ → List LimitBreach
breach_optional dimension severity none attempted = []
breach_optional dimension severity (some limit) attempted =
    breach dimension severity limit attempted none

unfoldable pub token_breaches : Option TokenBudget → TokenUsage → Checked (List LimitBreach)
token_breaches none usage = ok []
token_breaches (some b) usage = do
  let input = usage.input_tokens + usage.cached_input_tokens
  let output = usage.output_tokens + usage.reasoning_tokens
  total ← sum_tokens usage
  ok (
      breach_optional input_tokens hard b.max_input_tokens input
      ++ (breach_optional output_tokens hard b.max_output_tokens output
          ++ (breach total_tokens hard b.max_total_tokens total none
              ++ breach_optional total_tokens soft b.soft_max_total_tokens total)))

abbrev pub soft_money_breaches : Option Money → Money → List LimitBreach
soft_money_breaches none cost = []
soft_money_breaches (some limit) cost =
    breach money soft limit.amount_micros cost.amount_micros (some limit.currency)

unfoldable pub money_breaches : Option MonetaryBudget → Option Money → List LimitBreach
money_breaches none cost = []
money_breaches (some b) none = []
money_breaches (some b) (some cost) =
    breach money hard b.limit.amount_micros cost.amount_micros (some b.limit.currency)
    ++ soft_money_breaches b.soft_limit cost

unfoldable pub time_breaches : Option TimeBudget → ℕ → List LimitBreach
time_breaches none elapsed = []
time_breaches (some b) elapsed =
    breach duration hard b.max_duration elapsed none
    ++ breach_optional duration soft b.soft_max_duration elapsed

unfoldable pub collect_breaches : AggregateBudget → UsageAmounts → Checked (List LimitBreach)
collect_breaches budget prospective = do
  tokens ← token_breaches budget.tokens prospective.tokens
  ok (
      tokens
      ++ (money_breaches budget.money prospective.cost
          ++ time_breaches budget.time prospective.duration_ms))

abbrev pub is_hard : Severity → Bool
is_hard hard = true
is_hard soft = false

abbrev pub is_empty {ℓ} : {A : Type ℓ} → List A → Bool
is_empty [] = true
is_empty (x ∷ xs) = false

-- All that is held or committed already, and the estimate on top.
unfoldable pub prospective_usage : AccountState → UsageAmounts → Checked UsageAmounts
prospective_usage s estimate = do
  reserved ← reserved_totals s
  committed ← committed_totals s
  used ← add_usage_amounts reserved committed
  add_usage_amounts used estimate

unfoldable pub evaluate_reservation : AccountState → UsageAmounts → Checked BudgetDecision
evaluate_reservation s estimate = do
  parsed ← parse_usage_amounts estimate
  assert_currency_matches_budget s.budget parsed
  prospective ← prospective_usage s parsed
  breaches ← collect_breaches s.budget prospective
  ok (record {
    allowed = is_empty (filter (λ b. is_hard b.severity) breaches);
    breaches = breaches;
  })
