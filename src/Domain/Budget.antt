-- ===== src/Domain/Budget.antt =====
-- packages/domain/src/budget.ts: the limits of a budget and their validation.
use ai_development_os.Prelude.{
  ℕ, Bool, true, false, Option, none, some, ok, ◌>>=◌, ◌>>◌, guard, reject_if, ltb, ◌==◌, string_eq,
}
use ai_development_os.Domain.Errors.{
  currency_mismatch, soft_above_hard, empty_budget, validation_failed, Checked,
}
use ai_development_os.Domain.Guards.{ensure_safe_integer, ensure_nullable}
use ai_development_os.Domain.Money.{Money, parse_money}
use ai_development_os.Domain.Usage.{max_token_count, max_duration_ms}

pub record TokenBudget : Type 0 where
  pub max_total_tokens : ℕ
  pub max_input_tokens : Option ℕ
  pub max_output_tokens : Option ℕ
  pub soft_max_total_tokens : Option ℕ

-- `limitWithin`: a limit of its own stays within the total.
abbrev pub limit_within : ℕ → Option ℕ → Checked (Option ℕ)
limit_within maximum = ensure_nullable (λ limit. ensure_safe_integer limit 1 maximum)

unfoldable pub parse_token_budget : TokenBudget → Checked TokenBudget
parse_token_budget b = do
  total ← ensure_safe_integer b.max_total_tokens 1 max_token_count
  input ← limit_within total b.max_input_tokens
  output ← limit_within total b.max_output_tokens
  soft ← limit_within total b.soft_max_total_tokens
  ok (record {
    max_total_tokens = total;
    max_input_tokens = input;
    max_output_tokens = output;
    soft_max_total_tokens = soft;
  })

pub record MonetaryBudget : Type 0 where
  pub limit : Money
  pub soft_limit : Option Money

abbrev pub check_soft_limit : Money → Option Money → Checked (Unit {0})
check_soft_limit limit none = ok tt
check_soft_limit limit (some soft) = do
  guard (soft.currency == limit.currency) (validation_failed currency_mismatch)
  reject_if (ltb limit.amount_micros soft.amount_micros) (validation_failed soft_above_hard)

unfoldable pub parse_monetary_budget : MonetaryBudget → Checked MonetaryBudget
parse_monetary_budget b = do
  limit ← parse_money b.limit
  soft ← ensure_nullable parse_money b.soft_limit
  check_soft_limit limit soft
  ok (record { limit = limit; soft_limit = soft })

pub record TimeBudget : Type 0 where
  pub max_duration : ℕ
  pub soft_max_duration : Option ℕ

unfoldable pub parse_time_budget : TimeBudget → Checked TimeBudget
parse_time_budget b = do
  maximum ← ensure_safe_integer b.max_duration 1 max_duration_ms
  soft ← limit_within maximum b.soft_max_duration
  ok (record { max_duration = maximum; soft_max_duration = soft })

pub record AggregateBudget : Type 0 where
  pub tokens : Option TokenBudget
  pub money : Option MonetaryBudget
  pub time : Option TimeBudget

abbrev pub is_empty_budget : AggregateBudget → Bool
is_empty_budget b = no_limits b.tokens b.money b.time
  where
    no_limits : Option TokenBudget → Option MonetaryBudget → Option TimeBudget → Bool
    no_limits none none none = true
    no_limits _ _ _ = false

unfoldable pub parse_aggregate_budget : AggregateBudget → Checked AggregateBudget
parse_aggregate_budget b = do
  tokens ← ensure_nullable parse_token_budget b.tokens
  money ← ensure_nullable parse_monetary_budget b.money
  time ← ensure_nullable parse_time_budget b.time
  let budget : AggregateBudget = record { tokens = tokens; money = money; time = time }
  reject_if (is_empty_budget budget) (validation_failed empty_budget)
  ok budget
