-- ===== src/Domain/Usage.antt =====
-- packages/domain/src/budget.ts: token usage, amounts of usage, the records of the ledger and
-- their totals.
pub mod Sums
pub mod Parsing
pub mod Equality
use ai_development_os.Prelude.{
  ℕ, ◌+◌, ◌≤◌, ◌≡◌, refl, String, Bool, true, false, ◌&&◌, Option, none, some, List, [], ◌∷◌,
  Result, ok, err, ◌>>=◌, ◌>>◌, leb, ◌==◌, string_eq, nat_eq, if◌then◌else◌, length,
}
use ai_development_os.Domain.Errors.{
  Violation, token_overflow, duration_overflow, invariant_violation, Checked,
}
use ai_development_os.Domain.Guards.{
  max_safe_integer, Timestamp, ensure_safe_integer, ensure_string, ensure_nullable, is_identifier,
}
use ai_development_os.Domain.Money.{Money, parse_money, add_money, money_equals}

abbrev pub max_token_count : ℕ
max_token_count = 1000000000000

abbrev pub max_duration_ms : ℕ
max_duration_ms = 10000000000000

pub record TokenUsage : Type 0 where
  pub input_tokens : ℕ
  pub output_tokens : ℕ
  pub cached_input_tokens : ℕ
  pub reasoning_tokens : ℕ

unfoldable pub parse_token_usage : TokenUsage → Checked TokenUsage
parse_token_usage u = do
  input ← ensure_safe_integer u.input_tokens 0 max_token_count
  output ← ensure_safe_integer u.output_tokens 0 max_token_count
  cached ← ensure_safe_integer u.cached_input_tokens 0 max_token_count
  reasoning ← ensure_safe_integer u.reasoning_tokens 0 max_token_count
  ok (record {
    input_tokens = input;
    output_tokens = output;
    cached_input_tokens = cached;
    reasoning_tokens = reasoning;
  })

abbrev pub zero_token_usage : TokenUsage
zero_token_usage = record {
  input_tokens = 0;
  output_tokens = 0;
  cached_input_tokens = 0;
  reasoning_tokens = 0;
}

-- `checkedAddTokens`, and the same test of durations.
abbrev pub checked_add : Violation → ℕ → ℕ → Checked ℕ
checked_add overflow a b =
    if leb (a + b) max_safe_integer then ok (a + b) else err (invariant_violation overflow)

unfoldable pub add_token_usage : TokenUsage → TokenUsage → Checked TokenUsage
add_token_usage a b = do
  input ← checked_add token_overflow a.input_tokens b.input_tokens
  output ← checked_add token_overflow a.output_tokens b.output_tokens
  cached ← checked_add token_overflow a.cached_input_tokens b.cached_input_tokens
  reasoning ← checked_add token_overflow a.reasoning_tokens b.reasoning_tokens
  ok (record {
    input_tokens = input;
    output_tokens = output;
    cached_input_tokens = cached;
    reasoning_tokens = reasoning;
  })

unfoldable pub total_tokens : TokenUsage → Checked ℕ
total_tokens u = do
  input ← checked_add token_overflow u.input_tokens u.cached_input_tokens
  output ← checked_add token_overflow u.output_tokens u.reasoning_tokens
  checked_add token_overflow input output

pub record UsageAmounts : Type 0 where
  pub tokens : TokenUsage
  pub cost : Option Money
  pub duration_ms : ℕ

unfoldable pub parse_usage_amounts : UsageAmounts → Checked UsageAmounts
parse_usage_amounts u = do
  tokens ← parse_token_usage u.tokens
  cost ← ensure_nullable parse_money u.cost
  duration_ms ← ensure_safe_integer u.duration_ms 0 max_duration_ms
  ok (record { tokens = tokens; cost = cost; duration_ms = duration_ms })

-- The cost of a sum: an unknown cost adds nothing.
unfoldable pub add_cost : Option Money → Option Money → Checked (Option Money)
add_cost none b = ok b
add_cost (some a) none = ok (some a)
add_cost (some a) (some b) = add_money a b >>= λ sum. ok (some sum)

unfoldable pub add_usage_amounts : UsageAmounts → UsageAmounts → Checked UsageAmounts
add_usage_amounts a b = do
  cost ← add_cost a.cost b.cost
  duration_ms ← checked_add duration_overflow a.duration_ms b.duration_ms
  tokens ← add_token_usage a.tokens b.tokens
  ok (record { tokens = tokens; cost = cost; duration_ms = duration_ms })

abbrev pub zero_usage : UsageAmounts
zero_usage = record { tokens = zero_token_usage; cost = none; duration_ms = 0 }

abbrev pub costs_equal : Option Money → Option Money → Bool
costs_equal none none = true
costs_equal none (some b) = false
costs_equal (some a) none = false
costs_equal (some a) (some b) = money_equals a b

unfoldable pub usage_amounts_equal : UsageAmounts → UsageAmounts → Bool
usage_amounts_equal a b =
    costs_equal a.cost b.cost
    && ((a.duration_ms == b.duration_ms)
        && ((a.tokens.input_tokens == b.tokens.input_tokens)
            && ((a.tokens.output_tokens == b.tokens.output_tokens)
                && ((a.tokens.cached_input_tokens == b.tokens.cached_input_tokens)
                    && (a.tokens.reasoning_tokens == b.tokens.reasoning_tokens)))))

pub data UsageKind : Type 0 where
  estimated actual : UsageKind

pub data ScopeType : Type 0 where
  task run project : ScopeType

pub record BudgetScope : Type 0 where
  pub scope_type : ScopeType
  pub scope_id : String

unfoldable pub parse_budget_scope : BudgetScope → Checked BudgetScope
parse_budget_scope s = do
  scope_id ← ensure_string is_identifier 1 128 s.scope_id
  ok (record { scope_type = s.scope_type; scope_id = scope_id })

pub record UsageRecord : Type 0 where
  pub kind : UsageKind
  pub scope : BudgetScope
  pub amounts : UsageAmounts
  pub recorded_at : Timestamp
  pub trace_id : Option String

unfoldable pub parse_usage_record : UsageRecord → Checked UsageRecord
parse_usage_record r = do
  scope ← parse_budget_scope r.scope
  amounts ← parse_usage_amounts r.amounts
  trace_id ← ensure_nullable (ensure_string is_identifier 1 128) r.trace_id
  ok (record {
    kind = r.kind;
    scope = scope;
    amounts = amounts;
    recorded_at = r.recorded_at;
    trace_id = trace_id;
  })

pub record UsageSummary : Type 0 where
  pub estimated : UsageAmounts
  pub actual : UsageAmounts
  pub record_count : ℕ

-- The body of the loop of `summarizeUsage`: the two totals after one record.
unfoldable pub add_record :
    UsageAmounts → UsageAmounts → UsageRecord → Checked (UsageAmounts × UsageAmounts)
add_record est act r = do
  parsed ← parse_usage_record r
  elim parsed.kind [
    | estimated ↦ add_usage_amounts est parsed.amounts >>= λ sum. ok (sum, act)
    | actual ↦ add_usage_amounts act parsed.amounts >>= λ sum. ok (est, sum)
  ]

unfoldable pub sum_records :
    UsageAmounts → UsageAmounts → List UsageRecord → Checked (UsageAmounts × UsageAmounts)
unfolding add_record
sum_records est act [] = ok (est, act)
sum_records est act (r ∷ rs) = add_record est act r >>= λ (est', act'). sum_records est' act' rs

unfoldable pub summarize_usage : List UsageRecord → Checked UsageSummary
unfolding sum_records
summarize_usage records = do
  (est, act) ← sum_records zero_usage zero_usage records
  ok (record { estimated = est; actual = act; record_count = length records })
