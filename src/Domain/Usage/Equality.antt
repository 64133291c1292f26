-- ===== src/Domain/Usage/Equality.antt =====
-- packages/domain/src/budget.ts: `usageAmountsEqual` decides whether amounts are the same.
use ai_development_os.Prelude.{◌≡◌, refl, true, Option, none, some, string_eq, nat_eq, arith}
use ai_development_os.Domain.Money.{Money, money_equals}
use ai_development_os.Domain.Usage.{UsageAmounts, costs_equal, usage_amounts_equal}

costs_equal-eq : (a b : Option Money) → costs_equal a b ≡ true → a ≡ b
unfolding money_equals
costs_equal-eq none none h = refl
costs_equal-eq none (some b) h = absurd (cc h)
costs_equal-eq (some a) none h = absurd (cc h)
costs_equal-eq (some a) (some b) h = cc (
  (string_eq.decides a.currency b.currency).0 (ground (arith, h)),
  (nat_eq.decides a.amount_micros b.amount_micros).0 (ground (arith, h)),
)

pub usage_amounts_equal-eq : (a b : UsageAmounts) → usage_amounts_equal a b ≡ true → a ≡ b
unfolding usage_amounts_equal
usage_amounts_equal-eq a b h =
    let cost = costs_equal-eq a.cost b.cost (ground (arith, h)) in
    let elapsed : a.duration_ms ≡ b.duration_ms = ground (arith, h) in
    let input : a.tokens.input_tokens ≡ b.tokens.input_tokens = ground (arith, h) in
    let output : a.tokens.output_tokens ≡ b.tokens.output_tokens = ground (arith, h) in
    let cached : a.tokens.cached_input_tokens ≡ b.tokens.cached_input_tokens = ground (arith, h) in
    let reasoning : a.tokens.reasoning_tokens ≡ b.tokens.reasoning_tokens = ground (arith, h) in
    cc (cost, elapsed, input, output, cached, reasoning)
