-- ===== src/Domain/Usage/Parsing.antt =====
-- Validation hands back the value that it was given: no field is changed.
use ai_development_os.Prelude.{
  Bool, ℕ, ◌≡◌, String, Option, none, some, ok, arith, >>=-eq-ok, after_ok, matches, is_upper,
}
use ai_development_os.Domain.Guards.{
  ensure_safe_integer, ensure_safe_integer-eq-ok, ensure_string, ensure_nullable,
}
use ai_development_os.Domain.Errors.{Checked}
use ai_development_os.Domain.Money.{Money, parse_money, parse_currency_code, max_money_micros}
use ai_development_os.Domain.Usage.{
  TokenUsage, UsageAmounts, parse_token_usage, parse_usage_amounts, max_duration_ms,
}

pub ensure_string-eq-ok :
    (pattern : String → Bool) (lo hi : ℕ) (value : String) {v : String}
    → ensure_string pattern lo hi value ≡ ok v
    → v ≡ value
unfolding ensure_string
ensure_string-eq-ok pattern lo hi value h = ground arith

pub parse_money-eq-ok : (m : Money) {v : Money} → parse_money m ≡ ok v → v ≡ m
unfolding parse_money parse_currency_code
parse_money-eq-ok m h = after_ok (parse_currency_code m.currency) _ h λ currency hc h1.
    after_ok (ensure_safe_integer m.amount_micros 0 max_money_micros) _ h1 λ amount ha h2. cc (
      ensure_string-eq-ok (matches is_upper is_upper 2) 3 3 m.currency hc,
      (ensure_safe_integer-eq-ok m.amount_micros 0 max_money_micros ha).0,
    )

pub ensure_nullable-eq-ok :
    {A : Type 0} (parse : A → Checked A)
    → ((a : A) (b : A) → parse a ≡ ok b → b ≡ a)
    → (o : Option A) {v : Option A} → ensure_nullable parse o ≡ ok v
    → v ≡ o
ensure_nullable-eq-ok parse same none h = cc
ensure_nullable-eq-ok parse same (some a) h =
    let (b, e, k) = >>=-eq-ok (parse a) _ h in cc (same a b e)

pub parse_token_usage-eq-ok : (u : TokenUsage) {v : TokenUsage} → parse_token_usage u ≡ ok v → v ≡ u
unfolding parse_token_usage ensure_safe_integer
parse_token_usage-eq-ok u h = ground arith

-- Amounts that the parser accepts are returned as they are.
pub parse_usage_amounts-eq-ok :
    (u : UsageAmounts) {v : UsageAmounts} → parse_usage_amounts u ≡ ok v → v ≡ u
unfolding parse_usage_amounts
parse_usage_amounts-eq-ok u {v} h = after_ok (parse_token_usage u.tokens) _ h λ tokens ht h1.
    after_ok (ensure_nullable parse_money u.cost) _ h1 λ cost hc h2.
      after_ok (ensure_safe_integer u.duration_ms 0 max_duration_ms) _ h2 λ elapsed hd h3. cc (
        parse_token_usage-eq-ok u.tokens ht,
        ensure_nullable-eq-ok parse_money (λ a b e. parse_money-eq-ok a e) u.cost hc,
        (ensure_safe_integer-eq-ok u.duration_ms 0 max_duration_ms hd).0,
      )
