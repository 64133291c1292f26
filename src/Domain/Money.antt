-- ===== src/Domain/Money.antt =====
-- packages/domain/src/budget.ts: currencies and money, in whole micro-units.
use ai_development_os.Prelude.{
  ℕ, ◌+◌, ◌-◌, String, Bool, ◌&&◌, ok, err, ◌>>=◌, ◌>>◌, guard, ltb, leb, ◌==◌, string_eq, nat_eq,
  if◌then◌else◌, matches, is_upper,
}
use Prim.Native.Nat.{Ordering, compare}
use ai_development_os.Domain.Errors.{
  different_currencies, money_overflow, negative_money, invariant_violation, Checked,
}
use ai_development_os.Domain.Guards.{max_safe_integer, ensure_safe_integer, ensure_string}

abbrev pub CurrencyCode : Type 0
CurrencyCode = String

unfoldable pub parse_currency_code : String → Checked CurrencyCode
parse_currency_code value = ensure_string (matches is_upper is_upper 2) 3 3 value

pub record Money : Type 0 where
  pub currency : CurrencyCode
  pub amount_micros : ℕ

abbrev pub max_money_micros : ℕ
max_money_micros = max_safe_integer

unfoldable pub parse_money : Money → Checked Money
parse_money value = do
  currency ← parse_currency_code value.currency
  amount ← ensure_safe_integer value.amount_micros 0 max_money_micros
  ok (record { currency = currency; amount_micros = amount })

unfoldable pub create_money : CurrencyCode → ℕ → Checked Money
create_money currency amount = parse_money (record { currency = currency; amount_micros = amount })

unfoldable pub zero_money : CurrencyCode → Checked Money
zero_money currency = create_money currency 0

abbrev pub assert_same_currency : Money → Money → Checked (Unit {0})
assert_same_currency a b =
    guard (a.currency == b.currency) (invariant_violation different_currencies)

-- The exact sum is beyond the safe range whenever the rounded one is.
abbrev pub checked_add_micros : ℕ → ℕ → Checked ℕ
checked_add_micros a b =
    if leb (a + b) max_money_micros then ok (a + b) else err (invariant_violation money_overflow)

unfoldable pub add_money : Money → Money → Checked Money
add_money a b = do
  assert_same_currency a b
  amount ← checked_add_micros a.amount_micros b.amount_micros
  ok (record { currency = a.currency; amount_micros = amount })

unfoldable pub subtract_money : Money → Money → Checked Money
subtract_money a b = do
  assert_same_currency a b
  if ltb a.amount_micros b.amount_micros
      then err (invariant_violation negative_money)
      else ok (record { currency = a.currency; amount_micros = a.amount_micros - b.amount_micros })

unfoldable pub compare_money : Money → Money → Checked Ordering
compare_money a b = do assert_same_currency a b; ok (compare a.amount_micros b.amount_micros)

unfoldable pub money_equals : Money → Money → Bool
money_equals a b = (a.currency == b.currency) && (a.amount_micros == b.amount_micros)
