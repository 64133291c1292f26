-- ===== src/Domain/Usage/Sums.antt =====
-- Laws of the checked sums of usage: exact, and independent of the order of the summands.
use ai_development_os.Prelude.{
  ℕ, ◌+◌, ◌≤◌, ◌≡◌, Option, none, some, ok, ◌>>=◌, arith, string_eq, >>=-eq-ok,
}
use ai_development_os.Domain.Errors.{Checked, Violation, duration_overflow}
use ai_development_os.Domain.Guards.{max_safe_integer}
use ai_development_os.Domain.Money.{Money, add_money}
use ai_development_os.Domain.Usage.{
  TokenUsage, UsageAmounts, checked_add, add_token_usage, add_cost, add_usage_amounts,
}
use text.Mathlib.TextEquality.{eq_iff}

-- `(a + b) + c` with both sums checked.
abbrev pub add_twice : {A : Type 0} → (A → A → Checked A) → A → A → A → Checked A
add_twice add a b c = add a b >>= λ ab. add ab c

pub checked_add-swap :
    (v : Violation) (a b c : ℕ) {p : ℕ}
    → add_twice (checked_add v) a b c ≡ ok p
    → add_twice (checked_add v) a c b ≡ ok p
checked_add-swap v a b c h = ground arith

pub checked_add-eq-ok :
    (v : Violation) (a b : ℕ) {p : ℕ}
    → checked_add v a b ≡ ok p
    → (p ≡ a + b) × (p ≤ max_safe_integer)
checked_add-eq-ok v a b h = ground arith

pub add_token_usage-swap :
    (a b c : TokenUsage) {p : TokenUsage}
    → add_twice add_token_usage a b c ≡ ok p
    → add_twice add_token_usage a c b ≡ ok p
unfolding add_token_usage
add_token_usage-swap a b c h = ground arith

pub add_money-swap :
    (a b c : Money) {p : Money}
    → add_twice add_money a b c ≡ ok p
    → add_twice add_money a c b ≡ ok p
unfolding add_money
add_money-swap a b c h = ground (arith, eq_iff a.currency b.currency, eq_iff a.currency c.currency)

pub add_cost-swap :
    (a b c : Option Money) {p : Option Money}
    → add_twice add_cost a b c ≡ ok p
    → add_twice add_cost a c b ≡ ok p
unfolding add_cost add_money
add_cost-swap none none none h = h
add_cost-swap none none (some c) h = h
add_cost-swap none (some b) none h = h
add_cost-swap none (some b) (some c) h =
    ground (arith, eq_iff b.currency c.currency, eq_iff c.currency b.currency)
add_cost-swap (some a) none none h = h
add_cost-swap (some a) none (some c) h = ground arith
add_cost-swap (some a) (some b) none h = ground arith
add_cost-swap (some a) (some b) (some c) h =
    ground (arith, eq_iff a.currency b.currency, eq_iff a.currency c.currency)

-- A sum of usage succeeds exactly when its three parts do.
pub add_usage_amounts-eq-ok :
    (a b : UsageAmounts) {p : UsageAmounts}
    → add_usage_amounts a b ≡ ok p
    → (add_cost a.cost b.cost ≡ ok p.cost)
      × (checked_add duration_overflow a.duration_ms b.duration_ms ≡ ok p.duration_ms)
      × (add_token_usage a.tokens b.tokens ≡ ok p.tokens)
unfolding add_usage_amounts
add_usage_amounts-eq-ok a b h =
    let (cost, hc, h1) = >>=-eq-ok (add_cost a.cost b.cost) _ h in
    let (duration, hd, h2) =
      >>=-eq-ok (checked_add duration_overflow a.duration_ms b.duration_ms) _ h1 in
    let (tokens, ht, h3) = >>=-eq-ok (add_token_usage a.tokens b.tokens) _ h2 in (cc, cc, cc)

pub add_usage_amounts_accepts :
    (a b p : UsageAmounts)
    → add_cost a.cost b.cost ≡ ok p.cost
    → checked_add duration_overflow a.duration_ms b.duration_ms ≡ ok p.duration_ms
    → add_token_usage a.tokens b.tokens ≡ ok p.tokens
    → add_usage_amounts a b ≡ ok p
unfolding add_usage_amounts
add_usage_amounts_accepts a b p hc hd ht = rw (hc, hd, ht)

-- A checked sum of three amounts that is accepted is accepted in the other order of the last two,
-- and is the same.
pub add_usage_amounts-swap :
    (a b c : UsageAmounts) {p : UsageAmounts}
    → add_twice add_usage_amounts a b c ≡ ok p
    → add_twice add_usage_amounts a c b ≡ ok p
add_usage_amounts-swap a b c {p} h =
    let (u, hu, hp) = >>=-eq-ok (add_usage_amounts a b) _ h in
    let (uc, ud, ut) = add_usage_amounts-eq-ok a b hu in
    let (pc, pd, pt) = add_usage_amounts-eq-ok u c hp in
    let (cost, c1, c2) =
      >>=-eq-ok (add_cost a.cost c.cost) _ (add_cost-swap a.cost b.cost c.cost (rw uc pc)) in
    let (duration, d1, d2) =
      >>=-eq-ok (checked_add duration_overflow a.duration_ms c.duration_ms) _
        (checked_add-swap duration_overflow a.duration_ms b.duration_ms c.duration_ms (rw ud pd)) in
    let (tokens, t1, t2) =
      >>=-eq-ok (add_token_usage a.tokens c.tokens) _
        (add_token_usage-swap a.tokens b.tokens c.tokens (rw ut pt)) in
    let w : UsageAmounts = record { tokens = tokens; cost = cost; duration_ms = duration } in
    rw (add_usage_amounts_accepts a c w c1 d1 t1) (add_usage_amounts_accepts w b p c2 d2 t2)
