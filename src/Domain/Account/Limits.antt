-- ===== src/Domain/Account/Limits.antt =====
-- The hard limits of a budget, described apart from the breaches that the code collects, and what a
-- reservation does to the totals that they bound.
use ai_development_os.Prelude.{
  after_ok, after_check, guard, reject_if, leb, length, subst, ℕ, ◌+◌, ◌≤◌, ◌≡◌, refl, sym, ◌∙◌,
  ◌⊎◌, inl, inr, ◌↔◌, true, Option, none, some, List, [], ◌∷◌, ◌++◌, ok, arith, filter, >>=-eq-ok,
  >>-eq-ok, guard-eq-ok, Option-cases, String,
}
use ai_development_os.Domain.Errors.{LimitBreach, budget_exceeded, BudgetDecision}
use ai_development_os.Domain.Money.{Money}
use ai_development_os.Domain.Usage.{
  TokenUsage, UsageAmounts, usage_amounts_equal, parse_usage_amounts, total_tokens,
}
use ai_development_os.Domain.Usage.Parsing.{parse_usage_amounts-eq-ok, ensure_string-eq-ok}
use ai_development_os.Domain.Usage.Equality.{usage_amounts_equal-eq}
use ai_development_os.Domain.Budget.{TokenBudget, MonetaryBudget, TimeBudget, AggregateBudget}
use ai_development_os.Domain.Account.{
  Reservation, AccountState, is_held, assert_currency_matches_budget, max_reservations,
  parse_reservation_id,
}
use ai_development_os.Domain.Guards.{Timestamp, is_identifier}
use ai_development_os.Domain.Account.Admission.{
  token_breaches, money_breaches, time_breaches, collect_breaches, is_hard, is_empty,
  prospective_usage, evaluate_reservation,
}
use ai_development_os.Domain.Account.Commands.{
  ReserveCommand, place_reservation, reserve_budget, replay_reserve, find_reservation, is_open,
  check_version,
}
use ai_development_os.Domain.Account.Totals.{used_totals, with_hold, used_totals-with_hold}

abbrev pub Within : Option ℕ → ℕ → Type 0
Within none amount = Unit
Within (some limit) amount = amount ≤ limit

abbrev pub FitsTokens : Option TokenBudget → TokenUsage → Type 0
FitsTokens none u = Unit
FitsTokens (some b) u =
    Within b.max_input_tokens (u.input_tokens + u.cached_input_tokens)
    × Within b.max_output_tokens (u.output_tokens + u.reasoning_tokens)
    × (u.input_tokens + u.cached_input_tokens + u.output_tokens + u.reasoning_tokens
        ≤ b.max_total_tokens)

abbrev pub FitsMoney : Option MonetaryBudget → Option Money → Type 0
FitsMoney none cost = Unit
FitsMoney (some b) none = Unit
FitsMoney (some b) (some cost) = cost.amount_micros ≤ b.limit.amount_micros

abbrev pub FitsTime : Option TimeBudget → ℕ → Type 0
FitsTime none elapsed = Unit
FitsTime (some b) elapsed = elapsed ≤ b.max_duration

-- Every hard limit that the budget sets holds of the usage.
abbrev pub Fits : AggregateBudget → UsageAmounts → Type 0
Fits b u = FitsTokens b.tokens u.tokens × FitsMoney b.money u.cost × FitsTime b.time u.duration_ms

abbrev pub hard_only : List LimitBreach → List LimitBreach
hard_only = filter (λ b. is_hard b.severity)

abbrev pub NoHard : List LimitBreach → Type 0
NoHard bs = is_empty (hard_only bs) ≡ true

NoHard-append : (xs ys : List LimitBreach) → NoHard (xs ++ ys) ↔ (NoHard xs × NoHard ys)
NoHard-append [] ys = (λ h. (refl, h), λ h. h.1)
NoHard-append (x ∷ xs) ys = ground (arith, NoHard-append xs ys)

token_breaches-NoHard :
    (b : Option TokenBudget) (u : TokenUsage) {bs : List LimitBreach}
    → token_breaches b u ≡ ok bs
    → NoHard bs ↔ FitsTokens b u
unfolding token_breaches total_tokens
token_breaches-NoHard none u h = ground arith
token_breaches-NoHard (some b) u h = ground arith

money_breaches-NoHard :
    (b : Option MonetaryBudget) (cost : Option Money)
    → NoHard (money_breaches b cost) ↔ FitsMoney b cost
unfolding money_breaches
money_breaches-NoHard none cost = ground arith
money_breaches-NoHard (some b) none = ground arith
money_breaches-NoHard (some b) (some cost) = ground arith

time_breaches-NoHard :
    (b : Option TimeBudget) (elapsed : ℕ) → NoHard (time_breaches b elapsed) ↔ FitsTime b elapsed
unfolding time_breaches
time_breaches-NoHard b elapsed = ground arith

-- No hard breach is collected exactly when the usage fits every hard limit.
pub collect_breaches-NoHard :
    (b : AggregateBudget) (u : UsageAmounts) {bs : List LimitBreach}
    → collect_breaches b u ≡ ok bs
    → NoHard bs ↔ Fits b u
unfolding collect_breaches
collect_breaches-NoHard b u {bs} h =
    let (ts, ht, e) = >>=-eq-ok (token_breaches b.tokens u.tokens) _ h in
    let tokens = token_breaches-NoHard b.tokens u.tokens ht in
    let money = money_breaches-NoHard b.money u.cost in
    let time = time_breaches-NoHard b.time u.duration_ms in
    let outer =
      NoHard-append ts (money_breaches b.money u.cost ++ time_breaches b.time u.duration_ms) in
    let inner =
      NoHard-append (money_breaches b.money u.cost) (time_breaches b.time u.duration_ms) in
    let same : bs ≡ ts ++ (money_breaches b.money u.cost ++ time_breaches b.time u.duration_ms) =
      cc in
    rw same (
      (λ n.
          let (n1, n2) = outer.0 n in
          let (n3, n4) = inner.0 n2 in (tokens.0 n1, money.0 n3, time.0 n4)),
      (λ f. outer.1 (tokens.1 f.0, inner.1 (money.1 f.1, time.1 f.2))),
    )

-- What the admission check answers, in terms of the limits.
evaluate_reservation-eq-ok :
    (s : AccountState) (estimate : UsageAmounts) {d : BudgetDecision}
    → evaluate_reservation s estimate ≡ ok d
    → (parsed : UsageAmounts) × (p : UsageAmounts) × (parse_usage_amounts estimate ≡ ok parsed)
      × (prospective_usage s parsed ≡ ok p)
      × ((d.allowed ≡ true) ↔ Fits s.budget p)
unfolding evaluate_reservation
evaluate_reservation-eq-ok s estimate {d} h =
    let (parsed, hp, h1) = >>=-eq-ok (parse_usage_amounts estimate) _ h in
    let (_, h2) = >>-eq-ok (assert_currency_matches_budget s.budget parsed) _ h1 in
    let (p, hq, h3) = >>=-eq-ok (prospective_usage s parsed) _ h2 in
    let (bs, hb, h4) = >>=-eq-ok (collect_breaches s.budget p) _ h3 in
    let same : d.allowed ≡ is_empty (hard_only bs) = cc in
    (
      parsed,
      p,
      hp,
      hq,
      subst (λ b. (b ≡ true) ↔ Fits s.budget p) (sym same) (collect_breaches-NoHard s.budget p hb),
    )

-- A command that succeeds has found its own hold again, or the account fits every hard limit with
-- the new hold counted.
place_reservation-Fits :
    (s : AccountState) (id : String) (estimate : UsageAmounts) (at : Timestamp) {s' : AccountState}
    → place_reservation s id estimate at ≡ ok s'
    → (s' ≡ with_hold s id estimate at)
      × (used : UsageAmounts) × (used_totals s' ≡ ok used)
      × Fits s.budget used
unfolding place_reservation
place_reservation-Fits s id estimate at {s'} h =
    let (_, h1) = >>-eq-ok (guard (is_open s.status) _) _ h in
    let (_, h2) = >>-eq-ok (reject_if (leb max_reservations (length s.reservations)) _) _ h1 in
    let (d, hd, h3) = >>=-eq-ok (evaluate_reservation s estimate) _ h2 in
    let (allowed, h4) = >>-eq-ok (guard d.allowed (budget_exceeded d)) _ h3 in
    let (parsed, p, hp, hq, fits) = evaluate_reservation-eq-ok s estimate hd in
    let same : s' ≡ with_hold s id estimate at = cc in
    let prospective : prospective_usage s estimate ≡ ok p =
      rw (parse_usage_amounts-eq-ok estimate hp) at hq in
    (
      same,
      p,
      subst (λ t. used_totals t ≡ ok p) (sym same)
          (used_totals-with_hold s id estimate at prospective),
      fits.0 (guard-eq-ok d.allowed (budget_exceeded d) allowed),
    )

-- The account holds a reservation of the command's id, with its estimate and its time.
pub record IsHeldAlready (s : AccountState) (c : ReserveCommand) : Type 0 where
  pub hold : Reservation
  pub found : find_reservation s.reservations c.reservation_id ≡ some hold
  pub is_active : is_held hold.status ≡ true
  pub same_estimate : hold.estimate ≡ c.estimate
  pub same_time : hold.created_at ≡ c.requested_at

replay_reserve-eq-ok :
    (s : AccountState) (estimate : UsageAmounts) (at : Timestamp) (r : Reservation)
    {s' : AccountState}
    → replay_reserve s estimate at r ≡ ok s'
    → (s' ≡ s) × (is_held r.status ≡ true) × (r.estimate ≡ estimate) × (r.created_at ≡ at)
unfolding replay_reserve
replay_reserve-eq-ok s estimate at r {s'} h =
    let (same, active, equal, time) = tested in
    (same, active, usage_amounts_equal-eq r.estimate estimate equal, time)
  where
    tested :
        (s' ≡ s)
        × (is_held r.status ≡ true)
        × (usage_amounts_equal r.estimate estimate ≡ true)
        × (r.created_at ≡ at)
    tested = ground (arith, h)

-- A reservation that is accepted either changes nothing, and the account holds one of its id with its
-- estimate and its time already, or appends exactly one hold with the estimate, after which all that
-- is held or committed fits every hard limit of the budget.
pub reserve_budget-Fits :
    (s : AccountState) (c : ReserveCommand) {s' : AccountState}
    → reserve_budget s c ≡ ok s'
    → ((s' ≡ s) × IsHeldAlready s c)
      ⊎ ((s' ≡ with_hold s c.reservation_id c.estimate c.requested_at)
          × (used : UsageAmounts) × (used_totals s' ≡ ok used)
          × Fits s.budget used)
unfolding reserve_budget replay_reserve parse_reservation_id
reserve_budget-Fits s c {s'} h = after_ok (parse_reservation_id c.reservation_id) _ h λ id hid h1.
    after_ok (parse_usage_amounts c.estimate) _ h1 λ estimate he h2.
      after_check (check_version s c.expected_version) _ h2 λ _ h3.
        elim (Option-cases (find_reservation s.reservations id)) [
          | inl fresh ↦
              let (same, used, total, fits) =
                place_reservation-Fits s id estimate c.requested_at (rw fresh at h3) in
              let id_same = ensure_string-eq-ok is_identifier 1 128 c.reservation_id hid in
              let estimate_same = parse_usage_amounts-eq-ok c.estimate he in
              inr (same ∙ cc (id_same, estimate_same), used, total, fits)
          | inr (existing, found) ↦
              let (same, active, equal, time) =
                replay_reserve-eq-ok s estimate c.requested_at existing (rw found at h3) in
              let id_same = ensure_string-eq-ok is_identifier 1 128 c.reservation_id hid in
              let estimate_same = parse_usage_amounts-eq-ok c.estimate he in
              inl (
                same,
                record {
                  hold = existing;
                  found = rw (← id_same) found;
                  is_active = active;
                  same_estimate = rw (← estimate_same) equal;
                  same_time = time;
                },
              )
        ]
