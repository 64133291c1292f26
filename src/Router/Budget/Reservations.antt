-- ===== src/Router/Budget/Reservations.antt =====
-- packages/router/src/budget.ts: a reservation that is planned is one that the account makes.
use ai_development_os.Prelude.{
  ℕ, ◌+◌, ◌*◌, ◌≤◌, ◌<◌, ◌≡◌, refl, sym, ap, ◌∙◌, subst, String, Bool, true, false, not, ◌&&◌,
  Option, none, some, ok, err, leb, length, ◌==◌, nat_eq, string_eq, after_ok, ok-injective, inl,
  inr, Bool-cases, arith,
}
use ai_development_os.Domain.Errors.{BudgetDecision, Checked}
use ai_development_os.Domain.Guards.{ensure_safe_integer, is_identifier}
use ai_development_os.Domain.Usage.{UsageAmounts, parse_usage_amounts}
use ai_development_os.Domain.Usage.Parsing.{parse_usage_amounts-eq-ok, ensure_string-eq-ok}
use ai_development_os.Domain.Account.{
  AccountState, max_reservations, same_currency, parse_reservation_id, parse_account_state,
}
use ai_development_os.Domain.Account.Admission.{evaluate_reservation}
use ai_development_os.Domain.Account.Commands.{
  ReserveCommand, find_reservation, is_open, place_reservation, reserve_budget,
}
use ai_development_os.Domain.Account.Totals.{with_hold}
use ai_development_os.Router.Budget.{
  of_domain, RoutingCost, TokenEstimate, ReservationSettings, ReservationInput, fit,
  ReservationPlan, with_margin, cost_with_margin, cached_with_margin, usage_with_margin, lacks_cost,
  plan_for, command_for, plan_budget_reservation,
}

of_domain-ok : {A : Type 0} (m : Checked A) {a : A} → of_domain m ≡ ok a → m ≡ ok a
of_domain-ok (ok a) h = cc h
of_domain-ok (err e) h = absurd (cc h)

-- Amounts with their margins are amounts that the parser accepts as they are.
usage_with_margin-valid :
    (t : TokenEstimate) (cost : Option _) (expected : ℕ) (settings : ReservationSettings)
    {u : UsageAmounts}
    → usage_with_margin t cost expected settings ≡ ok u
    → parse_usage_amounts u ≡ ok u
unfolding usage_with_margin
usage_with_margin-valid t cost expected settings {u} h =
    after_ok (with_margin t.input_tokens settings.token_margin) _ h λ input _ h1.
      after_ok (with_margin t.output_allowance_tokens settings.token_margin) _ h1 λ output _ h2.
        after_ok (cached_with_margin t.cached_input_tokens settings.token_margin) _ h2
          λ cached _ h3.
            after_ok (with_margin t.reasoning_allowance_tokens settings.token_margin) _ h3
              λ reasoning _ h4.
                after_ok (with_margin expected settings.duration_margin) _ h4 λ elapsed _ h5.
                  let parsed = of_domain-ok (parse_usage_amounts _) h5 in
                  let same = parse_usage_amounts-eq-ok _ parsed in
                  subst (λ v. parse_usage_amounts v ≡ ok u) (sym same) parsed

-- A plan that fits comes from a decision that allows.
plan_for-allowed :
    (account : AccountState) (cost : RoutingCost) (b : Bool) (command : ReserveCommand)
    {p : ReservationPlan}
    → plan_for account cost b command ≡ ok p
    → p.code ≡ fit
    → (d : BudgetDecision) × (evaluate_reservation account command.estimate ≡ ok d)
      × (d.allowed ≡ true)
      × (p.command ≡ some command)
      × (command.estimate ≡ p.estimate)
unfolding plan_for
plan_for-allowed account cost b command {p} h fits =
    elim (Bool-cases (lacks_cost account.budget.money cost && b)) [
      | inl lacking ↦ absurd (cc (rw (lacking, plan_for) at h, fits))
      | inr priced ↦
          elim (Bool-cases (not (same_currency account.budget.money command.estimate.cost))) [
            | inl differs ↦ absurd (cc (rw (priced, differs, plan_for) at h, fits))
            | inr agrees ↦
                after_ok (evaluate_reservation account command.estimate) _
                  (rw (priced, agrees, plan_for) at h)
                  λ d e same. elim (Bool-cases d.allowed) [
                    | inl yes_it_is ↦
                        let decision = rw yes_it_is at same in
                        (
                          d,
                          e,
                          yes_it_is,
                          ap (λ (q : ReservationPlan). q.command) (sym (ok-injective decision)),
                          ap (λ (q : ReservationPlan). q.estimate) (ok-injective decision),
                        )
                    | inr it_is_not ↦ absurd (cc (rw it_is_not at same, fits))
                  ]
          ]
    ]

place_reservation-ok :
    (s : AccountState) (id : String) (estimate : UsageAmounts) (at : ℕ) (d : BudgetDecision)
    → is_open s.status ≡ true
    → leb max_reservations (length s.reservations) ≡ false
    → evaluate_reservation s estimate ≡ ok d
    → d.allowed ≡ true
    → place_reservation s id estimate at ≡ ok (with_hold s id estimate at)
unfolding place_reservation
place_reservation-ok s id estimate at d is_open_now room e allows =
    rw (is_open_now, room, e, allows, place_reservation) refl

same_version : (n : ℕ) → (n == n) ≡ true
same_version n = ground arith

reserve_budget-ok :
    (s : AccountState) (c : ReserveCommand)
    → parse_reservation_id c.reservation_id ≡ ok c.reservation_id
    → parse_usage_amounts c.estimate ≡ ok c.estimate
    → c.expected_version ≡ some s.version
    → find_reservation s.reservations c.reservation_id ≡ none
    → reserve_budget s c ≡ place_reservation s c.reservation_id c.estimate c.requested_at
unfolding reserve_budget
reserve_budget-ok s c named valid version fresh =
    rw (named, valid, version, same_version s.version, fresh, reserve_budget) refl

plan_for-accepted :
    (s : AccountState) (cost : RoutingCost) (b : Bool) (c : ReserveCommand) {p : ReservationPlan}
    → plan_for s cost b c ≡ ok p
    → p.code ≡ fit
    → parse_reservation_id c.reservation_id ≡ ok c.reservation_id
    → parse_usage_amounts c.estimate ≡ ok c.estimate
    → c.expected_version ≡ some s.version
    → is_open s.status ≡ true
    → leb max_reservations (length s.reservations) ≡ false
    → find_reservation s.reservations c.reservation_id ≡ none
    → (p.command ≡ some c)
      × (reserve_budget s c ≡ ok (with_hold s c.reservation_id p.estimate c.requested_at))
plan_for-accepted s cost b c h fits named valid version opened room fresh =
    let (d, e, allows, answered, planned_estimate) = plan_for-allowed s cost b c h fits in
    (
      answered,
      reserve_budget-ok s c named valid version fresh
          ∙ place_reservation-ok s c.reservation_id c.estimate c.requested_at d opened room e allows
          ∙ ap (λ u. ok (with_hold s c.reservation_id u c.requested_at)) planned_estimate,
    )

-- A reservation that is planned is made: when the plan fits, the command that it answers is one that
-- `reserveBudget` carries out on the account, with the estimate of the plan held under the id that was
-- asked for. The parser keeps the account as it is, which is open, has room for a reservation and has none
-- with that id.
pub plan_budget_reservation-accepted :
    (i : ReservationInput) {p : ReservationPlan}
    → plan_budget_reservation i ≡ ok p
    → p.code ≡ fit
    → parse_account_state i.account ≡ ok i.account
    → is_open i.account.status ≡ true
    → leb max_reservations (length i.account.reservations) ≡ false
    → find_reservation i.account.reservations i.reservation_id ≡ none
    → (c : ReserveCommand) × (p.command ≡ some c)
      × (reserve_budget i.account c
          ≡ ok (with_hold i.account i.reservation_id p.estimate i.requested_at))
unfolding plan_budget_reservation parse_reservation_id
plan_budget_reservation-accepted i {p} h fits parsed opened room fresh =
    after_ok (of_domain (parse_account_state i.account)) _ h λ account ha h1.
      after_ok (of_domain (parse_reservation_id i.reservation_id)) _ h1 λ id hid h2.
        after_ok (of_domain (ensure_safe_integer i.expected_duration 0 10000000000000)) _ h2
          λ expected _ h3.
            after_ok (cost_with_margin i.cost i.settings.cost_margin) _ h3 λ cost _ h4.
              after_ok (usage_with_margin i.tokens cost expected i.settings) _ h4 λ estimate he h5.
                let account_same =
                  ok-injective (sym (of_domain-ok (parse_account_state i.account) ha) ∙ parsed) in
                let named = of_domain-ok (parse_reservation_id i.reservation_id) hid in
                let id_same = ensure_string-eq-ok is_identifier 1 128 i.reservation_id named in
                let h6 : plan_for i.account i.cost i.settings.requires_known_cost
                      (command_for i i.account i.reservation_id estimate)
                    ≡ ok p =
                  subst
                    (λ (a : AccountState).
                      plan_for a i.cost i.settings.requires_known_cost
                        (command_for i a i.reservation_id estimate)
                      ≡ ok p)
                    account_same
                    (subst
                      (λ v.
                        plan_for account i.cost i.settings.requires_known_cost
                          (command_for i account v estimate)
                        ≡ ok p)
                      id_same (of_domain-ok _ h5)) in
                let (answered, made) =
                  plan_for-accepted i.account i.cost i.settings.requires_known_cost
                    (command_for i i.account i.reservation_id estimate) h6 fits
                    (subst (λ v. parse_reservation_id i.reservation_id ≡ ok v) id_same named)
                    (usage_with_margin-valid i.tokens cost expected i.settings he) refl opened room
                    fresh in
                (command_for i i.account i.reservation_id estimate, answered, made)

-- A margin is added and rounded up: the amount is at least the value and its part in basis points, and is
-- less than one above it.
pub with_margin-rounds_up :
    (value basis_points : ℕ) {amount : ℕ}
    → with_margin value basis_points ≡ ok amount
    → (value * 10000 + value * basis_points ≤ amount * 10000)
      × (amount * 10000 < value * 10000 + value * basis_points + 10000)
unfolding with_margin
with_margin-rounds_up value basis_points h = ground (arith, h)
