-- ===== src/Router/Budget/Reconciliation.antt =====
-- packages/router/src/budget.ts: what `reconcileBudgetReservation` answers, and why.
use ai_development_os.Prelude.{
  ◌↔◌, string_eq, ◌≡◌, ◌≢◌, refl, sym, ◌∙◌, subst, String, true, false, Option, none, some, ok, err,
  inl, inr, after_ok, ok-injective, Bool-cases, Result-cases,
}
use ai_development_os.Domain.Errors.{DomainError}
use ai_development_os.Domain.Guards.{Timestamp, ensure_nullable, is_identifier}
use ai_development_os.Domain.Usage.Parsing.{
  ensure_string-eq-ok, ensure_nullable-eq-ok, parse_usage_amounts-eq-ok,
}
use ai_development_os.Domain.Money.{Money}
use ai_development_os.Domain.Usage.{UsageAmounts, parse_usage_amounts}
use ai_development_os.Domain.Budget.{MonetaryBudget}
use ai_development_os.Domain.Account.{
  AccountState, same_currency, parse_reservation_id, parse_account_state,
}
use ai_development_os.Domain.Account.Commands.{Terminal}
use ai_development_os.Domain.Account.Lifecycle.{Command, commit, settle, run}
use ai_development_os.Router.Budget.Settlement.{
  ReconcileAction, commit_usage, end_as, ReconcileInput, ReconcileCode, planned,
  actual_cost_unknown, actual_currency_differs, invalid_state, ReconciliationPlan, attempt_command,
  lacks_actual_cost, reconcile_commit, reconcile_with, reconcile_budget_reservation,
}

-- Money is budgeted and the cost is not known.
abbrev LacksCost : Option MonetaryBudget → Option Money → Type 0
LacksCost money cost = (money ≢ none) × (cost ≡ none)

-- The cost, where there is one, is in the currency of the budget, where money is budgeted.
abbrev pub SharesCurrency : Option MonetaryBudget → Option Money → Type 0
SharesCurrency none cost = Unit
SharesCurrency (some budget) none = Unit
SharesCurrency (some budget) (some cost) = cost.currency ≡ budget.limit.currency

same_currency-SharesCurrency :
    (money : Option MonetaryBudget) (cost : Option Money)
    → (same_currency money cost ≡ true) ↔ SharesCurrency money cost
same_currency-SharesCurrency none cost = (λ h. tt, λ h. refl)
same_currency-SharesCurrency (some budget) none = (λ h. tt, λ h. refl)
same_currency-SharesCurrency (some budget) (some cost) =
    string_eq.decides cost.currency budget.limit.currency

-- The command that is asked for: the usage is committed, with a cost that is known where money is budgeted
-- and in the currency of the budget, or the hold ends as the action says. Both are for the reservation,
-- the time and the version of the account that were given.
pub data IsAsked (account : AccountState) (id : String) (at : Timestamp)
    : Option UsageAmounts → ReconcileAction → Command → Type 0 where
  to_commit :
      (actual : UsageAmounts)
      → ¬ LacksCost account.budget.money actual.cost
      → SharesCurrency account.budget.money actual.cost
      → IsAsked account id at (some actual) commit_usage (
          commit (record {
            reservation_id = id;
            actual = actual;
            settled_at = at;
            expected_version = some account.version;
          }))
  to_end :
      (actual : Option UsageAmounts) (terminal : Terminal)
      → IsAsked account id at actual (end_as terminal) (
          settle terminal (record {
            reservation_id = id;
            settled_at = at;
            expected_version = some account.version;
          }))

-- There is no usage, or its cost is not known where money is budgeted.
abbrev IsUnknown : AccountState → Option UsageAmounts → Type 0
IsUnknown account none = Unit
IsUnknown account (some actual) = LacksCost account.budget.money actual.cost

abbrev IsForeign : AccountState → Option UsageAmounts → Type 0
IsForeign account none = ⊥
IsForeign account (some actual) =
    (¬ SharesCurrency account.budget.money actual.cost)
    × ¬ LacksCost account.budget.money actual.cost

abbrev Refuses : ReconciliationPlan → Type 0
Refuses p = (p.command ≡ none) × (p.preview_version ≡ none)

-- What each code of an answer says.
abbrev pub Explains :
    AccountState
    → String
    → Timestamp
    → Option UsageAmounts
    → ReconcileAction
    → ReconciliationPlan
    → ReconcileCode
    → Type 0
Explains account id at actual action p planned =
    (c : Command) × (next : AccountState) × IsAsked account id at actual action c
    × (run account c ≡ ok next)
    × (p.command ≡ some c)
    × (p.preview_version ≡ some next.version)
Explains account id at actual action p invalid_state =
    (c : Command) × (e : DomainError) × IsAsked account id at actual action c
    × (run account c ≡ err e)
    × Refuses p
Explains account id at actual action p actual_cost_unknown =
    (action ≡ commit_usage) × IsUnknown account actual × Refuses p
Explains account id at actual action p actual_currency_differs =
    (action ≡ commit_usage) × IsForeign account actual × Refuses p

lacks_actual_cost-LacksCost :
    (money : Option MonetaryBudget) (cost : Option Money)
    → lacks_actual_cost money cost ≡ true
    → LacksCost money cost
lacks_actual_cost-LacksCost none none h = absurd (cc h)
lacks_actual_cost-LacksCost none (some c) h = absurd (cc h)
lacks_actual_cost-LacksCost (some b) none h = (λ e. cc e, refl)
lacks_actual_cost-LacksCost (some b) (some c) h = absurd (cc h)

knows_actual_cost :
    (money : Option MonetaryBudget) (cost : Option Money)
    → lacks_actual_cost money cost ≡ false
    → ¬ LacksCost money cost
knows_actual_cost none cost h lacks = lacks.0 refl
knows_actual_cost (some b) none h lacks = cc h
knows_actual_cost (some b) (some c) h lacks = cc (lacks.1)

attempt_command-Explains :
    (account : AccountState) (id : String) (at : Timestamp) (actual : Option UsageAmounts)
    (action : ReconcileAction) (c : Command)
    → IsAsked account id at actual action c
    → Explains account id at actual action
        (attempt_command account c)
        (attempt_command account c).code
attempt_command-Explains account id at actual action c asked = elim (Result-cases (run account c)) [
  | inl (next, e) ↦ rw e (c, next, asked, e, refl, refl)
  | inr (fault, e) ↦ rw e (c, fault, asked, e, (refl, refl))
]

reconcile_commit-Explains :
    (account : AccountState) (id : String) (at : Timestamp) (actual : Option UsageAmounts)
    → Explains account id at actual commit_usage
        (reconcile_commit account id at actual)
        (reconcile_commit account id at actual).code
unfolding reconcile_commit
reconcile_commit-Explains account id at none = (refl, tt, (refl, refl))
reconcile_commit-Explains account id at (some actual) =
    elim (Bool-cases (lacks_actual_cost account.budget.money actual.cost)) [
      | inl lacking ↦
          rw (lacking, reconcile_commit)
            (
              refl,
              lacks_actual_cost-LacksCost account.budget.money actual.cost lacking,
              (refl, refl),
            )
      | inr priced ↦
          let known = knows_actual_cost account.budget.money actual.cost priced in
          let shares = same_currency-SharesCurrency account.budget.money actual.cost in
          elim (Bool-cases (same_currency account.budget.money actual.cost)) [
            | inl agrees ↦
                rw (priced, agrees, reconcile_commit)
                  (attempt_command-Explains account id at (some actual) commit_usage _
                    (to_commit actual known (shares.0 agrees)))
            | inr differs ↦
                rw (priced, differs, reconcile_commit)
                  (refl, (λ same. cc (differs, shares.1 same), known), (refl, refl))
          ]
    ]

reconcile_with-Explains :
    (account : AccountState) (id : String) (at : Timestamp) (actual : Option UsageAmounts)
    (action : ReconcileAction)
    → Explains account id at actual action
        (reconcile_with account id at actual action)
        (reconcile_with account id at actual action).code
reconcile_with-Explains account id at actual commit_usage =
    reconcile_commit-Explains account id at actual
reconcile_with-Explains account id at actual (end_as terminal) =
    attempt_command-Explains account id at actual (end_as terminal) _ (to_end actual terminal)

-- A reconciliation is planned only with the command that is asked for, which the account carries out,
-- and with the version that the account then has: to commit the usage, with a cost that is known where
-- money is budgeted and is in the budget's currency, or to end the hold as the action says, for the
-- reservation and the time that were given and the version of the account. Each other answer holds no
-- command and is for the reason that its code names: the usage or its cost is unknown, the currency
-- differs, or the account refuses the command. The parser keeps the account as it is.
pub reconcile_budget_reservation-Explains :
    (i : ReconcileInput) {p : ReconciliationPlan}
    → reconcile_budget_reservation i ≡ ok p
    → parse_account_state i.account ≡ ok i.account
    → Explains i.account i.reservation_id i.settled_at i.actual i.action p p.code
unfolding reconcile_budget_reservation parse_reservation_id
reconcile_budget_reservation-Explains i {p} h parsed =
    after_ok (parse_account_state i.account) _ h λ account ha h1.
      after_ok (parse_reservation_id i.reservation_id) _ h1 λ id hid h2.
        after_ok (ensure_nullable parse_usage_amounts i.actual) _ h2 λ actual hactual h3.
          let same_account : account ≡ i.account = ok-injective (sym ha ∙ parsed) in
          let same_id = ensure_string-eq-ok is_identifier 1 128 i.reservation_id hid in
          let same_actual =
            ensure_nullable-eq-ok parse_usage_amounts parse_usage_amounts-eq-ok i.actual hactual in
          let answer : reconcile_with i.account i.reservation_id i.settled_at i.actual i.action
              ≡ p =
            rw (← same_account, ← same_id, ← same_actual) (ok-injective h3) in
          subst
            (λ (q : ReconciliationPlan).
              Explains i.account i.reservation_id i.settled_at i.actual i.action q q.code)
            answer
            (reconcile_with-Explains i.account i.reservation_id i.settled_at i.actual i.action)
