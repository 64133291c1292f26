-- ===== src/Domain/Errors.antt =====
-- packages/domain/src/errors.ts, with the reasons that budget.ts, budget-account.ts and
-- internal/guards.ts give. A message's text is left out; the issue or the violated rule is kept.
use ai_development_os.Prelude.{ℕ, String, Bool, Option, List, Result}

-- `ValidationIssue.code`.
pub data Issue : Type 0 where
  bad_length bad_format bad_integer : Issue
  currency_mismatch soft_above_hard empty_budget : Issue
  inconsistent_reservation duplicate_reservation bad_reservations : Issue
  too_many_items duplicate_event inconsistent_circuit fingerprint_mismatch payload_too_large
        missing_aggregate_type :
      Issue

-- What an `InvariantViolationError` is thrown for.
pub data Violation : Type 0 where
  different_currencies money_overflow negative_money : Violation
  token_overflow duration_overflow : Violation
  reservation_differs account_cancelled too_many_reservations : Violation
  unknown_reservation committed_differently not_held settled_at_another_time : Violation

-- `BudgetDimension`.
pub data Dimension : Type 0 where
  input_tokens output_tokens total_tokens money duration : Dimension

pub data Severity : Type 0 where
  hard soft : Severity

-- `LimitBreach`.
pub record LimitBreach : Type 0 where
  pub dimension : Dimension
  pub severity : Severity
  pub limit : ℕ
  pub attempted : ℕ
  pub currency : Option String

-- `BudgetDecision`; its `reasons` are the breaches in words.
pub record BudgetDecision : Type 0 where
  pub allowed : Bool
  pub breaches : List LimitBreach

pub data DomainError : Type 0 where
  validation_failed : Issue → DomainError
  invariant_violation : Violation → DomainError
  budget_exceeded : BudgetDecision → DomainError
  concurrency_conflict : DomainError

abbrev pub Checked : Type 0 → Type 0
Checked A = Result DomainError A
