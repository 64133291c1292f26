-- ===== src/Domain/Account/Commands.antt =====
-- packages/domain/src/budget-account.ts: the five commands on an account.
use ai_development_os.Prelude.{
  ℕ, ◌+◌, String, Bool, true, false, ◌&&◌, Option, none, some, List, [], ◌∷◌, ◌++◌, map, ok, err,
  ◌>>=◌, ◌>>◌, guard, reject_if, or_fail, leb, ◌==◌, string_eq, nat_eq, option_eq, if◌then◌else◌,
  length, find?,
}
use ai_development_os.Domain.Errors.{
  reservation_differs, account_cancelled, too_many_reservations, unknown_reservation,
  committed_differently, not_held, settled_at_another_time, invariant_violation, budget_exceeded,
  concurrency_conflict, Checked,
}
use ai_development_os.Domain.Guards.{Timestamp}
use ai_development_os.Domain.Usage.{UsageAmounts, parse_usage_amounts, usage_amounts_equal}
use ai_development_os.Domain.Account.{
  ReservationStatus, held, committed, released, cancelled, AccountStatus, open_account,
  cancelled_account, Reservation, AccountState, max_reservations, parse_reservation_id, is_held,
  assert_currency_matches_budget,
}
use ai_development_os.Domain.Account.Admission.{evaluate_reservation}

abbrev pub check_version : AccountState → Option ℕ → Checked (Unit {0})
check_version s none = ok tt
check_version s (some expected) = guard (expected == s.version) concurrency_conflict

abbrev pub find_reservation : List Reservation → String → Option Reservation
find_reservation rs id = find? (λ r. r.id == id) rs

-- `rs.map(r => r.id === next.id ? next : r)`.
unfoldable pub replace_reservation : Reservation → List Reservation → List Reservation
replace_reservation next [] = []
replace_reservation next (r ∷ rs) =
    (if r.id == next.id then next else r) ∷ replace_reservation next rs

unfoldable pub with_reservation : AccountState → Reservation → AccountState
with_reservation s next = record s {
  version = s.version + 1;
  reservations = replace_reservation next s.reservations;
}

pub record ReserveCommand : Type 0 where
  pub reservation_id : String
  pub estimate : UsageAmounts
  pub requested_at : Timestamp
  pub expected_version : Option ℕ

-- A repeated command finds what it has placed before.
unfoldable pub replay_reserve :
    AccountState → UsageAmounts → Timestamp → Reservation → Checked AccountState
replay_reserve s estimate requested_at existing =
    if is_held existing.status
      && (usage_amounts_equal existing.estimate estimate && (existing.created_at == requested_at))
    then ok s
    else err (invariant_violation reservation_differs)

abbrev pub is_open : AccountStatus → Bool
is_open open_account = true
is_open cancelled_account = false

abbrev pub new_reservation : String → UsageAmounts → Timestamp → Reservation
new_reservation id estimate requested_at = record {
  id = id;
  status = held;
  estimate = estimate;
  actual = none;
  created_at = requested_at;
  settled_at = none;
}

unfoldable pub place_reservation :
    AccountState → String → UsageAmounts → Timestamp → Checked AccountState
place_reservation s id estimate requested_at = do
  guard (is_open s.status) (invariant_violation account_cancelled)
  reject_if (leb max_reservations (length s.reservations))
      (invariant_violation too_many_reservations)
  decision ← evaluate_reservation s estimate
  guard decision.allowed (budget_exceeded decision)
  ok (record s {
    version = s.version + 1;
    reservations = s.reservations ++ new_reservation id estimate requested_at ∷ [];
  })

unfoldable pub reserve_budget : AccountState → ReserveCommand → Checked AccountState
reserve_budget s c = do
  id ← parse_reservation_id c.reservation_id
  estimate ← parse_usage_amounts c.estimate
  check_version s c.expected_version
  elim (find_reservation s.reservations id) [
    | some existing ↦ replay_reserve s estimate c.requested_at existing
    | none ↦ place_reservation s id estimate c.requested_at
  ]

pub record CommitCommand : Type 0 where
  pub reservation_id : String
  pub actual : UsageAmounts
  pub settled_at : Timestamp
  pub expected_version : Option ℕ

abbrev pub same_usage : Option UsageAmounts → UsageAmounts → Bool
same_usage none actual = false
same_usage (some a) actual = usage_amounts_equal a actual

unfoldable pub settle_with_usage :
    AccountState → UsageAmounts → Timestamp → Reservation → ReservationStatus → Checked AccountState
settle_with_usage s actual settled_at existing committed =
    if same_usage existing.actual actual && (existing.settled_at == some settled_at)
    then ok s
    else err (invariant_violation committed_differently)
settle_with_usage s actual settled_at existing held = ok (
    with_reservation s
      (record existing { status = committed; actual = some actual; settled_at = some settled_at }))
settle_with_usage s actual settled_at existing released = err (invariant_violation not_held)
settle_with_usage s actual settled_at existing cancelled = err (invariant_violation not_held)

unfoldable pub commit_reservation : AccountState → CommitCommand → Checked AccountState
commit_reservation s c = do
  id ← parse_reservation_id c.reservation_id
  actual ← parse_usage_amounts c.actual
  assert_currency_matches_budget s.budget actual
  check_version s c.expected_version
  existing ← or_fail (find_reservation s.reservations id) (invariant_violation unknown_reservation)
  settle_with_usage s actual c.settled_at existing existing.status

pub record SettleCommand : Type 0 where
  pub reservation_id : String
  pub settled_at : Timestamp
  pub expected_version : Option ℕ

-- `terminalStatus`: a hold ends without usage as released or as cancelled.
pub data Terminal : Type 0 where
  release cancel : Terminal

abbrev pub status_of : Terminal → ReservationStatus
status_of release = released
status_of cancel = cancelled

abbrev pub has_ended_as : Terminal → ReservationStatus → Bool
has_ended_as release released = true
has_ended_as cancel cancelled = true
has_ended_as _ _ = false

unfoldable pub end_hold : AccountState → Terminal → Timestamp → Reservation → Checked AccountState
end_hold s terminal settled_at existing =
    if has_ended_as terminal existing.status
    then (if existing.settled_at == some settled_at
        then ok s
        else err (invariant_violation settled_at_another_time))
    else (if is_held existing.status
        then ok (
            with_reservation s
              (record existing { status = status_of terminal; settled_at = some settled_at }))
        else err (invariant_violation not_held))

unfoldable pub settle_without_usage : AccountState → SettleCommand → Terminal → Checked AccountState
settle_without_usage s c terminal = do
  id ← parse_reservation_id c.reservation_id
  check_version s c.expected_version
  existing ← or_fail (find_reservation s.reservations id) (invariant_violation unknown_reservation)
  end_hold s terminal c.settled_at existing

unfoldable pub release_reservation : AccountState → SettleCommand → Checked AccountState
release_reservation s c = settle_without_usage s c release

unfoldable pub cancel_reservation : AccountState → SettleCommand → Checked AccountState
cancel_reservation s c = settle_without_usage s c cancel

pub record CancelAccountCommand : Type 0 where
  pub cancelled_at : Timestamp
  pub expected_version : Option ℕ

unfoldable pub cancel_if_held : Timestamp → Reservation → Reservation
cancel_if_held at r =
    if is_held r.status then record r { status = cancelled; settled_at = some at } else r

unfoldable pub cancel_account : AccountState → CancelAccountCommand → Checked AccountState
cancel_account s c = do
  check_version s c.expected_version
  if is_open s.status
      then ok (record s {
        status = cancelled_account;
        version = s.version + 1;
        reservations = map (cancel_if_held c.cancelled_at) s.reservations;
      })
      else ok s
