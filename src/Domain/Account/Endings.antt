-- ===== src/Domain/Account/Endings.antt =====
-- packages/domain/src/budget-account.ts: the end of a hold that is sent again.
use ai_development_os.Prelude.{
  ◌≡◌, refl, sym, ◌∙◌, subst, inl, inr, String, true, ◌&&◌, Option, none, some, List, [], ◌∷◌, ◌++◌,
  ok, or_fail, or_fail-eq-ok, ◌==◌, string_eq, nat_eq, option_eq, beq_refl, arith, after_ok,
  after_check, after_then, ok-injective, Bool-cases,
}
use ai_development_os.Domain.Errors.{invariant_violation, unknown_reservation}
use ai_development_os.Domain.Guards.{Timestamp}
use ai_development_os.Domain.Money.{Money, money_equals}
use ai_development_os.Domain.Usage.{UsageAmounts, usage_amounts_equal, costs_equal}
use ai_development_os.Domain.Budget.{AggregateBudget}
use ai_development_os.Domain.Account.{
  ReservationStatus, held, committed, released, cancelled, Reservation, AccountState,
  parse_reservation_id, is_held,
}
use ai_development_os.Domain.Account.Commands.{
  check_version, find_reservation, replace_reservation, with_reservation, same_usage,
  settle_with_usage, SettleCommand, Terminal, release, cancel, status_of, has_ended_as, end_hold,
  settle_without_usage,
}
use ai_development_os.Domain.Account.Keeping.{found_id}

pub find-append :
    (rs : List Reservation) (x : Reservation)
    → find_reservation rs x.id ≡ none
    → find_reservation (rs ++ x ∷ []) x.id ≡ some x
find-append [] x fresh = rw (beq_refl x.id)
find-append (r ∷ rs) x fresh = elim (Bool-cases (r.id == x.id)) [
  | inl hit ↦ absurd (cc (rw hit at fresh))
  | inr miss ↦ rw miss (find-append rs x (rw miss at fresh))
]

find-replace :
    (rs : List Reservation) (existing next : Reservation)
    → find_reservation rs next.id ≡ some existing
    → find_reservation (replace_reservation next rs) next.id ≡ some next
unfolding replace_reservation
find-replace [] existing next found = absurd (cc found)
find-replace (r ∷ rs) existing next found = elim (Bool-cases (r.id == next.id)) [
  | inl hit ↦ rw (hit, beq_refl next.id)
  | inr miss ↦ rw (miss, miss) (find-replace rs existing next (rw miss at found))
]

costs_equal_refl : (cost : Option Money) → costs_equal cost cost ≡ true
unfolding money_equals
costs_equal_refl none = refl
costs_equal_refl (some m) = rw (beq_refl m.currency, beq_refl m.amount_micros)

pub usage_amounts_equal_refl : (a : UsageAmounts) → usage_amounts_equal a a ≡ true
unfolding usage_amounts_equal
usage_amounts_equal_refl a = rw (costs_equal_refl a.cost) (ground arith)

-- What a hold became is found under the same id.
find-settled :
    (rs : List Reservation) (id : String) (existing next : Reservation)
    → find_reservation rs id ≡ some existing
    → next.id ≡ existing.id
    → find_reservation (replace_reservation next rs) id ≡ some next
find-settled rs id existing next found same =
    let at_id : next.id ≡ id = same ∙ found_id rs id found in
    subst (λ i. find_reservation (replace_reservation next rs) i ≡ some next) at_id
      (find-replace rs existing next
        (subst (λ i. find_reservation rs i ≡ some existing) (sym at_id) found))

-- The account that is left holds a reservation for which the same end is accepted again.
abbrev Ended : String → Terminal → Timestamp → AccountState → Type 0
Ended id terminal at t =
    (r : Reservation) × (find_reservation t.reservations id ≡ some r)
    × (end_hold t terminal at r ≡ ok t)

has_ended_as-status_of : (terminal : Terminal) → has_ended_as terminal (status_of terminal) ≡ true
has_ended_as-status_of release = refl
has_ended_as-status_of cancel = refl

replay-end_hold :
    (s : AccountState) (id : String) (terminal : Terminal) (at : Timestamp) (existing : Reservation)
    {s' : AccountState}
    → find_reservation s.reservations id ≡ some existing
    → end_hold s terminal at existing ≡ ok s'
    → Ended id terminal at s'
unfolding end_hold with_reservation
replay-end_hold s id terminal at existing found h =
    elim (Bool-cases (has_ended_as terminal existing.status)) [
      | inl ended ↦ after_then (existing.settled_at == some at) (ok s) _ (rw ended at h) λ same e.
          subst (Ended id terminal at) (ok-injective e) (existing, found, rw (ended, same))
      | inr holding ↦ after_then (is_held existing.status) _ _ (rw holding at h) λ _ e.
          subst (Ended id terminal at) (ok-injective e) (
            record existing { status = status_of terminal; settled_at = some at },
            find-settled s.reservations id existing _ found refl,
            rw (has_ended_as-status_of terminal, beq_refl at),
          )
    ]

pub replay-settle :
    (s : AccountState) (id : String) (c : SettleCommand) (terminal : Terminal) {s' : AccountState}
    → parse_reservation_id c.reservation_id ≡ ok id
    → c.expected_version ≡ none
    → settle_without_usage s c terminal ≡ ok s'
    → settle_without_usage s' c terminal ≡ ok s'
unfolding settle_without_usage
replay-settle s id c terminal {s'} hid unversioned h =
    after_check (check_version s c.expected_version) _ (rw hid at h) λ _ h2.
      after_ok
        (or_fail (find_reservation s.reservations id) (invariant_violation unknown_reservation)) _
        h2
        λ existing found h3.
          let (r, there, again) =
            replay-end_hold s id terminal c.settled_at existing (or_fail-eq-ok _ _ found) h3 in
          rw (hid, unversioned, there) again

abbrev Committed : AggregateBudget → String → UsageAmounts → Timestamp → AccountState → Type 0
Committed budget id actual at t =
    (t.budget ≡ budget)
    × (r : Reservation) × (find_reservation t.reservations id ≡ some r)
    × (settle_with_usage t actual at r r.status ≡ ok t)

pub replay-settle_with_usage :
    (s : AccountState) (id : String) (actual : UsageAmounts) (at : Timestamp)
    (existing : Reservation) (status : ReservationStatus) {s' : AccountState}
    → find_reservation s.reservations id ≡ some existing
    → existing.status ≡ status
    → settle_with_usage s actual at existing status ≡ ok s'
    → Committed s.budget id actual at s'
unfolding settle_with_usage with_reservation
replay-settle_with_usage s id actual at existing held found status h =
    subst (Committed s.budget id actual at) (ok-injective h) (
      refl,
      record existing { status = committed; actual = some actual; settled_at = some at },
      find-settled s.reservations id existing _ found refl,
      rw (usage_amounts_equal_refl actual, beq_refl at),
    )
replay-settle_with_usage s id actual at existing committed found status h =
    after_then (same_usage existing.actual actual && (existing.settled_at == some at)) (ok s) _ h
      λ same e.
        subst (Committed s.budget id actual at) (ok-injective e)
          (refl, existing, found, rw (status, same))
replay-settle_with_usage s id actual at existing released found status h = absurd (cc h)
replay-settle_with_usage s id actual at existing cancelled found status h = absurd (cc h)
