-- ===== src/Domain/Account/Totals.antt =====
-- packages/domain/src/budget-account.ts: what a reservation adds to the totals of an account.
use mathlib.Core.List.{append-nil}
use ai_development_os.Prelude.{
  ◌+◌, ◌≡◌, inl, inr, List, [], ◌∷◌, ◌++◌, ok, ◌>>=◌, filter, filter-append, >>=-eq-ok,
  Result-cases, >>=-ok, String,
}
use ai_development_os.Domain.Errors.{Checked}
use ai_development_os.Domain.Usage.{UsageAmounts, add_usage_amounts, zero_usage}
use ai_development_os.Domain.Usage.Sums.{add_usage_amounts-swap}
use ai_development_os.Domain.Account.{
  Reservation, AccountState, sum_amounts, reserved_totals, committed_totals, is_held, is_committed,
}
use ai_development_os.Domain.Guards.{Timestamp}
use ai_development_os.Domain.Account.Admission.{prospective_usage}
use ai_development_os.Domain.Account.Commands.{new_reservation}

-- Everything that an account has held or committed.
unfoldable pub used_totals : AccountState → Checked UsageAmounts
used_totals s = do
  reserved ← reserved_totals s
  committed ← committed_totals s
  add_usage_amounts reserved committed

sum_amounts-append :
    (amounts : Reservation → UsageAmounts) (sum : UsageAmounts) (rs : List Reservation)
    (r : Reservation)
    → sum_amounts amounts sum (rs ++ r ∷ [])
      ≡ (sum_amounts amounts sum rs >>= λ u. add_usage_amounts u (amounts r))
unfolding sum_amounts
sum_amounts-append amounts sum [] r = >>=-ok (add_usage_amounts sum (amounts r))
sum_amounts-append amounts sum (x ∷ rs) r =
    elim (Result-cases (add_usage_amounts sum (amounts x))) [
      | inl (u, e) ↦ rw e (sum_amounts-append amounts u rs r)
      | inr (e, h) ↦ rw h
    ]

-- The account with one more hold, placed last.
abbrev pub with_hold : AccountState → String → UsageAmounts → Timestamp → AccountState
with_hold s id estimate at = record s {
  version = s.version + 1;
  reservations = s.reservations ++ new_reservation id estimate at ∷ [];
}

-- That hold counts on top of everything else.
pub used_totals-with_hold :
    (s : AccountState) (id : String) (estimate : UsageAmounts) (at : Timestamp) {p : UsageAmounts}
    → prospective_usage s estimate ≡ ok p
    → used_totals (with_hold s id estimate at) ≡ ok p
unfolding used_totals prospective_usage reserved_totals committed_totals
used_totals-with_hold s id estimate at h =
    let r = new_reservation id estimate at in
    let (reserved, hr, h1) = >>=-eq-ok (reserved_totals s) _ h in
    let (committed, hc, h2) = >>=-eq-ok (committed_totals s) _ h1 in
    let swapped = add_usage_amounts-swap reserved committed estimate h2 in
    let (grown, hg, h3) = >>=-eq-ok (add_usage_amounts reserved estimate) _ swapped in
    rw
      (
        filter-append (λ (q : Reservation). is_held q.status) s.reservations (r ∷ []),
        filter-append (λ (q : Reservation). is_committed q.status) s.reservations (r ∷ []),
        append-nil,
        sum_amounts-append (λ q. q.estimate) zero_usage
            (filter (λ q. is_held q.status) s.reservations) r,
        hr,
        hg,
        hc,
      )
      h3
