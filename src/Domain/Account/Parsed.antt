-- ===== src/Domain/Account/Parsed.antt =====
-- packages/domain/src/budget-account.ts: states that the parser keeps as they are, and the changes that keep
-- them so.
use ai_development_os.Prelude.{
  suc, ◌+◌, ◌≤◌, ◌<◌, ◌≡◌, refl, ap, subst, true, false, Option, none, some, List, [], ◌∷◌, ok,
  reject_if, reject_if-eq-ok, string_eq, nat_eq, option_eq, length, ltb, arith, after_ok,
  after_check, ok-injective, if_ind,
}
use ai_development_os.Domain.Guards.{
  Timestamp, max_safe_integer, ensure_safe_integer, ensure_safe_integer_accepts,
}
use ai_development_os.Domain.Usage.{UsageAmounts, parse_usage_amounts, parse_budget_scope}
use ai_development_os.Domain.Budget.{AggregateBudget, parse_aggregate_budget}
use ai_development_os.Domain.Account.{
  ReservationStatus, held, committed, released, cancelled, Reservation, AccountState,
  max_reservations, is_held, parse_reservations, parse_account_state,
  assert_currency_matches_budget, is_consistent,
}
use ai_development_os.Domain.Account.Commands.{
  replace_reservation, with_reservation, Terminal, release, cancel, status_of, cancel_if_held,
}
use ai_development_os.Domain.Account.Validity.{
  IsSound, AreSound, AreSound-of_parsed, parse_reservations-of_AreSound, replace-AreSound,
}

-- What the parser of states checks.
pub record Parses (s : AccountState) : Type 0 where
  pub short : ltb max_reservations (length s.reservations) ≡ false
  pub budget : parse_aggregate_budget s.budget ≡ ok s.budget
  pub sound : AreSound s.budget [] s.reservations
  pub scope : parse_budget_scope s.scope ≡ ok s.scope
  pub version : ensure_safe_integer s.version 0 max_safe_integer ≡ ok s.version

pub Parses-of_parsed : (s : AccountState) → parse_account_state s ≡ ok s → Parses s
unfolding parse_account_state
Parses-of_parsed s h =
    after_check (reject_if (ltb max_reservations (length s.reservations)) _) _ h λ short h1.
      after_ok (parse_aggregate_budget s.budget) _ h1 λ budget hb h2.
        after_ok (parse_reservations budget [] s.reservations) _ h2 λ reservations hr h3.
          after_ok (parse_budget_scope s.scope) _ h3 λ scope hs h4.
            after_ok (ensure_safe_integer s.version 0 max_safe_integer) _ h4 λ version hv h5.
              let same = ok-injective h5 in
              let same_budget = ap (λ (t : AccountState). t.budget) same in
              let (_, sound) = AreSound-of_parsed budget [] s.reservations hr in
              record {
                short = reject_if-eq-ok _ _ short;
                budget = subst (λ b. parse_aggregate_budget s.budget ≡ ok b) same_budget hb;
                sound = subst (λ b. AreSound b [] s.reservations) same_budget sound;
                scope =
                    subst (λ c. parse_budget_scope s.scope ≡ ok c)
                      (ap (λ (t : AccountState). t.scope) same) hs;
                version =
                    subst (λ v. ensure_safe_integer s.version 0 max_safe_integer ≡ ok v)
                      (ap (λ (t : AccountState). t.version) same) hv;
              }

pub parse_account_state-of_Parses : (s : AccountState) → Parses s → parse_account_state s ≡ ok s
unfolding parse_account_state
parse_account_state-of_Parses s p =
    rw
      (
        p.short,
        p.budget,
        parse_reservations-of_AreSound s.budget [] s.reservations p.sound,
        p.scope,
        p.version,
        parse_account_state,
      )
      refl

-- The next version of an account, with other reservations.
pub next-Parses :
    (s s' : AccountState)
    → Parses s
    → s.version < max_safe_integer
    → s'.scope ≡ s.scope
    → s'.budget ≡ s.budget
    → s'.version ≡ s.version + 1
    → length s'.reservations ≤ max_reservations
    → AreSound s.budget [] s'.reservations
    → Parses s'
next-Parses s s' p room scope budget version short sound = record {
  short = ground (arith, short);
  budget = rw budget p.budget;
  sound = rw budget sound;
  scope = rw scope p.scope;
  version = rw version (
      ensure_safe_integer_accepts (s.version + 1) 0 max_safe_integer (omega arith) (omega arith)
        (omega arith));
}

length-replace :
    (next : Reservation) (rs : List Reservation) → length (replace_reservation next rs) ≡ length rs
unfolding replace_reservation
length-replace next [] = refl
length-replace next (r ∷ rs) = ap suc (length-replace next rs)

pub replaced-Parses :
    (s : AccountState) (next : Reservation)
    → Parses s
    → s.version < max_safe_integer
    → IsSound s.budget next
    → Parses (with_reservation s next)
unfolding with_reservation
replaced-Parses s next p room sound =
    next-Parses s (with_reservation s next) p room refl refl refl
      (let short = p.short in ground (arith, short, length-replace next s.reservations))
      (replace-AreSound s.budget [] s.reservations next p.sound sound)

-- A hold that ends without usage.
pub ended-IsSound :
    (budget : AggregateBudget) (terminal : Terminal) (at : Timestamp) (r : Reservation)
    → is_held r.status ≡ true
    → IsSound budget r
    → IsSound budget (record r { status = status_of terminal; settled_at = some at })
ended-IsSound budget terminal at r holds s = record {
  actual = s.actual;
  consistent = unsettled terminal r.status r.actual r.settled_at holds s.consistent;
  named = s.named;
  estimate = s.estimate;
  estimate_currency = s.estimate_currency;
  actual_currency = s.actual_currency;
}
  where
    unsettled :
        (terminal : Terminal) (status : ReservationStatus) (actual : Option UsageAmounts)
        (settled : Option Timestamp)
        → is_held status ≡ true
        → is_consistent status actual settled ≡ true
        → is_consistent (status_of terminal) actual (some at) ≡ true
    unsettled release held none settled h c = refl
    unsettled cancel held none settled h c = refl
    unsettled t held (some a) settled h c = absurd (cc c)
    unsettled t committed actual settled h c = absurd (cc h)
    unsettled t released actual settled h c = absurd (cc h)
    unsettled t cancelled actual settled h c = absurd (cc h)

pub cancelled-IsSound :
    (budget : AggregateBudget) (at : Timestamp) (r : Reservation)
    → IsSound budget r
    → IsSound budget (cancel_if_held at r)
unfolding cancel_if_held
cancelled-IsSound budget at r s =
    if_ind (IsSound budget) (is_held r.status) (λ holds. ended-IsSound budget cancel at r holds s)
      (λ _. s)

pub cancel_if_held-id : (at : Timestamp) (r : Reservation) → (cancel_if_held at r).id ≡ r.id
unfolding cancel_if_held
cancel_if_held-id at r =
    if_ind (λ (q : Reservation). q.id ≡ r.id) (is_held r.status) (λ _. refl) (λ _. refl)

pub committed-IsSound :
    (budget : AggregateBudget) (actual : UsageAmounts) (at : Timestamp) (r : Reservation)
    → parse_usage_amounts actual ≡ ok actual
    → assert_currency_matches_budget budget actual ≡ ok tt
    → IsSound budget r
    → IsSound budget (record r { status = committed; actual = some actual; settled_at = some at })
committed-IsSound budget actual at r parsed priced s = record {
  actual = rw parsed refl;
  consistent = refl;
  named = s.named;
  estimate = s.estimate;
  estimate_currency = s.estimate_currency;
  actual_currency = priced;
}
