-- ===== src/Domain/Account/Validity.antt =====
-- packages/domain/src/budget-account.ts: what `parseReservation` and the loop of `parseBudgetAccountState`
-- accept as it is, and what of that a change of one reservation keeps.
use mathlib.Core.Option.{some-injective}
use ai_development_os.Prelude.{
  ◌≡◌, refl, sym, subst, inl, inr, String, true, false, none, some, List, [], ◌∷◌, ◌++◌, map, ok,
  guard, guard-eq-ok, reject_if, reject_if-eq-ok, ◌==◌, string_eq, contains, after_ok, after_check,
  Bool-cases,
}
use ai_development_os.Domain.Guards.{ensure_nullable, is_identifier}
use ai_development_os.Domain.Usage.{parse_usage_amounts}
use ai_development_os.Domain.Usage.Parsing.{
  parse_usage_amounts-eq-ok, ensure_nullable-eq-ok, ensure_string-eq-ok,
}
use ai_development_os.Domain.Budget.{AggregateBudget}
use ai_development_os.Domain.Account.{
  Reservation, is_consistent, parse_reservation_id, parse_reservation, parse_reservations,
  assert_currency_matches_budget, check_actual_currency,
}
use ai_development_os.Domain.Account.Commands.{find_reservation, replace_reservation}

-- A reservation that the parser keeps as it is, in the currency of the budget.
pub record IsSound (budget : AggregateBudget) (r : Reservation) : Type 0 where
  pub actual : ensure_nullable parse_usage_amounts r.actual ≡ ok r.actual
  pub consistent : is_consistent r.status r.actual r.settled_at ≡ true
  pub named : parse_reservation_id r.id ≡ ok r.id
  pub estimate : parse_usage_amounts r.estimate ≡ ok r.estimate
  pub estimate_currency : assert_currency_matches_budget budget r.estimate ≡ ok tt
  pub actual_currency : check_actual_currency budget r.actual ≡ ok tt

pub parse_reservation-of_IsSound :
    (budget : AggregateBudget) (r : Reservation) → IsSound budget r → parse_reservation r ≡ ok r
unfolding parse_reservation
parse_reservation-of_IsSound budget r s =
    rw (s.actual, s.consistent, s.named, s.estimate, parse_reservation) refl

-- Sound reservations, of ids that are new.
abbrev pub AreSound : AggregateBudget → List String → List Reservation → Type 0
AreSound budget seen [] = Unit
AreSound budget seen (r ∷ rs) =
    IsSound budget r × (contains seen r.id ≡ false) × AreSound budget (r.id ∷ seen) rs

pub parse_reservations-of_AreSound :
    (budget : AggregateBudget) (seen : List String) (rs : List Reservation)
    → AreSound budget seen rs
    → parse_reservations budget seen rs ≡ ok rs
unfolding parse_reservations
parse_reservations-of_AreSound budget seen [] h = refl
parse_reservations-of_AreSound budget seen (r ∷ rs) (sound, fresh, rest) =
    rw
      (
        parse_reservation-of_IsSound budget r sound,
        fresh,
        sound.estimate_currency,
        sound.actual_currency,
        parse_reservations-of_AreSound budget (r.id ∷ seen) rs rest,
        parse_reservations,
      )
      refl

-- What the parser returns is what it was given.
parse_reservation-eq-ok :
    (r : Reservation) {v : Reservation}
    → parse_reservation r ≡ ok v
    → (v ≡ r)
      × (ensure_nullable parse_usage_amounts r.actual ≡ ok r.actual)
      × (is_consistent r.status r.actual r.settled_at ≡ true)
      × (parse_reservation_id r.id ≡ ok r.id)
      × (parse_usage_amounts r.estimate ≡ ok r.estimate)
unfolding parse_reservation parse_reservation_id
parse_reservation-eq-ok r {v} h =
    after_ok (ensure_nullable parse_usage_amounts r.actual) _ h λ actual ha h1.
      after_check (guard (is_consistent r.status actual r.settled_at) _) _ h1 λ consistent h2.
        after_ok (parse_reservation_id r.id) _ h2 λ id hid h3.
          after_ok (parse_usage_amounts r.estimate) _ h3 λ estimate he h4.
            let a =
              ensure_nullable-eq-ok parse_usage_amounts (λ u w e. parse_usage_amounts-eq-ok u e)
                r.actual ha in
            let i : id ≡ r.id = ensure_string-eq-ok is_identifier 1 128 r.id hid in
            let e = parse_usage_amounts-eq-ok r.estimate he in
            (
              cc (a, i, e, h4),
              subst (λ w. ensure_nullable parse_usage_amounts r.actual ≡ ok w) a ha,
              subst (λ w. is_consistent r.status w r.settled_at ≡ true) a
                  (guard-eq-ok _ _ consistent),
              subst (λ w. parse_reservation_id r.id ≡ ok w) i hid,
              subst (λ w. parse_usage_amounts r.estimate ≡ ok w) e he,
            )

pub AreSound-of_parsed :
    (budget : AggregateBudget) (seen : List String) (rs : List Reservation) {out : List Reservation}
    → parse_reservations budget seen rs ≡ ok out
    → (out ≡ rs) × AreSound budget seen rs
unfolding parse_reservations
AreSound-of_parsed budget seen [] h = (cc h, tt)
AreSound-of_parsed budget seen (r ∷ rs) {out} h = after_ok (parse_reservation r) _ h λ v hv h1.
    let (same, actual, consistent, named, estimate) = parse_reservation-eq-ok r hv in
    after_check (reject_if (contains seen v.id) _) _ h1 λ fresh h2.
      after_check (assert_currency_matches_budget budget v.estimate) _ h2 λ hc h3.
        after_check (check_actual_currency budget v.actual) _ h3 λ hd h4.
          after_ok (parse_reservations budget (v.id ∷ seen) rs) _ h4 λ rest hr h5.
            let (same_rest, sound) = AreSound-of_parsed budget (r.id ∷ seen) rs (
              subst (λ (w : Reservation). parse_reservations budget (w.id ∷ seen) rs ≡ ok rest) same
                hr) in
            (
              cc (same, same_rest, h5),
              (
                record {
                  actual = actual;
                  consistent = consistent;
                  named = named;
                  estimate = estimate;
                  estimate_currency =
                      subst
                        (λ (w : Reservation).
                          assert_currency_matches_budget budget w.estimate ≡ ok tt)
                        same hc;
                  actual_currency =
                      subst (λ (w : Reservation). check_actual_currency budget w.actual ≡ ok tt)
                        same hd;
                },
                subst (λ (w : Reservation). contains seen w.id ≡ false) same
                    (reject_if-eq-ok _ _ fresh),
                sound,
              ),
            )

pub append-AreSound :
    (budget : AggregateBudget) (seen : List String) (rs : List Reservation) (x : Reservation)
    → AreSound budget seen rs
    → IsSound budget x
    → contains seen x.id ≡ false
    → find_reservation rs x.id ≡ none
    → AreSound budget seen (rs ++ x ∷ [])
append-AreSound budget seen [] x h sound fresh absent = (sound, fresh, tt)
append-AreSound budget seen (r ∷ rs) x (here, new, rest) sound fresh absent =
    elim (Bool-cases (r.id == x.id)) [
      | inl hit ↦ absurd (cc (rw hit at absent))
      | inr miss ↦ (
        here,
        new,
        append-AreSound budget (r.id ∷ seen) rs x rest sound (rw miss fresh) (rw miss at absent),
      )
    ]

pub replace-AreSound :
    (budget : AggregateBudget) (seen : List String) (rs : List Reservation) (next : Reservation)
    → AreSound budget seen rs
    → IsSound budget next
    → AreSound budget seen (replace_reservation next rs)
unfolding replace_reservation
replace-AreSound budget seen [] next h sound = tt
replace-AreSound budget seen (r ∷ rs) next (here, new, rest) sound =
    elim (Bool-cases (r.id == next.id)) [
      | inl hit ↦
          let same : r.id ≡ next.id = (string_eq.decides r.id next.id).0 hit in
          rw (hit, replace_reservation)
            (
              sound,
              subst (λ i. contains seen i ≡ false) same new,
              replace-AreSound budget (next.id ∷ seen) rs next
                  (subst (λ i. AreSound budget (i ∷ seen) rs) same rest) sound,
            )
      | inr miss ↦
          rw (miss, replace_reservation)
            (here, new, replace-AreSound budget (r.id ∷ seen) rs next rest sound)
    ]

pub map-AreSound :
    (budget : AggregateBudget) (f : Reservation → Reservation) (seen : List String)
    (rs : List Reservation)
    → ((r : Reservation) → IsSound budget r → IsSound budget (f r))
    → ((r : Reservation) → (f r).id ≡ r.id)
    → AreSound budget seen rs
    → AreSound budget seen (map f rs)
map-AreSound budget f seen [] keeps same h = tt
map-AreSound budget f seen (r ∷ rs) keeps same (here, new, rest) = (
  keeps r here,
  subst (λ i. contains seen i ≡ false) (sym (same r)) new,
  map-AreSound budget f ((f r).id ∷ seen) rs keeps same
      (subst (λ i. AreSound budget (i ∷ seen) rs) (sym (same r)) rest),
)

pub find-IsSound :
    (budget : AggregateBudget) (seen : List String) (rs : List Reservation) (id : String)
    {r : Reservation}
    → AreSound budget seen rs
    → find_reservation rs id ≡ some r
    → IsSound budget r
find-IsSound budget seen [] id h found = absurd (cc found)
find-IsSound budget seen (x ∷ rs) id {r} (here, new, rest) found = elim (Bool-cases (x.id == id)) [
  | inl hit ↦ subst (IsSound budget) (some-injective x r (rw hit at found)) here
  | inr miss ↦ find-IsSound budget (x.id ∷ seen) rs id rest (rw miss at found)
]
