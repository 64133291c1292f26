-- ===== src/Domain/Account/Keeping.antt =====
-- packages/domain/src/budget-account.ts: reservations that keep their place.
use mathlib.Core.List.{Mem, Nodup, Nodup-cons, mem-cons_self, mem-cons_of_mem}
use ai_development_os.Prelude.{
  ◌≡◌, refl, sym, ◌∙◌, ap, subst, ◌⊎◌, inl, inr, String, true, some, List, [], ◌∷◌, ◌++◌, map, ◌==◌,
  string_eq, nat_eq, option_eq, if_ind, find?-sound, beq_of_ne, Eq-cases,
}
use ai_development_os.Domain.Guards.{Timestamp}
use ai_development_os.Domain.Account.{
  ReservationStatus, held, committed, released, cancelled, Reservation, is_held,
}
use ai_development_os.Domain.Account.Commands.{
  find_reservation, replace_reservation, cancel_if_held,
}

-- A reservation afterwards: the same, or the end of what was a hold.
pub record Advances (before after : Reservation) : Type 0 where
  pub same_id : after.id ≡ before.id
  pub same_estimate : after.estimate ≡ before.estimate
  pub same_start : after.created_at ≡ before.created_at
  pub settled_once : (after ≡ before) ⊎ (before.status ≡ held)

-- The reservations afterwards: each at its place, and perhaps new ones behind them.
abbrev pub IsKept : List Reservation → List Reservation → Type 0
IsKept [] after = Unit
IsKept (r ∷ rs) [] = ⊥
IsKept (r ∷ rs) (r' ∷ rs') = Advances r r' × IsKept rs rs'

abbrev pub reservation_ids : List Reservation → List String
reservation_ids rs = map (λ r. r.id) rs

unchanged : (r : Reservation) → Advances r r
unchanged r = record {
  same_id = refl;
  same_estimate = refl;
  same_start = refl;
  settled_once = inl refl;
}

pub IsKept-append : (rs more : List Reservation) → IsKept rs (rs ++ more)
IsKept-append [] more = tt
IsKept-append (r ∷ rs) more = (unchanged r, IsKept-append rs more)

pub IsKept-refl : (rs : List Reservation) → IsKept rs rs
IsKept-refl [] = tt
IsKept-refl (r ∷ rs) = (unchanged r, IsKept-refl rs)

-- A reservation whose id no other shares is replaced at its place only.
replace-absent :
    (rs : List Reservation) (next : Reservation)
    → ¬ Mem next.id (reservation_ids rs)
    → replace_reservation next rs ≡ rs
unfolding replace_reservation
replace-absent [] next n = refl
replace-absent (r ∷ rs) next n = elim (Eq-cases r.id next.id) [
  | inl (same, _) ↦ absurd (n (rw (← same) mem-cons_self))
  | inr (_, other) ↦ rw (other, replace-absent rs next (λ m. n (mem-cons_of_mem r.id m)))
]

pub found_id :
    (rs : List Reservation) (id : String) {r : Reservation}
    → find_reservation rs id ≡ some r
    → r.id ≡ id
found_id rs id {r} found = (string_eq.decides r.id id).0 (find?-sound (λ x. x.id == id) rs found)

pub replace-IsKept :
    (rs : List Reservation) (id : String) (existing next : Reservation)
    → Nodup (reservation_ids rs)
    → find_reservation rs id ≡ some existing
    → Advances existing next
    → IsKept rs (replace_reservation next rs)
unfolding replace_reservation
replace-IsKept [] id existing next nodup found a = tt
replace-IsKept (r ∷ rs) id existing next nodup found a = elim (Eq-cases r.id id) [
  | inl (same, hit) ↦
      let here : r ≡ existing = cc (rw hit at found) in
      let (fresh, _) = Nodup-cons.0 nodup in
      let at_head : next.id ≡ r.id = a.same_id ∙ ap (λ (x : Reservation). x.id) (sym here) in
      rw
        (
          (string_eq.decides r.id next.id).1 (sym at_head),
          replace-absent rs next (λ m. fresh (rw (← at_head) m)),
        )
        (subst (λ x. Advances x next) (sym here) a, IsKept-refl rs)
  | inr (apart, miss) ↦
      let later : find_reservation rs id ≡ some existing = rw miss at found in
      let at_id : next.id ≡ id = a.same_id ∙ found_id rs id later in
      rw (beq_of_ne r.id next.id (λ e. apart (e ∙ at_id)))
        (unchanged r, replace-IsKept rs id existing next (Nodup-cons.0 nodup).1 later a)
]

pub is_held-held : (s : ReservationStatus) → is_held s ≡ true → s ≡ held
is_held-held held h = refl
is_held-held committed h = cc
is_held-held released h = cc
is_held-held cancelled h = cc

-- The two branches of `cancelBudgetAccount` for a reservation.
cancel_if_held-Advances : (at : Timestamp) (r : Reservation) → Advances r (cancel_if_held at r)
unfolding cancel_if_held
cancel_if_held-Advances at r =
    if_ind (Advances r) (is_held r.status)
      (λ holds. record {
        same_id = refl;
        same_estimate = refl;
        same_start = refl;
        settled_once = inr (is_held-held r.status holds);
      })
      (λ _. unchanged r)

pub map-IsKept : (at : Timestamp) (rs : List Reservation) → IsKept rs (map (cancel_if_held at) rs)
map-IsKept at [] = tt
map-IsKept at (r ∷ rs) = (cancel_if_held-Advances at r, map-IsKept at rs)
