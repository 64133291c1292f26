-- ===== src/Persistence/Outbox/Settling.antt =====
-- packages/persistence/src/outbox-logic.ts: what the calls that settle a message have in common.
use ai_development_os.Prelude.{
  ◌≡◌, refl, sym, ◌∙◌, ap, subst, ◌⊎◌, inl, inr, String, Bool, true, false, not, ◌&&◌, Option, none,
  some, Result, ok, err, guard, guard-eq-ok, ◌==◌, string_eq, option_eq, Bool-cases, arith,
  after_ok, after_check, ok-injective,
}
use ai_development_os.Domain.Errors.{DomainError}
use ai_development_os.Domain.Guards.{Timestamp, is_identifier, ensure_string}
use ai_development_os.Domain.Usage.Parsing.{ensure_string-eq-ok}
use ai_development_os.Persistence.Outbox.{
  OutboxStatus, pending, leased, acknowledged, dead_lettered, Message, not_leased, different_owner,
  validated, parse_persisted_id, parse_failure_category, parse_nullable_category, is_leased,
  is_acknowledged, require_leased_by_owner, apply_acknowledge, apply_schedule_retry,
  apply_dead_letter,
}

abbrev is_set {ℓ} : {A : Type ℓ} → Option A → Bool
is_set none = false
is_set (some a) = true

abbrev has_lease : Message → Bool
has_lease m = is_set m.lease_owner && is_set m.lease_expires_at

abbrev has_no_lease : Message → Bool
has_no_lease m = not (is_set m.lease_owner) && not (is_set m.lease_expires_at)

-- The fields agree with the status: a lease exactly while leased, and one time of the end at the end.
abbrev pub is_coherent : Message → Bool
is_coherent m = elim m.status [
  | pending ↦ has_no_lease m && (not (is_set m.acknowledged_at) && not (is_set m.dead_lettered_at))
  | leased ↦ has_lease m && (not (is_set m.acknowledged_at) && not (is_set m.dead_lettered_at))
  | acknowledged ↦ has_no_lease m && (is_set m.acknowledged_at && not (is_set m.dead_lettered_at))
  | dead_lettered ↦ has_no_lease m && (not (is_set m.acknowledged_at) && is_set m.dead_lettered_at)
]

is_leased-leased : (s : OutboxStatus) → is_leased s ≡ true → s ≡ leased
is_leased-leased pending h = cc
is_leased-leased leased h = refl
is_leased-leased acknowledged h = cc
is_leased-leased dead_lettered h = cc

validated-eq-ok : {A : Type 0} (m : Result DomainError A) {a : A} → validated m ≡ ok a → m ≡ ok a
validated-eq-ok (ok b) h = ap (λ x. ok x) (ok-injective h)
validated-eq-ok (err e) h = absurd (cc h)

parse_persisted_id-eq-ok :
    (value : String) {v : String} → parse_persisted_id value ≡ ok v → v ≡ value
unfolding parse_persisted_id
parse_persisted_id-eq-ok value h =
    ensure_string-eq-ok is_identifier 1 128 value
      (validated-eq-ok (ensure_string is_identifier 1 128 value) h)

require_leased_by_owner-eq-ok :
    (m : Message) (owner : String)
    → require_leased_by_owner m owner ≡ ok tt
    → (m.status ≡ leased) × (m.lease_owner ≡ some owner)
unfolding require_leased_by_owner
require_leased_by_owner-eq-ok m owner h =
    after_check (guard (is_leased m.status) (not_leased m.status)) _ h λ is_held mine. (
      is_leased-leased m.status (guard-eq-ok (is_leased m.status) (not_leased m.status) is_held),
      (option_eq.decides m.lease_owner (some owner)).0
          (guard-eq-ok (m.lease_owner == some owner) different_owner mine),
    )

-- What the settling calls have in common.
pub record Settles (m : Message) (owner : String) (m' : Message) : Type 0 where
  pub was_leased : m.status ≡ leased
  pub was_owner : m.lease_owner ≡ some owner
  pub no_lease : has_no_lease m' ≡ true
  pub coherent : is_coherent m ≡ true → is_coherent m' ≡ true

leased-coherent :
    (m : Message)
    → m.status ≡ leased
    → is_coherent m ≡ true
    → (is_set m.acknowledged_at ≡ false) × (is_set m.dead_lettered_at ≡ false)
leased-coherent m s h = let h' = rw s at h in (ground (arith, h'), ground (arith, h'))

pub retry-Settles :
    (m : Message) (owner : String) (retry_at : Timestamp) (category : Option String) {m' : Message}
    → apply_schedule_retry m owner retry_at category ≡ ok m'
    → Settles m owner m'
unfolding apply_schedule_retry
retry-Settles m owner retry_at category h = after_ok (parse_persisted_id owner) _ h λ parsed hp h1.
    after_ok (parse_nullable_category category) _ h1 λ c _ h2.
      after_check (require_leased_by_owner m parsed) _ h2 λ held e.
        let (status, mine) = require_leased_by_owner-eq-ok m parsed held in
        subst (Settles m owner) (ok-injective e) (record {
          was_leased = status;
          was_owner = mine ∙ ap (λ x. some x) (parse_persisted_id-eq-ok owner hp);
          no_lease = refl;
          coherent = λ ok_before. let (a, d) = leased-coherent m status ok_before in rw (a, d) refl;
        })

pub bury-Settles :
    (m : Message) (owner category : String) (now : Timestamp) {m' : Message}
    → apply_dead_letter m owner category now ≡ ok m'
    → Settles m owner m'
unfolding apply_dead_letter
bury-Settles m owner category now h = after_ok (parse_persisted_id owner) _ h λ parsed hp h1.
    after_ok (parse_failure_category category) _ h1 λ c _ h2.
      after_check (require_leased_by_owner m parsed) _ h2 λ held e.
        let (status, mine) = require_leased_by_owner-eq-ok m parsed held in
        subst (Settles m owner) (ok-injective e) (record {
          was_leased = status;
          was_owner = mine ∙ ap (λ x. some x) (parse_persisted_id-eq-ok owner hp);
          no_lease = refl;
          coherent = λ ok_before. rw ((leased-coherent m status ok_before).0) refl;
        })

is_acknowledged-ended : (s : OutboxStatus) → is_acknowledged s ≡ true → s ≡ acknowledged
is_acknowledged-ended pending h = cc
is_acknowledged-ended leased h = cc
is_acknowledged-ended acknowledged h = refl
is_acknowledged-ended dead_lettered h = cc

pub acknowledge-Settles :
    (m : Message) (owner : String) (now : Timestamp) {result : Bool × Message}
    → apply_acknowledge m owner now ≡ ok result
    → (result.1 ≡ m) ⊎ Settles m owner (result.1)
unfolding apply_acknowledge
acknowledge-Settles m owner now h = after_ok (parse_persisted_id owner) _ h λ parsed hp h1.
    elim (Bool-cases (is_acknowledged m.status)) [
      | inl again ↦ inl (ap (λ (r : Bool × Message). r.1) (sym (ok-injective (rw again at h1))))
      | inr first ↦ after_check (require_leased_by_owner m parsed) _ (rw first at h1) λ held e.
          let (status, mine) = require_leased_by_owner-eq-ok m parsed held in
          inr (
            subst (λ (r : Bool × Message). Settles m owner (r.1)) (ok-injective e)
              (record {
                was_leased = status;
                was_owner = mine ∙ ap (λ x. some x) (parse_persisted_id-eq-ok owner hp);
                no_lease = refl;
                coherent = λ ok_before. rw ((leased-coherent m status ok_before).1) refl;
              }))
    ]
