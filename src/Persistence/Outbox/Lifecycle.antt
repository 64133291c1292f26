-- ===== src/Persistence/Outbox/Lifecycle.antt =====
-- packages/persistence/src/outbox-logic.ts: what any sequence of calls can do to a message, as the
-- adapters make them (packages/persistence-memory/src/memory-adapter.ts).
use ai_development_os.Prelude.{
  ◌≡◌, refl, sym, ap, subst, ◌⊎◌, inl, inr, String, Bool, true, false, Option, none, some, ok,
  ◌>>=◌, if◌then◌else◌, if_ind, string_eq, option_eq, arith, after_ok, ok-injective,
}
use ai_development_os.Domain.Guards.{Timestamp}
use ai_development_os.Persistence.Outbox.{
  OutboxStatus, pending, leased, acknowledged, dead_lettered, Message, Checked, is_claimable,
  apply_claim, apply_acknowledge, apply_schedule_retry, apply_dead_letter,
}
use ai_development_os.Persistence.Outbox.Settling.{
  is_coherent, Settles, retry-Settles, bury-Settles, acknowledge-Settles,
}

-- The calls on a stored message.
pub data Call : Type 0 where
  claim : (owner : String) (expires_at now : Timestamp) → Call
  acknowledge : (owner : String) (now : Timestamp) → Call
  retry : (owner : String) (retry_at : Timestamp) (category : Option String) → Call
  bury : (owner category : String) (now : Timestamp) → Call

-- The message that the adapter stores. A claim passes over a message that is not claimable.
unfoldable pub perform : Message → Call → Checked Message
perform m (claim owner expires_at now) =
    ok (if is_claimable m now then apply_claim m owner expires_at else m)
perform m (acknowledge owner now) = apply_acknowledge m owner now >>= λ result. ok (result.1)
perform m (retry owner retry_at category) = apply_schedule_retry m owner retry_at category
perform m (bury owner category now) = apply_dead_letter m owner category now

abbrev pub has_ended : OutboxStatus → Bool
has_ended acknowledged = true
has_ended dead_lettered = true
has_ended _ = false

-- The owner that a call settles for.
abbrev pub settles_for : Call → Option String
settles_for (claim owner expires_at now) = none
settles_for (acknowledge owner now) = some owner
settles_for (retry owner retry_at category) = some owner
settles_for (bury owner category now) = some owner

perform-Settles :
    (m : Message) (c : Call) (owner : String) {m' : Message}
    → settles_for c ≡ some owner
    → perform m c ≡ ok m'
    → (m' ≡ m) ⊎ Settles m owner m'
unfolding perform
perform-Settles m (claim o expires_at now) owner named h = absurd (cc named)
perform-Settles m (acknowledge o now) owner named h =
    after_ok (apply_acknowledge m o now) _ h λ result done e.
      subst (λ x. (x ≡ m) ⊎ Settles m owner x) (ok-injective e)
        (subst (λ x. (result.1 ≡ m) ⊎ Settles m x (result.1)) (cc named)
          (acknowledge-Settles m o now done))
perform-Settles m (retry o retry_at category) owner {m'} named h =
    inr (subst (λ x. Settles m x m') (cc named) (retry-Settles m o retry_at category h))
perform-Settles m (bury o category now) owner {m'} named h =
    inr (subst (λ x. Settles m x m') (cc named) (bury-Settles m o category now h))

-- Only the owner of the lease settles a message: a call that settles for an owner and succeeds leaves
-- the message as it was, or found it leased by that owner.
pub perform-owner :
    (m : Message) (c : Call) (owner : String) {m' : Message}
    → settles_for c ≡ some owner
    → perform m c ≡ ok m'
    → (m' ≡ m) ⊎ ((m.status ≡ leased) × (m.lease_owner ≡ some owner))
perform-owner m c owner named h = elim (perform-Settles m c owner named h) [
  | inl same ↦ inl same
  | inr s ↦ inr (s.was_leased, s.was_owner)
]

not_claimable :
    (m : Message) (now : Timestamp) (s : OutboxStatus)
    → m.status ≡ s
    → has_ended s ≡ true
    → is_claimable m now ≡ false
unfolding is_claimable
not_claimable m now pending e h = absurd (cc h)
not_claimable m now leased e h = absurd (cc h)
not_claimable m now acknowledged e h = rw (e, is_claimable) refl
not_claimable m now dead_lettered e h = rw (e, is_claimable) refl

claim-coherent :
    (m : Message) (owner : String) (expires_at now : Timestamp) (s : OutboxStatus)
    → m.status ≡ s
    → is_claimable m now ≡ true
    → is_coherent m ≡ true
    → is_coherent (apply_claim m owner expires_at) ≡ true
unfolding is_claimable apply_claim
claim-coherent m owner expires_at now pending e may h = let h' = rw e at h in ground (arith, h')
claim-coherent m owner expires_at now leased e may h = let h' = rw e at h in ground (arith, h')
claim-coherent m owner expires_at now acknowledged e may h =
    absurd (cc (rw (e, is_claimable) at may))
claim-coherent m owner expires_at now dead_lettered e may h =
    absurd (cc (rw (e, is_claimable) at may))

settled-coherent :
    (m : Message) (c : Call) (owner : String) {m' : Message}
    → settles_for c ≡ some owner
    → is_coherent m ≡ true
    → perform m c ≡ ok m'
    → is_coherent m' ≡ true
settled-coherent m c owner named ok_before h = elim (perform-Settles m c owner named h) [
  | inl same ↦ subst (λ x. is_coherent x ≡ true) (sym same) ok_before
  | inr s ↦ s.coherent ok_before
]

ended-same :
    (m : Message) (c : Call) (owner : String) {m' : Message}
    → settles_for c ≡ some owner
    → has_ended m.status ≡ true
    → perform m c ≡ ok m'
    → m' ≡ m
ended-same m c owner named ended h = elim (perform-owner m c owner named h) [
  | inl same ↦ same
  | inr (was_leased, _) ↦ absurd (cc (ended, ap has_ended was_leased))
]

-- Every call that succeeds keeps the fields of a message in agreement with its status: it has an owner and an expiry
-- exactly while it is leased, a time of acknowledgement exactly if it is acknowledged, and a time of
-- dead-lettering exactly if it is dead-lettered.
pub perform-is_coherent :
    (m : Message) (c : Call) {m' : Message}
    → is_coherent m ≡ true
    → perform m c ≡ ok m'
    → is_coherent m' ≡ true
unfolding perform
perform-is_coherent m (claim o expires_at now) ok_before h =
    subst (λ x. is_coherent x ≡ true) (ok-injective h)
      (if_ind (λ x. is_coherent x ≡ true) (is_claimable m now)
        (λ may. claim-coherent m o expires_at now m.status refl may ok_before) (λ _. ok_before))
perform-is_coherent m (acknowledge o now) ok_before h =
    settled-coherent m (acknowledge o now) o refl ok_before h
perform-is_coherent m (retry o retry_at category) ok_before h =
    settled-coherent m (retry o retry_at category) o refl ok_before h
perform-is_coherent m (bury o category now) ok_before h =
    settled-coherent m (bury o category now) o refl ok_before h

-- A call that succeeds leaves a message that is acknowledged or dead-lettered as it is.
pub perform-ended :
    (m : Message) (c : Call) {m' : Message}
    → has_ended m.status ≡ true
    → perform m c ≡ ok m'
    → m' ≡ m
unfolding perform
perform-ended m (claim o expires_at now) ended h =
    sym (ok-injective (rw (not_claimable m now m.status refl ended) at h))
perform-ended m (acknowledge o now) ended h = ended-same m (acknowledge o now) o refl ended h
perform-ended m (retry o retry_at category) ended h =
    ended-same m (retry o retry_at category) o refl ended h
perform-ended m (bury o category now) ended h = ended-same m (bury o category now) o refl ended h
