-- ===== src/Persistence/Store/Deliveries.antt =====
-- packages/persistence-memory/src/memory-adapter.ts: a delivery that is written replaces one of the same
-- message, and so does each step of the loop of `claim`.
use ai_development_os.Prelude.{
  ℕ, ◌≡◌, refl, sym, ◌∙◌, ap, inl, inr, String, Bool, Option, some, List, [], ◌∷◌, ◌++◌, ok, err,
  lookup, put, lookup-key, lookup-put-same, lookup-put-other, All, All-map, string_eq, nat_eq,
  Eq-cases, leb, length, Bool-cases, after_ok, after_check, ok-injective, if_ind,
}
use ai_development_os.Domain.Guards.{Timestamp}
use ai_development_os.Persistence.Outbox as Outbox
use ai_development_os.Persistence.Outbox.{
  Message, is_claimable, apply_claim, apply_acknowledge, apply_schedule_retry, apply_dead_letter,
  is_acknowledged,
}
use ai_development_os.Persistence.Store.State.{StoredOutbox, MemoryState, message_id, key_eq}
use ai_development_os.Persistence.Store.Operations.{set_message, in_outbox}
use ai_development_os.Persistence.Store.Messages.{
  insert_in_sequence, sorted_by_sequence, with_delivery, claim_each,
}
use ai_development_os.Persistence.Store.Changes.{
  Replaces, keep, redeliver, Leads, Leads-then, attempt-Leads,
}

pub in_outbox-eq-ok : {A : Type 0} (m : Outbox.Checked A) {a : A} → in_outbox m ≡ ok a → m ≡ ok a
in_outbox-eq-ok (ok b) h = cc h
in_outbox-eq-ok (err e) h = absurd (cc h)

-- A delivery with the same id replaces the one that is there.
pub Replaces-of_delivery :
    (s : MemoryState) (id : String) (stored : StoredOutbox) (delivery : Message)
    → lookup message_id s.outbox id ≡ some stored
    → delivery.message_id ≡ message_id stored
    → Replaces s (with_delivery stored delivery)
Replaces-of_delivery s id stored delivery there same = record {
  old = stored;
  there = ap (lookup message_id s.outbox) (same ∙ lookup-key message_id s.outbox id there) ∙ there;
  same_content = refl;
}

pub apply_acknowledge-id :
    (m : Message) (owner : String) (now : Timestamp) {r : Bool × Message}
    → apply_acknowledge m owner now ≡ ok r
    → r.1.message_id ≡ m.message_id
unfolding apply_acknowledge
apply_acknowledge-id m owner now h = after_ok (Outbox.parse_persisted_id owner) _ h λ parsed _ h1.
    elim (Bool-cases (is_acknowledged m.status)) [
      | inl again ↦
          ap (λ (r : Bool × Message). r.1.message_id) (sym (ok-injective (rw again at h1)))
      | inr first ↦
          after_check (Outbox.require_leased_by_owner m parsed) _ (rw first at h1)
            λ _ e. ap (λ (r : Bool × Message). r.1.message_id) (sym (ok-injective e))
    ]

pub apply_schedule_retry-id :
    (m : Message) (owner : String) (at : Timestamp) (category : Option String) {r : Message}
    → apply_schedule_retry m owner at category ≡ ok r
    → r.message_id ≡ m.message_id
unfolding apply_schedule_retry
apply_schedule_retry-id m owner at category h =
    after_ok (Outbox.parse_persisted_id owner) _ h λ parsed _ h1.
      after_ok (Outbox.parse_nullable_category category) _ h1 λ c _ h2.
        after_check (Outbox.require_leased_by_owner m parsed) _ h2
          λ _ e. ap (λ (r : Message). r.message_id) (sym (ok-injective e))

pub apply_dead_letter-id :
    (m : Message) (owner category : String) (now : Timestamp) {r : Message}
    → apply_dead_letter m owner category now ≡ ok r
    → r.message_id ≡ m.message_id
unfolding apply_dead_letter
apply_dead_letter-id m owner category now h =
    after_ok (Outbox.parse_persisted_id owner) _ h λ parsed _ h1.
      after_ok (Outbox.parse_failure_category category) _ h1 λ c _ h2.
        after_check (Outbox.require_leased_by_owner m parsed) _ h2
          λ _ e. ap (λ (r : Message). r.message_id) (sym (ok-injective e))

-- Another message that is replaced leaves a message in the outbox.
Replaces-after :
    (s : MemoryState) (n m : StoredOutbox)
    → Replaces s n
    → Replaces s m
    → Replaces (set_message s n) m
Replaces-after s n m r q = elim (Eq-cases (message_id n) (message_id m)) [
  | inl (same, _) ↦
      let one : r.old ≡ q.old =
        some-injective (sym r.there ∙ ap (lookup message_id s.outbox) same ∙ q.there) in
      record {
        old = n;
        there =
            ap (lookup message_id (put message_id s.outbox n)) (sym same)
            ∙ lookup-put-same message_id s.outbox n;
        same_content =
            q.same_content
            ∙ ap (λ (o : StoredOutbox). with_delivery o m.delivery) (sym one)
            ∙ ap (λ (o : StoredOutbox). with_delivery o m.delivery) (sym r.same_content);
      }
  | inr (apart, _) ↦ record {
    old = q.old;
    there = lookup-put-other message_id s.outbox n (message_id m) apart ∙ q.there;
    same_content = q.same_content;
  }
]
  where
    some-injective : {a b : StoredOutbox} → ◌≡◌ {A = Option StoredOutbox} (some a) (some b) → a ≡ b
    some-injective e = cc

All-insert_in_sequence :
    {A : Type 0} (P : A → Type 0) (f : A → ℕ) (x : A) (xs : List A)
    → P x
    → All P xs
    → All P (insert_in_sequence f x xs)
All-insert_in_sequence P f x [] here there = (here, tt)
All-insert_in_sequence P f x (y ∷ ys) here (first, rest) =
    if_ind (All P) (leb (f x) (f y)) (λ _. (here, (first, rest)))
      (λ _. (first, All-insert_in_sequence P f x ys here rest))

pub All-sorted_by_sequence :
    {A : Type 0} (P : A → Type 0) (f : A → ℕ) (xs : List A)
    → All P xs
    → All P (sorted_by_sequence f xs)
All-sorted_by_sequence P f [] h = tt
All-sorted_by_sequence P f (x ∷ xs) (here, there) =
    All-insert_in_sequence P f x (sorted_by_sequence f xs) here
      (All-sorted_by_sequence P f xs there)

module _ (hash : String → String) (limit : ℕ) (owner : String) (now expires_at : Timestamp) where
  pub claim_each-Leads :
      (rest claimed : List StoredOutbox) (s : MemoryState)
      → All (Replaces s) rest
      → Leads s (claim_each hash limit owner now expires_at rest claimed s)
  unfolding claim_each apply_claim
  claim_each-Leads [] claimed s h = record { change = keep s }
  claim_each-Leads (m ∷ rest) claimed s (here, there) =
      elim (Bool-cases (leb limit (length claimed))) [
        | inl full ↦ rw (full, claim_each) (record { change = keep s })
        | inr room ↦ elim (Bool-cases (is_claimable m.delivery now)) [
          | inl free ↦
              let next = with_delivery m (apply_claim m.delivery owner expires_at) in
              let r : Replaces s next = record {
                old = here.old;
                there = here.there;
                same_content =
                    ap (λ (o : StoredOutbox). with_delivery o next.delivery) here.same_content;
              } in
              rw (room, free, claim_each)
                (Leads-then s (set_message s next) _ (redeliver s next r) (
                  attempt-Leads (set_message s next) _ _ λ message _.
                    claim_each-Leads rest (claimed ++ (message ∷ [])) (set_message s next)
                      (All-map rest (λ q. Replaces-after s next q r) there)))
          | inr held ↦ rw (room, held, claim_each) (claim_each-Leads rest claimed s there)
        ]
      ]
