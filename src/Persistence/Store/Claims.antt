-- ===== src/Persistence/Store/Claims.antt =====
-- packages/persistence-memory/src/memory-adapter.ts: `claim` takes messages that are free, and a lease
-- excludes other claims until it ends.
use ai_development_os.Prelude.{
  All-append_one, ℕ, ◌+◌, ◌≤◌, ◌≡◌, refl, sym, ◌∙◌, ap, subst, inl, inr, String, true, none, some,
  List, [], ◌∷◌, ◌++◌, ok, err, Eq-cases, Bool-cases, lookup, lookup-put-same, lookup-put-other,
  All, All-map, length, length-append, leb, string_eq, nat_eq, arith, after_ok, ok-injective,
}
use ai_development_os.Domain.Guards.{Timestamp}
use ai_development_os.Persistence.Outbox.{leased, is_claimable, apply_claim}
use ai_development_os.Persistence.Store.State.{StoredOutbox, MemoryState, message_id}
use ai_development_os.Persistence.Store.Inputs.{Checked, ClaimInput, verify_checksum}
use ai_development_os.Persistence.Store.Operations.{
  Outcome, attempt, set_message, to_outbox_message,
}
use ai_development_os.Persistence.Store.Messages.{with_delivery, claim_each}

-- A step that answers did not throw, and went on.
pub after_attempt {ν} :
    {A B : Type 0} {P : Type ν} (s : MemoryState) (m : Checked A) (k : A → Outcome B) {b : B}
    {t : MemoryState}
    → ◌≡◌ {A = Outcome B} (attempt s m k) (ok b, t)
    → ((a : A) → m ≡ ok a → ◌≡◌ {A = Outcome B} (k a) (ok b, t) → P)
    → P
unfolding attempt
after_attempt s (ok a) k h rest = rest a refl h
after_attempt s (err e) k h rest = absurd (cc (ap (λ (o : Outcome _). o.0) h))

to_outbox_message-eq-ok :
    (hash : String → String) (m : StoredOutbox) {r : StoredOutbox}
    → to_outbox_message hash m ≡ ok r
    → r ≡ m
unfolding to_outbox_message
to_outbox_message-eq-ok hash m h =
    after_ok (verify_checksum hash m.payload_text m.checksum) _ h λ _ _ e. sym (ok-injective e)

-- A message is leased to an owner until a time.
pub record Held (owner : String) (expires_at : Timestamp) (s : MemoryState) (id : String)
    : Type 0 where
  pub holder : StoredOutbox
  pub there : lookup message_id s.outbox id ≡ some holder
  pub is_leased : holder.delivery.status ≡ leased
  pub owned : holder.delivery.lease_owner ≡ some owner
  pub until : holder.delivery.lease_expires_at ≡ some expires_at

module _ (hash : String → String) (limit : ℕ) (owner : String) (now expires_at : Timestamp) where
  abbrev taken : StoredOutbox → StoredOutbox
  taken m = with_delivery m (apply_claim m.delivery owner expires_at)

  Held-taken :
      (s : MemoryState) (m : StoredOutbox)
      → Held owner expires_at (set_message s (taken m)) (message_id (taken m))
  unfolding apply_claim
  Held-taken s m = record {
    holder = taken m;
    there = lookup-put-same message_id s.outbox (taken m);
    is_leased = refl;
    owned = refl;
    until = refl;
  }

  Held-after :
      (s : MemoryState) (m : StoredOutbox) (id : String)
      → Held owner expires_at s id
      → Held owner expires_at (set_message s (taken m)) id
  Held-after s m id h = elim (Eq-cases (message_id (taken m)) id) [
    | inl (same, _) ↦ subst (Held owner expires_at (set_message s (taken m))) same (Held-taken s m)
    | inr (apart, _) ↦ record {
      holder = h.holder;
      there = lookup-put-other message_id s.outbox (taken m) id apart ∙ h.there;
      is_leased = h.is_leased;
      owned = h.owned;
      until = h.until;
    }
  ]

  stopped :
      (Q : StoredOutbox → Type 0) (claimed : List StoredOutbox) (s : MemoryState)
      {ms : List StoredOutbox} {t : MemoryState}
      → length claimed ≤ limit
      → All Q claimed
      → All (λ m. Held owner expires_at s (message_id m)) claimed
      → ◌≡◌ {A = Outcome (List StoredOutbox)} (ok claimed, s) (ok ms, t)
      → (length ms ≤ limit) × All Q ms × All (λ m. Held owner expires_at t (message_id m)) ms
  stopped Q claimed s {ms} {t} few q held e =
      let same : claimed ≡ ms = ok-injective (ap (λ (o : Outcome (List StoredOutbox)). o.0) e) in
      let state : s ≡ t = ap (λ (o : Outcome (List StoredOutbox)). o.1) e in
      (
        subst (λ (ns : List StoredOutbox). length ns ≤ limit) same few,
        subst (All Q) same q,
        subst (λ (ns : List StoredOutbox). All (λ m. Held owner expires_at t (message_id m)) ns)
            same
            (subst (λ (u : MemoryState). All (λ m. Held owner expires_at u (message_id m)) claimed)
              state held),
      )

  -- What the loop answers, of what was claimed before and of what is left to look at.
  pub claim_each-answers :
      (P Q : StoredOutbox → Type 0)
      → ((m : StoredOutbox) → P m → is_claimable m.delivery now ≡ true → Q (taken m))
      → (rest claimed : List StoredOutbox) (s : MemoryState) {ms : List StoredOutbox}
        {t : MemoryState}
      → length claimed ≤ limit
      → All P rest
      → All Q claimed
      → All (λ m. Held owner expires_at s (message_id m)) claimed
      → ◌≡◌ {A = Outcome (List StoredOutbox)}
          (claim_each hash limit owner now expires_at rest claimed s)
          (ok ms, t)
      → (length ms ≤ limit) × All Q ms × All (λ m. Held owner expires_at t (message_id m)) ms
  unfolding claim_each
  claim_each-answers P Q take [] claimed s {ms} {t} few h q held e =
      stopped Q claimed s few q held e
  claim_each-answers P Q take (m ∷ rest) claimed s {ms} {t} few (here, there) q held e =
      elim (Bool-cases (leb limit (length claimed))) [
        | inl full ↦ stopped Q claimed s few q held (rw (full, claim_each) at e)
        | inr room ↦ elim (Bool-cases (is_claimable m.delivery now)) [
          | inl free ↦
              after_attempt (set_message s (taken m)) (to_outbox_message hash (taken m)) _
                (rw (room, free, claim_each) at e)
                λ message answered e2.
                  let same = to_outbox_message-eq-ok hash (taken m) answered in
                  let fits : length claimed + 1 ≤ limit = ground (arith, room) in
                  claim_each-answers P Q take rest (claimed ++ (message ∷ []))
                    (set_message s (taken m))
                    (omega (arith, length-append claimed (message ∷ []), fits)) there
                    (All-append_one Q claimed message q (subst Q (sym same) (take m here free)))
                    (All-append_one
                      (λ n. Held owner expires_at (set_message s (taken m)) (message_id n)) claimed
                      message (All-map claimed (λ n. Held-after s m (message_id n)) held)
                      (subst
                        (λ (n : StoredOutbox).
                          Held owner expires_at (set_message s (taken m)) (message_id n))
                        (sym same) (Held-taken s m)))
                    e2
          | inr busy ↦
              claim_each-answers P Q take rest claimed s few there q held
                (rw (room, busy, claim_each) at e)
        ]
      ]

-- What a claim takes of the store: a message that was free, now leased to the owner for the duration.
pub record Taken (now : Timestamp) (input : ClaimInput) (s : MemoryState) (m : StoredOutbox)
    : Type 0 where
  pub stored : StoredOutbox
  pub there : lookup message_id s.outbox (message_id stored) ≡ some stored
  pub free : is_claimable stored.delivery now ≡ true
  pub leased_now :
      m
      ≡ with_delivery stored
          (apply_claim stored.delivery input.owner (now + input.lease_duration_ms))

abbrev pub limit_of : ClaimInput → ℕ
limit_of input = elim input.limit [ none ↦ 1 | some limit ↦ limit ]
