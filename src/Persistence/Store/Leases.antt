-- ===== src/Persistence/Store/Leases.antt =====
-- packages/persistence-memory/src/memory-adapter.ts: what `claim` answers, and a second claim.
use ai_development_os.Prelude.{
  ℕ, ◌+◌, ◌≤◌, ◌≡◌, ◌≢◌, sym, ◌∙◌, ap, subst, String, true, false, Option, none, some, List, [], ok,
  err, lookup, lookup-own, All, All-map, is_nodup, map, length, string_eq, arith, after_ok,
  or_fail-eq-ok, ok-injective,
}
use ai_development_os.Domain.Errors as Errors
use ai_development_os.Domain.Guards.{
  Timestamp, ensure_safe_integer, ensure_safe_integer-eq-ok, is_identifier,
}
use ai_development_os.Domain.Usage.Parsing.{ensure_string-eq-ok}
use ai_development_os.Domain.Instants.{text_ltb, add_ms-eq-some}
use ai_development_os.Persistence.Outbox.{Message, leased, is_claimable, apply_claim}
use ai_development_os.Persistence.Store.State.{StoredOutbox, MemoryState, message_id}
use ai_development_os.Persistence.Store.Inputs.{
  validated, parse_id, claim_limit, ClaimInput, ValidatedOutboxClaim, validate_claim_outbox_input,
}
use ai_development_os.Persistence.Store.Operations.{Outcome, attempt}
use ai_development_os.Persistence.Store.Messages.{
  sorted_by_sequence, sequence_of, with_delivery, claim, lease_expiry,
}
use ai_development_os.Persistence.Store.Deliveries.{All-sorted_by_sequence}
use ai_development_os.Persistence.Store.Effects.{execute-Change}
use ai_development_os.Persistence.Store.Invariant.{IsWellFormed, Change-IsWellFormed}
use ai_development_os.Persistence.Store.Changes.{Change}
use ai_development_os.Persistence.Store.Transaction as Transaction
use ai_development_os.Persistence.Store.Transaction.{execute}
use ai_development_os.Persistence.Store.Claims.{
  Held, Taken, limit_of, after_attempt, claim_each-answers,
}

pub validated-eq-ok : {A : Type 0} (m : Errors.Checked A) {a : A} → validated m ≡ ok a → m ≡ ok a
validated-eq-ok (ok b) h = cc h
validated-eq-ok (err e) h = absurd (cc h)

pub parse_id-eq-ok : (v : String) {r : String} → parse_id v ≡ ok r → r ≡ v
unfolding parse_id
parse_id-eq-ok v h = ensure_string-eq-ok is_identifier 1 128 v h

claim_limit-eq-ok :
    (o : Option ℕ) {n : ℕ} → claim_limit o ≡ ok n → n ≡ elim o [ none ↦ 1 | some limit ↦ limit ]
claim_limit-eq-ok none h = sym (ok-injective h)
claim_limit-eq-ok (some limit) h = (ensure_safe_integer-eq-ok limit 1 100 h).0

validate_claim-eq-ok :
    (input : ClaimInput) {r : ValidatedOutboxClaim}
    → validate_claim_outbox_input input ≡ ok r
    → (r.owner ≡ input.owner)
      × (r.lease_duration_ms ≡ input.lease_duration_ms)
      × (r.limit ≡ limit_of input)
unfolding validate_claim_outbox_input
validate_claim-eq-ok input h = after_ok (parse_id input.owner) _ h λ owner howner h1.
    after_ok (ensure_safe_integer input.lease_duration_ms 1 86400000) _ h1 λ lease hlease h2.
      after_ok (claim_limit input.limit) _ h2 λ limit hlimit h3.
        let same = ok-injective h3 in
        (
          ap (λ (r : ValidatedOutboxClaim). r.owner) (sym same) ∙ parse_id-eq-ok _ howner,
          ap (λ (r : ValidatedOutboxClaim). r.lease_duration_ms) (sym same)
              ∙ (ensure_safe_integer-eq-ok _ 1 86400000 hlease).0,
          ap (λ (r : ValidatedOutboxClaim). r.limit) (sym same) ∙ claim_limit-eq-ok _ hlimit,
        )

-- A step that answers goes on from there.
attempt-ok :
    {A B : Type 0} (s : MemoryState) (a : A) (k : A → Outcome B) {o : Outcome B}
    → attempt s (ok a) k ≡ o
    → k a ≡ o
unfolding attempt
attempt-ok s a k h = h

-- A claim answers at most as many messages as its limit allows. Each of them was free in the store, and
-- is now leased to the owner until the duration is over, in the answer and in the store that the claim
-- leaves. The ids of the messages are distinct.
pub claim-Taken :
    (hash : String → String) (now : Timestamp) (input : ClaimInput) (s : MemoryState)
    {ms : List StoredOutbox} {t : MemoryState}
    → is_nodup (map message_id s.outbox) ≡ true
    → ◌≡◌ {A = Outcome (List StoredOutbox)} (claim hash (some now) input s) (ok ms, t)
    → (length ms ≤ limit_of input)
      × All (Taken now input s) ms
      × All (λ m. Held input.owner (now + input.lease_duration_ms) t (message_id m)) ms
unfolding claim lease_expiry
claim-Taken hash now input s {ms} {t} distinct h =
    after_attempt s (validated (validate_claim_outbox_input input)) _ h λ valid hvalid h1.
      after_attempt s (lease_expiry now valid.lease_duration_ms) _ (attempt-ok s now _ h1)
        λ expires_at hexpires h2.
          let (owner, duration, limit) = validate_claim-eq-ok input (validated-eq-ok _ hvalid) in
          let ends : expires_at ≡ now + input.lease_duration_ms =
            add_ms-eq-some now valid.lease_duration_ms (or_fail-eq-ok _ _ hexpires)
            ∙ ap (λ d. now + d) duration in
          let (few, taken, held) =
            claim_each-answers hash valid.limit valid.owner now expires_at
              (λ m. lookup message_id s.outbox (message_id m) ≡ some m) (Taken now input s)
              (λ m there free. record {
                stored = m;
                there = there;
                free = free;
                leased_now =
                    ap (λ o. with_delivery m (apply_claim m.delivery o expires_at)) owner
                    ∙ ap (λ u. with_delivery m (apply_claim m.delivery input.owner u)) ends;
              })
              (sorted_by_sequence sequence_of s.outbox) [] s (omega arith)
              (All-sorted_by_sequence (λ m. lookup message_id s.outbox (message_id m) ≡ some m)
                sequence_of s.outbox (lookup-own message_id s.outbox distinct))
              tt tt h2 in
          (
            rw (← limit) few,
            taken,
            subst
                (λ (o : String).
                  All (λ m. Held o (now + input.lease_duration_ms) t (message_id m)) ms)
                owner
                (subst (λ (u : ℕ). All (λ m. Held valid.owner u t (message_id m)) ms) ends held),
          )

-- A message that is held is not free before the lease ends.
held_is_busy :
    (m : Message) (expires_at now : Timestamp)
    → m.status ≡ leased
    → m.lease_expires_at ≡ some expires_at
    → text_ltb now expires_at ≡ true
    → is_claimable m now ≡ false
unfolding is_claimable
held_is_busy m expires_at now status until early = ground (arith, status, until, early)

Held-apart :
    (owner : String) (expires_at now : Timestamp) (input : ClaimInput) (t : MemoryState)
    (m n : StoredOutbox)
    → text_ltb now expires_at ≡ true
    → Held owner expires_at t (message_id m)
    → Taken now input t n
    → message_id m ≢ message_id n
unfolding apply_claim
Held-apart owner expires_at now input t m n early h taken same =
    let id : message_id n ≡ message_id taken.stored = ap message_id taken.leased_now in
    let found : some h.holder ≡ some taken.stored =
      sym h.there ∙ ap (lookup message_id t.outbox) (same ∙ id) ∙ taken.there in
    let one : h.holder ≡ taken.stored = cc found in
    let free : is_claimable h.holder.delivery now ≡ true =
      ap (λ (x : StoredOutbox). is_claimable x.delivery now) one ∙ taken.free in
    cc (free, held_is_busy h.holder.delivery expires_at now h.is_leased h.until early)

claim-IsWellFormed :
    (hash : String → String) (now : Timestamp) (input : ClaimInput) (s : MemoryState)
    {ms : List StoredOutbox} {t : MemoryState}
    → IsWellFormed s
    → ◌≡◌ {A = Outcome (List StoredOutbox)} (claim hash (some now) input s) (ok ms, t)
    → IsWellFormed t
unfolding execute
claim-IsWellFormed hash now input s {ms} {t} w h =
    Change-IsWellFormed
      (subst (λ (o : Outcome (List StoredOutbox)). Change s (o.1)) h
        (execute-Change hash (some now) (Transaction.claim input) s w.message_ids))
      w

-- A lease excludes other claims until it ends: of the messages that a claim took, a claim that follows
-- it before the end of the lease, as the texts of the times compare, takes none. The store is well
-- formed.
pub claim-excludes :
    (hash : String → String) (now later : Timestamp) (first second : ClaimInput) (s : MemoryState)
    {ms ns : List StoredOutbox} {t u : MemoryState}
    → IsWellFormed s
    → ◌≡◌ {A = Outcome (List StoredOutbox)} (claim hash (some now) first s) (ok ms, t)
    → ◌≡◌ {A = Outcome (List StoredOutbox)} (claim hash (some later) second t) (ok ns, u)
    → text_ltb later (now + first.lease_duration_ms) ≡ true
    → All (λ m. All (λ n. message_id m ≢ message_id n) ns) ms
claim-excludes hash now later first second s {ms} {ns} {t} {u} w h k early =
    let (_, _, held) = claim-Taken hash now first s w.message_ids h in
    let after : IsWellFormed t = claim-IsWellFormed hash now first s w h in
    let (_, taken, _) = claim-Taken hash later second t after.message_ids k in
    All-map ms
      (λ m holds.
        All-map ns
          (λ n took.
            Held-apart first.owner (now + first.lease_duration_ms) later second t m n early holds
              took)
          taken)
      held
