-- ===== src/Persistence/Store/Versions.antt =====
-- packages/persistence-memory/src/memory-adapter.ts: aggregates are written under optimistic versions.
use ai_development_os.Prelude.{
  ℕ, ◌+◌, ◌≡◌, refl, sym, ◌∙◌, ap, subst, String, false, Option, none, some, ok, err, lookup,
  lookup-key, lookup-put-same, ◌==◌, string_eq, nat_eq, nat_beq, nat_beq_iff, guard, guard-eq-ok,
  or_fail, or_fail-eq-ok, after_ok, ok-injective, arith,
}
use ai_development_os.Domain.Guards.{
  Timestamp, ensure_safe_integer, ensure_safe_integer-eq-ok, max_safe_integer,
}
use ai_development_os.Persistence.Store.State.{
  AggregateKey, StoredAggregate, MemoryState, concurrency_conflict, not_found, key_eq,
}
use ai_development_os.Persistence.Store.Inputs.{
  validated, parse_id, parse_key, parse_schema_version, parse_optional_id, prepare_payload,
  verify_checksum, AggregateInput, UpdateInput, ValidatedAggregateWrite,
  validate_create_aggregate_input, validate_update_aggregate_input,
}
use ai_development_os.Persistence.Store.Operations.{
  Outcome, attempt, read_clock, absent, to_envelope, aggregate_key, created_aggregate,
  updated_aggregate, set_aggregate, create, update, get,
}
use ai_development_os.Persistence.Store.Claims.{after_attempt}
use ai_development_os.Persistence.Store.Changes.{absent-eq-ok}
use ai_development_os.Persistence.Store.Leases.{parse_id-eq-ok, validated-eq-ok}

to_envelope-eq-ok :
    (hash : String → String) (a : StoredAggregate) {r : StoredAggregate}
    → to_envelope hash a ≡ ok r
    → r ≡ a
unfolding to_envelope
to_envelope-eq-ok hash a h =
    after_ok (verify_checksum hash a.payload_text a.checksum) _ h λ _ _ e. sym (ok-injective e)

parse_key-eq-ok :
    (k : AggregateKey) {r : AggregateKey} → parse_key k ≡ ok r → (r ≡ k) × (parse_id k.id ≡ ok k.id)
parse_key-eq-ok k h =
    after_ok (parse_id k.id) _ h
      λ id hid e. let same = parse_id-eq-ok k.id hid in (cc (ok-injective e, same), rw same at hid)

-- What is written stands at the place that the caller names, with a valid id.
write-key :
    (hash : String → String) (input : AggregateInput) {write : ValidatedAggregateWrite}
    → validate_create_aggregate_input hash input ≡ ok write
    → (write.key ≡ input.key) × (parse_id input.key.id ≡ ok input.key.id)
unfolding validate_create_aggregate_input
write-key hash input h = after_ok (prepare_payload hash input.payload) _ h λ prepared _ h1.
    after_ok (parse_key input.key) _ h1 λ key hkey h2.
      after_ok (parse_schema_version input.schema_version) _ h2 λ version _ h3.
        after_ok (parse_optional_id input.trace_id) _ h3 λ trace _ h4.
          let (same, valid) = parse_key-eq-ok input.key hkey in
          (ap (λ (w : ValidatedAggregateWrite). w.key) (sym (ok-injective h4)) ∙ same, valid)

valid-version :
    (hash : String → String) (input : UpdateInput) {valid : ValidatedAggregateWrite × ℕ}
    → validate_update_aggregate_input hash input ≡ ok valid
    → (valid.0.key ≡ input.base.key)
      × (parse_id input.base.key.id ≡ ok input.base.key.id)
      × (valid.1 ≡ input.expected_version)
unfolding validate_update_aggregate_input
valid-version hash input h =
    after_ok (validate_create_aggregate_input hash input.base) _ h λ base hbase h1.
      after_ok (ensure_safe_integer input.expected_version 1 max_safe_integer) _ h1
        λ version hversion h2.
          let (same, id) = write-key hash input.base hbase in
          let whole = sym (ok-injective h2) in
          (
            ap (λ (v : ValidatedAggregateWrite × ℕ). v.0.key) whole ∙ same,
            id,
            ap (λ (v : ValidatedAggregateWrite × ℕ). v.1) whole
                ∙ (ensure_safe_integer-eq-ok input.expected_version 1 max_safe_integer hversion).0,
          )

-- The answer of a write is verified, and it is what the store then has at its place.
wrote :
    (hash : String → String) (s : MemoryState) (a : StoredAggregate) {r : StoredAggregate}
    {t : MemoryState}
    → ◌≡◌ {A = Outcome StoredAggregate} (to_envelope hash a, set_aggregate s a) (ok r, t)
    → (r ≡ a) × (to_envelope hash r ≡ ok r) × (lookup aggregate_key t.aggregates a.key ≡ some r)
wrote hash s a {r} {t} h =
    let answer : to_envelope hash a ≡ ok r = ap (λ (o : Outcome StoredAggregate). o.0) h in
    let same = to_envelope-eq-ok hash a answer in
    (
      same,
      subst (λ (b : StoredAggregate). to_envelope hash b ≡ ok r) (sym same) answer,
      ap (λ (o : Outcome StoredAggregate). lookup aggregate_key (o.1.aggregates) a.key) (sym h)
          ∙ lookup-put-same aggregate_key s.aggregates a
          ∙ ap (λ (b : StoredAggregate). some b) (sym same),
    )

-- What an update that answers did.
pub record Updated (hash : String → String) (input : UpdateInput) (s t : MemoryState)
    (a : StoredAggregate) : Type 0 where
  pub existing : StoredAggregate
  pub found : lookup aggregate_key s.aggregates input.base.key ≡ some existing
  pub expected : existing.aggregate_version ≡ input.expected_version
  pub version : a.aggregate_version ≡ input.expected_version + 1
  pub created : a.created_at ≡ existing.created_at
  pub stored : lookup aggregate_key t.aggregates input.base.key ≡ some a
  pub readable : get hash input.base.key t ≡ ok (some a)

get-stored :
    (hash : String → String) (k : AggregateKey) (t : MemoryState) (a : StoredAggregate)
    → parse_id k.id ≡ ok k.id
    → lookup aggregate_key t.aggregates k ≡ some a
    → to_envelope hash a ≡ ok a
    → get hash k t ≡ ok (some a)
unfolding get
get-stored hash k t a id there readable = rw (id, there, readable) refl

-- An update that answers found the aggregate at the version that the caller expected, and gives it the
-- next version and its first time of creation. `get` then finds what the update answered.
pub update-Updated :
    (hash : String → String) (now : Option Timestamp) (input : UpdateInput) (s : MemoryState)
    {a : StoredAggregate} {t : MemoryState}
    → ◌≡◌ {A = Outcome StoredAggregate} (update hash now input s) (ok a, t)
    → Updated hash input s t a
unfolding update
update-Updated hash now input s {a} {t} h =
    after_attempt s (validated (validate_update_aggregate_input hash input)) _ h λ valid hvalid h1.
      after_attempt s (or_fail (lookup aggregate_key s.aggregates valid.0.key) not_found) _ h1
        λ existing hfound h2.
          after_attempt s (guard (existing.aggregate_version == valid.1) concurrency_conflict) _ h2
            λ _ hsame h3. after_attempt s (read_clock now) _ h3 λ at _ h4.
              let (key, id, version) = valid-version hash input (validated-eq-ok _ hvalid) in
              let there = or_fail-eq-ok _ _ hfound in
              let placed : existing.key ≡ input.base.key =
                lookup-key aggregate_key s.aggregates valid.0.key there ∙ key in
              let (answer, readable, kept) =
                wrote hash s (updated_aggregate existing valid.0 valid.1 at) h4 in
              let stored : lookup aggregate_key t.aggregates input.base.key ≡ some a =
                ap (lookup aggregate_key t.aggregates) (sym placed) ∙ kept in
              record {
                existing = existing;
                found = ap (lookup aggregate_key s.aggregates) (sym key) ∙ there;
                expected = (nat_beq_iff _ _).0 (guard-eq-ok _ _ hsame) ∙ version;
                version =
                    ap (λ (b : StoredAggregate). b.aggregate_version) answer
                    ∙ ap (λ v. v + 1) version;
                created = ap (λ (b : StoredAggregate). b.created_at) answer;
                stored = stored;
                readable = get-stored hash input.base.key t a id stored readable;
              }

-- No update is lost: once an update of an aggregate has succeeded, another one that expects the same
-- version is refused as a conflict and changes nothing. Its input is valid.
pub update-conflict :
    (hash : String → String) (now later : Option Timestamp) (input other : UpdateInput)
    (s : MemoryState) {a : StoredAggregate} {t : MemoryState} {valid : ValidatedAggregateWrite × ℕ}
    → ◌≡◌ {A = Outcome StoredAggregate} (update hash now input s) (ok a, t)
    → validate_update_aggregate_input hash other ≡ ok valid
    → other.base.key ≡ input.base.key
    → other.expected_version ≡ input.expected_version
    → update hash later other t ≡ (err concurrency_conflict, t)
unfolding update attempt
update-conflict hash now later input other s {a} {t} {valid} h ready same_key same_version =
    let u = update-Updated hash now input s h in
    let (key, _, version) = valid-version hash other ready in
    let found : lookup aggregate_key t.aggregates valid.0.key ≡ some a =
      ap (lookup aggregate_key t.aggregates) (key ∙ same_key) ∙ u.stored in
    let stale : nat_beq a.aggregate_version (valid.1) ≡ false =
      ground (arith, u.version, version, same_version) in
    rw (ready, found, stale) refl

-- What `create` answers is a first version, which `get` then finds.
pub create-get :
    (hash : String → String) (now : Option Timestamp) (input : AggregateInput) (s : MemoryState)
    {a : StoredAggregate} {t : MemoryState}
    → ◌≡◌ {A = Outcome StoredAggregate} (create hash now input s) (ok a, t)
    → (lookup aggregate_key s.aggregates input.key ≡ none)
      × (a.aggregate_version ≡ 1)
      × (get hash input.key t ≡ ok (some a))
unfolding create
create-get hash now input s {a} {t} h =
    after_attempt s (validated (validate_create_aggregate_input hash input)) _ h λ write hwrite h1.
      after_attempt s (absent (lookup aggregate_key s.aggregates write.key) concurrency_conflict) _
        h1
        λ _ free h2. after_attempt s (read_clock now) _ h2 λ at _ h3.
          let (key, id) = write-key hash input (validated-eq-ok _ hwrite) in
          let (answer, readable, kept) = wrote hash s (created_aggregate write at) h3 in
          (
            ap (lookup aggregate_key s.aggregates) (sym key) ∙ absent-eq-ok _ _ free,
            ap (λ (b : StoredAggregate). b.aggregate_version) answer,
            get-stored hash input.key t a id
                (ap (lookup aggregate_key t.aggregates) (sym key) ∙ kept) readable,
          )
