-- ===== src/Persistence/Store/Pages.antt =====
-- packages/persistence/src/cursor.ts and packages/persistence-memory/src/memory-adapter.ts: who follows
-- the cursors of a list sees every item once.
use ai_development_os.Prelude.{
  ok-injective, le→leb, ℕ, zero, suc, ◌+◌, ◌≤◌, ◌<◌, ◌≡◌, ◌≢◌, length-append, length-filter-le,
  refl, sym, ◌∙◌, ap, inl, inr, String, true, false, Option, none, some, List, [], ◌∷◌, ◌++◌, ok,
  All, leb, length, length-drop, take, drop, take_short, take-take, take-append-drop, filter,
  Bool-cases, Option-cases, arith,
}
use ai_development_os.Domain.Guards.{ensure_safe_integer-eq-ok, max_safe_integer}
use ai_development_os.Persistence.Store.State.{StoredEvent, MemoryState}
use ai_development_os.Persistence.Store.Inputs.{parse_optional_id}
use ai_development_os.Persistence.Store.Operations.{to_event_record}
use ai_development_os.Persistence.Store.Invariant.{IsWellFormed}
use ai_development_os.Persistence.Store.Paging.{
  ListCursor, sequence, last?, cursor_after, build_page, decode_sequence, normalize_page_size,
  is_after, event_sequence_of, EventQuery, lacks_type, selects, list_events, follow_events,
}
use ai_development_os.Persistence.Store.Sequences.{
  Ascending, sorted-of_Ascending, filter-Ascending, All-filter, All-take, filter-and,
  map_result_same, last?-none, last-All, after_last, filter-later, is_after-last,
}

normalize_page_size-positive :
    (raw : Option ℕ) {limit : ℕ} → normalize_page_size raw ≡ ok limit → 1 ≤ limit
unfolding normalize_page_size
normalize_page_size-positive none h = omega (arith, ok-injective h)
normalize_page_size-positive (some n) h =
    let (same, low, _, _) = ensure_safe_integer-eq-ok n 1 1000 h in omega (arith, same, low)

decode-sequence : (k : ℕ) → k ≤ max_safe_integer → decode_sequence (some (sequence k)) ≡ ok (some k)
unfolding decode_sequence
decode-sequence k h = rw (le→leb k max_safe_integer h) refl

decode-none : decode_sequence none ≡ ok none
unfolding decode_sequence
decode-none = refl

abbrev cursor_of : StoredEvent → ListCursor
cursor_of e = sequence e.global_sequence

-- A page of the items that are left, and what follows it.
full_page :
    (limit : ℕ) (ys : List StoredEvent)
    → leb (length (take (suc limit) ys)) limit ≡ true
    → build_page (take (suc limit) ys) limit cursor_of ≡ record { items = ys; next_cursor = none }
unfolding build_page
full_page limit ys h = rw (h, take_short limit ys (ground (arith, h))) refl

cut_page :
    (limit : ℕ) (ys : List StoredEvent)
    → leb (length (take (suc limit) ys)) limit ≡ false
    → build_page (take (suc limit) ys) limit cursor_of ≡ record {
      items = take limit ys;
      next_cursor = cursor_after cursor_of (last? (take limit ys));
    }
unfolding build_page
cut_page limit ys h = rw (h, take-take limit ys) refl

cut_not_empty :
    (limit : ℕ) (ys : List StoredEvent)
    → 1 ≤ limit
    → leb (length (take (suc limit) ys)) limit ≡ false
    → take limit ys ≢ []
cut_not_empty zero ys positive h e = omega (arith, positive)
cut_not_empty (suc n) [] positive h e = ground (arith, h)
cut_not_empty (suc n) (y ∷ ys) positive h e = cc e

shorter :
    (limit : ℕ) (ys : List StoredEvent)
    → 1 ≤ limit
    → leb (length (take (suc limit) ys)) limit ≡ false
    → length (drop limit ys) < length ys
shorter limit ys positive h =
    let more : limit < length (take (suc limit) ys) = ground (arith, h) in
    let whole : length (take (suc limit) ys) + length (drop (suc limit) ys) ≡ length ys =
      sym (length-append (take (suc limit) ys) (drop (suc limit) ys))
      ∙ ap length (take-append-drop (suc limit) ys) in
    omega (arith, length-drop limit ys, more, whole, positive)

module _ (hash : String → String) (query : EventQuery) (s : MemoryState) (limit : ℕ)
    (w : IsWellFormed s) (readable : All (λ e. to_event_record hash e ≡ ok e) s.events)
    (safe : All (λ (e : StoredEvent). e.global_sequence ≤ max_safe_integer) s.events)
    (named : parse_optional_id query.aggregate_id ≡ ok query.aggregate_id)
    (typed : lacks_type query.aggregate_id query.aggregate_type ≡ false)
    (sized : normalize_page_size query.limit ≡ ok limit) where
  abbrev matching : List StoredEvent
  matching = filter (selects query.aggregate_type query.aggregate_id) s.events

  -- What is left after a place.
  abbrev left : Option ℕ → List StoredEvent
  left o = filter (λ e. is_after o (event_sequence_of e)) matching

  list_events-left :
      (cursor : Option ListCursor) (o : Option ℕ)
      → decode_sequence cursor ≡ ok o
      → list_events hash query cursor s
        ≡ ok (build_page (take (suc limit) (left o)) limit cursor_of)
  unfolding list_events
  list_events-left cursor o h =
      let ordered : Ascending event_sequence_of s.events = w.event_order in
      let more : limit + 1 ≡ suc limit = omega arith in
      let kept : All (λ e. to_event_record hash e ≡ ok e) (take (suc limit) (left o)) =
        All-take event_sequence_of (λ e. to_event_record hash e ≡ ok e) (suc limit) (left o)
          (All-filter event_sequence_of (λ e. to_event_record hash e ≡ ok e) _ matching
            (All-filter event_sequence_of (λ e. to_event_record hash e ≡ ok e) _ s.events
              readable)) in
      rw
        (
          named,
          typed,
          sized,
          h,
          sorted-of_Ascending event_sequence_of s.events ordered,
          filter-and event_sequence_of (selects query.aggregate_type query.aggregate_id)
              (λ e. is_after o (event_sequence_of e)) s.events,
          more,
          map_result_same event_sequence_of (to_event_record hash) (take (suc limit) (left o)) kept,
        )
        refl

  -- Behind the last item of a cut page is what the page left.
  left_after_last :
      (o : Option ℕ) {l : StoredEvent}
      → last? (take limit (left o)) ≡ some l
      → left (some l.global_sequence) ≡ drop limit (left o)
  left_after_last o {l} e =
      let ordered : Ascending event_sequence_of s.events = w.event_order in
      sym (
        filter-later event_sequence_of o l.global_sequence matching
          (is_after-last event_sequence_of o limit matching e))
      ∙ after_last event_sequence_of limit (left o)
          (filter-Ascending event_sequence_of (λ x. is_after o (event_sequence_of x)) matching
            (filter-Ascending event_sequence_of _ s.events ordered))
          e

  follow_events-left :
      (n : ℕ) (cursor : Option ListCursor) (o : Option ℕ)
      → decode_sequence cursor ≡ ok o
      → length (left o) < n
      → follow_events hash query s n cursor ≡ ok (some (left o))
  unfolding follow_events
  follow_events-left zero cursor o h less = absurd (omega (arith, less))
  follow_events-left (suc n) cursor o h less =
      let positive : 1 ≤ limit = normalize_page_size-positive query.limit sized in
      elim (Bool-cases (leb (length (take (suc limit) (left o))) limit)) [
        | inl whole ↦ rw (list_events-left cursor o h, full_page limit (left o) whole) refl
        | inr cut ↦ elim (Option-cases (last? (take limit (left o)))) [
          | inl nothing ↦
              absurd
                (cut_not_empty limit (left o) positive cut (last?-none event_sequence_of _ nothing))
          | inr (l, last) ↦
              let behind = left_after_last o last in
              let bound : l.global_sequence ≤ max_safe_integer =
                last-All event_sequence_of
                  (λ (e : StoredEvent). e.global_sequence ≤ max_safe_integer) limit (left o)
                  (All-filter event_sequence_of
                    (λ (e : StoredEvent). e.global_sequence ≤ max_safe_integer) _ matching
                    (All-filter event_sequence_of
                      (λ (e : StoredEvent). e.global_sequence ≤ max_safe_integer) _ s.events safe))
                  last in
              let fewer : length (left (some l.global_sequence)) < n =
                omega (arith, ap length behind, shorter limit (left o) positive cut, less) in
              let rest : follow_events hash query s n (some (cursor_of l))
                  ≡ ok (some (left (some l.global_sequence))) =
                follow_events-left n (some (cursor_of l)) (some l.global_sequence)
                  (decode-sequence l.global_sequence bound) fewer in
              rw (list_events-left cursor o h, cut_page limit (left o) cut, last, rest)
                (ap (λ ys. ok (some ys))
                  (ap (λ ys. take limit (left o) ++ ys) behind ∙ take-append-drop limit (left o)))
        ]
      ]

  all_left : (xs : List StoredEvent) → filter (λ e. is_after none (event_sequence_of e)) xs ≡ xs
  all_left [] = refl
  all_left (x ∷ xs) = ap (λ ys. x ∷ ys) (all_left xs)

  -- Who follows the cursors of `events.list` from the start gets every event that the query selects
  -- exactly once, in the order of their numbers, whatever the size of a page, and in at most one page
  -- more than there are events. The store is well formed and its events are
  -- readable and numbered within the safe integers, and the query is valid.
  pub follow_events-all :
      follow_events hash query s (suc (length s.events)) none ≡ ok (some matching)
  follow_events-all =
      follow_events-left (suc (length s.events)) none none decode-none (
        omega (
          arith,
          ap length (all_left matching),
          length-filter-le (selects query.aggregate_type query.aggregate_id) s.events,
        ))
      ∙ ap (λ ys. ok (some ys)) (all_left matching)
