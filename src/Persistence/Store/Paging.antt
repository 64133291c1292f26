-- ===== src/Persistence/Store/Paging.antt =====
-- packages/persistence/src/cursor.ts and the lists of packages/persistence-memory/src/memory-adapter.ts
-- that are ordered by a sequence. A cursor is the value that its text encodes.
use ai_development_os.Prelude.{
  ℕ, zero, suc, ◌++◌, ◌+◌, String, Bool, true, false, ◌&&◌, Option, none, some, List, [], ◌∷◌, ok,
  err, ◌>>=◌, ◌>>◌, reject_if, leb, ltb, length, take, filter, map_result, if◌then◌else◌, ◌==◌,
  string_eq,
}
use ai_development_os.Domain.Errors as Errors
use ai_development_os.Domain.Errors.{validation_failed, missing_aggregate_type}
use ai_development_os.Domain.Guards.{ensure_safe_integer, max_safe_integer}
use ai_development_os.Persistence.Outbox.{
  OutboxStatus, pending, leased, acknowledged, dead_lettered,
}
use ai_development_os.Persistence.Store.State.{
  AggregateType, kind_beq, StoredEvent, StoredOutbox, MemoryState, invalid, invalid_cursor,
}
use ai_development_os.Persistence.Store.Inputs.{Checked, validated, parse_optional_id}
use ai_development_os.Persistence.Store.Operations.{to_event_record, to_outbox_message}
use ai_development_os.Persistence.Store.Messages.{sorted_by_sequence, sequence_of}

pub data ListCursor : Type 0 where
  string_key : String → ListCursor
  sequence : ℕ → ListCursor

pub record Page (A : Type 0) : Type 0 where
  pub items : List A
  pub next_cursor : Option ListCursor

abbrev pub last? {ℓ} : {A : Type ℓ} → List A → Option A
last? [] = none
last? (x ∷ []) = some x
last? (x ∷ y ∷ ys) = last? (y ∷ ys)

abbrev pub cursor_after : {A : Type 0} → (A → ListCursor) → Option A → Option ListCursor
cursor_after cursor_of none = none
cursor_after cursor_of (some item) = some (cursor_of item)

unfoldable pub build_page : {A : Type 0} → List A → ℕ → (A → ListCursor) → Page A
build_page items limit cursor_of =
    if leb (length items) limit then record { items = items; next_cursor = none } else record {
      items = take limit items;
      next_cursor = cursor_after cursor_of (last? (take limit items));
    }

-- The place after which a list ordered by a sequence goes on.
unfoldable pub decode_sequence : Option ListCursor → Checked (Option ℕ)
decode_sequence none = ok none
decode_sequence (some (string_key key)) = err invalid_cursor
decode_sequence (some (sequence n)) =
    if leb n max_safe_integer then ok (some n) else err invalid_cursor

unfoldable pub normalize_page_size : Option ℕ → Errors.Checked ℕ
normalize_page_size none = ok 100
normalize_page_size (some limit) = ensure_safe_integer limit 1 1000

abbrev pub is_after : Option ℕ → ℕ → Bool
is_after none n = true
is_after (some k) n = ltb k n

abbrev pub event_sequence_of : StoredEvent → ℕ
event_sequence_of e = e.global_sequence

-- The query of `events.list`, less its cursor.
pub record EventQuery : Type 0 where
  pub aggregate_type : Option AggregateType
  pub aggregate_id : Option String
  pub limit : Option ℕ

abbrev pub has_type : Option AggregateType → AggregateType → Bool
has_type none kind = true
has_type (some wanted) kind = kind_beq kind wanted

abbrev pub has_id : Option String → String → Bool
has_id none id = true
has_id (some wanted) id = id == wanted

abbrev pub lacks_type : Option String → Option AggregateType → Bool
lacks_type (some id) none = true
lacks_type _ _ = false

abbrev pub selects : Option AggregateType → Option String → StoredEvent → Bool
selects kind id e = has_type kind e.key.kind && has_id id e.key.id

unfoldable pub list_events :
    (String → String) → EventQuery → Option ListCursor → MemoryState → Checked (Page StoredEvent)
list_events hash query cursor s = do
  id ← validated (parse_optional_id query.aggregate_id)
  reject_if (lacks_type id query.aggregate_type)
      (invalid (validation_failed missing_aggregate_type))
  limit ← validated (normalize_page_size query.limit)
  after ← decode_sequence cursor
  items ← map_result (to_event_record hash) (
      take (limit + 1) (
        filter (λ e. selects query.aggregate_type id e && is_after after e.global_sequence)
          (sorted_by_sequence event_sequence_of s.events)))
  ok (build_page items limit (λ e. sequence e.global_sequence))

abbrev pub status_beq : OutboxStatus → OutboxStatus → Bool
status_beq pending pending = true
status_beq leased leased = true
status_beq acknowledged acknowledged = true
status_beq dead_lettered dead_lettered = true
status_beq _ _ = false

abbrev pub has_status : Option OutboxStatus → OutboxStatus → Bool
has_status none status = true
has_status (some wanted) status = status_beq status wanted

unfoldable pub list_messages :
    (String → String)
    → Option OutboxStatus
    → Option ℕ
    → Option ListCursor
    → MemoryState
    → Checked (Page StoredOutbox)
list_messages hash status raw_limit cursor s = do
  limit ← validated (normalize_page_size raw_limit)
  after ← decode_sequence cursor
  items ← map_result (to_outbox_message hash) (
      take (limit + 1) (
        filter (λ m. has_status status m.delivery.status && is_after after m.sequence)
          (sorted_by_sequence sequence_of s.outbox)))
  ok (build_page items limit (λ m. sequence m.sequence))

abbrev pub in_front_of : {A : Type 0} → List A → Option (List A) → Option (List A)
in_front_of items none = none
in_front_of items (some rest) = some (items ++ rest)

-- The items of a page, and what follows if it has a cursor. It is none when the pages have not ended.
abbrev pub go_on :
    {A : Type 0}
    → List A
    → Option ListCursor
    → (Option ListCursor → Checked (Option (List A)))
    → Checked (Option (List A))
go_on items none next = ok (some items)
go_on items (some cursor) next = next (some cursor) >>= λ rest. ok (in_front_of items rest)

-- What a caller gets who follows the cursors for at most `n` pages: none when there is a cursor left.
unfoldable pub follow_events :
    (String → String)
    → EventQuery
    → MemoryState
    → ℕ
    → Option ListCursor
    → Checked (Option (List StoredEvent))
follow_events hash query s zero cursor = ok none
follow_events hash query s (suc n) cursor = list_events hash query cursor s >>= λ page.
    go_on page.items page.next_cursor (λ next. follow_events hash query s n next)
