-- ===== src/Router/Circuit/Time.antt =====
-- packages/router/src/circuit.ts: the times of events, which the code compares as canonical texts.
-- A time is its number of milliseconds from the year 0 on.
use ai_development_os.Prelude.{ℕ, ◌<◌, ◌≡◌, Bool, true, false, ltb, Option, none, some, arith}
use ai_development_os.Domain.Guards.{Timestamp}
pub use ai_development_os.Domain.Instants.{
  year_10000, text_ltb, text_leb, max_time, add_ms, add_ms-eq-some, add_ms-within,
}

-- `state.lastEventAt !== null && event.occurredAt <= state.lastEventAt`.
abbrev pub is_out_of_order : Option Timestamp → Timestamp → Bool
is_out_of_order none at = false
is_out_of_order (some last) at = text_leb at last

-- `coolDownUntil === null || event.occurredAt < coolDownUntil`.
abbrev pub is_cooling : Option Timestamp → Timestamp → Bool
is_cooling none at = true
is_cooling (some until) at = text_ltb at until

-- Within four-digit years the texts are in the order of the times.
pub text_ltb-within : (a b : ℕ) → a < year_10000 → b < year_10000 → text_ltb a b ≡ ltb a b
text_ltb-within a b h k = ground arith
