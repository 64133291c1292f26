-- ===== src/Domain/Instants.antt =====
-- Times that the code computes with `Date`: packages/router/src/circuit.ts and `leaseExpiry` of
-- packages/persistence/src/outbox-logic.ts. A time is its number of milliseconds from the year 0 on.
use ai_development_os.Prelude.{
  Bool, not, true, false, ℕ, ◌+◌, ◌≤◌, ◌≡◌, ltb, Option, none, some, if◌then◌else◌, arith,
}
use ai_development_os.Domain.Guards.{Timestamp}

-- The first time of the year 10000. From it on `toISOString` writes a sign and six digits of the year.
abbrev pub year_10000 : ℕ
year_10000 = 315569520000000

-- `<` on canonical texts: the sign `+` sorts before the digits.
abbrev pub text_ltb : Timestamp → Timestamp → Bool
text_ltb a b =
    if ltb a year_10000
    then if ltb b year_10000 then ltb a b else false
    else if ltb b year_10000
    then true
    else ltb a b

-- `<=` on canonical texts.
abbrev pub text_leb : Timestamp → Timestamp → Bool
text_leb a b = not (text_ltb b a)

pub text_leb_refl : (a : ℕ) → text_leb a a ≡ true
text_leb_refl a = ground arith

-- The last time that a `Date` can hold.
abbrev pub max_time : ℕ
max_time = 8702167219200000

-- `new Date(start + ms).toISOString()`, which throws for a time that a `Date` cannot hold.
abbrev pub add_ms : Timestamp → ℕ → Option Timestamp
add_ms start ms = if ltb max_time (start + ms) then none else some (start + ms)

pub add_ms-eq-some : (a n : ℕ) {b : ℕ} → add_ms a n ≡ some b → b ≡ a + n
add_ms-eq-some a n h = ground arith

pub add_ms-within : (a n : ℕ) → a + n ≤ max_time → add_ms a n ≡ some (a + n)
add_ms-within a n h = ground arith
