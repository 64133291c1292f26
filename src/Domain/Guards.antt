-- ===== src/Domain/Guards.antt =====
-- packages/domain/src/internal/guards.ts, on values that have the declared type already: what is
-- left of each guard is its test of the value. A timestamp is the number of milliseconds that the
-- canonical ISO-8601 text stands for, counted from a fixed origin, so `ensureTimestamp` has nothing
-- left to test, and `===` and `<` of two texts are those of the numbers.
use ai_development_os.Prelude.{
  ℕ, ◌≤◌, ◌≡◌, String, Bool, ◌||◌, Option, none, some, ok, err, ◌>>=◌, ltb, if◌then◌else◌,
  utf16_length, matches, is_alphanumeric, nat_beq, arith,
}
use ai_development_os.Domain.Errors.{
  bad_length, bad_format, bad_integer, validation_failed, Checked,
}

-- Number.MAX_SAFE_INTEGER.
abbrev pub max_safe_integer : ℕ
max_safe_integer = 9007199254740991

abbrev pub Timestamp : Type 0
Timestamp = ℕ

unfoldable pub ensure_safe_integer : ℕ → ℕ → ℕ → Checked ℕ
ensure_safe_integer value minimum maximum =
    if ltb max_safe_integer value || (ltb value minimum || ltb maximum value)
    then err (validation_failed bad_integer)
    else ok value

unfoldable pub ensure_string : (String → Bool) → ℕ → ℕ → String → Checked String
ensure_string pattern minimum maximum value =
    if ltb (utf16_length value) minimum || ltb maximum (utf16_length value)
    then err (validation_failed bad_length)
    else if pattern value
    then ok value
    else err (validation_failed bad_format)

-- Missing values are `none`.
abbrev pub ensure_nullable : {A B : Type 0} → (A → Checked B) → Option A → Checked (Option B)
ensure_nullable parse none = ok none
ensure_nullable parse (some a) = parse a >>= λ b. ok (some b)

-- What a value that passed the guard satisfies.
pub ensure_safe_integer-eq-ok :
    (value minimum maximum : ℕ) {result : ℕ}
    → ensure_safe_integer value minimum maximum ≡ ok result
    → (result ≡ value) × (minimum ≤ value) × (value ≤ maximum) × (value ≤ max_safe_integer)
unfolding ensure_safe_integer
ensure_safe_integer-eq-ok value minimum maximum h = ground arith

pub ensure_safe_integer_accepts :
    (value minimum maximum : ℕ)
    → minimum ≤ value
    → value ≤ maximum
    → value ≤ max_safe_integer
    → ensure_safe_integer value minimum maximum ≡ ok value
unfolding ensure_safe_integer
ensure_safe_integer_accepts value minimum maximum h k m = ground arith

-- `/^[A-Za-z0-9][A-Za-z0-9._:-]{0,127}$/`, the identifiers of every package.
abbrev pub is_identifier : String → Bool
is_identifier =
    matches is_alphanumeric
      (λ c.
        is_alphanumeric c
        || (nat_beq c b'.' || (nat_beq c b'_' || (nat_beq c b':' || nat_beq c b'-'))))
      127
