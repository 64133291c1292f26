-- ===== src/Router/Shared.antt =====
-- packages/router/src/shared.ts: the texts that the router accepts, and how it digests a value.
use ai_development_os.Prelude.{
  ℕ, String, Bool, ◌||◌, matches, is_lower, is_digit, in_range, nat_beq,
}

-- `HEX_64`.
abbrev pub is_hex_digit : ℕ → Bool
is_hex_digit c = is_digit c || in_range b'a' b'f' c

abbrev pub is_hex_64 : String → Bool
is_hex_64 = matches is_hex_digit is_hex_digit 63

-- `SAFE_KIND`.
abbrev pub is_safe_kind : String → Bool
is_safe_kind =
    matches is_lower
      (λ c. is_lower c || (is_digit c || (nat_beq c b'.' || (nat_beq c b'_' || nat_beq c b'-')))) 63
