-- ===== src/Prelude/Text.antt =====
-- Texts: the tests that the validators make by regular expressions, `trim`, and the length that
-- JavaScript counts (UTF-16 code units).
use Prim.Native.Nat.{ℕ, zero, suc, ◌+◌}
use Prim.Native.Char.{Char, code}
use Prim.Native.String.{String}
use mathlib.Core.Bool.{Bool, true, false, ◌&&◌, ◌||◌}
use ai_development_os.Prelude.Tests.{ltb, leb, nat_beq, if◌then◌else◌}

abbrev pub in_range : ℕ → ℕ → ℕ → Bool
in_range lo hi c = leb lo c && leb c hi

abbrev pub is_upper : ℕ → Bool
is_upper c = in_range b'A' b'Z' c

abbrev pub is_lower : ℕ → Bool
is_lower c = in_range b'a' b'z' c

abbrev pub is_digit : ℕ → Bool
is_digit c = in_range b'0' b'9' c

abbrev pub is_alphanumeric : ℕ → Bool
is_alphanumeric c = is_upper c || (is_lower c || is_digit c)

-- `s.length`.
unfoldable pub utf16_length : String → ℕ
utf16_length String.[] = 0
utf16_length (String.◌∷◌ c s) = (if ltb 65535 (code c) then 2 else 1) + utf16_length s

-- Every character passes the test, and there are at most `n`: a class under `{0,n}`.
unfoldable pub each_of : (ℕ → Bool) → ℕ → String → Bool
each_of p n String.[] = true
each_of p zero (String.◌∷◌ c s) = false
each_of p (suc n) (String.◌∷◌ c s) = p (code c) && each_of p n s

-- `/^[first][rest]{0,n}$/`.
unfoldable pub matches : (ℕ → Bool) → (ℕ → Bool) → ℕ → String → Bool
unfolding each_of
matches first rest n String.[] = false
matches first rest n (String.◌∷◌ c s) = first (code c) && each_of rest n s

-- The characters that `trim` removes: WhiteSpace and LineTerminator of ECMAScript.
abbrev pub is_space : ℕ → Bool
is_space c =
    in_range 9 13 c
    || (nat_beq c 32
        || (nat_beq c 160
            || (nat_beq c 5760
                || (in_range 8192 8202 c
                    || (in_range 8232 8233 c
                        || (nat_beq c 8239
                            || (nat_beq c 8287 || (nat_beq c 12288 || nat_beq c 65279))))))))

unfoldable pub trim_start : String → String
trim_start String.[] = String.[]
trim_start (String.◌∷◌ c s) = if is_space (code c) then trim_start s else String.◌∷◌ c s

-- A space is dropped when only spaces follow it.
unfoldable pub keep_or_drop : Char → String → String
keep_or_drop c String.[] = if is_space (code c) then String.[] else String.◌∷◌ c String.[]
keep_or_drop c (String.◌∷◌ d s) = String.◌∷◌ c (String.◌∷◌ d s)

unfoldable pub trim_end : String → String
unfolding keep_or_drop
trim_end String.[] = String.[]
trim_end (String.◌∷◌ c s) = keep_or_drop c (trim_end s)

unfoldable pub trim : String → String
unfolding trim_start trim_end
trim s = trim_end (trim_start s)
