-- ===== src/Text/Parse.antt =====
-- `str::parse` at the integer types that the program parses: `i32`, `u16`, `u32` and `u64`.
use tiny_binary_debugger.Base.{
  ℕ, ◌+◌, ◌-◌, ◌*◌, ◌^◌, Bool, ◌&&◌, Option, none, some, [], ◌∷◌, ltb, leb, ◌==◌, if◌then◌else◌,
}
use tiny_binary_debugger.Base.Int.{ℤ, pos, negsuc}
use tiny_binary_debugger.Text.{Text}

unfoldable pub is_digit : ℕ → Bool
is_digit c = leb b'0' c && leb c b'9'

-- The value of a row of decimal digits, none if some character is no digit.
unfoldable pub digits_value : ℕ → Text → Option ℕ
unfolding is_digit
digits_value acc [] = some acc
digits_value acc (c ∷ s) =
    let rest = digits_value (acc * 10 + (c - b'0')) s in if is_digit c then rest else none

-- At least one digit.
unfoldable pub magnitude : Text → Option ℕ
unfolding digits_value
magnitude [] = none
magnitude (c ∷ s) = digits_value 0 (c ∷ s)

unfoldable pub below : ℕ → Option ℕ → Option ℕ
below bound none = none
below bound (some n) = if ltb n bound then some n else none

-- `parse` at an unsigned type whose values lie below `bound`: a `+` may stand first.
unfoldable pub parse_unsigned : ℕ → Text → Option ℕ
unfolding magnitude below
parse_unsigned bound [] = none
parse_unsigned bound (c ∷ s) = below bound (magnitude (if c == b'+' then s else c ∷ s))

-- - n for a magnitude n ≤ 2 ^ 31
negate : ℕ → ℤ
negate n = if n == 0 then pos 0 else negsuc (n - 1)

signed : (ℕ → ℤ) → Option ℕ → Option ℤ
signed f none = none
signed f (some n) = some (f n)

-- `parse::<i32>`
unfoldable pub parse_i32 : Text → Option ℤ
unfolding magnitude below negate signed
parse_i32 [] = none
parse_i32 (c ∷ s) =
    if c == b'-'
    then signed negate (below (2 ^ 31 + 1) (magnitude s))
    else signed pos (below (2 ^ 31) (magnitude (if c == b'+' then s else c ∷ s)))

unfoldable pub parse_u16 : Text → Option ℕ
unfolding parse_unsigned
parse_u16 = parse_unsigned (2 ^ 16)

unfoldable pub parse_u32 : Text → Option ℕ
unfolding parse_unsigned
parse_u32 = parse_unsigned (2 ^ 32)

unfoldable pub parse_u64 : Text → Option ℕ
unfolding parse_unsigned
parse_u64 = parse_unsigned (2 ^ 64)
