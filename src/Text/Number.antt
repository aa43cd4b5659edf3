-- ===== src/Text/Number.antt =====
-- `format!` of a number: `{}`, `{:x}`, `{:X}` and the widths.
use tiny_binary_debugger.Base.{
  ℕ, zero, suc, ◌+◌, ◌-◌, ◌/◌, ◌%◌, [], ◌∷◌, ◌++◌, length, replicate, ltb, if◌then◌else◌,
}
use tiny_binary_debugger.Text.{Text}

unfoldable pub digit_lower : ℕ → ℕ
digit_lower d = if ltb d 10 then b'0' + d else b'a' + (d - 10)

unfoldable pub digit_upper : ℕ → ℕ
digit_upper d = if ltb d 10 then b'0' + d else b'A' + (d - 10)

-- The digits of `n` in base `b`; a number has fewer digits than the fuel `n + 1`.
unfoldable pub digits_of : (ℕ → ℕ) → ℕ → ℕ → ℕ → Text
digits_of digit b zero n = []
digits_of digit b (suc fuel) n =
    let more = digits_of digit b fuel (n / b) ++ digit (n % b) ∷ [] in
    if ltb n b then digit n ∷ [] else more

-- `{}`
unfoldable pub decimal : ℕ → Text
unfolding digits_of digit_lower
decimal n = digits_of digit_lower 10 (suc n) n

-- `{:x}`
unfoldable pub hex_lower : ℕ → Text
unfolding digits_of digit_lower
hex_lower n = digits_of digit_lower 16 (suc n) n

-- `{:X}`
unfoldable pub hex_upper : ℕ → Text
unfolding digits_of digit_upper
hex_upper n = digits_of digit_upper 16 (suc n) n

-- `{:>w}`, and `{:0w…}` for a number: fill characters on the left up to `w` characters.
unfoldable pub pad_left : ℕ → ℕ → Text → Text
pad_left fill w s = replicate (w - length s) fill ++ s

-- `{:w}` of a text: blanks on the right.
unfoldable pub pad_right : ℕ → Text → Text
pad_right w s = s ++ replicate (w - length s) b' '
