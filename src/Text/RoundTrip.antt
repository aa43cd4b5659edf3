-- ===== src/Text/RoundTrip.antt =====
-- A number that is written in decimal is parsed as that number.
use tiny_binary_debugger.Base.{
  ℕ, zero, suc, ◌+◌, ◌-◌, ◌*◌, ◌/◌, ◌%◌, ◌^◌, ◌<◌, ◌≡◌, ◌∙◌, true, false, some, [], ◌∷◌, ◌++◌,
  length, length-append, ltb, ◌==◌, arith, Bool-cases, inl, inr, All,
}
use tiny_binary_debugger.Base.Int.{ℤ, pos, negsuc}
use tiny_binary_debugger.Os.{display_i32}
use tiny_binary_debugger.Text.{Text}
use tiny_binary_debugger.Text.Number.{decimal, digits_of, digit_lower}
use tiny_binary_debugger.Text.Parse.{
  is_digit, digits_value, magnitude, below, parse_unsigned, parse_i32,
}

abbrev pub AllDigits : Text → Type 0
AllDigits = All (λ c. is_digit c ≡ true)

AllDigits-append : (s t : Text) → AllDigits s → AllDigits t → AllDigits (s ++ t)
AllDigits-append [] t hs ht = ht
AllDigits-append (c ∷ s) t hs ht = (hs.0, AllDigits-append s t hs.1 ht)

digits_value-snoc :
    (acc v c : ℕ) (s : Text)
    → digits_value acc s ≡ some v
    → is_digit c ≡ true
    → digits_value acc (s ++ c ∷ []) ≡ some (v * 10 + (c - b'0'))
unfolding digits_value
digits_value-snoc acc v c [] h d = ground arith
digits_value-snoc acc v c (e ∷ s) h d = elim (Bool-cases (is_digit e)) [
  | inl digit ↦
      rw digit (digits_value-snoc (acc * 10 + (e - b'0')) v c s (rw (digit, digits_value) at h) d)
  | inr other ↦ absurd (let h' = rw (other, digits_value) at h in cc)
]

-- What the digits of a number are.
record Spells (n : ℕ) (s : Text) : Type 0 where
  value : digits_value 0 s ≡ some n
  digits : AllDigits s
  some_digit : 0 < length s

one_digit : (n : ℕ) → n < 10 → Spells n (digit_lower n ∷ [])
unfolding digits_value digit_lower is_digit
one_digit n lt = record {
  value = ground arith;
  digits = (ground arith, tt);
  some_digit = omega arith;
}

more_digits :
    (n d : ℕ) (s : Text) → d < 10 → Spells n s → Spells (n * 10 + d) (s ++ digit_lower d ∷ [])
more_digits n d s lt h =
    let last = one_digit d lt in
    record {
      value =
          digits_value-snoc 0 n (digit_lower d) s h.value last.digits.0
          ∙ unfold digit_lower in ground arith;
      digits = AllDigits-append s (digit_lower d ∷ []) h.digits last.digits;
      some_digit = omega (arith, length-append s (digit_lower d ∷ []));
    }

digits_of-Spells : (fuel n : ℕ) → n < fuel → Spells n (digits_of digit_lower 10 fuel n)
unfolding digits_of
digits_of-Spells zero n lt = elim lt [ ]
digits_of-Spells (suc fuel) n lt = elim (Bool-cases (ltb n 10)) [
  | inl small ↦ rw small (one_digit n (ground arith))
  | inr large ↦
      let all : n / 10 * 10 + n % 10 ≡ n = omega arith in
      rw large (
        rw all at (
          more_digits (n / 10) (n % 10) (digits_of digit_lower 10 fuel (n / 10)) (omega arith)
            (digits_of-Spells fuel (n / 10) (ground arith))))
]

decimal-Spells : (n : ℕ) → Spells n (decimal n)
unfolding decimal
decimal-Spells n = digits_of-Spells (suc n) n (omega arith)

-- A number in decimal is a row of digits, at least one.
pub decimal-AllDigits : (n : ℕ) → AllDigits (decimal n) × (0 < length (decimal n))
decimal-AllDigits n = let d = decimal-Spells n in (d.digits, d.some_digit)

Spells-magnitude : (n : ℕ) (s : Text) → Spells n s → magnitude s ≡ some n
unfolding magnitude
Spells-magnitude n [] h = let z = h.some_digit in elim z [ ]
Spells-magnitude n (c ∷ s) h = h.value

no_sign : (c sign : ℕ) → is_digit c ≡ true → sign < b'0' → (c == sign) ≡ false
unfolding is_digit
no_sign c sign h lt = ground arith

Spells-parse : (bound n : ℕ) (s : Text) → n < bound → Spells n s → parse_unsigned bound s ≡ some n
unfolding parse_unsigned
Spells-parse bound n [] lt h = let z = h.some_digit in elim z [ ]
Spells-parse bound n (c ∷ s) lt h =
    rw (no_sign c b'+' h.digits.0 (omega arith), Spells-magnitude n (c ∷ s) h)
      (unfold below in ground arith)

pub parse_unsigned-decimal : (bound n : ℕ) → n < bound → parse_unsigned bound (decimal n) ≡ some n
parse_unsigned-decimal bound n lt = Spells-parse bound n (decimal n) lt (decimal-Spells n)

-- The range of an `i32`.
abbrev pub IsI32 : ℤ → Type 0
IsI32 (pos n) = n < 2 ^ 31
IsI32 (negsuc n) = n < 2 ^ 31

Spells-parse_i32 : (n : ℕ) (s : Text) → n < 2 ^ 31 → Spells n s → parse_i32 s ≡ some (pos n)
unfolding parse_i32
Spells-parse_i32 n [] lt h = let z = h.some_digit in elim z [ ]
Spells-parse_i32 n (c ∷ s) lt h =
    rw
      (
        no_sign c b'-' h.digits.0 (omega arith),
        no_sign c b'+' h.digits.0 (omega arith),
        Spells-magnitude n (c ∷ s) h,
      )
      (unfold below in ground arith)

pub parse_i32-display_i32 : (z : ℤ) → IsI32 z → parse_i32 (display_i32 z) ≡ some z
unfolding display_i32 parse_i32
parse_i32-display_i32 (pos n) h = Spells-parse_i32 n (decimal n) h (decimal-Spells n)
parse_i32-display_i32 (negsuc n) h =
    rw (Spells-magnitude (suc n) (decimal (suc n)) (decimal-Spells (suc n)))
      (unfold below in ground arith)
