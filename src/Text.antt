-- ===== src/Text.antt =====
-- `str` and `String` of Rust's standard library, as far as the program uses them: a text is the
-- list of its code points, and lengths and slices count the bytes of its UTF-8 encoding.
pub mod Number
pub mod Parse
pub mod Laws
pub mod RoundTrip
use Prim.Native.Char.{code}
use mathlib.Core.Option
use tiny_binary_debugger.Base.{
  ◌++◌, ℕ, zero, suc, ◌+◌, ◌-◌, String, Bool, true, false, ◌&&◌, ◌||◌, Option, none, some, List, [],
  ◌∷◌, ltb, leb, ◌==◌, if◌then◌else◌,
}

abbrev pub Text : Type 0
Text = List ℕ

-- A literal's code points.
abbrev pub codes : String → Text
codes String.[] = []
codes (String.◌∷◌ c s) = code c ∷ codes s

unfoldable pub text_eq : Text → Text → Bool
text_eq [] [] = true
text_eq [] (d ∷ t) = false
text_eq (c ∷ s) [] = false
text_eq (c ∷ s) (d ∷ t) = c == d && text_eq s t

-- `matches!(m, "a" | "b")`
unfoldable pub one_of : Text → List Text → Bool
unfolding text_eq
one_of m [] = false
one_of m (t ∷ ts) = text_eq m t || one_of m ts

unfoldable pub starts_with : Text → Text → Bool
starts_with s [] = true
starts_with [] (d ∷ p) = false
starts_with (c ∷ s) (d ∷ p) = c == d && starts_with s p

unfoldable pub contains : Text → Text → Bool
unfolding starts_with
contains [] p = starts_with [] p
contains (c ∷ s) p = starts_with (c ∷ s) p || contains s p

-- `char::is_whitespace`: the code points with the property White_Space.
unfoldable pub is_whitespace : ℕ → Bool
is_whitespace c =
    leb 9 c && leb c 13
    || c == 32
    || c == 0x85
    || c == 0xa0
    || c == 0x1680
    || leb 0x2000 c && leb c 0x200a
    || c == 0x2028
    || c == 0x2029
    || c == 0x202f
    || c == 0x205f
    || c == 0x3000

word_at : Text → Text
word_at [] = []
word_at (c ∷ s) = if is_whitespace c then [] else c ∷ word_at s

-- `split_whitespace().next().unwrap_or("")`
unfoldable pub first_word : Text → Text
unfolding is_whitespace word_at
first_word [] = []
first_word (c ∷ s) = if is_whitespace c then first_word s else c ∷ word_at s

unfoldable pub len_utf8 : ℕ → ℕ
len_utf8 c = if ltb c 0x80 then 1 else if ltb c 0x800 then 2 else if ltb c 0x10000 then 3 else 4

-- `str::len`
unfoldable pub byte_len : Text → ℕ
unfolding len_utf8
byte_len [] = 0
byte_len (c ∷ s) = len_utf8 c + byte_len s

-- `&s[..n]`, where `none` is the panic: byte `n` is no boundary of a character, or past the end.
unfoldable pub slice_to : Text → ℕ → Option Text
unfolding len_utf8
slice_to [] n = if n == 0 then some [] else none
slice_to (c ∷ s) n =
    if n == 0
    then some []
    else if leb (len_utf8 c) n
    then Option.map (λ t. c ∷ t) (slice_to s (n - len_utf8 c))
    else none

-- `join(" ")`
unfoldable pub join_blank : List Text → Text
join_blank [] = []
join_blank (t ∷ []) = t
join_blank (t ∷ u ∷ ts) = t ++ codes " " ++ join_blank (u ∷ ts)
