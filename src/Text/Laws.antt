-- ===== src/Text/Laws.antt =====
-- Laws of texts.
use tiny_binary_debugger.Base.{
  false, ◌==◌, ◌-◌, take, leb, suc, zero, inr, inl, Bool-cases, List, ℕ, ◌≤◌, ◌<◌, ◌≡◌, refl, true,
  some, [], ◌∷◌, ◌++◌, arith, length, All,
}
use tiny_binary_debugger.Text.{
  len_utf8, one_of, Text, text_eq, starts_with, contains, byte_len, slice_to,
}

pub text_eq_refl : (s : Text) → text_eq s s ≡ true
unfolding text_eq
text_eq_refl [] = refl
text_eq_refl (c ∷ s) = ground (arith, text_eq_refl s)

pub text_eq→eq : (s t : Text) → text_eq s t ≡ true → s ≡ t
unfolding text_eq
text_eq→eq [] [] h = refl
text_eq→eq [] (d ∷ t) h = cc
text_eq→eq (c ∷ s) [] h = cc
text_eq→eq (c ∷ s) (d ∷ t) h = ground (arith, text_eq→eq s t)

-- What holds of every text in the list holds of one that `one_of` finds there.
pub one_of-elim :
    (P : Text → Type 0) (m : Text) (ts : List Text) → All P ts → one_of m ts ≡ true → P m
unfolding one_of
one_of-elim P m [] a h = cc
one_of-elim P m (t ∷ ts) a h = elim (Bool-cases (text_eq m t)) [
  | inl e ↦ rw (text_eq→eq m t e) a.0
  | inr e ↦ one_of-elim P m ts a.1 (rw e at h)
]

-- A text begins with `p` exactly when it is `p` and a rest.
pub starts_with-append : (p s : Text) → starts_with (p ++ s) p ≡ true
unfolding starts_with
starts_with-append [] s = refl
starts_with-append (c ∷ p) s = ground (arith, starts_with-append p s)

contains_of_starts_with : (s p : Text) → starts_with s p ≡ true → contains s p ≡ true
unfolding contains
contains_of_starts_with [] p h = h
contains_of_starts_with (c ∷ s) p h = ground arith

pub contains_middle : (a p b : Text) → contains (a ++ (p ++ b)) p ≡ true
unfolding contains
contains_middle [] p b = contains_of_starts_with (p ++ b) p (starts_with-append p b)
contains_middle (c ∷ a) p b = ground (arith, contains_middle a p b)

-- ASCII: one byte to a character.
abbrev pub IsAscii : Text → Type 0
IsAscii = All (λ c. c < 0x80)

pub byte_len_ascii : (s : Text) → IsAscii s → byte_len s ≡ length s
unfolding byte_len
byte_len_ascii [] h = refl
byte_len_ascii (c ∷ s) h = ground (arith, byte_len_ascii s h.1)

-- A slice of an ASCII text within its length is its first characters.
pub slice_to-take : (s : Text) (n : ℕ) → IsAscii s → n ≤ length s → slice_to s n ≡ some (take n s)
unfolding slice_to
slice_to-take [] zero a h = refl
slice_to-take [] (suc n) a h = elim h [ ]
slice_to-take (c ∷ s) zero a h = refl
slice_to-take (c ∷ s) (suc n) a h =
    let ih = slice_to-take s n a.1 (omega arith) in
    let small : leb (len_utf8 c) (suc n) ≡ true = ground arith in
    let less : suc n - len_utf8 c ≡ n = ground arith in
    let more : (suc n == 0) ≡ false = ground arith in rw (more, small, less, ih) refl
