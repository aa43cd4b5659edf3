-- ===== src/TraceLoop/Progress.antt =====
-- The text of a progress line.
use tiny_binary_debugger.Base.{
  ◌≤◌, ◌≡◌, refl, ◌++◌, length, length-append, length-take, take, ltb, if◌then◌else◌, done, arith,
  Bool-cases, inl, inr,
}
use tiny_binary_debugger.Text.{Text, codes}
use tiny_binary_debugger.Text.Laws.{IsAscii, byte_len_ascii, slice_to-take}
use tiny_binary_debugger.TraceLoop.{shortened}

-- What a progress line shows of a text.
abbrev pub shown : Text → Text
shown text = if ltb 50 (length text) then take 47 text ++ codes "..." else text

shown_fits : (text : Text) → length (shown text) ≤ 50
shown_fits text = elim (Bool-cases (ltb 50 (length text))) [
  | inl long ↦
      rw long (omega (arith, length-append (take 47 text) (codes "..."), length-take 47 text))
  | inr short ↦ rw short (ground arith)
]

-- An instruction of ASCII characters is never cut inside a character, so the progress line does not
-- panic: it shows a text of up to 50 characters whole, and of a longer one the first 47 and an
-- ellipsis, never more than 50.
pub shortened_lem :
    (text : Text) → IsAscii text → (shortened text ≡ done (shown text)) × (length (shown text) ≤ 50)
unfolding shortened
shortened_lem text ascii = (by_length, shown_fits text)
  where
    by_length : shortened text ≡ done (shown text)
    by_length = elim (Bool-cases (ltb 50 (length text))) [
      | inl long ↦
          let cut = slice_to-take text 47 ascii (ground arith) in
          rw (byte_len_ascii text ascii, long, cut) refl
      | inr short ↦ rw (byte_len_ascii text ascii, short) refl
    ]
