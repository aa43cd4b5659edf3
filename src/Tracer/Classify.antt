-- ===== src/Tracer/Classify.antt =====
-- The annotations that the tracer writes are read back by the statistics and the viewers, which
-- look for "CALL" and "RETURN" in the text.
use mathlib.Core.List.{append_assoc}
use tiny_binary_debugger.Base.{
  ℕ, zero, suc, ◌/◌, ◌≤◌, ◌<◌, ◌≡◌, refl, sym, ◌∙◌, ◌≢◌, ◌⊎◌, true, false, [], ◌∷◌, ◌++◌, ltb,
  arith, All, Bool-cases, inl, inr,
}
use tiny_binary_debugger.Os.{Arch}
use tiny_binary_debugger.Text.{Text, codes, contains}
use tiny_binary_debugger.Text.Laws.{contains_middle}
use tiny_binary_debugger.Text.Number.{decimal, digits_of, digit_lower}
use tiny_binary_debugger.Tracer.Annotation.{
  is_call, is_return, insn_text, call_annotation, return_annotation, annotation, full_text,
  next_depth,
}
use tiny_binary_debugger.Tracer.Depth.{is_return-not-is_call}

-- A character that a text does not have.
abbrev pub Lacks : ℕ → Text → Type 0
Lacks d = All (λ c. c ≢ d)

Lacks-append : (d : ℕ) (s t : Text) → Lacks d s → Lacks d t → Lacks d (s ++ t)
Lacks-append d [] t hs ht = ht
Lacks-append d (c ∷ s) t hs ht = (hs.0, Lacks-append d s t hs.1 ht)

-- A pattern whose first character is not in the text does not occur in it.
not-contains_of_Lacks : (d : ℕ) (p s : Text) → Lacks d s → contains s (d ∷ p) ≡ false
unfolding contains
not-contains_of_Lacks d p [] h = refl
not-contains_of_Lacks d p (c ∷ s) h = ground (arith, not-contains_of_Lacks d p s h.1, h.0)

-- Decimal digits have none of the letters.
digits_of-Lacks :
    (d b fuel n : ℕ) → 0 < b → b ≤ 10 → b'9' < d → Lacks d (digits_of digit_lower b fuel n)
unfolding digits_of digit_lower
digits_of-Lacks d b zero n pos small h = tt
digits_of-Lacks d b (suc fuel) n pos small h =
    let ih = digits_of-Lacks d b fuel (n / b) pos small h in
    elim (Bool-cases (ltb n b)) [
      | inl e ↦ rw e (ground arith, tt)
      | inr e ↦ rw e (Lacks-append d _ _ ih (ground arith, tt))
    ]

decimal-Lacks : (d n : ℕ) → b'9' < d → Lacks d (decimal n)
unfolding decimal
decimal-Lacks d n h = digits_of-Lacks d 10 (suc n) n (omega arith) (omega arith) h

-- The names that Capstone gives have no capital C and no capital R.
abbrev pub IsPlain : Text → Type 0
IsPlain s = Lacks b'C' s × Lacks b'R' s

insn_text-Lacks :
    (d : ℕ) (m ops : Text) → d ≢ b' ' → Lacks d m → Lacks d ops → Lacks d (insn_text m ops)
unfolding insn_text
insn_text-Lacks d m [] h hm ho = hm
insn_text-Lacks d m (c ∷ ops) h hm ho =
    Lacks-append d (m ++ codes " ") (c ∷ ops)
      (Lacks-append d m (codes " ") hm ((λ p. h (sym p)), tt)) ho

call-Lacks : (n : ℕ) → Lacks b'R' (codes " ; " ++ call_annotation n)
unfolding call_annotation
call-Lacks n =
    Lacks-append b'R' (codes " ; CALL [depth:") _ (omega arith)
      (Lacks-append b'R' (decimal n) (codes "]") (decimal-Lacks b'R' n (omega arith)) (omega arith))

return-Lacks : (n : ℕ) → Lacks b'C' (codes " ; " ++ return_annotation n)
unfolding return_annotation
return-Lacks n =
    Lacks-append b'C' (codes " ; RETURN [depth:") _ (omega arith)
      (Lacks-append b'C' (decimal n) (codes "]") (decimal-Lacks b'C' n (omega arith)) (omega arith))

call_shown : (s : Text) (n : ℕ) → contains (full_text s (call_annotation n)) (codes "CALL") ≡ true
unfolding full_text call_annotation
call_shown s n =
    rw (← append_assoc s (codes " ; ") (codes "CALL [depth:" ++ (decimal n ++ codes "]"))) (
      contains_middle (s ++ codes " ; ") (codes "CALL")
        (codes " [depth:" ++ (decimal n ++ codes "]")))

return_shown :
    (s : Text) (n : ℕ) → contains (full_text s (return_annotation n)) (codes "RETURN") ≡ true
unfolding full_text return_annotation
return_shown s n =
    rw (← append_assoc s (codes " ; ") (codes "RETURN [depth:" ++ (decimal n ++ codes "]"))) (
      contains_middle (s ++ codes " ; ") (codes "RETURN")
        (codes " [depth:" ++ (decimal n ++ codes "]")))

call_hides :
    (s : Text) (n : ℕ)
    → Lacks b'R' s
    → contains (full_text s (call_annotation n)) (codes "RETURN") ≡ false
unfolding full_text
call_hides s n h =
    unfold call_annotation in
    not-contains_of_Lacks b'R' (codes "ETURN") _ (Lacks-append b'R' s _ h (call-Lacks n))

return_hides :
    (s : Text) (n : ℕ)
    → Lacks b'C' s
    → contains (full_text s (return_annotation n)) (codes "CALL") ≡ false
unfolding full_text
return_hides s n h =
    unfold return_annotation in
    not-contains_of_Lacks b'C' (codes "ALL") _ (Lacks-append b'C' s _ h (return-Lacks n))

plain_hides : (d : ℕ) (p s : Text) → Lacks d s → contains (full_text s []) (d ∷ p) ≡ false
unfolding full_text
plain_hides d p s h = not-contains_of_Lacks d p s h

-- "CALL" stands in the recorded text exactly if the mnemonic is one of the architecture's calls,
-- and "RETURN" exactly if it is one of its returns, where mnemonic and operands have neither a
-- capital C nor a capital R.
pub annotation_read_back :
    (arch : Arch) (m ops : Text) (depth : ℕ)
    → IsPlain m
    → IsPlain ops
    → (contains (full_text (insn_text m ops) (annotation arch m depth)) (codes "CALL")
        ≡ is_call arch m)
      × (contains (full_text (insn_text m ops) (annotation arch m depth)) (codes "RETURN")
          ≡ is_return arch m)
unfolding annotation
annotation_read_back arch m ops depth pm po =
    let text = insn_text m ops in
    let no_c = insn_text-Lacks b'C' m ops (omega arith) pm.0 po.0 in
    let no_r = insn_text-Lacks b'R' m ops (omega arith) pm.1 po.1 in
    let n = next_depth arch m depth in
    elim (Bool-cases (is_call arch m)) [
      | inl c ↦ rw c (
        call_shown text n,
        call_hides text n no_r ∙ sym (not_return c (Bool-cases (is_return arch m))),
      )
      | inr c ↦ elim (Bool-cases (is_return arch m)) [
        | inl r ↦ rw (c, r) (return_hides text n no_c, return_shown text n)
        | inr r ↦
            rw (c, r)
              (plain_hides b'C' (codes "ALL") text no_c, plain_hides b'R' (codes "ETURN") text no_r)
      ]
    ]
  where
    not_return :
        is_call arch m ≡ true
        → (is_return arch m ≡ true) ⊎ (is_return arch m ≡ false)
        → is_return arch m ≡ false
    not_return c (inl r) = cc (c, is_return-not-is_call arch m r)
    not_return c (inr r) = r
