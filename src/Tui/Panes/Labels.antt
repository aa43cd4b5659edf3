-- ===== src/Tui/Panes/Labels.antt =====
-- The label of the detail pane against the branches that the statistics count.
use tiny_binary_debugger.Base.{◌≡◌, refl, ◌⊎◌, inl, inr, true, List, [], ◌∷◌, arith, Bool-cases}
use tiny_binary_debugger.Stats.{is_branch_mnemonic}
use tiny_binary_debugger.Text.{Text, codes, text_eq, starts_with, one_of}
use tiny_binary_debugger.Text.Laws.{one_of-elim, text_eq→eq}
use tiny_binary_debugger.Tui.Panes.Detail.{mnemonic_type}

-- The branches on a comparison or a bit.
abbrev compare_branches : List Text
compare_branches = codes "cbz" ∷ codes "cbnz" ∷ codes "tbz" ∷ codes "tbnz" ∷ []

starts_with_b : (m : Text) → starts_with m (codes "b.") ≡ true → starts_with m (codes "b") ≡ true
unfolding starts_with
starts_with_b [] h = h
starts_with_b (c ∷ m) h = ground arith

labelled :
    (m : Text)
    → (starts_with m (codes "b") ≡ true) ⊎ (starts_with m (codes "j") ≡ true)
    → (mnemonic_type m).0 ≡ codes "BRANCH"
unfolding mnemonic_type
labelled m (inl b) = rw b refl
labelled m (inr j) = elim (Bool-cases (starts_with m (codes "b"))) [
  | inl b ↦ rw b refl
  | inr other ↦ rw (other, j) refl
]

unlabelled : (m : Text) → one_of m compare_branches ≡ true → (mnemonic_type m).0 ≡ []
unfolding mnemonic_type
unlabelled m h =
    one_of-elim (λ t. (mnemonic_type t).0 ≡ []) m compare_branches
      (refl, (refl, (refl, (refl, tt)))) h

-- Of the mnemonics that the statistics count as jumps, the detail pane labels all as branches but
-- `cbz`, `cbnz`, `tbz` and `tbnz`, which it leaves without a label.
branch_labels :
    (m : Text)
    → is_branch_mnemonic m ≡ true
    → ((mnemonic_type m).0 ≡ codes "BRANCH")
      ⊎ ((one_of m compare_branches ≡ true) × ((mnemonic_type m).0 ≡ []))
unfolding is_branch_mnemonic
branch_labels m h = elim (Bool-cases (starts_with m (codes "j"))) [
  | inl j ↦ inl (labelled m (inr j))
  | inr no_j ↦ elim (Bool-cases (text_eq m (codes "b"))) [
    | inl b ↦ inl (labelled m (inl (rw (text_eq→eq m _ b) (unfold starts_with in refl))))
    | inr no_b ↦ elim (Bool-cases (text_eq m (codes "br"))) [
      | inl br ↦ inl (labelled m (inl (rw (text_eq→eq m _ br) (unfold starts_with in refl))))
      | inr no_br ↦ elim (Bool-cases (starts_with m (codes "b."))) [
        | inl dotted ↦ inl (labelled m (inl (starts_with_b m dotted)))
        | inr no_dot ↦
            let rest = rw (no_j, no_b, no_br, no_dot, is_branch_mnemonic) at h in
            inr (rest, unlabelled m rest)
      ]
    ]
  ]
]
