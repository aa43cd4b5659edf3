-- ===== src/Eq.antt =====
-- Boolean equality of keys, as Rust's `Eq`.
use tiny_binary_debugger.Base.{ℕ, ◌≡◌, ◌↔◌, Bool, true, ◌==◌ as nat_beq, ==_iff}
use tiny_binary_debugger.Text.{Text, text_eq}
use tiny_binary_debugger.Text.Laws.{text_eq_refl, text_eq→eq}

pub record Eq {ℓ} (A : Type ℓ) : Type ℓ where
  pub beq : A → A → Bool
  pub beq_iff : (a b : A) → (beq a b ≡ true) ↔ (a ≡ b)

pub text_eq_iff : (s t : Text) → (text_eq s t ≡ true) ↔ (s ≡ t)
text_eq_iff s t = (text_eq→eq s t, λ p. rw p (text_eq_refl t))

instance abbrev pub eq_ℕ : Eq ℕ
eq_ℕ = record { beq = nat_beq; beq_iff = ==_iff }

instance abbrev pub eq_Text : Eq Text
eq_Text = record { beq = text_eq; beq_iff = text_eq_iff }
