-- ===== src/Tui/Panes/Delta.antt =====
-- The distance of the stack pointer from its base in `render_detail` of src/tui.rs, in 64-bit words.
use tiny_binary_debugger.Base.{
  ℕ, ◌+◌, ◌-◌, ◌%◌, ◌^◌, ◌≤◌, ◌<◌, ◌≡◌, ◌⊎◌, inl, inr, ◌==◌, ltb, if◌then◌else◌, some, arith,
}
use tiny_binary_debugger.Base.Int.{ℤ, pos, negsuc, pos_part, neg_part}
use tiny_binary_debugger.Tui.Panes.Detail.{as_i64, sp_delta, delta_color}
use tiny_binary_debugger.Tui.Screen.{green, red, dark_gray}

-- Half of the address space or more lies between the two.
abbrev pub IsFar : ℕ → ℕ → Type 0
IsFar sp base = (base + 2 ^ 63 ≤ sp) ⊎ (sp + 2 ^ 63 < base)

-- The true distance, in the colour of its sign.
pub record IsDistance (sp base : ℕ) (d : ℤ) : Type 0 where
  pub distance : pos_part d + base ≡ sp + neg_part d
  pub color : delta_color d ≡ (if sp == base then dark_gray else if ltb base sp then green else red)

apart_cases : (sp base : ℕ) → IsFar sp base ⊎ ((sp < base + 2 ^ 63) × (base ≤ sp + 2 ^ 63))
apart_cases sp base = omega arith

true_distance :
    (sp base : ℕ)
    → sp < 2 ^ 64
    → base < 2 ^ 64
    → sp < base + 2 ^ 63
    → base ≤ sp + 2 ^ 63
    → pos_part (sp_delta sp (some base)) + base ≡ sp + neg_part (sp_delta sp (some base))
unfolding sp_delta as_i64
true_distance sp base s b above below = ground arith

color_of_distance :
    (sp base : ℕ) (d : ℤ)
    → pos_part d + base ≡ sp + neg_part d
    → delta_color d ≡ (if sp == base then dark_gray else if ltb base sp then green else red)
unfolding delta_color
color_of_distance sp base (pos ℕ.zero) h = ground arith
color_of_distance sp base (pos (ℕ.suc n)) h = ground arith
color_of_distance sp base (negsuc n) h = ground arith

-- Whatever the two words are, the difference that is shown is a signed 64-bit number, and added to
-- the base it gives the stack pointer back as a word. Unless half of the address space lies between
-- the two, it is their true distance: green above the base, red below it, dark gray at it.
pub sp_delta_bounds :
    (sp base : ℕ)
    → sp < 2 ^ 64
    → base < 2 ^ 64
    → (pos_part (sp_delta sp (some base)) < 2 ^ 63)
      × (neg_part (sp_delta sp (some base)) ≤ 2 ^ 63)
      × ((base + pos_part (sp_delta sp (some base)) + 2 ^ 64 - neg_part (sp_delta sp (some base)))
            % 2 ^ 64
          ≡ sp)
      × (IsFar sp base ⊎ IsDistance sp base (sp_delta sp (some base)))
sp_delta_bounds sp base s b = (
  unfold sp_delta as_i64 in ground arith,
  unfold sp_delta as_i64 in ground arith,
  unfold sp_delta as_i64 in ground arith,
  elim (apart_cases sp base) [
    | inl far ↦ inl far
    | inr (above, below) ↦
        let d = true_distance sp base s b above below in
        inr (record { distance = d; color = color_of_distance sp base _ d })
  ],
)
