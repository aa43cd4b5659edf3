-- ===== src/Tracer/Noted.antt =====
-- The memory changes that a step notes.
use tiny_binary_debugger.Base.{
  ℕ, ◌≡◌, refl, inl, inr, not, ◌||◌, ◌==◌, List, Result, ok, err, Bool-cases,
}
use tiny_binary_debugger.Mach.{read_memory}
use tiny_binary_debugger.Os.{Arch, Os}
use tiny_binary_debugger.Text.{Text}
use tiny_binary_debugger.Tracer.Effects.{Noted}
use tiny_binary_debugger.Tracer.Memory.{is_store_mnemonic, window_base, note_changes}
use tiny_binary_debugger.Tracer.Step.{Tracer, detect_changes}

module _ {arch : Arch} (os : Os arch) where
  open os use {World}

  note_changes-Noted :
      (t : Tracer) (w : World) (sp : ℕ) (r : Result (List ℕ))
      → read_memory os w t.task (window_base sp) 256 ≡ r
      → Noted os t w sp
          (note_changes t.memory_cache (window_base sp) r).0
          (note_changes t.memory_cache (window_base sp) r).1
  unfolding note_changes
  note_changes-Noted t w sp (err m) e = inl (refl, refl)
  note_changes-Noted t w sp (ok new) e = inr (new, e, refl, refl)

  pub detect_changes-Noted :
      (t : Tracer) (mnemonic : Text) (sp : ℕ) (w : World)
      → Noted os t w sp (detect_changes os t mnemonic sp w).0 (detect_changes os t mnemonic sp w).1
  unfolding detect_changes
  detect_changes-Noted t mnemonic sp w =
      elim (Bool-cases (not (sp == t.last_sp) || is_store_mnemonic mnemonic)) [
        | inl looked ↦ rw looked (note_changes-Noted t w sp _ refl)
        | inr passed ↦ rw passed (inl (refl, refl))
      ]
