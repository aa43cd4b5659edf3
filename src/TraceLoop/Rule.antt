-- ===== src/TraceLoop/Rule.antt =====
-- The rule for the loop: what holds where it ends.
use mathlib.Core.Path.{subst}
use tiny_binary_debugger.Base.{
  ℕ, zero, suc, ◌+◌, ◌≡◌, refl, Bool, Option, some, List, [], ◌∷◌, ◌++◌, Outcome, done, panicked,
  arith, Bool-cases, inl, inr,
}
use tiny_binary_debugger.Os.{Arch, Os}
use tiny_binary_debugger.Text.{Text, codes}
use tiny_binary_debugger.Tracer.Step.{single_step}
use tiny_binary_debugger.TraceLoop.{LoopEnd, Round, stop, next, round, resume_loop, run}

-- `P` is kept from round to round, with the number of rounds left, and `Q` holds at the end.
module _ {arch : Arch} (os : Os arch) (P : ℕ → LoopEnd os.World → Type 0)
    (Q : LoopEnd os.World → Type 0) where
  pub record IsKept : Type 0 where
    pub on_next :
        (n : ℕ) (s s' : LoopEnd os.World)
        → P (suc n) s
        → round os s.counters s.lines (single_step os s.tracer s.world) ≡ done (next s')
        → P n s'
    pub on_stop :
        (n : ℕ) (s s' : LoopEnd os.World)
        → P (suc n) s
        → round os s.counters s.lines (single_step os s.tracer s.world) ≡ done (stop s')
        → Q s'
    pub on_halt :
        (n : ℕ) (s : LoopEnd os.World) (lines : List Text)
        → P (suc n) s
        → Q (record s { lines = lines })

  resume_loop_inv :
      IsKept
      → (n : ℕ) (s s' : LoopEnd os.World)
        (go : LoopEnd os.World → Option (Outcome (LoopEnd os.World))) (r : Outcome (Round os))
      → round os s.counters s.lines (single_step os s.tracer s.world) ≡ r
      → P (suc n) s
      → ((s₂ : LoopEnd os.World) → P n s₂ → go s₂ ≡ some (done s') → Q s')
      → resume_loop os go r ≡ some (done s')
      → Q s'
  unfolding resume_loop
  resume_loop_inv k n s s' go panicked e p again h = absurd (grind arith)
  resume_loop_inv k n s s' go (done (stop s₂)) e p again h =
      let same : s₂ ≡ s' = cc in subst Q same (k.on_stop n s s₂ p e)
  resume_loop_inv k n s s' go (done (next s₂)) e p again h = again s₂ (k.on_next n s s₂ p e) h

  pub run_inv :
      IsKept
      → (running : ℕ → Bool) (fuel i : ℕ) (s s' : LoopEnd os.World) → P fuel s
      → run os fuel running i s ≡ some (done s')
      → Q s'
  unfolding run
  run_inv k running zero i s s' p h = absurd (grind arith)
  run_inv k running (suc fuel) i s s' p h = elim (Bool-cases (running i)) [
    | inl go ↦
        resume_loop_inv k fuel s s' (run os fuel running (i + 1)) _ refl p
          (λ s₂ p₂ h₂. run_inv k running fuel (i + 1) s₂ s' p₂ h₂) (rw (go, run) at h)
    | inr halt ↦
        let h' = rw (halt, run) at h in
        let same : record s { lines = s.lines ++ codes "" ∷ codes "  Stopping trace..." ∷ [] }
            ≡ s' =
          cc in
        subst Q same (k.on_halt fuel s _ p)
  ]
