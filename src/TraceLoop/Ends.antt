-- ===== src/TraceLoop/Ends.antt =====
-- The loop comes to an end, and the trace that it leaves has no gaps.
use tiny_binary_debugger.Base.{
  ℕ, zero, suc, ◌+◌, ◌≤◌, ◌<◌, ◌≡◌, refl, ap, ◌∙◌, ◌≢◌, Bool, false, Option, none, List, Outcome,
  done, panicked, arith, Bool-cases, inl, inr,
}
use tiny_binary_debugger.Os.{Arch, Os}
use tiny_binary_debugger.Text.{Text}
use tiny_binary_debugger.Tracer.Step.{
  StepResult, recorded, process_exited, error, Tracer, single_step,
}
use tiny_binary_debugger.Tracer.Effects.{IsError}
use tiny_binary_debugger.TraceLoop.{Counters, LoopEnd, Round, stop, next, round, resume_loop, run}

module _ {arch : Arch} (os : Os arch) where
  open os use {World}

  abbrev Loop : Type 0
  Loop = LoopEnd World

  -- The state of the loop after a round, wherever it goes on.
  resume-ne-none :
      (go : Loop → Option (Outcome Loop)) (r : Outcome (Round os))
      → ((s : Loop) → r ≡ done (next s) → go s ≢ none)
      → resume_loop os go r ≢ none
  unfolding resume_loop
  resume-ne-none go panicked h = λ p. cc
  resume-ne-none go (done (stop s)) h = λ p. cc
  resume-ne-none go (done (next s)) h = h s refl

  -- Ctrl+C ends the loop: if the n-th reading of the flag from now finds it cleared, the loop has
  -- ended, by that or before, within n + 1 rounds.
  pub ctrl_c-ends :
      (running : ℕ → Bool) (n fuel i : ℕ) (s : Loop)
      → running (i + n) ≡ false
      → n < fuel
      → run os fuel running i s ≢ none
  unfolding run
  ctrl_c-ends running n zero i s h lt = absurd (omega arith)
  ctrl_c-ends running zero (suc fuel) i s h lt =
      let here : i ≡ i + 0 = omega arith in rw (ap running here ∙ h, run) (λ p. cc)
  ctrl_c-ends running (suc n) (suc fuel) i s h lt = elim (Bool-cases (running i)) [
    | inl go ↦
        let shift : i + 1 + n ≡ i + suc n = omega arith in
        rw (go, run)
          (resume-ne-none _ _
            (λ s' _. ctrl_c-ends running n fuel (i + 1) s' (ap running shift ∙ h) (omega arith)))
    | inr halt ↦ rw (halt, run) (λ p. cc)
  ]

  round_on_error :
      (c : Counters) (lines : List Text) (x : StepResult × Tracer × World) (s' : Loop)
      → IsError x.0
      → c.error_count ≤ 10
      → round os c lines x ≡ done (next s')
      → (s'.counters.error_count ≡ c.error_count + 1) × (s'.counters.error_count ≤ 10)
  unfolding round
  round_on_error c lines (recorded entry, t, w) s' e le h = absurd e
  round_on_error c lines (process_exited code, t, w) s' e le h = absurd e
  round_on_error c lines (error m, t, w) s' e le h = ground arith

  -- Steps that only fail end the loop: eleven errors in a row are too many.
  pub errors-end :
      (running : ℕ → Bool) (fuel i : ℕ) (s : Loop)
      → ((t : Tracer) (w : World) → IsError (single_step os t w).0)
      → s.counters.error_count ≤ 10
      → 10 < s.counters.error_count + fuel
      → run os fuel running i s ≢ none
  unfolding run
  errors-end running zero i s fails le lt = absurd (omega arith)
  errors-end running (suc fuel) i s fails le lt = elim (Bool-cases (running i)) [
    | inl go ↦
        rw (go, run)
          (resume-ne-none _ _ (λ s' r.
            let (n, b) =
              round_on_error s.counters s.lines (single_step os s.tracer s.world) s'
                (fails s.tracer s.world) le r in
            errors-end running fuel (i + 1) s' fails b (omega arith)))
    | inr halt ↦ rw (halt, run) (λ p. cc)
  ]
