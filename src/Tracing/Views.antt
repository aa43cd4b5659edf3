-- ===== src/Tracing/Views.antt =====
-- From a command that traces to the commands that show the trace.
use tiny_binary_debugger.Base.{
  ℕ, ◌<◌, ◌^◌, ◌≡◌, ◌⊎◌, inl, inr, Bool, some, List, done, Result, ok, err,
}
use tiny_binary_debugger.Base.Int.{ℤ}
use tiny_binary_debugger.Launcher
use tiny_binary_debugger.Launcher.{
  Processes, ProcessLauncher, Ended, returns, exits, replaced, launch,
}
use tiny_binary_debugger.Os.{Arch, Os}
use tiny_binary_debugger.Stats.{Orders}
use tiny_binary_debugger.Storage.File.{Files, IsFaithful}
use tiny_binary_debugger.Text.{Text}
use tiny_binary_debugger.TraceLoop.{SessionEnd, trace_loop}
use tiny_binary_debugger.Tracing.{
  attaching, launching, traces, launched, run_and_trace, attached, attach_and_trace,
}
use tiny_binary_debugger.Tui.{Host}
use tiny_binary_debugger.Viewing.Saved.{Shows, traced-Shows}

module _ (p : Processes) {arch : Arch} (os : Os arch) (enter : p.World → os.World) (f : Files)
    (exe : Text) where
  -- The loop has run on some process.
  abbrev Traced : ℕ → (ℕ → Bool) → f.Disk → Text → SessionEnd os f exe → Type 0
  Traced fuel running disk output z =
      (w : os.World) × (pid : ℤ) × (trace_loop os f exe fuel running w disk pid output
        ≡ some (done z))

  launched-Traced :
      (fuel : ℕ) (running : ℕ → Bool) (disk : f.Disk) (output : Text) (start lines : List Text)
      (x : p.World × Ended) (z : SessionEnd os f exe)
      → launched p os enter f exe fuel running disk output start x ≡ traces lines (some (done z))
      → Traced fuel running disk output z
  unfolding launched
  launched-Traced fuel running disk output start lines (w, returns (ok launcher)) z h =
      (enter w, launcher.pid, cc)
  launched-Traced fuel running disk output start lines (w, returns (err e)) z h = absurd (cc)
  launched-Traced fuel running disk output start lines (w, exits code) z h = absurd (cc)
  launched-Traced fuel running disk output start lines (w, replaced program c_args) z h =
      absurd (cc)

  attached-Traced :
      (fuel : ℕ) (running : ℕ → Bool) (disk : f.Disk) (pid : ℤ) (output : Text)
      (start lines : List Text) (x : p.World × Result ProcessLauncher) (z : SessionEnd os f exe)
      → attached p os enter f exe fuel running disk pid output start x
        ≡ traces lines (some (done z))
      → Traced fuel running disk output z
  unfolding attached
  attached-Traced fuel running disk pid output start lines (w, ok launcher) z h = (enter w, pid, cc)
  attached-Traced fuel running disk pid output start lines (w, err e) z h = absurd (cc)

  -- A program that was run and traced, or a process that was attached to, to the end of the loop and
  -- without a panic, has left a file that can be viewed: the statistics and the server
  -- show as many steps as the tracer counted, and the terminal viewer opens on all of them, or
  -- refuses the file as empty if there is none. The disk is to read back what was written, the
  -- decoding to invert the encoding, and the rounds are to be fewer than 2 ^ 64.
  pub traced-views :
      (orders : Orders) (host : Host)
      → IsFaithful f
      → (fuel : ℕ) (running : ℕ → Bool) (w : p.World) (disk : f.Disk) (program : Text)
        (args : List Text) (pid : ℤ) (output : Text) (lines : List Text) (z : SessionEnd os f exe)
      → fuel < 2 ^ 64
      → (run_and_trace p os enter f exe fuel running w disk program args output
          ≡ traces lines (some (done z)))
        ⊎ (attach_and_trace p os enter f exe fuel running w disk pid output
            ≡ traces lines (some (done z)))
      → Shows f orders host z.disk output z.loop.tracer.step_count
  unfolding run_and_trace attach_and_trace
  traced-views orders host faithful fuel running w disk program args pid output lines z small h =
      let found : Traced fuel running disk output z = elim h [
        | inl ran ↦
            launched-Traced fuel running disk output (launching program args) lines
              (launch p w program args) z ran
        | inr entered ↦
            attached-Traced fuel running disk pid output (attaching pid) lines
              (Launcher.attach p w pid) z entered
      ] in
      traced-Shows f orders host os exe faithful fuel running found.0 disk found.1 output z small
        found.2
