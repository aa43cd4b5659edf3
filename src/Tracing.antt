-- ===== src/Tracing.antt =====
-- `run_and_trace` and `attach_and_trace` of src/main.rs: the launcher, and then the loop. The
-- system calls of the launcher and those of the tracer act on one system, of which they are two
-- views: `enter` gives the tracer's view of it.
pub mod Views
use tiny_binary_debugger.Base.{
  ℕ, Bool, Option, some, List, [], ◌∷◌, ◌++◌, Result, ok, err, Outcome, panicked,
}
use tiny_binary_debugger.Base.Int.{ℤ}
use tiny_binary_debugger.Launcher
use tiny_binary_debugger.Launcher.{
  Processes, ProcessLauncher, Ended, returns, exits, replaced, launch,
}
use tiny_binary_debugger.Os.{Arch, Os, display_i32}
use tiny_binary_debugger.Storage.File.{Files}
use tiny_binary_debugger.Text.{join_blank, Text, codes}
use tiny_binary_debugger.TraceLoop.{SessionEnd, trace_loop}

-- The lines before the launcher starts.
unfoldable pub launching : Text → List Text → List Text
unfolding join_blank
launching program args = (codes "Launching: " ++ program ++ codes " " ++ join_blank args) ∷ []

unfoldable pub attaching : ℤ → List Text
unfolding display_i32
attaching pid = (codes "Attaching to PID: " ++ display_i32 pid ++ codes "...") ∷ []

module _ (p : Processes) {arch : Arch} (os : Os arch) (enter : p.World → os.World) (f : Files)
    (exe : Text) where
  -- How a command ends: in the forked child, or, after the lines that it prints before the loop, as
  -- the loop does.
  pub data Run : Type 0 where
    in_child : Ended → Run
    traces : List Text → Option (Outcome (SessionEnd os f exe)) → Run

  unfoldable pub launched : ℕ → (ℕ → Bool) → f.Disk → Text → List Text → p.World × Ended → Run
  unfolding trace_loop display_i32
  launched fuel running disk output lines (w, returns (ok launcher)) =
      traces
        (lines
          ++ (codes "Process started with PID: "
              ++ display_i32 launcher.pid
              ++ codes " (stopped at entry)")
            ∷ [])
        (trace_loop os f exe fuel running (enter w) disk launcher.pid output)
  launched fuel running disk output lines (w, returns (err e)) = traces lines (some panicked)
  launched fuel running disk output lines (w, exits code) = in_child (exits code)
  launched fuel running disk output lines (w, replaced program c_args) =
      in_child (replaced program c_args)

  unfoldable pub run_and_trace : ℕ → (ℕ → Bool) → p.World → f.Disk → Text → List Text → Text → Run
  unfolding launched launch launching
  run_and_trace fuel running w disk program args output =
      launched fuel running disk output (launching program args) (launch p w program args)

  unfoldable pub attached :
      ℕ → (ℕ → Bool) → f.Disk → ℤ → Text → List Text → p.World × Result ProcessLauncher → Run
  unfolding trace_loop
  attached fuel running disk pid output lines (w, ok launcher) =
      traces (lines ++ codes "Attached and stopped." ∷ [])
        (trace_loop os f exe fuel running (enter w) disk pid output)
  attached fuel running disk pid output lines (w, err e) = traces lines (some panicked)

  unfoldable pub attach_and_trace : ℕ → (ℕ → Bool) → p.World → f.Disk → ℤ → Text → Run
  unfolding attached Launcher.attach attaching
  attach_and_trace fuel running w disk pid output =
      attached fuel running disk pid output (attaching pid) (Launcher.attach p w pid)
