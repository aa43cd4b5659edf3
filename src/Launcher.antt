-- ===== src/Launcher.antt =====
-- src/launcher/mod.rs: starting a program under ptrace, and attaching to one that runs. The system
-- calls are not this program's: they are the record `Processes`.
pub mod Started
use tiny_binary_debugger.Base.{
  ℕ, suc, Bool, Option, none, some, List, [], ◌∷◌, ◌++◌, ◌==◌, if◌then◌else◌, Result, ok, err,
  map_err,
}
use tiny_binary_debugger.Base.Int.{ℤ, pos}
use tiny_binary_debugger.Os.{WaitStatus, stopped, exited, signaled, other, display_i32, is_success}
use tiny_binary_debugger.Text.{Text, codes}

-- `nix::unistd::ForkResult`: which of the two processes goes on.
pub data ForkResult : Type 0 where
  child : ForkResult
  parent : ℤ → ForkResult

pub record Processes : Type 1 where
  pub World : Type 0
  pub fork : World → World × Result ForkResult
  pub traceme : World → World × Result (Unit {0})
  -- the error on which `execvp` comes back; `none` where the program has replaced this process
  pub execvp : World → Text → List Text → World × Option Text
  pub ptrace_attach : World → ℤ → World × Result (Unit {0})
  pub waitpid : World → ℤ → World × Result WaitStatus
  -- the return code of `kill(pid, 0)`
  pub kill_0 : World → ℤ → ℤ
  pub debug_status : WaitStatus → Text
  -- the text of a `NulError`, for the bytes given to `CString::new`
  pub nul_error : Text → Text

pub record ProcessLauncher : Type 0 where
  pub pid : ℤ

-- How `launch` ends for the process that it ends in.
pub data Ended : Type 0 where
  returns : Result ProcessLauncher → Ended
  exits : ℕ → Ended
  replaced : Text → List Text → Ended

-- A byte 0 in a text.
unfoldable pub has_nul : Text → Bool
has_nul [] = Bool.false
has_nul (c ∷ s) = if c == 0 then Bool.true else has_nul s

module _ (p : Processes) where
  open p use {World, fork, traceme, execvp, ptrace_attach, waitpid, kill_0, debug_status, nul_error}

  -- `CString::new`, which refuses a text with a NUL in it.
  unfoldable pub c_string : Text → Result Text
  unfolding has_nul
  c_string s = if has_nul s then err (nul_error s) else ok s

  cons_arg : Text → Result (List Text) → Result (List Text)
  cons_arg s (err e) = err e
  cons_arg s (ok rest) = ok (s ∷ rest)

  arg_then : Result Text → Result (List Text) → Result (List Text)
  unfolding cons_arg
  arg_then (err e) rest = err (codes "Invalid argument: " ++ e)
  arg_then (ok s) rest = cons_arg s rest

  unfoldable pub c_strings : List Text → Result (List Text)
  unfolding c_string arg_then
  c_strings [] = ok []
  c_strings (a ∷ args) = arg_then (c_string a) (c_strings args)

  unfoldable pub after_exec : Text → List Text → World × Option Text → World × Ended
  after_exec program c_args (w, none) = (w, replaced program c_args)
  after_exec program c_args (w, some e) = (w, exits 127)

  -- The child: it never returns. What it writes to the error stream is left out.
  unfoldable pub run_child : Text → List Text → World × Result (Unit {0}) → World × Ended
  unfolding after_exec
  run_child program c_args (w, err e) = (w, exits 127)
  run_child program c_args (w, ok _) = after_exec program c_args (execvp w program c_args)

  -- The parent: the child is to stop at its `exec`.
  unfoldable pub wait_child : ℤ → World × Result WaitStatus → World × Ended
  wait_child pid (w, ok (stopped sig)) = (w, returns (ok (record { pid = pid })))
  wait_child pid (w, ok (exited code)) =
      (w, returns (err (codes "Child exited immediately with code " ++ display_i32 code)))
  wait_child pid (w, ok (signaled sig)) = (
    w,
    returns (err (codes "Unexpected wait status after fork: " ++ debug_status (signaled sig))),
  )
  wait_child pid (w, ok (other name)) =
      (w, returns (err (codes "Unexpected wait status after fork: " ++ debug_status (other name))))
  wait_child pid (w, err e) = (w, returns (err (codes "waitpid failed: " ++ e)))

  unfoldable pub after_fork : Text → List Text → World × Result ForkResult → World × Ended
  unfolding run_child wait_child
  after_fork program c_args (w, ok child) = run_child program c_args (traceme w)
  after_fork program c_args (w, ok (parent pid)) = wait_child pid (waitpid w pid)
  after_fork program c_args (w, err e) = (w, returns (err (codes "fork failed: " ++ e)))

  unfoldable pub fork_with : World → Text → Result (List Text) → World × Ended
  unfolding after_fork
  fork_with w program (err e) = (w, returns (err e))
  fork_with w program (ok c_args) = after_fork program (program ∷ c_args) (fork w)

  unfoldable pub launch_as : World → Result Text → List Text → World × Ended
  unfolding fork_with c_strings
  launch_as w (err e) args = (w, returns (err (codes "Invalid program name: " ++ e)))
  launch_as w (ok program) args = fork_with w program (c_strings args)

  unfoldable pub launch : World → Text → List Text → World × Ended
  unfolding launch_as c_string
  launch w program args = launch_as w (c_string program) args

  unfoldable pub wait_attached : ℤ → World × Result WaitStatus → World × Result ProcessLauncher
  wait_attached pid (w, ok (stopped sig)) = (w, ok (record { pid = pid }))
  wait_attached pid (w, ok (exited code)) =
      (w, err (codes "Unexpected wait status after attach: " ++ debug_status (exited code)))
  wait_attached pid (w, ok (signaled sig)) =
      (w, err (codes "Unexpected wait status after attach: " ++ debug_status (signaled sig)))
  wait_attached pid (w, ok (other name)) =
      (w, err (codes "Unexpected wait status after attach: " ++ debug_status (other name)))
  wait_attached pid (w, err e) = (w, err (codes "waitpid failed: " ++ e))

  unfoldable pub attach_with : ℤ → World × Result (Unit {0}) → World × Result ProcessLauncher
  unfolding wait_attached
  attach_with pid (w, err e) =
      (w, err (codes "ptrace(PT_ATTACH) failed: " ++ e ++ codes " (need sudo?)"))
  attach_with pid (w, ok _) = wait_attached pid (waitpid w pid)

  unfoldable pub attach : World → ℤ → World × Result ProcessLauncher
  unfolding attach_with
  attach w pid = attach_with pid (ptrace_attach w pid)

  unfoldable pub is_running : ProcessLauncher → World → Bool
  unfolding is_success
  is_running l w = is_success (kill_0 w l.pid)
