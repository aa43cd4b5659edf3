-- ===== src/Cli.antt =====
-- The command line of src/main.rs: what `main` makes of its arguments.
pub mod Args
use tiny_binary_debugger.Base.{
  ℕ, ◌-◌, Bool, Option, none, some, List, [], ◌∷◌, ◌++◌, length, get_elem?, take, drop, ltb,
  if◌then◌else◌, Outcome, done, panicked,
}
use tiny_binary_debugger.Base.Int.{ℤ}
use tiny_binary_debugger.Text.{Text, codes, text_eq}
use tiny_binary_debugger.Text.Parse.{parse_i32, parse_u16}

-- The function that `main` calls, or the lines that it writes to the error stream before it exits
-- with the code 1.
pub data Command : Type 0 where
  run_and_trace : Text → List Text → Text → Command
  attach_and_trace : ℤ → Text → Command
  view_trace : Text → ℕ → Command
  tui : Text → Command
  show_stats : Text → Command
  refused : List Text → Command

unfoldable pub print_usage : Text → List Text
print_usage prog =
    codes "TDB - Timeless Debugger for macOS"
    ∷ codes ""
    ∷ (codes "Usage: " ++ prog ++ codes " <command> [args]")
    ∷ codes ""
    ∷ codes "Commands:"
    ∷ codes "  run <program> [args...] <output.tdb>  Run and trace a program"
    ∷ codes "  trace <pid> <output.tdb>              Attach to running process"
    ∷ codes "  view <trace.tdb> [port]               View trace in browser"
    ∷ codes "  tui <trace.tdb>                       View trace in terminal"
    ∷ codes "  stats <trace.tdb>                     Show trace statistics"
    ∷ []

-- `last().unwrap()` and `args[..len - 1]` of a list with at least one item.
unfoldable pub last_of : Text → List Text → Text
last_of a [] = a
last_of a (b ∷ rest) = last_of b rest

unfoldable pub all_but_last : Text → List Text → List Text
all_but_last a [] = []
all_but_last a (b ∷ rest) = a ∷ all_but_last b rest

-- The arms of `main`, on the arguments after the command.
unfoldable pub run_command : Text → List Text → Outcome Command
unfolding last_of all_but_last
run_command prog (program ∷ a ∷ rest) =
    done (run_and_trace program (all_but_last a rest) (last_of a rest))
run_command prog few = done (
    refused (
      (codes "Usage: " ++ prog ++ codes " run <program> [args...] <output.tdb>")
      ∷ (codes "Example: " ++ prog ++ codes " run python3 script.py trace.tdb")
      ∷ []))

with_pid : Option ℤ → Text → Outcome Command
with_pid none output = panicked
with_pid (some pid) output = done (attach_and_trace pid output)

unfoldable pub trace_command : Text → List Text → Outcome Command
unfolding with_pid
trace_command prog (pid ∷ output ∷ rest) = with_pid (parse_i32 pid) output
trace_command prog few =
    done (refused ((codes "Usage: " ++ prog ++ codes " trace <pid> <output.tdb>") ∷ []))

-- `parse().ok()` and `unwrap_or(8080)`
or_8080 : Option ℕ → ℕ
or_8080 none = 8080
or_8080 (some port) = port

unfoldable pub port_of : List Text → ℕ
unfolding or_8080
port_of [] = 8080
port_of (s ∷ rest) = or_8080 (parse_u16 s)

unfoldable pub view_command : Text → List Text → Outcome Command
unfolding port_of
view_command prog (file ∷ rest) = done (view_trace file (port_of rest))
view_command prog [] =
    done (refused ((codes "Usage: " ++ prog ++ codes " view <trace.tdb> [port]") ∷ []))

unfoldable pub tui_command : Text → List Text → Outcome Command
tui_command prog (file ∷ rest) = done (tui file)
tui_command prog [] = done (refused ((codes "Usage: " ++ prog ++ codes " tui <trace.tdb>") ∷ []))

unfoldable pub stats_command : Text → List Text → Outcome Command
stats_command prog (file ∷ rest) = done (show_stats file)
stats_command prog [] =
    done (refused ((codes "Usage: " ++ prog ++ codes " stats <trace.tdb>") ∷ []))

-- `main`; without even the program's name `args[0]` panics.
unfoldable pub main : List Text → Outcome Command
unfolding run_command trace_command view_command tui_command stats_command print_usage text_eq
main [] = panicked
main (prog ∷ []) = done (refused (print_usage prog))
main (prog ∷ command ∷ rest) =
    if text_eq command (codes "run")
    then run_command prog rest
    else if text_eq command (codes "trace")
    then trace_command prog rest
    else if text_eq command (codes "view")
    then view_command prog rest
    else if text_eq command (codes "tui")
    then tui_command prog rest
    else if text_eq command (codes "stats")
    then stats_command prog rest
    else done (refused ((codes "Unknown command: " ++ command) ∷ print_usage prog))
