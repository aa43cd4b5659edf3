-- ===== src/Viewing.antt =====
-- Opening a saved trace: `view_trace` and `show_stats` of src/main.rs, and the start of `run` of
-- src/tui.rs.
pub mod Saved
pub mod Read
pub mod Opened
pub mod Pane
pub mod Run
use tiny_binary_debugger.Base.{
  ℕ, List, [], ◌∷◌, ◌++◌, ◌==◌, if◌then◌else◌, Result, ok, err, map_err, Outcome, done, expect,
  ◌>>=◌,
}
use tiny_binary_debugger.Server.{AppState}
use tiny_binary_debugger.Stats.{Orders, TraceStats, analyze, print}
use tiny_binary_debugger.Storage
use tiny_binary_debugger.Storage.{TraceDb}
use tiny_binary_debugger.Storage.File.{Files, load}
use tiny_binary_debugger.Text.{Text, codes}
use tiny_binary_debugger.Text.Number.{decimal}
use tiny_binary_debugger.Tui.{Host, App, new}

unfoldable pub view_lines : TraceDb → TraceStats → Text → List Text
unfolding Storage.count
view_lines db stats trace_file =
    (codes "Loading trace from " ++ trace_file ++ codes "...")
    ∷ (codes "Loaded " ++ decimal (Storage.count db) ++ codes " steps")
    ∷ (codes "  "
        ++ decimal stats.unique_addresses
        ++ codes " unique addrs, "
        ++ decimal stats.call_count
        ++ codes " calls, "
        ++ decimal stats.ret_count
        ++ codes " returns, "
        ++ decimal stats.mem_change_count
        ++ codes " mem changes")
    ∷ []

module _ (f : Files) (orders : Orders) where
  -- The lines that are printed before the server starts, and the state that it serves.
  unfoldable pub view_trace : f.Disk → Text → Outcome (AppState × List Text)
  unfolding load analyze view_lines
  view_trace disk trace_file = do
    db ← expect (load f disk trace_file)
    done (record { db = db }, view_lines db (analyze orders db) trace_file)

  unfoldable pub show_stats : f.Disk → Text → Outcome (List Text)
  unfolding load analyze print
  show_stats disk trace_file = do
    db ← expect (load f disk trace_file)
    done (
        (codes "Loading trace from " ++ trace_file ++ codes "...")
        ∷ codes ""
        ∷ print (analyze orders db))

  unfoldable pub open_with : (host : Host) → Text → Result TraceDb → Result (App host)
  unfolding new Storage.count
  open_with host trace_file (err e) = err e
  open_with host trace_file (ok db) =
      if Storage.count db == 0
      then err (codes "Trace file is empty")
      else ok (new host orders db trace_file)

  -- `run` of the terminal viewer, up to the setting up of the terminal.
  unfoldable pub open_tui : (host : Host) → f.Disk → Text → Result (App host)
  unfolding open_with load
  open_tui host disk trace_file =
      open_with host trace_file
        (map_err (λ e. codes "Failed to load trace: " ++ e) (load f disk trace_file))
