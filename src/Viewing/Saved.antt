-- ===== src/Viewing/Saved.antt =====
-- What the viewers show of a trace that the loop has saved.
use tiny_binary_debugger.Base.{
  ℕ, ◌<◌, ◌^◌, ◌≡◌, refl, ◌⊎◌, inl, inr, Bool, some, List, ◌∷◌, ◌++◌, length, length-map, ◌==◌, ok,
  err, done, arith, Bool-cases,
}
use tiny_binary_debugger.Base.Int.{ℤ}
use tiny_binary_debugger.Os.{Arch, Os}
use tiny_binary_debugger.Server.{AppState, get_count}
use tiny_binary_debugger.Stats.{Orders, TraceStats, analyze, analyze_entries, print}
use tiny_binary_debugger.Storage
use tiny_binary_debugger.Storage.{TraceDb}
use tiny_binary_debugger.Storage.File.{Files, IsFaithful, load}
use tiny_binary_debugger.Text.{Text, codes}
use tiny_binary_debugger.TraceLoop.{SessionEnd, trace_loop}
use tiny_binary_debugger.TraceLoop.Saved.{trace_loop-saves}
use tiny_binary_debugger.Tui.{Host, App, new}
use tiny_binary_debugger.Viewing.{view_lines, view_trace, show_stats, open_tui, open_with}

pub length-get_all : (db : TraceDb) → length (Storage.get_all db) ≡ Storage.count db
unfolding Storage.get_all Storage.count
length-get_all db = length-map db.entries (λ e. e.1)

module _ (f : Files) (orders : Orders) (host : Host) where
  -- The statistics, the server and the terminal viewer agree on the number `n` of steps.
  pub record Shows (disk : f.Disk) (file : Text) (n : ℕ) : Type 0 where
    pub stats :
        (s : TraceStats) × (show_stats f orders disk file
          ≡ done ((codes "Loading trace from " ++ file ++ codes "...") ∷ codes "" ∷ print s))
        × (s.total_steps ≡ n)
    pub served :
        (state : AppState) × (lines : List Text) × (view_trace f orders disk file
          ≡ done (state, lines))
        × ((get_count state).count ≡ n)
    pub opened :
        ((n ≡ 0) × (open_tui f orders host disk file ≡ err (codes "Trace file is empty")))
        ⊎ ((app : App host) × (open_tui f orders host disk file ≡ ok app) × (length app.trace ≡ n))

  opened_with :
      (file : Text) (db : TraceDb)
      → ((Storage.count db ≡ 0)
          × (open_with f orders host file (ok db) ≡ err (codes "Trace file is empty")))
        ⊎ ((app : App host) × (open_with f orders host file (ok db) ≡ ok app)
            × (length app.trace ≡ Storage.count db))
  unfolding open_with new
  opened_with file db = elim (Bool-cases (Storage.count db == 0)) [
    | inl none ↦ inl (ground arith, rw none refl)
    | inr some_steps ↦ inr (new host orders db file, rw some_steps refl, length-get_all db)
  ]

  loaded-Shows :
      (disk : f.Disk) (file : Text) (db : TraceDb)
      → load f disk file ≡ ok db
      → Shows disk file (Storage.count db)
  unfolding show_stats view_trace open_tui analyze analyze_entries get_count
  loaded-Shows disk file db h = record {
    stats = (analyze orders db, rw h refl, length-get_all db);
    served = (record { db = db }, view_lines db (analyze orders db) file, rw h refl, refl);
    opened = rw h (opened_with file db);
  }

  -- A trace that comes to its end without a panic leaves a file that can be viewed: the statistics and the server
  -- show as many steps as the tracer counted, and the terminal viewer opens on all of them, or
  -- refuses the file as empty if there is none. The disk is to read back what was written, the
  -- decoding to invert the encoding, and the rounds are to be fewer than 2 ^ 64.
  pub traced-Shows :
      {arch : Arch} (os : Os arch) (exe : Text)
      → IsFaithful f
      → (fuel : ℕ) (running : ℕ → Bool) (w : os.World) (disk : f.Disk) (pid : ℤ) (output : Text)
        (z : SessionEnd os f exe)
      → fuel < 2 ^ 64
      → trace_loop os f exe fuel running w disk pid output ≡ some (done z)
      → Shows z.disk output z.loop.tracer.step_count
  traced-Shows os exe faithful fuel running w disk pid output z small h =
      let (last, history, let_go, loaded) =
        trace_loop-saves os f exe faithful fuel running w disk pid output z small h in
      rw history.trace.count at (loaded-Shows z.disk output z.loop.tracer.db loaded)
