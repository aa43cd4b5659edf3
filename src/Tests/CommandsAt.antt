-- ===== src/Tests/CommandsAt.antt =====
-- The commands, the launcher and the server at concrete inputs.
use tiny_binary_debugger.Base.{
  false, arith, ℕ, ◌<◌, ◌≡◌, ◌≢◌, ◌⊎◌, ◌↔◌, refl, true, none, some, [], ◌∷◌, ◌++◌, ok, err, done,
  panicked,
}
use tiny_binary_debugger.Base.Int.{pos}
use tiny_binary_debugger.Text.Number.{decimal}
use tiny_binary_debugger.Cli.{view_trace, attach_and_trace, run_and_trace, main}
use tiny_binary_debugger.Cli.Args.{main_lem}
use tiny_binary_debugger.Launcher.{parent, Processes, returns, has_nul, after_fork, launch}
use tiny_binary_debugger.Launcher.Started.{FirstNul, NoNul, launch_cases, launch-stopped}
use tiny_binary_debugger.Os.{display_i32, stopped}
use tiny_binary_debugger.Server.{AppState, get_trace}
use tiny_binary_debugger.Server.Replies.{get_trace-panics}
use tiny_binary_debugger.Storage.{count}
use tiny_binary_debugger.Tests.StorageAt.{two}
use tiny_binary_debugger.Text.{codes}

abbrev pub serving : AppState
serving = record { db = two }

get_trace-panics_example :
    (get_trace serving (record { start = some 9; end = some 3 }) ≡ panicked)
    ↔ ((3 < 9) × (count two ≢ 0))
get_trace-panics_example = get_trace-panics serving 9 3

-- Every fork makes the process 99, which stops by SIGTRAP.
abbrev pub forking : Processes
forking = record {
  World = Unit {0};
  fork = λ w. (w, ok (parent (pos 99)));
  traceme = λ w. (w, ok tt);
  execvp = λ w program args. (w, none);
  ptrace_attach = λ w pid. (w, ok tt);
  waitpid = λ w pid. (w, ok (stopped 5));
  kill_0 = λ w pid. pos 0;
  debug_status = λ s. [];
  nul_error = λ s. codes "nul byte found";
}

launch_cases_example :
    ((has_nul (codes "ls") ≡ true)
      × (launch forking tt (codes "ls") (codes "-l" ∷ [])
          ≡ (tt, returns (err (codes "Invalid program name: " ++ codes "nul byte found")))))
    ⊎ ((has_nul (codes "ls") ≡ false)
        × FirstNul (codes "-l" ∷ []) (λ a.
          launch forking tt (codes "ls") (codes "-l" ∷ [])
          ≡ (tt, returns (err (codes "Invalid argument: " ++ codes "nul byte found")))))
    ⊎ (NoNul (codes "ls" ∷ codes "-l" ∷ [])
        × (launch forking tt (codes "ls") (codes "-l" ∷ [])
            ≡ after_fork forking
                (codes "ls")
                (codes "ls" ∷ codes "-l" ∷ [])
                (tt, ok (parent (pos 99)))))
launch_cases_example = launch_cases forking tt (codes "ls") (codes "-l" ∷ [])

launch-stopped_example :
    ((forking.fork tt).1 ≡ ok (parent (pos 99)))
    × ((sig : ℕ) × (forking.waitpid tt (pos 99) ≡ (tt, ok (stopped sig))))
launch-stopped_example =
    launch-stopped forking tt tt (codes "ls") [] (record { pid = pos 99 }) (unfold launch in refl)

main_lem_example :
    (main (codes "tdb" ∷ codes "run" ∷ codes "python3" ∷ codes "a.py" ∷ codes "t.tdb" ∷ [])
      ≡ done (run_and_trace (codes "python3") (codes "a.py" ∷ []) (codes "t.tdb")))
    × (main (codes "tdb" ∷ codes "trace" ∷ display_i32 (pos 4711) ∷ codes "t.tdb" ∷ [])
        ≡ done (attach_and_trace (pos 4711) (codes "t.tdb")))
    × (main (codes "tdb" ∷ codes "view" ∷ codes "t.tdb" ∷ decimal 9000 ∷ [])
        ≡ done (view_trace (codes "t.tdb") 9000))
main_lem_example =
    main_lem (codes "tdb") (codes "python3") (codes "t.tdb") (codes "a.py" ∷ []) (codes "t.tdb") []
      (pos 4711) 9000 (omega arith) (omega arith)
