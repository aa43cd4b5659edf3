-- ===== src/Lib.antt =====
-- A model of TDB, a timeless debugger for macOS that records every instruction of a process and
-- lets the recorded trace be searched and viewed.
--
-- The program starts a process under ptrace or attaches to one (src/launcher/mod.rs), steps it one
-- instruction at a time, reading registers and memory through Mach calls (src/tracer/trace.rs,
-- src/tracer/mach.rs), and keeps one entry for each step in a database (src/storage/mod.rs). The
-- loop of src/main.rs drives the steps, prints progress, and saves the database when the process
-- exits, on Ctrl+C, or after too many errors. A saved trace is summed up (src/stats/mod.rs), served
-- over HTTP (src/server/mod.rs), or shown in the terminal (src/tui.rs).
--
-- Which file models which part:
-- - Base, Text, Eq: names of the libraries, lists and tests over native numbers, results, panics,
--   texts as lists of code points, with the functions of the Rust standard library that the program
--   calls on them (contains, split_whitespace, parse, the number formats).
-- - BTreeMap: the ordered map of the standard library, as far as the storage uses it.
-- - Storage, Storage/File: TraceDb of src/storage/mod.rs; each operation holds the lock from start
--   to end, so it is one function on the state. Disk and encoding are the record Files.
-- - Os, Mach: what the tracer takes from the system, the record Os, and MachTask. World is the state
--   of the machine; a call that can change it returns the new one.
-- - Tracer/Step: Tracer and single_step. The early returns of single_step are the error clauses of
--   the row with_threads, with_state, with_code, with_insns, record_insn, store_entry, execute,
--   resume, settle. Tracer/Annotation, Tracer/Memory and Tracer/Registers have its parts; both
--   architectures are modelled, by a parameter.
-- - Stats: TraceStats. The order in which a hash map is walked is the parameter Orders.
-- - TraceLoop: trace_loop of src/main.rs. Cli: the arguments of main.
-- - Launcher: ProcessLauncher, with fork, exec and ptrace in the record Processes. `launch` ends in
--   the parent or in the child, and its result says which.
-- - Server: the handlers of the HTTP interface. A panic of a handler is the outcome `panicked`.
--   Server/Routes: create_router and serve; the router and the extractors are the record Axum.
-- - Tui, Tui/Keys: App and its key handlers, of src/tui.rs. Tui/Screen: the widgets of ratatui that
--   the program builds; a frame is the list of the widgets drawn, each with its area, and the solver
--   of layouts is the record Ratatui. Tui/Panes, Tui/Draw: the render functions, from render_header to
--   render_help, and ui. Tui/Loop: main_loop, over a run of rounds, each with the area of the
--   terminal and the event of its poll. Tui/Terminal: main_loop at a terminal whose calls can fail,
--   on fuel, a unit for each round; the terminal is the record Terminal.
-- - Viewing: what src/main.rs and src/tui.rs do with a saved trace before it is shown. Viewing/Run:
--   run of src/tui.rs, which switches the modes of the terminal around main_loop.
-- - Tracing: run_and_trace and attach_and_trace of src/main.rs, the launcher and then the loop.
-- - Tests: the theorems at concrete inputs.
-- - Suite: the unit tests that stand in src/storage/mod.rs, src/stats/mod.rs, src/server/mod.rs,
--   src/tracer/trace.rs and src/tracer/mach.rs, each the computation of its body on the model.
--   Storage/Order: threads that share the database, whose insertions the lock puts into one order.
--
-- Numbers: the words of the program are natural numbers, and each addition that can wrap is
-- written with its `% 2 ^ w`; the wrap is that of a release build. The loop has fuel, one unit for
-- each round, and without fuel the result is `none`. A loop that Ctrl+C or a row of errors ends
-- needs as much fuel as there are rounds until then; the results say how much. The flag that
-- Ctrl+C clears is a function from the number of the reading to what it finds.
--
-- Not modelled: what ratatui makes of the widgets, the sockets of the server, the
-- page in web/index.html, and the raw pointers in the Mach calls. Of the tests in the source files,
-- not modelled are those of the alignment of the thread states, of threads that read at once, of the
-- page and of the CORS header; tests/cli.rs runs the built program.
pub mod Base
pub mod Text
pub mod Eq
pub mod BTreeMap
pub mod Storage
pub mod Os
pub mod Mach
pub mod Tracer
pub mod Stats
pub mod TraceLoop
pub mod Tui
pub mod Tests
pub mod Server
pub mod Viewing
pub mod Tracing
pub mod Cli
pub mod Launcher
pub mod Suite
