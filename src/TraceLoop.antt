-- ===== src/TraceLoop.antt =====
-- `trace_loop` of src/main.rs: step until the process exits, Ctrl+C clears the flag, or more than
-- ten errors come in a row.
pub mod Ends
pub mod Rule
pub mod Progress
pub mod Saved
pub mod Counts
pub mod Summary
pub mod Watched
use tiny_binary_debugger.Base.{
  ok, err, Result, ℕ, zero, suc, ◌+◌, ◌-◌, ◌%◌, ◌^◌, Bool, true, false, not, ◌&&◌, ◌||◌, Option,
  none, some, List, [], ◌∷◌, ◌++◌, is_empty, length, ltb, ◌==◌, if◌then◌else◌, Outcome, done,
  panicked, expect, ◌>>=◌,
}
use tiny_binary_debugger.Base.Int.{ℤ}
use tiny_binary_debugger.Os.{Arch, Os, display_i32}
use tiny_binary_debugger.Stats.{is_call_text, is_return_text}
use tiny_binary_debugger.Storage.{TraceEntry}
use tiny_binary_debugger.Storage.File.{Files, save}
use tiny_binary_debugger.Text.{Text, codes, byte_len, slice_to}
use tiny_binary_debugger.Text.Number.{decimal, hex_lower, pad_left}
use tiny_binary_debugger.Tracer.Step.{
  new, detach, StepResult, recorded, process_exited, error, Tracer, single_step,
}

-- The counters of the loop; they are unsigned words that wrap in a release build.
pub record Counters : Type 0 where
  pub error_count : ℕ
  pub call_count : ℕ
  pub return_count : ℕ
  pub mem_change_count : ℕ
  pub last_print_step : ℕ

abbrev pub zeros : Counters
zeros = record {
  error_count = 0;
  call_count = 0;
  return_count = 0;
  mem_change_count = 0;
  last_print_step = 0;
}

unfoldable pub interesting : TraceEntry → Bool
interesting entry = is_call_text entry || is_return_text entry || not (is_empty entry.mem_changes)

unfoldable pub marker : TraceEntry → Text
marker entry =
    if is_call_text entry
    then codes ">"
    else if is_return_text entry
    then codes "<"
    else if not (is_empty entry.mem_changes)
    then codes "*"
    else codes " "

cut : Option Text → Outcome Text
cut none = panicked
cut (some t) = done (t ++ codes "...")

-- The instruction cut off at 47 bytes; a cut inside a character panics.
unfoldable pub shortened : Text → Outcome Text
unfolding cut
shortened text = if ltb 50 (byte_len text) then cut (slice_to text 47) else done text

unfoldable pub progress_line : TraceEntry → Text → Text
progress_line entry insn =
    codes "  "
    ++ marker entry
    ++ codes " "
    ++ pad_left b' ' 7 (decimal entry.step)
    ++ codes "  0x"
    ++ pad_left b'0' 12 (hex_lower entry.pc)
    ++ codes "  "
    ++ insn

-- A line at every thousandth step, and on events more than a hundred steps after the last line.
-- The difference of the steps wraps as the source's does.
unfoldable pub is_due : Counters → TraceEntry → Bool
is_due c entry =
    entry.step % 1000 == 0
    || ltb 100 ((entry.step + 2 ^ 64 - c.last_print_step) % 2 ^ 64) && interesting entry

-- The counters after an entry, before a line is printed.
unfoldable pub counted : Counters → TraceEntry → Counters
counted c entry = record {
  error_count = 0;
  call_count = if is_call_text entry then (c.call_count + 1) % 2 ^ 64 else c.call_count;
  return_count = if is_return_text entry then (c.return_count + 1) % 2 ^ 64 else c.return_count;
  mem_change_count = (c.mem_change_count + length entry.mem_changes) % 2 ^ 64;
  last_print_step = c.last_print_step;
}

-- The arm of `StepResult::Ok`: the counters, and the lines that it prints.
unfoldable pub on_entry : Counters → TraceEntry → Outcome (Counters × List Text)
unfolding counted is_due shortened progress_line
on_entry c entry =
    let c' = counted c entry in
    if is_due c' entry
    then (do
      insn ← shortened entry.insn_text
      done (record c' { last_print_step = entry.step }, progress_line entry insn ∷ []))
    else done (c', [])

-- What the loop leaves behind: the counters, the tracer, the machine, and all the lines that were
-- printed; a "\n" in a format makes an empty one.
pub record LoopEnd (World : Type 0) : Type 0 where
  pub counters : Counters
  pub tracer : Tracer
  pub world : World
  pub lines : List Text

module _ {arch : Arch} (os : Os arch) where
  open os use {World}

  -- How a round goes on: the loop ends, or there is another round.
  pub data Round : Type 0 where
    stop : LoopEnd World → Round
    next : LoopEnd World → Round

  pub round_of_entry : Tracer → World → List Text → Outcome (Counters × List Text) → Outcome Round
  round_of_entry t w lines panicked = panicked
  round_of_entry t w lines (done (c, more)) =
      done (next (record { counters = c; tracer = t; world = w; lines = lines ++ more }))

  -- One round on what `single_step` returned.
  unfoldable pub round : Counters → List Text → StepResult × Tracer × World → Outcome Round
  unfolding round_of_entry on_entry
  round c lines (recorded entry, t, w) = round_of_entry t w lines (on_entry c entry)
  round c lines (process_exited code, t, w) = done (
      stop (record {
        counters = c;
        tracer = t;
        world = w;
        lines = lines ++ codes "" ∷ (codes "  Process exited with code " ++ display_i32 code) ∷ [];
      }))
  round c lines (error e, t, w) =
      let c' : Counters = record c { error_count = (c.error_count + 1) % 2 ^ 32 } in
      if ltb 10 c'.error_count
      then done (
          stop (record {
            counters = c';
            tracer = t;
            world = w;
            lines = lines ++ codes "" ∷ (codes "  Too many errors, stopping: " ++ e) ∷ [];
          }))
      else done (next (record { counters = c'; tracer = t; world = w; lines = lines }))

  resume_loop :
      (LoopEnd World → Option (Outcome (LoopEnd World)))
      → Outcome Round
      → Option (Outcome (LoopEnd World))
  resume_loop go panicked = some panicked
  resume_loop go (done (stop s)) = some (done s)
  resume_loop go (done (next s)) = go s

  -- The loop, which reads the flag before each round: `running i` is what the i-th reading finds.
  -- With no fuel left it has not come to an end: `none`.
  unfoldable pub run : ℕ → (ℕ → Bool) → ℕ → LoopEnd World → Option (Outcome (LoopEnd World))
  unfolding resume_loop
  run zero running i s = none
  run (suc fuel) running i s = elim (running i) [
    | false ↦
        some (done (record s { lines = s.lines ++ codes "" ∷ codes "  Stopping trace..." ∷ [] }))
    | true ↦
        resume_loop (run fuel running (i + 1))
          (round s.counters s.lines (single_step os s.tracer s.world))
  ]

-- `trace_loop`, with `output` the path of the database and `exe` the name of the program. The handler
-- that clears the flag is taken to be installed.
module _ {arch : Arch} (os : Os arch) (f : Files) (exe : Text) where
  pub record SessionEnd : Type 0 where
    pub loop : LoopEnd os.World
    pub disk : f.Disk

  summary : LoopEnd os.World → Text → List Text
  summary s output =
      codes ""
      ∷ codes "  Trace Summary"
      ∷ codes "  -------------"
      ∷ (codes "  Total Steps:     " ++ pad_left b' ' 10 (decimal s.tracer.step_count))
      ∷ (codes "  Function Calls:  " ++ pad_left b' ' 10 (decimal s.counters.call_count))
      ∷ (codes "  Returns:         " ++ pad_left b' ' 10 (decimal s.counters.return_count))
      ∷ (codes "  Memory Changes:  " ++ pad_left b' ' 10 (decimal s.counters.mem_change_count))
      ∷ codes ""
      ∷ codes "  View the trace:"
      ∷ (codes "    "
          ++ exe
          ++ codes " view "
          ++ output
          ++ codes "      (browser at http://localhost:8080)")
      ∷ (codes "    " ++ exe ++ codes " tui " ++ output ++ codes "       (terminal UI)")
      ∷ codes ""
      ∷ []

  -- After the save: `expect` panics on its failure, before the process is let go.
  unfoldable pub finish_with :
      Text → LoopEnd os.World → f.Disk × Result (Unit {0}) → Outcome SessionEnd
  unfolding summary detach
  finish_with output s (disk, err e) = panicked
  finish_with output s (disk, ok _) = done (record {
    loop = record s {
      world = detach os s.tracer s.world;
      lines =
          s.lines
          ++ codes "" ∷ (codes "  Saving trace to " ++ output ++ codes "...") ∷ summary s output;
    };
    disk = disk;
  })

  -- Saves, detaches and sums up.
  unfoldable pub finish : f.Disk → Text → LoopEnd os.World → Outcome SessionEnd
  unfolding finish_with
  finish disk output s = finish_with output s (save f disk s.tracer.db)

  unfoldable pub finish_run :
      f.Disk → Text → Option (Outcome (LoopEnd os.World)) → Option (Outcome SessionEnd)
  unfolding finish
  finish_run disk output none = none
  finish_run disk output (some panicked) = some panicked
  finish_run disk output (some (done s)) = some (finish disk output s)

  unfoldable pub start_with :
      ℕ → (ℕ → Bool) → os.World → f.Disk → Text → Outcome Tracer → Option (Outcome SessionEnd)
  unfolding finish_run
  start_with fuel running w disk output panicked = some panicked
  start_with fuel running w disk output (done t) = finish_run disk output (
      run os fuel running 0 (record {
        counters = zeros;
        tracer = t;
        world = w;
        lines =
            codes ""
            ∷ codes "  TDB - Timeless Debugger"
            ∷ codes ""
            ∷ codes "  Tracing... Press Ctrl+C to stop"
            ∷ codes ""
            ∷ [];
      }))

  unfoldable pub trace_loop :
      ℕ → (ℕ → Bool) → os.World → f.Disk → ℤ → Text → Option (Outcome SessionEnd)
  unfolding start_with
  trace_loop fuel running w disk pid output =
      start_with fuel running w disk output (expect (new os w pid output))
