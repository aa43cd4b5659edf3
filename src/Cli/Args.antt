-- ===== src/Cli/Args.antt =====
-- What the arguments of the commands become.
use tiny_binary_debugger.Base.{ℕ, ◌^◌, ◌<◌, ◌≡◌, refl, ap, List, [], ◌∷◌, ◌++◌, done}
use tiny_binary_debugger.Text.{Text, codes}
use tiny_binary_debugger.Text.Parse.{parse_u16}
use tiny_binary_debugger.Text.Number.{decimal}
use tiny_binary_debugger.Text.RoundTrip.{IsI32, parse_i32-display_i32, parse_unsigned-decimal}
use tiny_binary_debugger.Cli.{
  view_trace, attach_and_trace, ℤ, view_command, trace_command, run_and_trace, run_command, port_of,
  last_of, all_but_last, main,
}
use tiny_binary_debugger.Os.{display_i32}

last_of-snoc : (a : Text) (args : List Text) (z : Text) → last_of a (args ++ z ∷ []) ≡ z
unfolding last_of
last_of-snoc a [] z = refl
last_of-snoc a (b ∷ args) z = last_of-snoc b args z

all_but_last-snoc :
    (a : Text) (args : List Text) (z : Text) → all_but_last a (args ++ z ∷ []) ≡ a ∷ args
unfolding all_but_last
all_but_last-snoc a [] z = refl
all_but_last-snoc a (b ∷ args) z = ap (λ l. a ∷ l) (all_but_last-snoc b args z)

main-run :
    (prog program output : Text) (args : List Text)
    → main (prog ∷ codes "run" ∷ program ∷ (args ++ output ∷ []))
      ≡ done (run_and_trace program args output)
unfolding main run_command last_of all_but_last
main-run prog program output [] = refl
main-run prog program output (a ∷ args) =
    rw (last_of-snoc a args output, all_but_last-snoc a args output) refl

main-numbers :
    (prog file : Text) (rest : List Text) (pid : ℤ) (port : ℕ)
    → IsI32 pid
    → port < 2 ^ 16
    → (main (prog ∷ codes "trace" ∷ display_i32 pid ∷ file ∷ rest)
        ≡ done (attach_and_trace pid file))
      × (main (prog ∷ codes "view" ∷ file ∷ decimal port ∷ rest) ≡ done (view_trace file port))
unfolding main trace_command view_command port_of parse_u16
main-numbers prog file rest pid port fits small =
    (rw (parse_i32-display_i32 pid fits) refl, rw (parse_unsigned-decimal (2 ^ 16) port small) refl)

-- `run` takes the program, any number of arguments for it, and the output after them: every argument
-- reaches the program, and the last word is the output. A process id and a port that are given in
-- decimal are read as these numbers: `trace` attaches to the process of any 32-bit signed number, and
-- `view` serves on any 16-bit port.
pub main_lem :
    (prog program output : Text) (args : List Text) (file : Text) (rest : List Text) (pid : ℤ)
    (port : ℕ)
    → IsI32 pid
    → port < 2 ^ 16
    → (main (prog ∷ codes "run" ∷ program ∷ (args ++ output ∷ []))
        ≡ done (run_and_trace program args output))
      × (main (prog ∷ codes "trace" ∷ display_i32 pid ∷ file ∷ rest)
          ≡ done (attach_and_trace pid file))
      × (main (prog ∷ codes "view" ∷ file ∷ decimal port ∷ rest) ≡ done (view_trace file port))
main_lem prog program output args file rest pid port fits small =
    let (traces, views) = main-numbers prog file rest pid port fits small in
    (main-run prog program output args, traces, views)
