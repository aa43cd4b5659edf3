-- ===== src/Tests/OpenedAt.antt =====
-- The viewer that opens what a concrete session saved, with a JSON of numbers.
use mathlib.Core.List.{map}
use mathlib.Core.List.Perm
use mathlib.Core.Path.{sym, subst}
use tiny_binary_debugger.Storage
use tiny_binary_debugger.Tui.Valid.{new-IsValid, IsValid}
use tiny_binary_debugger.Base.{
  Bool-cases, IsDone, ◌++◌, ℕ, true, ◌≡◌, refl, ap, inl, inr, Option, none, some, List, [], ◌∷◌,
  done, ok, arith,
}
use tiny_binary_debugger.Base.Int.{pos}
use tiny_binary_debugger.Os.{x86_64}
use tiny_binary_debugger.Tests.CommandsAt.{forking}
use tiny_binary_debugger.Tests.FramesAt.{all_texts-AllAscii, stacked-IsLayout, inputs, stacked}
use tiny_binary_debugger.Tests.LoopAt.{two_steps_done, session, session_ends}
use tiny_binary_debugger.Tests.Machine.{
  regs, calm, calling, in_order, one_file, one_file-IsFaithful,
}
use tiny_binary_debugger.Tests.TuiAt.{plain}
use tiny_binary_debugger.Text.{Text, codes, text_eq}
use tiny_binary_debugger.Tracer.Registers.{registers}
use tiny_binary_debugger.TraceLoop.{run, round}
use tiny_binary_debugger.Storage.File.{save}
use tiny_binary_debugger.Tracer.Step.{new, single_step}
use tiny_binary_debugger.Mach.{read_memory, get_thread_state, attach, get_threads}
use tiny_binary_debugger.Text.{byte_len}
use tiny_binary_debugger.Text.Number.{decimal}
use tiny_binary_debugger.Tracer.Annotation.{is_call, call_annotation}
use tiny_binary_debugger.Tracing.{attach_and_trace, attaching, traces}
use tiny_binary_debugger.Tracing.Views.{traced-views}
use tiny_binary_debugger.Tui.{Host, App}
use tiny_binary_debugger.Tui.Loop.{main_loop}
use tiny_binary_debugger.Tui.Panes.Registers.{lookup}
use tiny_binary_debugger.Viewing.{open_tui}
use tiny_binary_debugger.Viewing.Read.{field, label, ReadsBack}
use tiny_binary_debugger.Viewing.Opened.{
  ShowsRegisters, opened, Opens, traced-Opens, traced-registers,
}
use tiny_binary_debugger.Viewing.Saved.{traced-Shows, Shows}
use tiny_binary_debugger.Tui.Frames.{main_loop-IsDone, AllAscii}
use tiny_binary_debugger.TraceLoop.Saved.{trace_loop-saves}

data Json : Type 0 where
  number : ℕ → Json
  object : List (Text × ℕ) → Json

as_number : Json → Option ℕ
as_number (number n) = some n
as_number (object m) = none

found : Option ℕ → Option Json
found none = none
found (some n) = some (number n)

get_in : Json → Text → Option Json
unfolding found
get_in (number n) name = none
get_in (object m) name = found (field name m)

as_map : Json → Option (List (Text × Json))
as_map (number n) = none
as_map (object m) = some (map (λ r. (r.0, number r.1)) m)

-- The numbers in the order of the names.
named : List (Text × ℕ) → List ℕ → List (Text × ℕ)
named [] ns = []
named (r ∷ rs) [] = []
named (r ∷ rs) (n ∷ ns) = (r.0, n) ∷ named rs ns

abbrev numbers : Host
numbers = record {
  Value = Json;
  from_str = λ t. some (object (named (registers x86_64 regs) t));
  null = number 0;
  get = get_in;
  as_u64 = as_number;
  as_object = as_map;
  to_lowercase = λ t. t;
  to_uppercase = λ t. t;
  value_eq = λ v w. true;
  walk_regs = λ m. m;
}

looked_up :
    (name : Text) (n : ℕ) (fields : List (Text × ℕ))
    → field name fields ≡ some n
    → lookup numbers name (map (λ r. (r.0, number r.1)) fields) ≡ some (number n)
unfolding lookup
looked_up name n [] h = absurd (cc)
looked_up name n ((k, o) ∷ fields) h = elim (Bool-cases (text_eq name k)) [
  | inl same ↦ rw same (let p = rw same at h in cc)
  | inr other ↦ rw other (looked_up name n fields (rw other at h))
]

numbers-ReadsBack : ReadsBack calling numbers
unfolding registers named get_in as_map as_number
numbers-ReadsBack = record {
  value = λ s. object (registers x86_64 s);
  reads = λ s. refl;
  present = λ s name n h. (number n, ap found h, refl);
  absent = λ s name h. ap found h;
  fields = λ s. (
    map (λ r. (r.0, number r.1)) (registers x86_64 s),
    refl,
    Perm.refl _,
    λ name n h. (number n, looked_up name n (registers x86_64 s) h, refl),
  );
  walk = λ m. Perm.refl m;
}

abbrev OpensWith : App numbers → Type 0
OpensWith app = open_tui one_file in_order numbers session.disk (codes "t.tdb") ≡ ok app

opened_session : (app : App numbers) × OpensWith app
opened_session =
    elim (traced-Shows one_file in_order numbers calling (codes "tdb") one_file-IsFaithful 5
      (λ i. true) calm none (pos 12) (codes "t.tdb") session (omega arith) session_ends).opened [
        | inl (empty, e) ↦ absurd (let two = two_steps_done in omega arith)
        | inr (app, e, n) ↦ (app, e)
      ]

session-AllAscii : AllAscii (Storage.get_all session.loop.tracer.db)
unfolding session new attach Storage.new run round single_step get_threads get_thread_state
    read_memory Storage.insert byte_len is_call call_annotation decimal save Storage.get_all
    tiny_binary_debugger.BTreeMap.insert
session-AllAscii = all_texts-AllAscii (Storage.get_all session.loop.tracer.db) refl

abbrev shown : App numbers
shown = opened_session.0

shown-IsValid : IsValid numbers (Storage.get_all session.loop.tracer.db) shown
shown-IsValid =
    let (last, history, let_go, loaded) =
      trace_loop-saves calling one_file (codes "tdb") one_file-IsFaithful 5 (λ i. true) calm none
        (pos 12) (codes "t.tdb") session (omega arith) session_ends in
    let (same, some_steps) =
      opened one_file in_order numbers session.disk (codes "t.tdb") session.loop.tracer.db shown
        loaded opened_session.1 in
    subst (IsValid numbers (Storage.get_all session.loop.tracer.db)) (sym same)
      (new-IsValid numbers in_order session.loop.tracer.db (codes "t.tdb"))

keyed : IsDone (main_loop stacked numbers shown inputs)
keyed =
    main_loop-IsDone stacked stacked-IsLayout numbers (Storage.get_all session.loop.tracer.db)
      session-AllAscii shown inputs shown-IsValid

traced-Opens_example : (shown.arch ≡ label x86_64) × Opens calling shown.trace shown.base_sp
traced-Opens_example =
    traced-Opens calling one_file (codes "tdb") in_order numbers one_file-IsFaithful
      numbers-ReadsBack 5 (λ i. true) calm none (pos 12) (codes "t.tdb") session shown (omega arith)
      session_ends opened_session.1

traced-registers_example : ShowsRegisters calling numbers keyed.0.0
traced-registers_example =
    traced-registers calling one_file (codes "tdb") in_order numbers stacked one_file-IsFaithful
      numbers-ReadsBack 5 (λ i. true) calm none (pos 12) (codes "t.tdb") session shown inputs
      keyed.0 (omega arith) session_ends opened_session.1 keyed.1

abbrev attached_lines : List Text
attached_lines = attaching (pos 12) ++ codes "Attached and stopped." ∷ []

attached_ends :
    attach_and_trace forking calling
      (λ w. calm)
      one_file
      (codes "tdb")
      5
      (λ i. true)
      tt
      none
      (pos 12)
      (codes "t.tdb")
    ≡ traces attached_lines (some (done session))
unfolding attach_and_trace
attached_ends = ap (traces attached_lines) session_ends

traced-views_example :
    Shows one_file in_order plain session.disk (codes "t.tdb") session.loop.tracer.step_count
traced-views_example =
    traced-views forking calling (λ w. calm) one_file (codes "tdb") in_order plain
      one_file-IsFaithful 5 (λ i. true) tt none (codes "ls") [] (pos 12) (codes "t.tdb")
      attached_lines session (omega arith) (inr attached_ends)
