-- ===== src/Viewing/Opened.antt =====
-- The terminal viewer on a trace that the loop has saved: what the recorded registers read as.
use mathlib.Core.Path.{subst}
use mathlib.Core.List.{Perm, map}
use tiny_binary_debugger.Base.{
  get_elem?-All, false, All-snoc, ℕ, ◌<◌, ◌^◌, ◌≡◌, refl, ap, sym, ◌∙◌, Bool, inl, inr, Option,
  some, List, [], ◌∷◌, length, get_elem?, ◌==◌, ok, done, arith, Bool-cases, All,
  get_elem?_in_range,
}
use tiny_binary_debugger.Base.Int.{ℤ}
use tiny_binary_debugger.Os.{Arch, Os, ThreadState}
use tiny_binary_debugger.Stats.{Orders}
use tiny_binary_debugger.Storage
use tiny_binary_debugger.Storage.{TraceEntry, TraceDb}
use tiny_binary_debugger.Storage.File.{load, Files, IsFaithful}
use tiny_binary_debugger.Text.{Text}
use tiny_binary_debugger.TraceLoop.{SessionEnd, trace_loop}
use tiny_binary_debugger.TraceLoop.Saved.{trace_loop-saves}
use tiny_binary_debugger.Tracer.Effects.{Made}
use tiny_binary_debugger.Tracer.History.{Replays, begun, failed, stepped}
use tiny_binary_debugger.Tracer.Registers.{registers, sp_of}
use tiny_binary_debugger.Tui.{
  value_of, current_entry, Host, App, new, arch_of_trace, base_sp_of, current_regs,
}
use tiny_binary_debugger.Tui.Frames.{main_loop-IsValid}
use tiny_binary_debugger.Tui.Loop.{Input, Session, main_loop}
use tiny_binary_debugger.Tui.Panes.Registers.{render_registers}
use tiny_binary_debugger.Tui.Panes.Changes.{lines_of}
use tiny_binary_debugger.Viewing.Pane.{texts_of, shown_texts, pane_texts}
use tiny_binary_debugger.Tui.Panes.Shown.{names_of, shown_order, register_names-order}
use tiny_binary_debugger.Tui.Screen.{Ratatui}
use tiny_binary_debugger.Tui.Valid.{IsValid}
use tiny_binary_debugger.Viewing.{open_tui, open_with}
use tiny_binary_debugger.Viewing.Saved.{length-get_all}
use tiny_binary_debugger.Viewing.Read.{sp_read, label_read, label, ReadsBack}
use tiny_binary_debugger.Tracer.Step.{single_step, Tracer}

module _ {arch : Arch} (os : Os arch) where
  -- A step has made the entry.
  abbrev pub IsMade : TraceEntry → Type 0
  IsMade e = (t : Tracer) × (w : os.World) × (u : Tracer) × Made os t w u e

  -- The first entry was made by a step, and the stack pointer is the one that this step found.
  abbrev pub Opens : List TraceEntry → Option ℕ → Type 0
  Opens es sp =
      (e : TraceEntry) × (get_elem? es 0 ≡ some e)
      × ((made : IsMade e) × (sp ≡ some (sp_of arch made.3.state)))

  Replays-IsMade :
      (start w : os.World) (t : Tracer) (es : List TraceEntry)
      → Replays os start t w es
      → All IsMade es
  Replays-IsMade start w t es (begun _ top cold) = tt
  Replays-IsMade start w t es (failed t' w' _ r e k) = Replays-IsMade start w' t' es r
  Replays-IsMade start w t _ (stepped t' w' es e r m) =
      All-snoc IsMade es e (Replays-IsMade start w' t' es r) (t', w', (single_step os t' w').1, m)

module _ {arch : Arch} (os : Os arch) (host : Host) where
  -- The current entry was made by a step, and the registers pane has a line for each register of
  -- the state that this step found, in the order of `shown_order`, with its name and its value.
  abbrev pub ShowsRegisters : App host → Type 0
  ShowsRegisters app =
      (e : TraceEntry) × (get_elem? app.trace app.current ≡ some e)
      × ((made : IsMade os e) × (map texts_of (lines_of (render_registers host app))
            ≡ map (shown_texts arch made.3.state) (shown_order arch)))

module _ {arch : Arch} (os : Os arch) (host : Host) (back : ReadsBack os host) where
  -- The first entry tells the architecture and the stack pointer.
  first_entry :
      (e : TraceEntry) (es : List TraceEntry) (s : ThreadState arch)
      → e.regs ≡ os.json_text (registers arch s)
      → (arch_of_trace host (e ∷ es) ≡ label arch)
        × (base_sp_of host (e ∷ es) ≡ some (sp_of arch s))
  unfolding arch_of_trace base_sp_of value_of
  first_entry e es s h = (
    rw (h, back.reads s) (label_read arch os host back s),
    rw (h, back.reads s) (sp_read arch os host back s),
  )

  -- The pane at an entry that records the registers of the state `s`.
  current-pane :
      (app : App host) (e : TraceEntry) (s : ThreadState arch)
      → get_elem? app.trace app.current ≡ some e
      → e.regs ≡ os.json_text (registers arch s)
      → map texts_of (lines_of (render_registers host app))
        ≡ map (shown_texts arch s) (shown_order arch)
  unfolding current_regs current_entry
  current-pane app e s at h =
      let (m, object, names, values) = back.fields s in
      let regs : current_regs host app ≡ m = rw (at, h, back.reads s, object) refl in
      pane_texts arch host s m values app regs (
        register_names-order host app arch s (back.walk (current_regs host app))
          (subst (λ l. Perm (map (λ r. r.0) l) (names_of arch s)) (sym regs) names))

  -- The first step of a trace.
  opened_first :
      (es : List TraceEntry)
      → ((length es == 0) ≡ false)
      → All (IsMade os) es
      → (arch_of_trace host es ≡ label arch) × Opens os es (base_sp_of host es)
  opened_first [] some_steps all = absurd (cc)
  opened_first (e ∷ es) some_steps all =
      let m = all.0.3 in
      let (name, sp) = first_entry e es m.state m.regs in (name, (e, refl, (all.0, sp)))

  -- Wherever a valid viewer of a history stands.
  valid-ShowsRegisters :
      (es : List TraceEntry) (app : App host)
      → ((length es == 0) ≡ false)
      → All (IsMade os) es
      → IsValid host es app
      → ShowsRegisters os host app
  valid-ShowsRegisters es app some_steps all v =
      let (e, at) =
        get_elem?_in_range app.trace app.current
          (let c = v.current in let t = ap length v.trace in ground arith) in
      let made =
        get_elem?-All (IsMade os) es app.current e all
          (ap (λ t. get_elem? t app.current) (sym v.trace) ∙ at) in
      (e, at, (made, current-pane app e made.3.state at made.3.regs))

module _ (f : Files) (orders : Orders) (host : Host) where
  -- A file that is opened is that of a trace with steps.
  pub opened :
      (disk : f.Disk) (file : Text) (db : TraceDb) (app : App host)
      → load f disk file ≡ ok db
      → open_tui f orders host disk file ≡ ok app
      → (app ≡ new host orders db file) × ((length (Storage.get_all db) == 0) ≡ false)
  unfolding open_tui
  opened disk file db app loaded h = elim (Bool-cases (Storage.count db == 0)) [
    | inl empty ↦ absurd (let p = rw (loaded, empty, open_with) at h in cc)
    | inr some_steps ↦
        let p = rw (loaded, some_steps, open_with) at h in (cc, rw (length-get_all db) some_steps)
  ]

-- The viewer that opens a trace which the loop has saved shows the architecture under which the
-- tracer ran, and starts from the stack pointer that the step found which made the first entry. The disk is
-- to read back what was written, the decoding to invert the encoding, the JSON reader to find what
-- the JSON writer wrote, and the rounds are to be fewer than 2 ^ 64.
pub traced-Opens :
    {arch : Arch} (os : Os arch) (f : Files) (exe : Text) (orders : Orders) (host : Host)
    → IsFaithful f
    → ReadsBack os host
    → (fuel : ℕ) (running : ℕ → Bool) (w : os.World) (disk : f.Disk) (pid : ℤ) (output : Text)
      (z : SessionEnd os f exe) (app : App host)
    → fuel < 2 ^ 64
    → trace_loop os f exe fuel running w disk pid output ≡ some (done z)
    → open_tui f orders host z.disk output ≡ ok app
    → (app.arch ≡ label arch) × Opens os app.trace app.base_sp
unfolding new
traced-Opens {arch} os f exe orders host faithful back fuel running w disk pid output z app small h
      shown =
    let (last, history, let_go, loaded) =
      trace_loop-saves os f exe faithful fuel running w disk pid output z small h in
    let (same, some_steps) = opened f orders host z.disk output z.loop.tracer.db app loaded shown in
    let all = Replays-IsMade os _ _ _ _ history.replay in
    let (name, opens) = opened_first os host back _ some_steps all in
    (ap (λ a. a.arch) same ∙ name, subst (λ a. Opens os a.trace a.base_sp) (sym same) opens)

-- Wherever the keys have taken the viewer of a trace that the loop has saved, its registers pane
-- has a line for each register that the step found which made the current entry, with its name and
-- its value in hexadecimal, in the one order of `shown_order`, in whatever order the hash map is
-- walked. The disk is to read back what was written, the decoding to invert
-- the encoding, the JSON reader to find what the JSON writer wrote, and the rounds are to be fewer
-- than 2 ^ 64.
pub traced-registers :
    {arch : Arch} (os : Os arch) (f : Files) (exe : Text) (orders : Orders) (host : Host)
    (r : Ratatui)
    → IsFaithful f
    → ReadsBack os host
    → (fuel : ℕ) (running : ℕ → Bool) (w : os.World) (disk : f.Disk) (pid : ℤ) (output : Text)
      (z : SessionEnd os f exe) (app : App host) (inputs : List Input) (s : Session r host)
    → fuel < 2 ^ 64
    → trace_loop os f exe fuel running w disk pid output ≡ some (done z)
    → open_tui f orders host z.disk output ≡ ok app
    → main_loop r host app inputs ≡ done s
    → ShowsRegisters os host s.0
traced-registers os f exe orders host r faithful back fuel running w disk pid output z app inputs s
      small h shown keys =
    let (last, history, let_go, loaded) =
      trace_loop-saves os f exe faithful fuel running w disk pid output z small h in
    let (same, some_steps) = opened f orders host z.disk output z.loop.tracer.db app loaded shown in
    let all = Replays-IsMade os _ _ _ _ history.replay in
    valid-ShowsRegisters os host back (Storage.get_all z.loop.tracer.db) s.0 some_steps all
      (main_loop-IsValid r host orders z.loop.tracer.db output inputs s (rw same at keys))
