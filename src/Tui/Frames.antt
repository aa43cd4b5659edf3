-- ===== src/Tui/Frames.antt =====
-- The frames that `main_loop` draws: it panics on no trace of ASCII texts, and the viewer stays valid.
use mathlib.Core.Path.{subst}
use tiny_binary_debugger.Base.{
  Yields-if, Yields->>=, Yields-after, IsDone->>=, Yields-done, Yields, IsDone, take, ℕ, zero, suc,
  ◌<◌, ◌≡◌, refl, sym, List, [], ◌∷◌, ◌++◌, length, get_elem?_in_range, ltb, done, arith,
  Bool-cases, inl, inr, All,
}
use tiny_binary_debugger.Stats.{Orders}
use tiny_binary_debugger.Storage
use tiny_binary_debugger.Storage.{TraceEntry, TraceDb}
use tiny_binary_debugger.Text.{codes, Text}
use tiny_binary_debugger.Text.Laws.{IsAscii, byte_len_ascii, slice_to-take}
use tiny_binary_debugger.Tui.{Host, App, Mode, normal, search, help, new}
use tiny_binary_debugger.Tui.Draw.{
  centered_rect, render_right, render_main, render_help, popup_of, ui,
}
use tiny_binary_debugger.Tui.Keys.{handle_event}
use tiny_binary_debugger.Tui.Loop.{Input, Session, main_loop}
use tiny_binary_debugger.Tui.Panes.Timeline.{insn_short, row, rows, render_timeline}
use tiny_binary_debugger.Tui.Screen
use tiny_binary_debugger.Tui.Screen.{
  vertical, at_least, Direction, Constraint, Rect, Line, Drawn, Widget, Ratatui, index,
}
use tiny_binary_debugger.Tui.Valid.{
  Below, IsValid, handle_event-IsValid, selected-IsValid, new-IsValid,
}

-- A layout is split into as many areas as there are constraints.
pub record IsLayout (r : Ratatui) : Type 0 where
  pub length-split :
      (d : Direction) (cs : List Constraint) (area : Rect) → length (r.split d cs area) ≡ length cs

-- All instructions are ASCII texts.
abbrev pub AllAscii : List TraceEntry → Type 0
AllAscii = All (λ e. IsAscii e.insn_text)

index-IsDone {ℓ} : {A : Type ℓ} (xs : List A) (i : ℕ) → i < length xs → IsDone (index xs i)
unfolding index
index-IsDone xs i lt = let (a, e) = get_elem?_in_range xs i lt in (a, rw e refl)

insn_short-IsDone : (text : Text) → IsAscii text → IsDone (insn_short text)
unfolding insn_short
insn_short-IsDone text ascii = elim (Bool-cases (ltb 22 (length text))) [
  | inl long ↦
      let part = slice_to-take text 20 ascii (ground arith) in
      (take 20 text ++ codes "..", rw (byte_len_ascii text ascii, long, part) refl)
  | inr short ↦ (text, rw (byte_len_ascii text ascii, short) refl)
]

index-All {ℓ κ} :
    {A : Type ℓ} (P : A → Type κ) (xs : List A) (i : ℕ) (a : A)
    → All P xs
    → index xs i ≡ done a
    → P a
unfolding index
index-All P [] i a all h = absurd (cc)
index-All P (x ∷ xs) zero a all h = let same : x ≡ a = cc in subst P same all.0
index-All P (x ∷ xs) (suc i) a all h = index-All P xs i a all.1 h

module _ (r : Ratatui) (layout : IsLayout r) where
  open r use {split}

  area-IsDone :
      (d : Direction) (cs : List Constraint) (area : Rect) (i : ℕ)
      → i < length cs
      → IsDone (index (split d cs area) i)
  area-IsDone d cs area i lt =
      index-IsDone (split d cs area) i (let n = layout.length-split d cs area in omega arith)

  module _ (host : Host) (app : App host) (ascii : AllAscii app.trace) where
    row-IsDone : (i : ℕ) → i < length app.trace → IsDone (row host app i)
    unfolding row
    row-IsDone i lt = IsDone->>= _ _ (index-IsDone app.trace i lt) (λ e at.
        IsDone->>= _ _ (insn_short-IsDone e.insn_text (index-All _ app.trace i e ascii at))
          (λ t _. (_, refl)))

    rows-IsDone : (is : List ℕ) → Below (length app.trace) is → IsDone (rows host app is)
    unfolding rows
    rows-IsDone [] below = ([], refl)
    rows-IsDone (i ∷ is) below =
        IsDone->>= _ _ (row-IsDone i below.0)
          (λ line _. IsDone->>= _ _ (rows-IsDone is below.1) (λ lines _. (_, refl)))

    render_timeline-IsDone :
        Below (length app.trace) app.filtered_indices → IsDone (render_timeline host app)
    unfolding render_timeline
    render_timeline-IsDone below =
        IsDone->>= _ _ (rows-IsDone app.filtered_indices below) (λ items _. (_, refl))

    render_right-IsDone : (area : Rect) → IsDone (render_right r host app area)
    unfolding render_right
    render_right-IsDone area =
        IsDone->>= _ _ (area-IsDone _ _ area 0 (omega arith))
          (λ upper _. IsDone->>= _ _ (area-IsDone _ _ area 1 (omega arith)) (λ lower _. (_, refl)))

    render_main-IsDone :
        (area : Rect)
        → Below (length app.trace) app.filtered_indices
        → IsDone (render_main r host app area)
    unfolding render_main
    render_main-IsDone area below = IsDone->>= _ _ (area-IsDone _ _ area 0 (omega arith)) (λ left _.
        IsDone->>= _ _ (render_timeline-IsDone below) (λ timeline _.
          IsDone->>= _ _ (area-IsDone _ _ area 1 (omega arith)) (λ middle _.
            IsDone->>= _ _ (area-IsDone _ _ area 2 (omega arith))
              (λ right _. IsDone->>= _ _ (render_right-IsDone right) (λ panes _. (_, refl))))))

  popup-IsDone : (host : Host) (mode : Mode) (area : Rect) → IsDone (popup_of r host mode area)
  unfolding popup_of render_help centered_rect
  popup-IsDone host normal area = ([], refl)
  popup-IsDone host (search q) area = ([], refl)
  popup-IsDone host help area =
      IsDone->>= _ _
        (IsDone->>= _ _ (area-IsDone _ _ area 1 (omega arith))
          (λ strip _. area-IsDone _ _ strip 1 (omega arith)))
        (λ popup _. (_, refl))

  pub ui-IsDone :
      (host : Host) (app : App host) (area : Rect)
      → AllAscii app.trace
      → Below (length app.trace) app.filtered_indices
      → IsDone (ui r host app area)
  unfolding ui
  ui-IsDone host app area ascii below =
      IsDone->>= _ _ (area-IsDone _ _ area 0 (omega arith)) (λ top _.
        IsDone->>= _ _ (area-IsDone _ _ area 1 (omega arith)) (λ middle _.
          IsDone->>= _ _ (render_main-IsDone host app ascii middle below) (λ main _.
            IsDone->>= _ _ (area-IsDone _ _ area 2 (omega arith)) (λ bottom _.
              IsDone->>= _ _ (popup-IsDone host app.mode area) (λ popup _. (_, refl))))))

module _ (r : Ratatui) (host : Host) where
  -- Drawing changes nothing but the selected row.
  pub ui-selected :
      (app : App host) (area : Rect)
      → Yields
          (λ x.
            x.0
            ≡ record app { selected = r.list_selected (length app.filtered_indices) app.selected })
          (ui r host app area)
  unfolding ui
  ui-selected app area =
      let outer = r.split vertical (Screen.length 3 ∷ at_least 10 ∷ Screen.length 3 ∷ []) area in
      Yields-after (index outer 0) (λ top. Yields-after (index outer 1) (λ middle.
        Yields-after (render_main r host app middle) (λ main.
          Yields-after (index outer 2) (λ bottom.
            Yields-after (popup_of r host app.mode area) (λ popup. Yields-done _ _ refl)))))

  module _ (es : List TraceEntry) where
    main_loop_inv :
        (app : App host) (inputs : List Input)
        → IsValid host es app
        → Yields (λ s. IsValid host es s.0) (main_loop r host app inputs)
    unfolding main_loop
    main_loop_inv app [] v = Yields-done _ _ v
    main_loop_inv app ((area, event) ∷ inputs) v =
        Yields->>= _ (ui r host app area) _ (ui-selected app area) (λ x drew.
          let drawn = subst (IsValid host es) (sym drew) (selected-IsValid host es app _ v) in
          let next = handle_event-IsValid host es x.0 event drawn in
          Yields-if _ _ _ (Yields-done _ _ next) (
            Yields->>= _ _ _ (main_loop_inv (handle_event host x.0 event) inputs next)
              (λ s valid. Yields-done _ _ valid)))

-- Whatever the terminal's areas and the events are, if the viewer that was opened on a trace draws
-- without a panic, then the trace it ends with is the whole trace of the database, the current entry
-- is one of it (index 0, if the trace is empty), and so is every entry that the list shows.
pub main_loop-IsValid :
    (r : Ratatui) (host : Host) (orders : Orders) (db : TraceDb) (file : Text) (inputs : List Input)
    (s : Session r host)
    → main_loop r host (new host orders db file) inputs ≡ done s
    → IsValid host (Storage.get_all db) s.0
main_loop-IsValid r host orders db file inputs s h =
    (main_loop_inv r host (Storage.get_all db) (new host orders db file) inputs
        (new-IsValid host orders db file)).at
      s h

module _ (r : Ratatui) (layout : IsLayout r) (host : Host) (es : List TraceEntry)
    (ascii : AllAscii es) where
  valid-ui-IsDone :
      (app : App host) (area : Rect) → IsValid host es app → IsDone (ui r host app area)
  valid-ui-IsDone app area v =
      let rows = v.rows in
      ui-IsDone r layout host app area (subst AllAscii (sym v.trace) ascii)
        (subst (λ t. Below (length t) app.filtered_indices) (sym v.trace) rows)

  pub main_loop-IsDone :
      (app : App host) (inputs : List Input)
      → IsValid host es app
      → IsDone (main_loop r host app inputs)
  unfolding main_loop
  main_loop-IsDone app [] v = ((app, []), refl)
  main_loop-IsDone app ((area, event) ∷ inputs) v =
      IsDone->>= (ui r host app area) _ (valid-ui-IsDone app area v) (λ x e.
        let drew = (ui-selected r host app area).at x e in
        let drawn = subst (IsValid host es) (sym drew) (selected-IsValid host es app _ v) in
        let next = handle_event host x.0 event in
        elim (Bool-cases next.should_quit) [
          | inl quits ↦ ((next, x.1 ∷ []), rw quits refl)
          | inr stays ↦
              let (s, p) =
                main_loop-IsDone next inputs (handle_event-IsValid host es x.0 event drawn) in
              ((s.0, x.1 ∷ s.1), rw (stays, p) refl)
        ])

-- A trace whose instructions are ASCII texts is shown without a panic, whatever the terminal's areas
-- and the events are. A layout is to be split into as many areas as it has constraints.
pub main_loop-draws :
    (r : Ratatui) (host : Host) (orders : Orders) (db : TraceDb) (file : Text) (inputs : List Input)
    → IsLayout r
    → AllAscii (Storage.get_all db)
    → IsDone (main_loop r host (new host orders db file) inputs)
main_loop-draws r host orders db file inputs layout ascii =
    main_loop-IsDone r layout host (Storage.get_all db) ascii (new host orders db file) inputs
      (new-IsValid host orders db file)
