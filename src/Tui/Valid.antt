-- ===== src/Tui/Valid.antt =====
-- Whatever keys are pressed, the viewer stays within its trace.
use tiny_binary_debugger.Base.{
  ℕ, zero, suc, ◌+◌, ◌≤◌, ◌<◌, ◌≡◌, refl, ap, Bool, true, false, Option, none, some, List, [], ◌∷◌,
  ◌++◌, length, leb, ◌==◌, if◌then◌else◌, arith, Bool-cases, inl, inr, max, All, is_empty,
}
use tiny_binary_debugger.Base.Int.{ℤ, pos, negsuc}
use tiny_binary_debugger.Storage
use tiny_binary_debugger.Storage.{TraceEntry, TraceDb}
use tiny_binary_debugger.Stats.{Orders}
use tiny_binary_debugger.Text.{Text, codes}
use tiny_binary_debugger.Tui.{
  Host, Mode, normal, search, help, App, indices, matching, new, select, step, select_found,
  find_next, find_prev, filter_by, apply_search,
}
use tiny_binary_debugger.Tui.Keys.{
  KeyCode, char, esc, left, right, down, up, home, end, page_down, page_up, enter, backspace, other,
  Event, press, no_press, pop, quit, select_last, handle_char, handle_normal_key, edit_query,
  cancel_search, handle_search_key, handle_key, handle_event,
}

abbrev pub Below : ℕ → List ℕ → Type 0
Below n = All (λ i. i < n)

indices-Below : (i n m : ℕ) → i + n ≤ m → Below m (indices i n)
unfolding indices
indices-Below i zero m h = tt
indices-Below i (suc n) m h = (omega arith, indices-Below (i + 1) n m (omega arith))

matching-Below :
    (p : TraceEntry → Bool) (i m : ℕ) (es : List TraceEntry)
    → i + length es ≤ m
    → Below m (matching p i es)
unfolding matching
matching-Below p i m [] h = tt
matching-Below p i m (e ∷ es) h = elim (Bool-cases (p e)) [
  | inl hit ↦ rw hit (omega arith, matching-Below p (i + 1) m es (omega arith))
  | inr miss ↦ rw miss (matching-Below p (i + 1) m es (omega arith))
]

module _ (host : Host) (es : List TraceEntry) where
  -- The trace is the one that was loaded, the current entry is one of it (the first, of an empty
  -- trace), and so is every entry that the list shows.
  pub record IsValid (app : App host) : Type 0 where
    pub trace : app.trace ≡ es
    pub current : app.current < max 1 (length es)
    pub rows : Below (length es) app.filtered_indices

  either_way : (b : Bool) (x y : App host) → IsValid x → IsValid y → IsValid (if b then x else y)
  either_way true x y hx hy = hx
  either_way false x y hx hy = hy

  select-IsValid : (app : App host) (idx : ℕ) → IsValid app → IsValid (select host app idx)
  unfolding select
  select-IsValid app idx h = elim (Bool-cases (leb (length app.trace) idx)) [
    | inl out ↦ rw out h
    | inr within ↦ rw within (record {
      trace = h.trace;
      current = let same = ap length h.trace in ground arith;
      rows = h.rows;
    })
  ]

  step-IsValid : (app : App host) (delta : ℤ) → IsValid app → IsValid (step host app delta)
  unfolding step
  step-IsValid app delta h = select-IsValid app _ h

  select_found-IsValid :
      (app : App host) (o : Option ℕ) → IsValid app → IsValid (select_found host app o)
  unfolding select_found
  select_found-IsValid app none h = h
  select_found-IsValid app (some i) h = select-IsValid app i h

  find_next-IsValid :
      (app : App host) (what : Text) → IsValid app → IsValid (find_next host app what)
  unfolding find_next
  find_next-IsValid app what h = select_found-IsValid app _ h

  find_prev-IsValid :
      (app : App host) (what : Text) → IsValid app → IsValid (find_prev host app what)
  unfolding find_prev
  find_prev-IsValid app what h = select_found-IsValid app _ h

  pub filter_by-Below : (query : Text) → Below (length es) (filter_by host query es)
  unfolding filter_by
  filter_by-Below query = elim (Bool-cases (is_empty (host.to_lowercase query))) [
    | inl e ↦ rw e (indices-Below 0 (length es) (length es) (omega arith))
    | inr e ↦ rw e (matching-Below _ 0 (length es) es (omega arith))
  ]

  in_mode : (app : App host) (m : Mode) → IsValid app → IsValid (record app { mode = m })
  in_mode app m h = record { trace = h.trace; current = h.current; rows = h.rows }

  apply_search-IsValid :
      (app : App host) (query : Text) → IsValid app → IsValid (apply_search host app query)
  unfolding apply_search
  apply_search-IsValid app query h =
      select_found-IsValid _ _
        (record { trace = h.trace; current = h.current; rows = rw h.trace (filter_by-Below query) })

  quit-IsValid : (app : App host) → IsValid app → IsValid (quit host app)
  unfolding quit
  quit-IsValid app h = record { trace = h.trace; current = h.current; rows = h.rows }

  select_last-IsValid : (app : App host) → IsValid app → IsValid (select_last host app)
  unfolding select_last
  select_last-IsValid app h = select-IsValid app _ h

  handle_char-IsValid : (app : App host) (c : ℕ) → IsValid app → IsValid (handle_char host app c)
  unfolding handle_char
  handle_char-IsValid app c h =
      let back = step-IsValid app (negsuc 0) h in
      let on = step-IsValid app (pos 1) h in
      either_way (c == b'q') _ _ (quit-IsValid app h) (
        either_way (c == b'h') _ _ back (
          either_way (c == b'l') _ _ on (
            either_way (c == b'j') _ _ on (
              either_way (c == b'k') _ _ back (
                either_way (c == b'g') _ _ (select-IsValid app 0 h) (
                  either_way (c == b'G') _ _ (select_last-IsValid app h) (
                    either_way (c == b'c') _ _ (find_next-IsValid app (codes "call") h) (
                      either_way (c == b'C') _ _ (find_prev-IsValid app (codes "call") h) (
                        either_way (c == b'r') _ _ (find_next-IsValid app (codes "ret") h) (
                          either_way (c == b'R') _ _ (find_prev-IsValid app (codes "ret") h) (
                            either_way (c == b'm') _ _ (find_next-IsValid app (codes "mem") h) (
                              either_way (c == b'M') _ _ (find_prev-IsValid app (codes "mem") h) (
                                either_way (c == b'/') _ _ (in_mode app (search []) h)
                                  (either_way (c == b'?') _ _ (in_mode app help h) h))))))))))))))

  handle_normal_key-IsValid :
      (app : App host) (code : KeyCode) → IsValid app → IsValid (handle_normal_key host app code)
  unfolding handle_normal_key
  handle_normal_key-IsValid app (char c) h = handle_char-IsValid app c h
  handle_normal_key-IsValid app esc h = quit-IsValid app h
  handle_normal_key-IsValid app left h = step-IsValid app (negsuc 0) h
  handle_normal_key-IsValid app right h = step-IsValid app (pos 1) h
  handle_normal_key-IsValid app down h = step-IsValid app (pos 1) h
  handle_normal_key-IsValid app up h = step-IsValid app (negsuc 0) h
  handle_normal_key-IsValid app home h = select-IsValid app 0 h
  handle_normal_key-IsValid app end h = select_last-IsValid app h
  handle_normal_key-IsValid app page_down h = step-IsValid app (pos 50) h
  handle_normal_key-IsValid app page_up h = step-IsValid app (negsuc 49) h
  handle_normal_key-IsValid app enter h = h
  handle_normal_key-IsValid app backspace h = h
  handle_normal_key-IsValid app other h = h

  edit_query-IsValid :
      (app : App host) (edit : Text → Text) (m : Mode)
      → IsValid app
      → IsValid (edit_query host app edit m)
  unfolding edit_query
  edit_query-IsValid app edit normal h = h
  edit_query-IsValid app edit (search q) h =
      apply_search-IsValid _ (edit q) (in_mode app (search (edit q)) h)
  edit_query-IsValid app edit help h = h

  cancel_search-IsValid : (app : App host) → IsValid app → IsValid (cancel_search host app)
  unfolding cancel_search
  cancel_search-IsValid app h = record {
    trace = h.trace;
    current = h.current;
    rows = rw h.trace (indices-Below 0 (length es) (length es) (omega arith));
  }

  handle_search_key-IsValid :
      (app : App host) (code : KeyCode) → IsValid app → IsValid (handle_search_key host app code)
  unfolding handle_search_key
  handle_search_key-IsValid app esc h = cancel_search-IsValid app h
  handle_search_key-IsValid app enter h = in_mode app normal h
  handle_search_key-IsValid app (char c) h = edit_query-IsValid app (λ q. q ++ c ∷ []) app.mode h
  handle_search_key-IsValid app backspace h = edit_query-IsValid app pop app.mode h
  handle_search_key-IsValid app left h = h
  handle_search_key-IsValid app right h = h
  handle_search_key-IsValid app down h = h
  handle_search_key-IsValid app up h = h
  handle_search_key-IsValid app home h = h
  handle_search_key-IsValid app end h = h
  handle_search_key-IsValid app page_down h = h
  handle_search_key-IsValid app page_up h = h
  handle_search_key-IsValid app other h = h

  handle_key-IsValid :
      (app : App host) (code : KeyCode) (m : Mode)
      → IsValid app
      → IsValid (handle_key host app code m)
  unfolding handle_key
  handle_key-IsValid app code normal h = handle_normal_key-IsValid app code h
  handle_key-IsValid app code (search q) h = handle_search_key-IsValid app code h
  handle_key-IsValid app code help h = in_mode app normal h

  pub handle_event-IsValid :
      (app : App host) (event : Event) → IsValid app → IsValid (handle_event host app event)
  unfolding handle_event
  handle_event-IsValid app (press code) h = handle_key-IsValid app code app.mode h
  handle_event-IsValid app no_press h = h

  -- The row that drawing selects is no part of it.
  pub selected-IsValid :
      (app : App host) (row : Option ℕ) → IsValid app → IsValid (record app { selected = row })
  selected-IsValid app row h = record { trace = h.trace; current = h.current; rows = h.rows }

pub new-IsValid :
    (host : Host) (orders : Orders) (db : TraceDb) (file : Text)
    → IsValid host (Storage.get_all db) (new host orders db file)
unfolding new
new-IsValid host orders db file = record {
  trace = refl;
  current = omega arith;
  rows = indices-Below 0 _ _ (omega arith);
}
