-- ===== src/TraceLoop/Summary.antt =====
-- The totals at the end of the loop.
use mathlib.Core.Path.{ap, subst}
use tiny_binary_debugger.Base.{
  true, false, ℕ, suc, ◌+◌, ◌^◌, ◌<◌, ◌≡◌, refl, sym, ◌∙◌, ◌⊎◌, inl, inr, Bool, some, List, [], ◌∷◌,
  ◌++◌, Outcome, done, panicked, arith,
}
use tiny_binary_debugger.Os.{Arch, Os}
use tiny_binary_debugger.Storage
use tiny_binary_debugger.Storage.{TraceEntry, TraceDb}
use tiny_binary_debugger.Text.{Text}
use tiny_binary_debugger.Tracer.Step.{
  StepResult, recorded, process_exited, error, Tracer, single_step,
}
use tiny_binary_debugger.Tracer.Trace.{single_step_cases}
use tiny_binary_debugger.Tracer.Effects.{Advanced, Kept, IsError, Reports}
use tiny_binary_debugger.Tracer.Dense.{IsTrace, single_step-IsTrace}
use tiny_binary_debugger.TraceLoop.{
  Counters, on_entry, LoopEnd, stop, next, round_of_entry, round, run,
}
use tiny_binary_debugger.TraceLoop.Rule.{IsKept, run_inv}
use tiny_binary_debugger.TraceLoop.Saved.{entry_no_stop, next_tracer}
use mathlib.Core.List.{append_assoc, append-nil}
use tiny_binary_debugger.TraceLoop.Counts.{Tallies, on_entry-Tallies}
use tiny_binary_debugger.Tracer.History.{get_all-after_insert}
use tiny_binary_debugger.TraceLoop.Watched.{
  started, handed, failed, withheld, ended, Tallied, SameTotals, Same-Tallies, error_next,
  error_stop,
}

module _ {arch : Arch} (os : Os arch) (s : LoopEnd os.World) where
  open os use {World}

  -- What is true between rounds: no gaps, room for `n` more steps, and counters that tally.
  record Running (n : ℕ) (s₁ : LoopEnd World) : Type 0 where
    dense : IsTrace s₁.tracer
    room : s₁.tracer.step_count + n < 2 ^ 64
    tallied : Tallied os s false s₁

  -- What a result makes of the counters and the tracer before it.
  abbrev Step : Tracer → World → StepResult × Tracer × World → Type 0
  Step t v x =
      (IsError x.0 × Kept t x.1) ⊎ ((e : TraceEntry) × Advanced os t v x.1 e × Reports os x.0 e)

  -- The trace after a step that stored an entry.
  longer :
      (es : List TraceEntry) (t : Tracer) (v : World) (u : Tracer) (e : TraceEntry)
      → IsTrace t
      → Advanced os t v u e
      → Storage.get_all t.db ≡ Storage.get_all s.tracer.db ++ es
      → Storage.get_all u.db ≡ Storage.get_all s.tracer.db ++ (es ++ e ∷ [])
  longer es t v u e trace a h =
      get_all-after_insert t v u e trace a
      ∙ ap (λ l. l ++ e ∷ []) h
      ∙ append_assoc (Storage.get_all s.tracer.db) es (e ∷ [])

  error_Tallied :
      (s₁ s₂ : LoopEnd World) (u : Tracer) (w : World) (m : Text)
      → IsTrace s₁.tracer
      → Step s₁.tracer s₁.world (error m, u, w)
      → single_step os s₁.tracer s₁.world ≡ (error m, u, w)
      → Tallied os s false s₁
      → s₂.tracer ≡ u
      → s₂.world ≡ w
      → SameTotals s₁.counters s₂.counters
      → Tallied os s false s₂
  error_Tallied s₁ s₂ u w m dense (inl (is_error, k)) e h at_u at_w same = record {
    stored = h.stored;
    taken = h.taken;
    watched = rw (at_u, at_w) (failed s₁.tracer s₁.world u w m h.stored h.taken h.watched e);
    trace = ap (λ t. Storage.get_all t.db) at_u ∙ ap Storage.get_all k.db ∙ h.trace;
    tallies = Same-Tallies s₁.counters s₂.counters _ same h.tallies;
  }
  error_Tallied s₁ s₂ u w m dense (inr (entry, a, why)) e h at_u at_w same = record {
    stored = h.stored ++ entry ∷ [];
    taken = h.taken;
    watched =
        rw (at_u, at_w) (withheld s₁.tracer s₁.world u w m entry h.stored h.taken h.watched e);
    trace =
        ap (λ t. Storage.get_all t.db) at_u
        ∙ longer h.stored s₁.tracer s₁.world u entry dense a h.trace;
    tallies = Same-Tallies s₁.counters s₂.counters _ same h.tallies;
  }

  entry_Tallied :
      (s₁ : LoopEnd World) (u : Tracer) (w : World) (entry : TraceEntry) (d : Counters)
      (lines : List Text)
      → IsTrace s₁.tracer
      → Step s₁.tracer s₁.world (recorded entry, u, w)
      → single_step os s₁.tracer s₁.world ≡ (recorded entry, u, w)
      → Tallied os s false s₁
      → on_entry s₁.counters entry ≡ done (d, lines)
      → Tallied os s false
          (record { counters = d; tracer = u; world = w; lines = s₁.lines ++ lines })
  entry_Tallied s₁ u w entry d lines dense (inl (absent, k)) e h p = absurd absent
  entry_Tallied s₁ u w entry d lines dense (inr (f, a, same)) e h p = record {
    stored = h.stored ++ entry ∷ [];
    taken = h.taken ++ entry ∷ [];
    watched = handed s₁.tracer s₁.world u w entry h.stored h.taken h.watched e;
    trace =
        longer h.stored s₁.tracer s₁.world u entry dense
          (subst (λ g. Advanced os s₁.tracer s₁.world u g) (sym same) a) h.trace;
    tallies =
        subst (Tallies d) (append_assoc (Storage.get_all s.tracer.db) h.taken (entry ∷ []))
          (on_entry-Tallies s₁.counters entry _ d lines h.tallies p);
  }

  entry_next :
      (s₁ s₂ : LoopEnd World) (u : Tracer) (w : World) (entry : TraceEntry)
      (o : Outcome (Counters × List Text))
      → on_entry s₁.counters entry ≡ o
      → IsTrace s₁.tracer
      → Step s₁.tracer s₁.world (recorded entry, u, w)
      → single_step os s₁.tracer s₁.world ≡ (recorded entry, u, w)
      → Tallied os s false s₁
      → round_of_entry os u w s₁.lines o ≡ done (next s₂)
      → Tallied os s false s₂
  unfolding round_of_entry
  entry_next s₁ s₂ u w entry panicked q dense st e h p = absurd (grind arith)
  entry_next s₁ s₂ u w entry (done (d, more)) q dense st e h p =
      let here : LoopEnd World = record {
        counters = d;
        tracer = u;
        world = w;
        lines = s₁.lines ++ more;
      } in
      let same : here ≡ s₂ = cc in
      subst (Tallied os s false) same (entry_Tallied s₁ u w entry d more dense st e h q)

  next_Tallied :
      (s₁ s₂ : LoopEnd World) (x : StepResult × Tracer × World)
      → IsTrace s₁.tracer
      → Step s₁.tracer s₁.world x
      → single_step os s₁.tracer s₁.world ≡ x
      → Tallied os s false s₁
      → round os s₁.counters s₁.lines x ≡ done (next s₂)
      → Tallied os s false s₂
  unfolding round
  next_Tallied s₁ s₂ (recorded entry, u, w) dense st e h p =
      entry_next s₁ s₂ u w entry (on_entry s₁.counters entry) refl dense st e h p
  next_Tallied s₁ s₂ (process_exited code, u, w) dense st e h p = absurd (grind arith)
  next_Tallied s₁ s₂ (error m, u, w) dense st e h p =
      let (at_u, at_w, same) = error_next os s₁.counters s₁.lines m u w s₂ p in
      error_Tallied s₁ s₂ u w m dense st e h at_u at_w same

  stop_Tallied :
      (s₁ s₂ : LoopEnd World) (x : StepResult × Tracer × World)
      → IsTrace s₁.tracer
      → Step s₁.tracer s₁.world x
      → single_step os s₁.tracer s₁.world ≡ x
      → Tallied os s false s₁
      → round os s₁.counters s₁.lines x ≡ done (stop s₂)
      → (exited : Bool) × Tallied os s exited s₂
  unfolding round
  stop_Tallied s₁ s₂ (recorded entry, u, w) dense st e h p =
      absurd (entry_no_stop os u w s₁.lines (on_entry s₁.counters entry) s₂ p)
  stop_Tallied s₁ s₂ (process_exited code, u, w) dense (inl (absent, k)) e h p = absurd absent
  stop_Tallied s₁ s₂ (process_exited code, u, w) dense (inr (entry, a, why)) e h p =
      let at_u : s₂.tracer ≡ u = ground arith in
      let at_w : s₂.world ≡ w = ground arith in
      let totals : SameTotals s₁.counters s₂.counters = record {
        calls = ground arith;
        returns = ground arith;
        changes = ground arith;
      } in
      (
        true,
        record {
          stored = h.stored ++ entry ∷ [];
          taken = h.taken;
          watched =
              rw (at_u, at_w)
                (ended s₁.tracer s₁.world u w code entry h.stored h.taken h.watched e);
          trace =
              ap (λ t. Storage.get_all t.db) at_u
              ∙ longer h.stored s₁.tracer s₁.world u entry dense a h.trace;
          tallies = Same-Tallies s₁.counters s₂.counters _ totals h.tallies;
        },
      )
  stop_Tallied s₁ s₂ (error m, u, w) dense st e h p =
      let (at_u, at_w, same) = error_stop os s₁.counters s₁.lines m u w s₂ p in
      (false, error_Tallied s₁ s₂ u w m dense st e h at_u at_w same)

  -- The next step has room.
  next_room :
      (n : ℕ) (s₁ s₂ : LoopEnd World)
      → s₁.tracer.step_count + suc n < 2 ^ 64
      → round os s₁.counters s₁.lines (single_step os s₁.tracer s₁.world) ≡ done (next s₂)
      → s₂.tracer.step_count + n < 2 ^ 64
  next_room n s₁ s₂ room p =
      let (at_u, at_w) = next_tracer os s₁.counters s₁.lines _ s₂ p in
      let at = ap (λ t. t.step_count) at_u in
      elim (single_step_cases os s₁.tracer s₁.world) [
        | inl (is_error, k) ↦ omega (arith, k.step_count, at)
        | inr (e, a, why) ↦ ground (arith, a.step_count, at)
      ]

  summary_kept : IsKept os (λ n s₁. Running n s₁) (λ s₁. (exited : Bool) × Tallied os s exited s₁)
  summary_kept = record {
    on_next = λ n s₁ s₂ p e. record {
      dense =
          subst IsTrace (sym (next_tracer os s₁.counters s₁.lines _ s₂ e).0)
            (single_step-IsTrace os s₁.tracer s₁.world (let r = p.room in omega arith) p.dense);
      room = next_room n s₁ s₂ p.room e;
      tallied =
          next_Tallied s₁ s₂ (single_step os s₁.tracer s₁.world) p.dense
            (single_step_cases os s₁.tracer s₁.world) refl p.tallied e;
    };
    on_stop = λ n s₁ s₂ p e.
        stop_Tallied s₁ s₂ (single_step os s₁.tracer s₁.world) p.dense
          (single_step_cases os s₁.tracer s₁.world) refl p.tallied e;
    on_halt = λ n s₁ lines p.
        let h = p.tallied in
        (
          false,
          record {
            stored = h.stored;
            taken = h.taken;
            watched = h.watched;
            trace = h.trace;
            tallies = h.tallies;
          },
        );
  }

  -- When the loop ends, the calls, returns and memory changes that it has counted are those of the
  -- entries that its steps handed to it, and the trace has besides, each in its place, the entries
  -- that were stored by a step that then reported an error, or the exit of the process. It is to
  -- start from a trace without gaps whose totals tally, and the steps are to be fewer than 2 ^ 64.
  pub run-Tallied :
      (running : ℕ → Bool) (fuel : ℕ) (s' : LoopEnd World)
      → IsTrace s.tracer
      → s.tracer.step_count + fuel < 2 ^ 64
      → Tallies s.counters (Storage.get_all s.tracer.db)
      → run os fuel running 0 s ≡ some (done s')
      → (exited : Bool) × Tallied os s exited s'
  run-Tallied running fuel s' dense room tallies h =
      run_inv os _ _ summary_kept running fuel 0 s s'
        (record {
          dense = dense;
          room = room;
          tallied = record {
            stored = [];
            taken = [];
            watched = started;
            trace = sym (append-nil (Storage.get_all s.tracer.db));
            tallies =
                subst (Tallies s.counters) (sym (append-nil (Storage.get_all s.tracer.db))) tallies;
          };
        })
        h
