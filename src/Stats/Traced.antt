-- ===== src/Stats/Traced.antt =====
-- The statistics of a trace against the instructions that were traced.
use mathlib.Core.List.{map, map-append}
use tiny_binary_debugger.Base.{ℕ, ◌≡◌, refl, ap, sym, ◌∙◌, Bool, List, [], ◌∷◌, ◌++◌, ok}
use tiny_binary_debugger.Os.{Arch, Os, ThreadState, Insn}
use tiny_binary_debugger.Stats.{Orders, is_call_text, is_return_text, analyze}
use tiny_binary_debugger.Stats.Analyze.{analyze_totals}
use tiny_binary_debugger.Stats.Counter.{count_if, count_if-snoc}
use tiny_binary_debugger.Storage
use tiny_binary_debugger.Storage.{TraceEntry}
use tiny_binary_debugger.Text.{Text, codes, contains}
use tiny_binary_debugger.Tracer.Annotation.{
  is_call, is_return, or_empty, insn_text, annotation, full_text, next_depth,
}
use tiny_binary_debugger.Tracer.Classify.{IsPlain, annotation_read_back}
use tiny_binary_debugger.Tracer.Depth.{depth_after, depth_after-append}
use tiny_binary_debugger.Tracer.Effects.{Seen}
use tiny_binary_debugger.Tracer.History.{Replays, begun, failed, stepped, IsHistory}
use tiny_binary_debugger.Tracer.Registers.{pc_of}
use tiny_binary_debugger.Tracer.Step.{Tracer}

-- The disassembler writes no capital C and no capital R; Capstone writes lower case.
pub record IsLowerCase {arch : Arch} (os : Os arch) : Type 0 where
  pub plain :
      (code : List ℕ) (addr : ℕ) (insn : Insn) (after : List Insn)
      → os.disasm_all code addr ≡ ok (insn ∷ after)
      → IsPlain (or_empty insn.mnemonic) × IsPlain (or_empty insn.op_str)

abbrev pub mnemonics_of : List Insn → List Text
mnemonics_of insns = map (λ i. or_empty i.mnemonic) insns

-- The entry shows an instruction that was decoded at the program counter of some thread, annotated
-- by the depth of calls.
pub record Shows {arch : Arch} (os : Os arch) (depth : ℕ) (e : TraceEntry) (insn : Insn)
    : Type 0 where
  pub task : ℕ
  pub world : os.World
  pub state : ThreadState arch
  pub seen : Seen os task world state insn
  pub bytes : e.insn_bytes ≡ insn.bytes
  pub text :
      e.insn_text
      ≡ full_text
          (insn_text (or_empty insn.mnemonic) (or_empty insn.op_str))
          (annotation arch (or_empty insn.mnemonic) depth)

-- The entries show these instructions, one each, and the depth of each is that which the calls and
-- returns before it leave.
pub data Ran {arch : Arch} (os : Os arch) : List TraceEntry → List Insn → Type 0 where
  nothing : Ran os [] []
  another :
      (es : List TraceEntry) (insns : List Insn) (e : TraceEntry) (insn : Insn)
      → Ran os es insns
      → Shows os (depth_after arch (mnemonics_of insns) 0) e insn
      → Ran os (es ++ e ∷ []) (insns ++ insn ∷ [])

counts_agree :
    (p : TraceEntry → Bool) (q : Text → Bool) (es : List TraceEntry) (insns : List Insn)
    (e : TraceEntry) (insn : Insn)
    → count_if p es ≡ count_if q (mnemonics_of insns)
    → p e ≡ q (or_empty insn.mnemonic)
    → count_if p (es ++ e ∷ []) ≡ count_if q (mnemonics_of (insns ++ insn ∷ []))
counts_agree p q es insns e insn before last =
    count_if-snoc p es e
    ∙ rw (last, before) refl
    ∙ sym (count_if-snoc q (mnemonics_of insns) (or_empty insn.mnemonic))
    ∙ ap (count_if q) (sym (map-append (λ i. or_empty i.mnemonic) insns (insn ∷ [])))

module _ {arch : Arch} (os : Os arch) where
  depth_of_more :
      (insns : List Insn) (insn : Insn) (depth : ℕ)
      → depth ≡ depth_after arch (mnemonics_of insns) 0
      → next_depth arch (or_empty insn.mnemonic) depth
        ≡ depth_after arch (mnemonics_of (insns ++ insn ∷ [])) 0
  unfolding depth_after
  depth_of_more insns insn depth h =
      ap (next_depth arch (or_empty insn.mnemonic)) h
      ∙ sym (depth_after-append arch (mnemonics_of insns) (or_empty insn.mnemonic ∷ []) 0)
      ∙ ap (λ ms. depth_after arch ms 0)
          (sym (map-append (λ i. or_empty i.mnemonic) insns (insn ∷ [])))

  Replays-Ran :
      (start : os.World) (t : Tracer) (w : os.World) (es : List TraceEntry)
      → Replays os start t w es
      → (insns : List Insn) × Ran os es insns
        × (t.call_depth ≡ depth_after arch (mnemonics_of insns) 0)
  Replays-Ran start t w es (begun t' top cold) = ([], nothing, top ∙ unfold depth_after in refl)
  Replays-Ran start t w es (failed t' w' _ r e k) =
      let (insns, ran, deep) = Replays-Ran start t' w' es r in (insns, ran, k.call_depth ∙ deep)
  Replays-Ran start t w es (stepped t' w' before e r made) =
      let (insns, ran, deep) = Replays-Ran start t' w' before r in
      (
        insns ++ made.insn ∷ [],
        another before insns e made.insn ran (record {
          task = t'.task;
          world = w';
          state = made.state;
          seen = made.seen;
          bytes = made.bytes;
          text =
              made.text
              ∙ ap
                  (λ depth.
                    full_text (insn_text (or_empty made.insn.mnemonic) (or_empty made.insn.op_str))
                      (annotation arch (or_empty made.insn.mnemonic) depth))
                  deep;
        }),
        made.deeper ∙ depth_of_more insns made.insn t'.call_depth deep,
      )

  module _ (lower : IsLowerCase os) where
    Shows-texts :
        (depth : ℕ) (e : TraceEntry) (insn : Insn)
        → Shows os depth e insn
        → (is_call_text e ≡ is_call arch (or_empty insn.mnemonic))
          × (is_return_text e ≡ is_return arch (or_empty insn.mnemonic))
    unfolding is_call_text is_return_text
    Shows-texts depth e insn s =
        let (pm, po) =
          lower.plain s.seen.code (pc_of arch s.state) insn s.seen.after s.seen.decoded in
        let (call, return) =
          annotation_read_back arch (or_empty insn.mnemonic) (or_empty insn.op_str) depth pm po in
        (
          ap (λ t. contains t (codes "CALL")) s.text ∙ call,
          ap (λ t. contains t (codes "RETURN")) s.text ∙ return,
        )

    Ran-counts :
        (es : List TraceEntry) (insns : List Insn)
        → Ran os es insns
        → (count_if is_call_text es ≡ count_if (is_call arch) (mnemonics_of insns))
          × (count_if is_return_text es ≡ count_if (is_return arch) (mnemonics_of insns))
    Ran-counts es insns nothing = (unfold count_if in refl, unfold count_if in refl)
    Ran-counts es insns (another es' insns' e insn ran s) =
        let (calls, returns) = Ran-counts es' insns' ran in
        let (call, return) = Shows-texts _ e insn s in
        (
          counts_agree is_call_text (is_call arch) es' insns' e insn calls call,
          counts_agree is_return_text (is_return arch) es' insns' e insn returns return,
        )

    -- A trace that steps recorded shows a run of instructions, one for each entry, each decoded at
    -- the program counter of a thread and annotated by the depth that the calls and returns before
    -- it leave; the depth of the tracer is that after all of them. The statistics of the trace count
    -- as calls and returns exactly the calls and returns of the architecture in that run. The
    -- disassembler is to write no capital C and no capital R.
    pub history-calls :
        (orders : Orders) (start : os.World) (t : Tracer) (w : os.World)
        → IsHistory os start t w
        → (insns : List Insn) × Ran os (Storage.get_all t.db) insns
          × (t.call_depth ≡ depth_after arch (mnemonics_of insns) 0)
          × ((analyze orders t.db).call_count ≡ count_if (is_call arch) (mnemonics_of insns))
          × ((analyze orders t.db).ret_count ≡ count_if (is_return arch) (mnemonics_of insns))
    unfolding analyze
    history-calls orders start t w h =
        let es = Storage.get_all t.db in
        let (insns, ran, deep) = Replays-Ran start t w es h.replay in
        let (calls, returns) = Ran-counts es insns ran in
        let (steps, call_count, ret_count, jumps, changes, addresses) = analyze_totals orders es in
        (insns, ran, deep, call_count ∙ calls, ret_count ∙ returns)
