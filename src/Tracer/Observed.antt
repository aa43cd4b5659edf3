-- ===== src/Tracer/Observed.antt =====
-- The memory changes of a whole trace against the reads that the run has made.
use tiny_binary_debugger.Base.{
  ℕ, ◌-◌, ◌≡◌, refl, ap, ◌∙◌, Option, none, some, List, [], ◌∷◌, ◌++◌, ◌==◌, if◌then◌else◌, ok, inl,
  inr,
}
use tiny_binary_debugger.Mach.{read_memory}
use tiny_binary_debugger.Os.{Arch, Os, ThreadState}
use tiny_binary_debugger.Storage
use tiny_binary_debugger.Storage.{TraceEntry}
use tiny_binary_debugger.Tracer.History.{Replays, begun, failed, stepped, IsHistory}
use tiny_binary_debugger.Tracer.Memory.{window_base, changes_since, cache_insert}
use tiny_binary_debugger.Tracer.Registers.{registers, sp_of}
use tiny_binary_debugger.Tracer.Step.{Tracer}

-- Windows with the bytes that were read there, the last read first.
abbrev pub Reads : Type 0
Reads = List (ℕ × List ℕ)

-- What the last read of a window gave.
abbrev pub last_read : Reads → ℕ → Option (List ℕ)
last_read [] base = none
last_read ((b, bytes) ∷ reads) base = if base == b then some bytes else last_read reads base

-- The window around the stack pointer that the entry shows was read in the world `w`, with these
-- bytes; the changes are those against the last read of this window before.
pub record IsRead {arch : Arch} (os : Os arch) (reads : Reads) (e : TraceEntry) (base : ℕ)
    (bytes : List ℕ) : Type 0 where
  pub task : ℕ
  pub world : os.World
  pub state : ThreadState arch
  pub regs : e.regs ≡ os.json_text (registers arch state)
  pub window : base ≡ sp_of arch state - 128
  pub read : read_memory os world task base 256 ≡ ok bytes
  pub changes : e.mem_changes ≡ changes_since base (last_read reads base) bytes

-- The entries, with the reads that were made for them: one for an entry, or none and then the entry
-- has no changes.
pub data Observed {arch : Arch} (os : Os arch) : List TraceEntry → Reads → Type 0 where
  nothing : Observed os [] []
  unread :
      (es : List TraceEntry) (reads : Reads) (e : TraceEntry)
      → Observed os es reads
      → e.mem_changes ≡ []
      → Observed os (es ++ e ∷ []) reads
  read :
      (es : List TraceEntry) (reads : Reads) (e : TraceEntry) (base : ℕ) (bytes : List ℕ)
      → Observed os es reads
      → IsRead os reads e base bytes
      → Observed os (es ++ e ∷ []) ((base, bytes) ∷ reads)

module _ {arch : Arch} (os : Os arch) where
  Replays-Observed :
      (start : os.World) (t : Tracer) (w : os.World) (es : List TraceEntry)
      → Replays os start t w es
      → (reads : Reads) × Observed os es reads × (t.memory_cache ≡ last_read reads)
  unfolding window_base cache_insert
  Replays-Observed start t w es (begun t' top cold) = ([], nothing, cold)
  Replays-Observed start t w es (failed t' w' _ r e k) =
      let (reads, seen, held) = Replays-Observed start t' w' es r in
      (reads, seen, k.memory_cache ∙ held)
  Replays-Observed start t w es (stepped t' w' before e r made) =
      let (reads, seen, held) = Replays-Observed start t' w' before r in
      elim made.changes [
        | inl (empty, kept) ↦ (reads, unread before reads e seen empty, kept ∙ held)
        | inr (bytes, found, changes, kept) ↦
            let base = window_base (sp_of arch made.state) in
            (
              (base, bytes) ∷ reads,
              read before reads e base bytes seen (record {
                task = t'.task;
                world = made.seen.listed;
                state = made.state;
                regs = made.regs;
                window = refl;
                read = found;
                changes = changes ∙ ap (λ c. changes_since base (c base) bytes) held;
              }),
              kept ∙ ap (λ c. cache_insert c base bytes) held,
            )
      ]

  -- The memory changes of a trace that steps recorded are those of a run of reads: an entry comes
  -- with no read and no changes, or with a read of the window from 128 below the stack pointer that
  -- it shows, and its changes are then the bytes that differ from the last read of the same window
  -- before it, none if there was none. What the tracer caches is the last read of each window.
  pub history-Observed :
      (start : os.World) (t : Tracer) (w : os.World)
      → IsHistory os start t w
      → (reads : Reads) × Observed os (Storage.get_all t.db) reads
        × (t.memory_cache ≡ last_read reads)
  history-Observed start t w h = Replays-Observed start t w (Storage.get_all t.db) h.replay
