-- ===== src/Tracer/Bounds.antt =====
-- Bounds of what a run of the tracer records.
use tiny_binary_debugger.Base.{
  ◌-◌, ℕ, zero, suc, ◌+◌, ◌%◌, ◌^◌, ◌≤◌, ◌<◌, ◌≡◌, ◌≢◌, refl, ap, inl, inr, List, [], ◌∷◌, ◌++◌,
  length, length-append, length-map, length-take, length-replicate, take, drop, replicate, min, All,
  All-snoc, ok, arith, ◌==◌, Bool-cases, none, some, Option,
}
use tiny_binary_debugger.Mach.{read_memory}
use tiny_binary_debugger.Os.{Arch, Os, is_success, ThreadState}
use tiny_binary_debugger.Storage
use tiny_binary_debugger.Storage.{TraceEntry, MemChange}
use tiny_binary_debugger.Tracer.Annotation.{next_depth, or_empty}
use tiny_binary_debugger.Tracer.Effects.{Noted, Made}
use tiny_binary_debugger.Tracer.History.{Replays, begun, failed, stepped, IsHistory}
use tiny_binary_debugger.Tracer.Memory.{Cache, diff_from, changes_since, window_base}
use tiny_binary_debugger.Tracer.Registers.{registers, sp_of}
use tiny_binary_debugger.Text.{Text}
use tiny_binary_debugger.Tracer.Step.{Tracer}

-- `mach_vm_read_overwrite` writes no more bytes than it was asked for.
pub record IsReader {arch : Arch} (os : Os arch) : Type 0 where
  pub fits :
      (w : os.World) (task addr size : ℕ)
      → length (os.mach_vm_read_overwrite w task addr size).1 ≤ size

-- Bytes that differ, at addresses that ascend from offset `i` of a window to its end.
abbrev pub InWindow : ℕ → ℕ → List MemChange → Type 0
InWindow base i [] = Unit
InWindow base i (c ∷ cs) =
    (j : ℕ) × (i ≤ j)
    × (j < 256)
    × (c.addr ≡ (base + j) % 2 ^ 64)
    × (c.old_val ≢ c.new_val)
    × InWindow base (j + 1) cs

-- At most 256 changes, in the window around the stack pointer that the entry shows.
pub record IsLocal {arch : Arch} (os : Os arch) (e : TraceEntry) : Type 0 where
  pub state : ThreadState arch
  pub regs : e.regs ≡ os.json_text (registers arch state)
  pub within : InWindow (sp_of arch state - 128) 0 e.mem_changes
  pub few : length e.mem_changes ≤ 256

InWindow-later : (base i : ℕ) (cs : List MemChange) → InWindow base (i + 1) cs → InWindow base i cs
InWindow-later base i [] h = tt
InWindow-later base i (c ∷ cs) (j, from, below, at, differ, h) =
    (j, omega arith, below, at, differ, h)

length-InWindow :
    (base i : ℕ) (cs : List MemChange) → i ≤ 256 → InWindow base i cs → i + length cs ≤ 256
length-InWindow base i [] le h = omega arith
length-InWindow base i (c ∷ cs) le (j, from, below, at, differ, h) =
    omega (arith, length-InWindow base (j + 1) cs (omega arith) h)

length-drop : (n : ℕ) (xs : List ℕ) → length (drop n xs) + min n (length xs) ≡ length xs
length-drop zero xs = omega arith
length-drop (suc n) [] = omega arith
length-drop (suc n) (x ∷ xs) = omega (arith, length-drop n xs)

diff_from-InWindow :
    (base i : ℕ) (old new : List ℕ)
    → i + length new ≤ 256
    → InWindow base i (diff_from base i old new)
unfolding diff_from
diff_from-InWindow base i [] new fits = tt
diff_from-InWindow base i (o ∷ old) [] fits = tt
diff_from-InWindow base i (o ∷ old) (n ∷ new) fits = elim (Bool-cases (n == o)) [
  | inl same ↦
      rw same (InWindow-later base i _ (diff_from-InWindow base (i + 1) old new (omega arith)))
  | inr apart ↦ rw apart (
    i,
    omega arith,
    omega arith,
    refl,
    ground arith,
    diff_from-InWindow base (i + 1) old new (omega arith),
  )
]

changes_since-InWindow :
    (base : ℕ) (held : Option (List ℕ)) (new : List ℕ)
    → length new ≤ 256
    → InWindow base 0 (changes_since base held new)
unfolding changes_since
changes_since-InWindow base none new fits = tt
changes_since-InWindow base (some old) new fits = diff_from-InWindow base 0 old new (omega arith)

depth_bound :
    (arch : Arch) (mnemonic : Text) (depth : ℕ) → next_depth arch mnemonic depth ≤ depth + 1
unfolding next_depth
depth_bound arch mnemonic depth = ground arith

module _ {arch : Arch} (os : Os arch) (reader : IsReader os) where
  length-read_memory :
      (w : os.World) (task addr size : ℕ) (buf : List ℕ)
      → read_memory os w task addr size ≡ ok buf
      → length buf ≤ size
  unfolding read_memory
  length-read_memory w task addr size buf h =
      elim (Bool-cases (is_success (os.mach_vm_read_overwrite w task addr size).0)) [
        | inl worked ↦
            let call = os.mach_vm_read_overwrite w task addr size in
            let rest = drop (length call.1) (replicate size 0) in
            let taken : take call.2 (call.1 ++ rest) ≡ buf = (let p = rw worked at h in cc) in
            omega (
              arith,
              ap length taken,
              length-take call.2 (call.1 ++ rest),
              length-append call.1 rest,
              length-drop (length call.1) (replicate size 0),
              length-replicate {A = ℕ} size 0,
              reader.fits w task addr size,
            )
        | inr refused ↦ absurd (let p = rw refused at h in cc)
      ]

  Noted-InWindow :
      (t : Tracer) (w : os.World) (sp : ℕ) (changes : List MemChange) (cache : Cache)
      → Noted os t w sp changes cache
      → InWindow (window_base sp) 0 changes
  Noted-InWindow t w sp changes cache (inl (empty, kept)) = rw empty tt
  Noted-InWindow t w sp changes cache (inr (new, read, found, held)) = rw found (
      changes_since-InWindow (window_base sp) _ new
        (length-read_memory w t.task (window_base sp) 256 new read))

  Made-IsLocal :
      (t : Tracer) (w : os.World) (u : Tracer) (e : TraceEntry) → Made os t w u e → IsLocal os e
  Made-IsLocal t w u e m =
      let near =
        Noted-InWindow t m.seen.listed (sp_of arch m.state) e.mem_changes u.memory_cache
          m.changes in
      record {
        state = m.state;
        regs = m.regs;
        within = unfold window_base in near;
        few = omega (
          arith,
          length-InWindow (window_base (sp_of arch m.state)) 0 e.mem_changes (omega arith) near,
        );
      }

  Replays-bounds :
      (start : os.World) (t : Tracer) (w : os.World) (es : List TraceEntry)
      → Replays os start t w es
      → All (IsLocal os) es × (t.call_depth ≤ length es)
  Replays-bounds start t w es (begun t' top cold) = (tt, omega (arith, top))
  Replays-bounds start t w es (failed t' w' _ r e k) =
      let (all, deep) = Replays-bounds start t' w' es r in (all, omega (arith, k.call_depth))
  Replays-bounds start t w es (stepped t' w' before e r made) =
      let (all, deep) = Replays-bounds start t' w' before r in
      (
        All-snoc (IsLocal os) before e all (Made-IsLocal t' w' _ e made),
        omega (
          arith,
          made.deeper,
          depth_bound arch (or_empty made.insn.mnemonic) t'.call_depth,
          length-append before (e ∷ []),
        ),
      )

  -- Every entry of a trace that was recorded by steps has at most 256 memory changes, each of a byte
  -- to another one, at addresses that ascend through the 256 bytes from 128 below the stack pointer
  -- that the entry shows, or from address 0 if that is higher; and the depth of calls is at most the number of entries. A read of the
  -- process is to return no more bytes than it was asked for.
  pub history-bounds :
      (start : os.World) (t : Tracer) (w : os.World)
      → IsHistory os start t w
      → All (IsLocal os) (Storage.get_all t.db) × (t.call_depth ≤ Storage.count t.db)
  unfolding Storage.get_all Storage.count
  history-bounds start t w h =
      let (all, deep) = Replays-bounds start t w (Storage.get_all t.db) h.replay in
      (all, omega (arith, length-map t.db.entries (λ x. x.1)))
