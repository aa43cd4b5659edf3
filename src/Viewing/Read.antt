-- ===== src/Viewing/Read.antt =====
-- The recorded registers, read back from their JSON: the architecture and the stack pointer that
-- the terminal viewer finds in them.
use mathlib.Core.List.{Perm, map}
use tiny_binary_debugger.Base.{ℕ, ◌≡◌, refl, Option, none, some, List, [], ◌∷◌, if◌then◌else◌}
use tiny_binary_debugger.Os.{Arch, x86_64, aarch64, Os, ThreadState}
use tiny_binary_debugger.Text.{Text, codes, text_eq}
use tiny_binary_debugger.Tracer.Registers.{registers, sp_of}
use tiny_binary_debugger.Tui.{arch_of, recorded_sp, Host}
use tiny_binary_debugger.Tui.Panes.Shown.{names_of}
use tiny_binary_debugger.Tui.Panes.Registers.{lookup}

-- The number under a name.
abbrev pub field : Text → List (Text × ℕ) → Option ℕ
field name [] = none
field name ((k, n) ∷ fields) = if text_eq name k then some n else field name fields

-- What `serde_json` reads of the registers that `json!` has written, and `get`, `as_u64` and
-- `as_object` find in it; a hash map is walked over all that is in it.
pub record ReadsBack {arch : Arch} (os : Os arch) (host : Host) : Type 0 where
  pub value : ThreadState arch → host.Value
  pub reads :
      (s : ThreadState arch) → host.from_str (os.json_text (registers arch s)) ≡ some (value s)
  pub present :
      (s : ThreadState arch) (name : Text) (n : ℕ)
      → field name (registers arch s) ≡ some n
      → (v : host.Value) × (host.get (value s) name ≡ some v) × (host.as_u64 v ≡ some n)
  pub absent :
      (s : ThreadState arch) (name : Text)
      → field name (registers arch s) ≡ none
      → host.get (value s) name ≡ none
  pub fields :
      (s : ThreadState arch)
      → (m : List (Text × host.Value)) × (host.as_object (value s) ≡ some m)
        × Perm (map (λ r. r.0) m) (names_of arch s)
        × ((name : Text) (n : ℕ)
            → field name (registers arch s) ≡ some n
            → (v : host.Value) × (lookup host name m ≡ some v) × (host.as_u64 v ≡ some n))
  pub walk : (m : List (Text × host.Value)) → Perm (host.walk_regs m) m

-- The label of an architecture in the viewer.
abbrev pub label : Arch → Text
label x86_64 = codes "x86_64"
label aarch64 = codes "arm64"

pub label_read :
    (arch : Arch) (os : Os arch) (host : Host) (back : ReadsBack os host) (s : ThreadState arch)
    → arch_of host (host.get (back.value s) (codes "rax")) ≡ label arch
unfolding arch_of text_eq registers
label_read x86_64 os host back s =
    let (v, found, n) = back.present s (codes "rax") s.rax refl in rw found refl
label_read aarch64 os host back s = rw (back.absent s (codes "rax") refl) refl

pub sp_read :
    (arch : Arch) (os : Os arch) (host : Host) (back : ReadsBack os host) (s : ThreadState arch)
    → recorded_sp host (back.value s) ≡ some (sp_of arch s)
unfolding recorded_sp text_eq registers sp_of
sp_read x86_64 os host back s =
    let (v, found, n) = back.present s (codes "rsp") s.rsp refl in
    rw (back.absent s (codes "sp") refl, found) n
sp_read aarch64 os host back s =
    let (v, found, n) = back.present s (codes "sp") s.sp refl in rw found n
