-- ===== src/Suite.antt =====
-- The unit tests that stand in the source files under src/src, run on the model. A test is the
-- computation of its body, in which `unwrap`, an index out of bounds and an assertion that fails
-- panic; it passes if it is done.
mod Database
mod Fields
mod Large
mod Encoding
mod Saving
mod Statistics
mod Stores
mod Branches
mod Requests
mod Answers
mod Mach
use tiny_binary_debugger.Base.{
  ◌+◌, arith, ℕ, ◌≡◌, refl, Bool, true, false, ◌&&◌, Option, none, some, List, [], ◌∷◌, ◌==◌,
  get_elem?, Result, ok, err, Outcome, done, panicked, ◌>>=◌, expect,
}
use tiny_binary_debugger.Storage
use tiny_binary_debugger.Storage.{MemChange, TraceEntry, TraceDb}
use tiny_binary_debugger.Text.{codes, Text, text_eq}
use tiny_binary_debugger.Text.Laws.{text_eq_refl}

abbrev pub Test : Type 0
Test = Outcome (Unit {0})

abbrev pub Passes : Test → Type 0
Passes test = test ≡ done tt

-- `assert!`
abbrev pub assert : Bool → Test
assert true = done tt
assert false = panicked

-- `Option::unwrap`, and an item of a vector
abbrev pub unwrap {ℓ} : {A : Type ℓ} → Option A → Outcome A
unwrap none = panicked
unwrap (some a) = done a

abbrev pub item {ℓ} : {A : Type ℓ} → List A → ℕ → Outcome A
item xs i = unwrap (get_elem? xs i)

-- `==` of bytes, of changes and of entries, as it is derived: field by field.
abbrev pub bytes_eq : List ℕ → List ℕ → Bool
bytes_eq [] [] = true
bytes_eq [] (d ∷ ds) = false
bytes_eq (c ∷ cs) [] = false
bytes_eq (c ∷ cs) (d ∷ ds) = c == d && bytes_eq cs ds

abbrev pub change_eq : MemChange → MemChange → Bool
change_eq c d = c.addr == d.addr && c.old_val == d.old_val && c.new_val == d.new_val

abbrev pub changes_eq : List MemChange → List MemChange → Bool
changes_eq [] [] = true
changes_eq [] (d ∷ ds) = false
changes_eq (c ∷ cs) [] = false
changes_eq (c ∷ cs) (d ∷ ds) = change_eq c d && changes_eq cs ds

abbrev pub entry_eq : TraceEntry → TraceEntry → Bool
entry_eq e f =
    e.step == f.step
    && e.pc == f.pc
    && bytes_eq e.insn_bytes f.insn_bytes
    && text_eq e.insn_text f.insn_text
    && text_eq e.regs f.regs
    && changes_eq e.mem_changes f.mem_changes

bytes_eq_refl : (cs : List ℕ) → bytes_eq cs cs ≡ true
bytes_eq_refl [] = refl
bytes_eq_refl (c ∷ cs) = ground (arith, bytes_eq_refl cs)

changes_eq_refl : (cs : List MemChange) → changes_eq cs cs ≡ true
changes_eq_refl [] = refl
changes_eq_refl (c ∷ cs) = ground (arith, changes_eq_refl cs)

pub entry_eq_refl : (e : TraceEntry) → entry_eq e e ≡ true
entry_eq_refl e = ground (
  arith,
  bytes_eq_refl e.insn_bytes,
  text_eq_refl e.insn_text,
  text_eq_refl e.regs,
  changes_eq_refl e.mem_changes,
)

-- `for e in entries { db.insert(e).unwrap(); }`
unfoldable pub insert_all : TraceDb → List TraceEntry → Outcome TraceDb
unfolding Storage.insert
insert_all db [] = done db
insert_all db (e ∷ es) = do next ← expect (Storage.insert db e); insert_all next es

-- A new database with these entries.
unfoldable pub db_with : List TraceEntry → Outcome TraceDb
unfolding Storage.new insert_all
db_with entries = do db ← expect (Storage.new (codes ":memory:")); insert_all db entries

-- `(start..start + n).map(f).collect()`
abbrev pub collect {ℓ} : {A : Type ℓ} → (ℕ → A) → ℕ → ℕ → List A
collect f start ℕ.zero = []
collect f start (ℕ.suc n) = f start ∷ collect f (start + 1) n
