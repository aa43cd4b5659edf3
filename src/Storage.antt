-- ===== src/Storage.antt =====
-- src/storage/mod.rs: the trace entries and the database that keeps them in memory.
-- A `TraceDb` is shared behind `Arc<RwLock<…>>`: every operation holds the lock from start to end,
-- so it is one function from the state before to the state after.
pub mod Db
pub mod Order
pub mod File
pub mod RoundTrip
use tiny_binary_debugger.Base.{
  ◌≡◌, ℕ, Option, List, length, ◌%◌, ◌^◌, map, Result, ok, Outcome, done, ◌>>=◌,
}
use tiny_binary_debugger.BTreeMap
use tiny_binary_debugger.BTreeMap.{BTreeMap}
use tiny_binary_debugger.Text.{Text}

pub record MemChange : Type 0 where
  pub addr : ℕ
  pub old_val : ℕ
  pub new_val : ℕ

pub record TraceEntry : Type 0 where
  pub step : ℕ
  pub pc : ℕ
  pub insn_bytes : List ℕ
  pub insn_text : Text
  pub regs : Text
  pub mem_changes : List MemChange

pub record TraceDb : Type 0 where
  pub entries : BTreeMap TraceEntry
  pub path : Text

-- `TraceDb::new`, which never fails
unfoldable pub new : Text → Result TraceDb
new path = ok (record { entries = List.[]; path = path })

unfoldable pub insert : TraceDb → TraceEntry → Result TraceDb
insert db entry = ok (record db { entries = BTreeMap.insert entry.step entry db.entries })

unfoldable pub get : TraceDb → ℕ → Option TraceEntry
get db step = BTreeMap.get db.entries step

-- The `range` of the map decides whether it panics.
unfoldable pub get_range : TraceDb → ℕ → ℕ → Outcome (List TraceEntry)
get_range db start stop = do m ← BTreeMap.range start stop db.entries; done (BTreeMap.values m)

unfoldable pub get_all : TraceDb → List TraceEntry
get_all db = BTreeMap.values db.entries

unfoldable pub count : TraceDb → ℕ
count db = length db.entries

-- What the rest of the program relies on: the steps ascend, and each entry is found at its step.
abbrev pub IsKeyed : BTreeMap TraceEntry → Type 0
IsKeyed List.[] = Unit
IsKeyed (List.◌∷◌ e m) = (e.0 ≡ e.1.step) × IsKeyed m

pub record IsValid (db : TraceDb) : Type 0 where
  pub ordered : BTreeMap.IsOrdered db.entries
  pub keyed : IsKeyed db.entries
