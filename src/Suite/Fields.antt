-- ===== src/Suite/Fields.antt =====
-- The test `insert_preserves_all_fields` of src/storage/mod.rs. serde_json writes the registers
-- and reads them back: the record `Json`.
use tiny_binary_debugger.Base.{ℕ, ◌≡◌, refl, Option, List, [], ◌∷◌, length, ◌==◌, ◌>>=◌, expect}
use tiny_binary_debugger.BTreeMap
use tiny_binary_debugger.Storage
use tiny_binary_debugger.Storage.{TraceEntry}
use tiny_binary_debugger.Suite.{Test, Passes, assert, unwrap, item, bytes_eq}
use tiny_binary_debugger.Text.{Text, codes, text_eq, starts_with, contains}
use tiny_binary_debugger.Viewing.Read.{field}

-- `json!({ … }).to_string()`, and the number that `from_str` makes of the value under a name.
pub record Json : Type 0 where
  pub text : List (Text × ℕ) → Text
  pub number : Text → Text → Option ℕ

pub record ReadsBack (json : Json) : Type 0 where
  pub reads :
      (fields : List (Text × ℕ)) (name : Text)
      → json.number (json.text fields) name ≡ field name fields

module _ (json : Json) where
  abbrev stored : TraceEntry
  stored = record {
    step = 42;
    pc = 0xdeadbeef;
    insn_bytes = 0x01 ∷ 0x02 ∷ 0x03 ∷ 0x04 ∷ [];
    insn_text = codes "stp x29, x30, [sp, #-16]! ; CALL [depth:3]";
    regs = json.text (
        (codes "x0", 100)
        ∷ (codes "x1", 200)
        ∷ (codes "sp", 0x6ff0)
        ∷ (codes "pc", 0xdeadbeef)
        ∷ []);
    mem_changes =
        record { addr = 0x6ff0; old_val = 0x00; new_val = 0x41 }
        ∷ record { addr = 0x6ff1; old_val = 0xff; new_val = 0x42 }
        ∷ [];
  }

  abbrev insert_preserves_all_fields : Test
  insert_preserves_all_fields = do
    db ← expect (Storage.new (codes ":memory:"))
    db ← expect (Storage.insert db stored)
    got ← unwrap (Storage.get db 42)
    _ ← assert (got.step == 42)
    _ ← assert (got.pc == 0xdeadbeef)
    _ ← assert (bytes_eq got.insn_bytes (0x01 ∷ 0x02 ∷ 0x03 ∷ 0x04 ∷ []))
    _ ← assert (contains got.insn_text (codes "stp"))
    _ ← assert (contains got.insn_text (codes "CALL [depth:3]"))
    _ ← assert (length got.mem_changes == 2)
    first ← item got.mem_changes 0
    _ ← assert (first.addr == 0x6ff0)
    _ ← assert (first.new_val == 0x41)
    second ← item got.mem_changes 1
    _ ← assert (second.old_val == 0xff)
    x0 ← unwrap (json.number got.regs (codes "x0"))
    _ ← assert (x0 == 100)
    sp ← unwrap (json.number got.regs (codes "sp"))
    assert (sp == 0x6ff0)

  -- The text of an object is to read back as its fields.
  insert_preserves_all_fields-Passes : ReadsBack json → Passes insert_preserves_all_fields
  unfolding Storage.new Storage.insert Storage.get BTreeMap.get BTreeMap.insert text_eq contains
      starts_with
  insert_preserves_all_fields-Passes back =
      rw (back.reads _ (codes "x0"), back.reads _ (codes "sp")) refl
