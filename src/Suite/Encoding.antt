-- ===== src/Suite/Encoding.antt =====
-- The tests of src/storage/mod.rs on the encodings of an entry. serde_json and bincode are the
-- record `Codec`, at a type of values.
use tiny_binary_debugger.Base.{
  ℕ, ◌-◌, ◌^◌, ◌≡◌, refl, List, [], ◌∷◌, ◌==◌, Result, ok, ◌>>=◌, expect,
}
use tiny_binary_debugger.Storage.{MemChange, TraceEntry}
use tiny_binary_debugger.Suite.{
  text_eq, Test, Passes, assert, unwrap, change_eq, entry_eq, entry_eq_refl,
}
use tiny_binary_debugger.Suite.Database.{make_entry}
use tiny_binary_debugger.Suite.Fields.{Json, ReadsBack}
use tiny_binary_debugger.Text.{Text, codes, text_eq}

-- `to_string` and `from_str` of serde_json, or `serialize` and `deserialize` of bincode.
record Codec (A : Type 0) : Type 1 where
  Encoded : Type 0
  encode : A → Result Encoded
  decode : Encoded → Result A

-- What was encoded decodes to itself.
record IsExact {A : Type 0} (codec : Codec A) : Type 0 where
  encoded : A → codec.Encoded
  encodes : (a : A) → codec.encode a ≡ ok (encoded a)
  decodes : (a : A) → codec.decode (encoded a) ≡ ok a

abbrev u64_max : ℕ
u64_max = 2 ^ 64 - 1

abbrev u32_max : ℕ
u32_max = 2 ^ 32 - 1

module _ (json : Json) (codec : Codec TraceEntry) where
  open codec use {encode, decode}

  abbrev trace_entry_json_roundtrip : Test
  trace_entry_json_roundtrip = do
    let e = make_entry json.text 7 0xcafe (codes "add x0, x1, x2")
    text ← expect (encode e)
    back ← expect (decode text)
    assert (entry_eq back e)

  abbrev trace_entry_bincode_roundtrip : Test
  trace_entry_bincode_roundtrip = do
    let e = make_entry json.text 99 0xbeef (codes "sub sp, sp, #16")
    bytes ← expect (encode e)
    back ← expect (decode bytes)
    assert (entry_eq back e)

  abbrev large_regs : List (Text × ℕ)
  large_regs =
      (codes "x0", u64_max)
      ∷ (codes "x1", u64_max)
      ∷ (codes "x2", u64_max)
      ∷ (codes "x3", u64_max)
      ∷ (codes "x4", u64_max)
      ∷ (codes "x5", u64_max)
      ∷ (codes "x6", u64_max)
      ∷ (codes "x7", u64_max)
      ∷ (codes "x28", u64_max)
      ∷ (codes "fp", u64_max)
      ∷ (codes "lr", u64_max)
      ∷ (codes "sp", u64_max)
      ∷ (codes "pc", u64_max)
      ∷ (codes "cpsr", u32_max)
      ∷ []

  abbrev large_entry : TraceEntry
  large_entry = record {
    step = 0;
    pc = 0;
    insn_bytes = [];
    insn_text = codes "nop";
    regs = json.text large_regs;
    mem_changes = [];
  }

  abbrev trace_entry_with_large_regs_string : Test
  trace_entry_with_large_regs_string = do
    bytes ← expect (encode large_entry)
    back ← expect (decode bytes)
    x0 ← unwrap (json.number back.regs (codes "x0"))
    _ ← assert (x0 == u64_max)
    sp ← unwrap (json.number back.regs (codes "sp"))
    assert (sp == u64_max)

  module _ (faithful : IsExact codec) where
    trace_entry_json_roundtrip-Passes : Passes trace_entry_json_roundtrip
    trace_entry_json_roundtrip-Passes =
        let e = make_entry json.text 7 0xcafe (codes "add x0, x1, x2") in
        rw (faithful.encodes e, faithful.decodes e, entry_eq_refl e) refl

    trace_entry_bincode_roundtrip-Passes : Passes trace_entry_bincode_roundtrip
    trace_entry_bincode_roundtrip-Passes =
        let e = make_entry json.text 99 0xbeef (codes "sub sp, sp, #16") in
        rw (faithful.encodes e, faithful.decodes e, entry_eq_refl e) refl

    trace_entry_with_large_regs_string-Passes :
        ReadsBack json → Passes trace_entry_with_large_regs_string
    unfolding text_eq
    trace_entry_with_large_regs_string-Passes back =
        rw
          (
            faithful.encodes large_entry,
            faithful.decodes large_entry,
            back.reads large_regs (codes "x0"),
            back.reads large_regs (codes "sp"),
          )
          refl

module _ (codec : Codec MemChange) where
  abbrev mem_change_json_roundtrip : Test
  mem_change_json_roundtrip = do
    let mc : MemChange = record { addr = 0x12345678; old_val = 0xaa; new_val = 0xbb }
    text ← expect (codec.encode mc)
    back ← expect (codec.decode text)
    assert (change_eq back mc)

  mem_change_json_roundtrip-Passes : IsExact codec → Passes mem_change_json_roundtrip
  mem_change_json_roundtrip-Passes faithful =
      let mc : MemChange = record { addr = 0x12345678; old_val = 0xaa; new_val = 0xbb } in
      rw (faithful.encodes mc, faithful.decodes mc) refl
