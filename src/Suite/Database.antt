-- ===== src/Suite/Database.antt =====
-- The tests of src/storage/mod.rs on the database in memory. The text of a JSON object is
-- serde_json's: a function of its fields.
use tiny_binary_debugger.Base.{
  ℕ, ◌+◌, ◌*◌, refl, Bool, true, false, Option, none, some, List, [], ◌∷◌, length, is_empty, ◌==◌,
  ◌>>=◌, expect, All,
}
use tiny_binary_debugger.BTreeMap
use tiny_binary_debugger.Storage
use tiny_binary_debugger.Storage.{MemChange, TraceEntry, TraceDb}
use tiny_binary_debugger.Text.{Text, codes, text_eq}
use tiny_binary_debugger.Suite.{
  Test, Passes, assert, unwrap, item, entry_eq, entry_eq_refl, insert_all, collect,
}

-- `matches!(o, None)`
abbrev pub is_none {ℓ} : {A : Type ℓ} → Option A → Bool
is_none none = true
is_none (some a) = false

-- `json!({ … }).to_string()`
module _ (json_text : List (Text × ℕ) → Text) where
  abbrev pub make_entry : ℕ → ℕ → Text → TraceEntry
  make_entry step pc insn = record {
    step = step;
    pc = pc;
    insn_bytes = 0xaa ∷ 0xbb ∷ [];
    insn_text = insn;
    regs = json_text ((codes "x0", step) ∷ (codes "sp", 0x7000) ∷ []);
    mem_changes = [];
  }

  abbrev new_creates_empty_db : Test
  new_creates_empty_db = do
    db ← expect (Storage.new (codes ":memory:"))
    _ ← assert (Storage.count db == 0)
    assert (is_empty (Storage.get_all db))

  abbrev insert_and_get_roundtrip : Test
  insert_and_get_roundtrip = do
    db ← expect (Storage.new (codes ":memory:"))
    let e = make_entry 0 0x1000 (codes "nop")
    db ← expect (Storage.insert db e)
    got ← unwrap (Storage.get db 0)
    assert (entry_eq got e)

  abbrev get_missing_returns_none : Test
  get_missing_returns_none = do
    db ← expect (Storage.new (codes ":memory:"))
    _ ← assert (is_none (Storage.get db 0))
    assert (is_none (Storage.get db 999))

  abbrev count_matches_inserts : Test
  count_matches_inserts = do
    db ← expect (Storage.new (codes ":memory:"))
    db ← insert_all db (collect (λ i. make_entry i (0x1000 + i * 4) (codes "nop")) 0 50)
    assert (Storage.count db == 50)

  abbrev overwrite_same_step_replaces : Test
  overwrite_same_step_replaces = do
    db ← expect (Storage.new (codes ":memory:"))
    db ← expect (Storage.insert db (make_entry 0 0x1000 (codes "first")))
    db ← expect (Storage.insert db (make_entry 0 0x2000 (codes "second")))
    _ ← assert (Storage.count db == 1)
    got ← unwrap (Storage.get db 0)
    _ ← assert (text_eq got.insn_text (codes "second"))
    assert (got.pc == 0x2000)

  abbrev get_range_returns_inclusive : Test
  get_range_returns_inclusive = do
    db ← expect (Storage.new (codes ":memory:"))
    db ← insert_all db (collect (λ i. make_entry i (0x1000 + i * 4) (codes "nop")) 0 10)
    range ← Storage.get_range db 3 7
    _ ← assert (length range == 5)
    first ← item range 0
    _ ← assert (first.step == 3)
    last ← item range 4
    assert (last.step == 7)

  abbrev get_range_empty_when_no_match : Test
  get_range_empty_when_no_match = do
    db ← expect (Storage.new (codes ":memory:"))
    db ← expect (Storage.insert db (make_entry 0 0x1000 (codes "nop")))
    db ← expect (Storage.insert db (make_entry 1 0x1004 (codes "nop")))
    range ← Storage.get_range db 100 200
    assert (is_empty range)

  abbrev get_range_partial_overlap : Test
  get_range_partial_overlap = do
    db ← expect (Storage.new (codes ":memory:"))
    db ← insert_all db (collect (λ i. make_entry i 0x1000 (codes "nop")) 5 5)
    range ← Storage.get_range db 0 7
    _ ← assert (length range == 3)
    first ← item range 0
    _ ← assert (first.step == 5)
    last ← item range 2
    assert (last.step == 7)

  abbrev get_all_returns_in_step_order : Test
  get_all_returns_in_step_order = do
    db ← expect (Storage.new (codes ":memory:"))
    db ← expect (Storage.insert db (make_entry 5 0x1000 (codes "five")))
    db ← expect (Storage.insert db (make_entry 2 0x1004 (codes "two")))
    db ← expect (Storage.insert db (make_entry 8 0x1008 (codes "eight")))
    db ← expect (Storage.insert db (make_entry 0 0x100c (codes "zero")))
    let all = Storage.get_all db
    _ ← assert (length all == 4)
    e ← item all 0
    _ ← assert (e.step == 0)
    e ← item all 1
    _ ← assert (e.step == 2)
    e ← item all 2
    _ ← assert (e.step == 5)
    e ← item all 3
    assert (e.step == 8)

  insert_and_get_roundtrip-Passes : Passes insert_and_get_roundtrip
  unfolding Storage.new Storage.insert Storage.get BTreeMap.get BTreeMap.insert
  insert_and_get_roundtrip-Passes = rw (entry_eq_refl (make_entry 0 0x1000 (codes "nop"))) refl

  -- The tests whose outcome does not depend on the text of the registers.
  All-Passes : All Passes (
      new_creates_empty_db ∷ get_missing_returns_none ∷ count_matches_inserts
      ∷ overwrite_same_step_replaces ∷ get_range_returns_inclusive ∷ get_range_empty_when_no_match
      ∷ get_range_partial_overlap ∷ get_all_returns_in_step_order ∷ [])
  unfolding Storage.new Storage.insert Storage.get Storage.count Storage.get_range Storage.get_all
      insert_all BTreeMap.get BTreeMap.insert BTreeMap.range BTreeMap.between text_eq
  All-Passes = (refl, (refl, (refl, (refl, (refl, (refl, (refl, (refl, tt))))))))
