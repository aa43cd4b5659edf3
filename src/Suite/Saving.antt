-- ===== src/Suite/Saving.antt =====
-- The tests of src/storage/mod.rs that save and load. The disk and the encoding are the record
-- `Files`; the path in a new directory is given.
use tiny_binary_debugger.Base.{
  ℕ, ◌+◌, ◌*◌, ◌≡◌, refl, Bool, true, false, List, [], ◌∷◌, map, ◌==◌, Result, ok, err, Outcome,
  done, panicked, ◌>>=◌, expect,
}
use tiny_binary_debugger.BTreeMap
use tiny_binary_debugger.Storage
use tiny_binary_debugger.Storage.{MemChange, TraceEntry, TraceDb}
use tiny_binary_debugger.Storage.File.{Files, IsFaithful, save, load, load_data, decoded}
use tiny_binary_debugger.Storage.RoundTrip.{load-save}
use tiny_binary_debugger.Suite.{
  Test, Passes, assert, unwrap, insert_all, entry_eq, changes_eq, entry_eq_refl,
}
use tiny_binary_debugger.Suite.Database.{make_entry}
use tiny_binary_debugger.Text.{Text, codes, contains, starts_with}

-- `Result::is_err` and `Result::unwrap_err`
abbrev is_err {ℓ} : {A : Type ℓ} → Result A → Bool
is_err (ok a) = false
is_err (err e) = true

abbrev unwrap_err {ℓ} : {A : Type ℓ} → Result A → Outcome Text
unwrap_err (ok a) = panicked
unwrap_err (err e) = done e

-- `for e in &entries`: each is found under its step.
abbrev all_found : TraceDb → List TraceEntry → Test
all_found db [] = done tt
all_found db (e ∷ es) = do
  got ← unwrap (Storage.get db e.step)
  _ ← assert (entry_eq got e)
  all_found db es

module _ (json_text : List (Text × ℕ) → Text) where
  abbrev make_entry_with_mem : ℕ → List MemChange → TraceEntry
  make_entry_with_mem step changes = record {
    step = step;
    pc = 0x1000 + step * 4;
    insn_bytes = 0xcc ∷ [];
    insn_text = codes "str x0, [sp]";
    regs = json_text ((codes "x0", 42) ∷ (codes "sp", 0x7000) ∷ []);
    mem_changes = changes;
  }

  abbrev entries : List TraceEntry
  entries =
      make_entry json_text 0 0x1000 (codes "mov x0, #1")
      ∷ make_entry json_text 1 0x1004 (codes "add x0, x0, #2")
      ∷ make_entry json_text 2 0x1008 (codes "ret ; RETURN [depth:0]")
      ∷ []

  abbrev changes : List MemChange
  changes =
      record { addr = 0xaaaa; old_val = 0x00; new_val = 0x41 }
      ∷ record { addr = 0xbbbb; old_val = 0xff; new_val = 0x00 }
      ∷ []

  module _ (f : Files) where
    open f use {Disk, Bytes, read, write, serialize, deserialize}

    abbrev save_and_load_roundtrip : Disk → Text → Test
    save_and_load_roundtrip disk path_str = do
      db ← expect (Storage.new path_str)
      db ← insert_all db entries
      let saved = save f disk db
      _ ← expect saved.1
      loaded ← expect (load f saved.0 path_str)
      _ ← assert (Storage.count loaded == 3)
      all_found loaded entries

    abbrev save_and_load_empty_db : Disk → Text → Test
    save_and_load_empty_db disk path_str = do
      db ← expect (Storage.new path_str)
      let saved = save f disk db
      _ ← expect saved.1
      loaded ← expect (load f saved.0 path_str)
      assert (Storage.count loaded == 0)

    abbrev save_and_load_preserves_mem_changes : Disk → Text → Test
    save_and_load_preserves_mem_changes disk path_str = do
      db ← expect (Storage.new path_str)
      db ← expect (Storage.insert db (make_entry_with_mem 0 changes))
      let saved = save f disk db
      _ ← expect saved.1
      loaded ← expect (load f saved.0 path_str)
      got ← unwrap (Storage.get loaded 0)
      assert (changes_eq got.mem_changes changes)

    abbrev load_nonexistent_file_fails : Disk → Test
    load_nonexistent_file_fails disk =
        let result = load f disk (codes "/tmp/this_file_does_not_exist_tdb_test.tdb") in
        do
          _ ← assert (is_err result)
          e ← unwrap_err result
          assert (contains e (codes "Read failed"))

    abbrev load_corrupt_file_fails : Disk → Text → Bytes → Test
    load_corrupt_file_fails disk path bytes =
        let written = write disk path bytes in
        do
          _ ← expect written.1
          let result = load f written.0 path
          _ ← assert (is_err result)
          e ← unwrap_err result
          assert (contains e (codes "Deserialize failed"))

    -- The database with these entries, each under its step.
    abbrev saved_db : Text → List TraceEntry → TraceDb
    saved_db path es = record { entries = map (λ e. (e.step, e)) es; path = path }

    module _ (faithful : IsFaithful f) (disk disk' : Disk) (path : Text) where
      -- The disk is to take what is written.
      save_and_load_roundtrip-Passes :
          save f disk (saved_db path entries) ≡ (disk', ok tt)
          → Passes (save_and_load_roundtrip disk path)
      unfolding Storage.new Storage.insert Storage.get Storage.count insert_all BTreeMap.insert
          BTreeMap.get
      save_and_load_roundtrip-Passes written =
          rw
            (
              written,
              load-save f faithful disk disk' (saved_db path entries) written,
              entry_eq_refl (make_entry json_text 0 0x1000 (codes "mov x0, #1")),
              entry_eq_refl (make_entry json_text 1 0x1004 (codes "add x0, x0, #2")),
              entry_eq_refl (make_entry json_text 2 0x1008 (codes "ret ; RETURN [depth:0]")),
            )
            refl

      save_and_load_empty_db-Passes :
          save f disk (saved_db path []) ≡ (disk', ok tt)
          → Passes (save_and_load_empty_db disk path)
      unfolding Storage.new Storage.count
      save_and_load_empty_db-Passes written =
          rw (written, load-save f faithful disk disk' (saved_db path []) written) refl

      save_and_load_preserves_mem_changes-Passes :
          save f disk (saved_db path (make_entry_with_mem 0 changes ∷ [])) ≡ (disk', ok tt)
          → Passes (save_and_load_preserves_mem_changes disk path)
      unfolding Storage.new Storage.insert Storage.get BTreeMap.insert BTreeMap.get
      save_and_load_preserves_mem_changes-Passes written =
          rw
            (
              written,
              load-save f faithful disk disk' (saved_db path (make_entry_with_mem 0 changes ∷ []))
                  written,
            )
            refl

    -- The file is not to exist, so that it cannot be read.
    load_nonexistent_file_fails-Passes :
        (disk : Disk) (e : Text)
        → read disk (codes "/tmp/this_file_does_not_exist_tdb_test.tdb") ≡ err e
        → Passes (load_nonexistent_file_fails disk)
    unfolding load load_data contains starts_with
    load_nonexistent_file_fails-Passes disk e missing = rw missing refl

    -- The disk is to take the bytes, and they are to decode to nothing.
    load_corrupt_file_fails-Passes :
        (faithful : IsFaithful f) (disk disk' : Disk) (path : Text) (bytes : Bytes) (e : Text)
        → write disk path bytes ≡ (disk', ok tt)
        → deserialize bytes ≡ err e
        → Passes (load_corrupt_file_fails disk path bytes)
    unfolding load load_data decoded contains starts_with
    load_corrupt_file_fails-Passes faithful disk disk' path bytes e written corrupt =
        rw (written, faithful.read-write disk disk' path bytes written, corrupt) refl
