-- ===== src/Suite/Large.antt =====
-- The test `large_db_insert_and_retrieve` of src/storage/mod.rs, for any number of entries.
use tiny_binary_debugger.Base.{
  ℕ, zero, suc, ◌+◌, ◌-◌, ◌*◌, ◌/◌, ◌<◌, ◌≡◌, refl, ap, ◌∙◌, none, some, List, [], ◌==◌, true, ltb,
  if◌then◌else◌, done, ◌>>=◌, expect, arith,
}
use native.Mathlib.Decide.{ℕ_discrete}
use mathlib.Core.Path.{subst}
use tiny_binary_debugger.BTreeMap
use tiny_binary_debugger.Storage
use tiny_binary_debugger.Storage.{TraceEntry, TraceDb, IsValid}
use tiny_binary_debugger.Storage.Db.{after_insert, insert_lem}
use tiny_binary_debugger.Suite.{Test, Passes, assert, unwrap, insert_all, collect}
use tiny_binary_debugger.Suite.Database.{make_entry, is_none}
use tiny_binary_debugger.Text.{Text, codes}

-- The database holds `f 0` to `f (n - 1)`.
record Holds (f : ℕ → TraceEntry) (n : ℕ) (db : TraceDb) : Type 0 where
  valid : IsValid db
  count : Storage.count db ≡ n
  get : (k : ℕ) → Storage.get db k ≡ (if ltb k n then some (f k) else none)

last_or_before :
    (f : ℕ → TraceEntry) (k n m : ℕ)
    → m ≡ n
    → (if k == m then some (f n) else (if ltb k n then some (f k) else none))
      ≡ (if ltb k (n + 1) then some (f k) else none)
last_or_before f k n m e = elim (ℕ_discrete k n) [
  | yes same ↦ rw (same, e) (ground arith)
  | no other ↦ ground arith
]

Holds-insert :
    (f : ℕ → TraceEntry) (n : ℕ) (db : TraceDb)
    → ((i : ℕ) → (f i).step ≡ i)
    → Holds f n db
    → Holds f (n + 1) (after_insert db (f n))
Holds-insert f n db numbered h =
    let (inserted, valid, gets, counts) = insert_lem db (f n) h.valid in
    let fresh : Storage.get db (f n).step ≡ none =
      ap (Storage.get db) (numbered n) ∙ h.get n ∙ ground arith in
    record {
      valid = valid;
      count = counts ∙ rw fresh (omega (arith, h.count));
      get = λ k. gets k ∙ rw (h.get k) (last_or_before f k n (f n).step (numbered n));
    }

-- Filled with `n` more entries.
Holds-insert_all :
    (f : ℕ → TraceEntry) (k n : ℕ) (db : TraceDb)
    → ((i : ℕ) → (f i).step ≡ i)
    → Holds f k db
    → (db' : TraceDb) × (insert_all db (collect f k n) ≡ done db') × Holds f (k + n) db'
unfolding insert_all Storage.insert
Holds-insert_all f k zero db numbered h = (db, refl, subst (λ m. Holds f m db) (add_zero k) h)
  where
    add_zero : (k : ℕ) → k ≡ k + 0
    add_zero k = omega arith
Holds-insert_all f k (suc n) db numbered h =
    let (db', filled, holds) =
      Holds-insert_all f (k + 1) n (after_insert db (f k)) numbered
        (Holds-insert f k db numbered h) in
    (db', filled, subst (λ m. Holds f m db') (add_suc k n) holds)
  where
    add_suc : (k n : ℕ) → k + 1 + n ≡ k + suc n
    add_suc k n = omega arith

==_refl : (n : ℕ) → (n == n) ≡ true
==_refl n = ground arith

Holds-new : (f : ℕ → TraceEntry) → Holds f 0 (record { entries = []; path = codes ":memory:" })
unfolding Storage.count Storage.get BTreeMap.get
Holds-new f = record {
  valid = record { ordered = tt; keyed = tt };
  count = refl;
  get = λ k. ground arith;
}

module _ (json_text : List (Text × ℕ) → Text) where
  abbrev large : ℕ → Test
  large n = do
    db ← expect (Storage.new (codes ":memory:"))
    db ← insert_all db (collect (λ i. make_entry json_text i (0x1000 + i * 4) (codes "nop")) 0 n)
    _ ← assert (Storage.count db == n)
    e ← unwrap (Storage.get db 0)
    _ ← assert (e.step == 0)
    e ← unwrap (Storage.get db (n / 2))
    _ ← assert (e.step == n / 2)
    e ← unwrap (Storage.get db (n - 1))
    _ ← assert (e.step == n - 1)
    assert (is_none (Storage.get db n))

  abbrev large_db_insert_and_retrieve : Test
  large_db_insert_and_retrieve = large 10000

  large-Passes : (n : ℕ) → 0 < n → Passes (large n)
  unfolding Storage.new
  large-Passes n some_entry =
      let entry : ℕ → TraceEntry = λ i. make_entry json_text i (0x1000 + i * 4) (codes "nop") in
      let empty : TraceDb = record { entries = []; path = codes ":memory:" } in
      let (db, filled, h) = Holds-insert_all entry 0 n empty (λ i. refl) (Holds-new entry) in
      let counted : Storage.count db ≡ n = h.count ∙ omega arith in
      let at_0 : Storage.get db 0 ≡ some (entry 0) = h.get 0 ∙ ground arith in
      let at_half : Storage.get db (n / 2) ≡ some (entry (n / 2)) = h.get (n / 2) ∙ ground arith in
      let at_last : Storage.get db (n - 1) ≡ some (entry (n - 1)) = h.get (n - 1) ∙ ground arith in
      let at_end : Storage.get db n ≡ none = h.get n ∙ ground arith in
      rw (filled, counted, at_0, at_half, at_last, at_end)
        (rw (==_refl n, ==_refl (n / 2), ==_refl (n - 1)) refl)

  large_db_insert_and_retrieve-Passes : Passes large_db_insert_and_retrieve
  large_db_insert_and_retrieve-Passes = large-Passes 10000 (omega arith)
