-- ===== src/Tests/StorageAt.antt =====
-- The database and its file at concrete inputs.
use tiny_binary_debugger.Base.{
  ℕ, ◌+◌, ◌<◌, ◌≡◌, ◌≢◌, ◌↔◌, ◌&&◌, refl, none, some, [], ◌∷◌, List, leb, ◌==◌, if◌then◌else◌, ok,
  done, panicked, arith,
}
use tiny_binary_debugger.BTreeMap
use tiny_binary_debugger.BTreeMap.{BTreeMap, IsOrdered}
use tiny_binary_debugger.Storage.{
  TraceEntry, TraceDb, insert, get, get_range, count, IsKeyed, IsValid,
}
use tiny_binary_debugger.Storage.Db.{after_insert, insert_lem, get_range_lem, get_range-panics}
use tiny_binary_debugger.Storage.Order.{insert_each, ended, first, second, interleaved_inserts}
use tiny_binary_debugger.Storage.File.{save, load}
use tiny_binary_debugger.Storage.RoundTrip.{load-save}
use tiny_binary_debugger.Tests.Machine.{one_file, one_file-IsFaithful, entry_at}
use tiny_binary_debugger.Text.{codes}

abbrev entry_2 : TraceEntry
entry_2 = entry_at 2 (codes "nop")

abbrev entry_4 : TraceEntry
entry_4 = entry_at 4 (codes "ret")

abbrev pub two : TraceDb
two = record { entries = (2, entry_2) ∷ (4, entry_4) ∷ []; path = codes "t.tdb" }

pub two-IsValid : IsValid two
two-IsValid = record { ordered = (omega arith, tt); keyed = (refl, (refl, tt)) }

insert_lem_example :
    (insert two (entry_at 3 []) ≡ ok (after_insert two (entry_at 3 [])))
    × IsValid (after_insert two (entry_at 3 []))
    × ((k : ℕ)
        → get (after_insert two (entry_at 3 [])) k
          ≡ (if k == 3 then some (entry_at 3 []) else get two k))
    × (count (after_insert two (entry_at 3 []))
        ≡ count two + (elim (get two 3) [ none ↦ 1 | some _ ↦ 0 ]))
insert_lem_example = insert_lem two (entry_at 3 []) two-IsValid

-- The second thread inserts between the two insertions of the first.
abbrev merged : List TraceEntry
merged = entry_at 3 [] ∷ entry_at 7 [] ∷ entry_at 1 [] ∷ []

interleaved_inserts_example :
    (insert_each two merged ≡ insert_each two (entry_at 3 [] ∷ entry_at 1 [] ∷ entry_at 7 [] ∷ []))
    × (after : TraceDb) × (insert_each two merged ≡ ok after)
    × IsValid after
interleaved_inserts_example =
    interleaved_inserts two (entry_at 3 [] ∷ entry_at 1 [] ∷ []) (entry_at 7 [] ∷ []) merged
      (first (entry_at 3 []) _ _ _
        (second (entry_at 7 []) _ _ _ (first (entry_at 1 []) _ _ _ ended)))
      (((λ p. omega arith), ((λ p. omega arith), tt)), (((λ p. omega arith), tt), (tt, tt)))
      two-IsValid

get_range_lem_example :
    (m : BTreeMap TraceEntry) × (get_range two 3 9 ≡ done (BTreeMap.values m))
    × IsOrdered m
    × IsKeyed m
    × ((k : ℕ) → BTreeMap.get m k ≡ (if leb 3 k && leb k 9 then get two k else none))
get_range_lem_example = get_range_lem two 3 9 two-IsValid (omega arith)

get_range-panics_example : (get_range two 9 3 ≡ panicked) ↔ ((3 < 9) × (count two ≢ 0))
get_range-panics_example = get_range-panics two 9 3

load-save_example : load one_file (some two.entries) (codes "t.tdb") ≡ ok two
load-save_example = load-save one_file one_file-IsFaithful none (some two.entries) two saved
  where
    saved : save one_file none two ≡ (some two.entries, ok tt)
    saved = unfold save in refl
