-- ===== src/Storage/Db.antt =====
-- The operations of the database, on every key.
use tiny_binary_debugger.Base.{
  inr, ltb→lt, ◌↔◌, inl, ◌≢◌, ℕ, ◌≤◌, ◌<◌, ◌≡◌, refl, ap, none, some, [], ◌∷◌, length, ltb, leb,
  ◌==◌, ◌&&◌, ◌+◌, if◌then◌else◌, ok, done, panicked, ◌>>=◌, arith, Bool-cases,
}
use tiny_binary_debugger.BTreeMap
use tiny_binary_debugger.BTreeMap.{BTreeMap, IsAbove, IsOrdered}
use tiny_binary_debugger.BTreeMap.Laws.{
  get-insert, insert-IsOrdered, length-insert, between-IsOrdered, get-between,
}
use tiny_binary_debugger.BTreeMap.Canonical.{eq_of_get}
use tiny_binary_debugger.Text.{Text}
use tiny_binary_debugger.Storage.{
  TraceEntry, TraceDb, new, insert, get, get_range, get_all, count, IsKeyed, IsValid,
}

-- The state after an insertion, which never fails.
abbrev pub after_insert : TraceDb → TraceEntry → TraceDb
after_insert db e = record db { entries = BTreeMap.insert e.step e db.entries }

insert-IsKeyed :
    (e : TraceEntry) (m : BTreeMap TraceEntry) → IsKeyed m → IsKeyed (BTreeMap.insert e.step e m)
unfolding BTreeMap.insert
insert-IsKeyed e [] k = (refl, tt)
insert-IsKeyed e ((j, w) ∷ m) k = ground (arith, insert-IsKeyed e m k.1)

-- A new database is valid and empty.
pub new-IsValid :
    (path : Text)
    → (db : TraceDb) × (new path ≡ ok db) × IsValid db × (count db ≡ 0) × (get_all db ≡ [])
unfolding new count get_all
new-IsValid path =
    (record { entries = []; path = path }, refl, record { ordered = tt; keyed = tt }, refl, refl)

-- `insert` succeeds on a valid database and keeps it valid; afterwards the entry is found at its
-- step and every other step shows what it showed before; the count grows by one exactly when the
-- step was not there.
pub insert_lem :
    (db : TraceDb) (e : TraceEntry)
    → IsValid db
    → (insert db e ≡ ok (after_insert db e))
      × IsValid (after_insert db e)
      × ((k : ℕ) → get (after_insert db e) k ≡ (if k == e.step then some e else get db k))
      × (count (after_insert db e) ≡ count db + (elim (get db e.step) [ none ↦ 1 | some _ ↦ 0 ]))
unfolding insert get count
insert_lem db e v = (
  refl,
  record {
    ordered = insert-IsOrdered e.step e db.entries v.ordered;
    keyed = insert-IsKeyed e db.entries v.keyed;
  },
  λ k. get-insert e.step k e db.entries v.ordered,
  length-insert e.step e db.entries v.ordered,
)

-- Entries with different steps may be inserted in either order.
pub insert_comm :
    (db : TraceDb) (a b : TraceEntry)
    → IsValid db
    → a.step ≢ b.step
    → after_insert (after_insert db a) b ≡ after_insert (after_insert db b) a
insert_comm db a b v ne =
    ap (λ m. record db { entries = m })
      (eq_of_get _ _ (twice a b) (twice b a) (λ k. ground (
        arith,
        get-insert b.step k b (once a) (once-IsOrdered a),
        get-insert a.step k a (once b) (once-IsOrdered b),
        get-insert a.step k a db.entries v.ordered,
        get-insert b.step k b db.entries v.ordered,
      )))
  where
    once : TraceEntry → BTreeMap TraceEntry
    once e = BTreeMap.insert e.step e db.entries

    once-IsOrdered : (e : TraceEntry) → IsOrdered (once e)
    once-IsOrdered e = insert-IsOrdered e.step e db.entries v.ordered

    twice : (e f : TraceEntry) → IsOrdered (BTreeMap.insert f.step f (once e))
    twice e f = insert-IsOrdered f.step f (once e) (once-IsOrdered e)

between-IsKeyed :
    (start stop : ℕ) (m : BTreeMap TraceEntry) → IsKeyed m → IsKeyed (BTreeMap.between start stop m)
unfolding BTreeMap.between
between-IsKeyed start stop [] k = tt
between-IsKeyed start stop ((j, w) ∷ m) k = elim (Bool-cases (leb start j && leb j stop)) [
  | inl e ↦ rw e (k.0, between-IsKeyed start stop m k.1)
  | inr e ↦ rw e (between-IsKeyed start stop m k.1)
]

range_in_order :
    (start stop : ℕ) (m : BTreeMap TraceEntry)
    → start ≤ stop
    → BTreeMap.range start stop m ≡ done (BTreeMap.between start stop m)
unfolding BTreeMap.range
range_in_order start stop [] h = refl
range_in_order start stop (e ∷ m) h = ground arith

-- A range that does not end before it starts is the entries of an ordered map, in which exactly
-- the steps from `start` to `stop`, both included, show what they show in the database.
pub get_range_lem :
    (db : TraceDb) (start stop : ℕ)
    → IsValid db
    → start ≤ stop
    → (m : BTreeMap TraceEntry) × (get_range db start stop ≡ done (BTreeMap.values m))
      × IsOrdered m
      × IsKeyed m
      × ((k : ℕ) → BTreeMap.get m k ≡ (if leb start k && leb k stop then get db k else none))
unfolding get_range get
get_range_lem db start stop v h = (
  BTreeMap.between start stop db.entries,
  rw (range_in_order start stop db.entries h),
  between-IsOrdered start stop db.entries v.ordered,
  between-IsKeyed start stop db.entries v.keyed,
  λ k. get-between start stop k db.entries,
)

range_panics :
    (start stop : ℕ) (m : BTreeMap TraceEntry)
    → ((BTreeMap.range start stop m >>= λ n. done (BTreeMap.values n)) ≡ panicked)
      ↔ ((stop < start) × (length m ≢ 0))
unfolding BTreeMap.range
range_panics start stop [] = ground arith
range_panics start stop (e ∷ m) = elim (Bool-cases (ltb stop start)) [
  | inl lt ↦ rw lt ((λ _. (ltb→lt stop start lt, omega arith)), (λ _. refl))
  | inr ge ↦ rw ge ((λ p. cc), (λ p. absurd (ground arith)))
]

-- `get_range` panics exactly when the range ends before it starts and the database is not empty.
pub get_range-panics :
    (db : TraceDb) (start stop : ℕ)
    → (get_range db start stop ≡ panicked) ↔ ((stop < start) × (count db ≢ 0))
unfolding get_range count
get_range-panics db start stop = range_panics start stop db.entries
