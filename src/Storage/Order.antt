-- ===== src/Storage/Order.antt =====
-- Several threads that insert into one `TraceDb`. Each insertion holds the lock from start to end,
-- so that a run is the insertions in the order in which the lock was taken.
use tiny_binary_debugger.Base.{
  ◌≡◌, ◌≢◌, refl, ap, sym, ◌∙◌, List, [], ◌∷◌, ◌++◌, All, Result, ok, err,
}
use tiny_binary_debugger.Storage.{TraceEntry, TraceDb, insert, IsValid}
use tiny_binary_debugger.Storage.Db.{after_insert, insert_lem, insert_comm}

-- The insertions one after the other, `?` after each.
with_db : Result TraceDb → (TraceDb → Result TraceDb) → Result TraceDb
with_db (ok db) next = next db
with_db (err e) next = err e

unfoldable pub insert_each : TraceDb → List TraceEntry → Result TraceDb
unfolding with_db insert
insert_each db [] = ok db
insert_each db (e ∷ es) = with_db (insert db e) (λ next. insert_each next es)

-- The orders that two threads can make of their insertions.
pub data Interleaves : List TraceEntry → List TraceEntry → List TraceEntry → Type 0 where
  ended : Interleaves [] [] []
  first :
      (e : TraceEntry) (xs ys zs : List TraceEntry)
      → Interleaves xs ys zs
      → Interleaves (e ∷ xs) ys (e ∷ zs)
  second :
      (e : TraceEntry) (xs ys zs : List TraceEntry)
      → Interleaves xs ys zs
      → Interleaves xs (e ∷ ys) (e ∷ zs)

abbrev pub IsApart : TraceEntry → List TraceEntry → Type 0
IsApart e es = All (λ d. d.step ≢ e.step) es

-- No two entries have one step.
abbrev pub HasDistinctSteps : List TraceEntry → Type 0
HasDistinctSteps [] = Unit
HasDistinctSteps (e ∷ es) = IsApart e es × HasDistinctSteps es

after_insert-IsValid : (db : TraceDb) (e : TraceEntry) → IsValid db → IsValid (after_insert db e)
after_insert-IsValid db e v = (insert_lem db e v).1

Interleaves-IsApart :
    (d : TraceEntry) (xs ys zs : List TraceEntry)
    → Interleaves xs ys zs
    → IsApart d zs
    → IsApart d xs
Interleaves-IsApart d xs ys zs ended apart = tt
Interleaves-IsApart d xs ys zs (first e xs' _ zs' i) apart =
    (apart.0, Interleaves-IsApart d xs' ys zs' i apart.1)
Interleaves-IsApart d xs ys zs (second e _ ys' zs' i) apart =
    Interleaves-IsApart d xs ys' zs' i apart.1

-- An entry may be inserted before others that have other steps, or after them.
insert_each-later :
    (db : TraceDb) (e : TraceEntry) (xs ys : List TraceEntry)
    → IsValid db
    → IsApart e xs
    → insert_each (after_insert db e) (xs ++ ys) ≡ insert_each db (xs ++ e ∷ ys)
unfolding insert_each
insert_each-later db e [] ys v apart = refl
insert_each-later db e (x ∷ xs) ys v apart =
    ap (λ d. insert_each d (xs ++ ys)) (insert_comm db e x v (λ p. apart.0 (sym p)))
    ∙ insert_each-later (after_insert db x) e xs ys (after_insert-IsValid db x v) apart.1

-- In whatever order the lock lets two threads insert, the database comes out as if the first had
-- inserted all of its entries before the second, and every insertion succeeds, where no two of the
-- entries have the same step.
pub interleaved_inserts :
    (db : TraceDb) (xs ys zs : List TraceEntry)
    → Interleaves xs ys zs
    → HasDistinctSteps zs
    → IsValid db
    → (insert_each db zs ≡ insert_each db (xs ++ ys))
      × (after : TraceDb) × (insert_each db zs ≡ ok after)
      × IsValid after
unfolding insert_each
interleaved_inserts db xs ys zs ended apart v = (refl, db, refl, v)
interleaved_inserts db xs ys zs (first e xs' _ zs' i) (apart, rest) v =
    interleaved_inserts (after_insert db e) xs' ys zs' i rest (after_insert-IsValid db e v)
interleaved_inserts db xs ys zs (second e _ ys' zs' i) (apart, rest) v =
    let (same, after, inserted, valid) =
      interleaved_inserts (after_insert db e) xs ys' zs' i rest (after_insert-IsValid db e v) in
    (
      same ∙ insert_each-later db e xs ys' v (Interleaves-IsApart e xs ys' zs' i apart),
      after,
      inserted,
      valid,
    )
