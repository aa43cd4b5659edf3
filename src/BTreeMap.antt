-- ===== src/BTreeMap.antt =====
-- `std::collections::BTreeMap<u64, V>` as far as src/storage/mod.rs uses it: the entries in the
-- order of their keys, which every operation keeps and which `values` and `range` show.
pub mod Laws
pub mod Canonical
use tiny_binary_debugger.Base.{
  ℕ, ◌<◌, ◌≤◌, Bool, ◌&&◌, Option, none, some, List, [], ◌∷◌, map, length, ltb, leb, ◌==◌,
  if◌then◌else◌, Outcome, done, panicked,
}

abbrev pub BTreeMap {ℓ} : Type ℓ → Type ℓ
BTreeMap V = List (ℕ × V)

module _ {ℓ} {V : Type ℓ} where
  unfoldable pub insert : ℕ → V → BTreeMap V → BTreeMap V
  insert k v [] = (k, v) ∷ []
  insert k v ((j, w) ∷ m) =
      if ltb k j then (k, v) ∷ (j, w) ∷ m else if k == j then (k, v) ∷ m else (j, w) ∷ insert k v m

  unfoldable pub get : BTreeMap V → ℕ → Option V
  get [] k = none
  get ((j, w) ∷ m) k = if k == j then some w else get m k

  abbrev pub values : BTreeMap V → List V
  values = map (λ e. e.1)

  -- The entries whose keys lie in `start..=end`.
  unfoldable pub between : ℕ → ℕ → BTreeMap V → BTreeMap V
  between start stop [] = []
  between start stop ((j, w) ∷ m) =
      let rest = between start stop m in if leb start j && leb j stop then (j, w) ∷ rest else rest

  -- `range(start..=end)` panics on a range that ends before it starts, except in a map without a
  -- root, which returns before it looks at the range. No operation here removes a key, so the map
  -- has no root exactly while it is empty.
  unfoldable pub range : ℕ → ℕ → BTreeMap V → Outcome (BTreeMap V)
  unfolding between
  range start stop [] = done []
  range start stop (e ∷ m) = if ltb stop start then panicked else done (between start stop (e ∷ m))

  -- The keys ascend strictly, and the first is above `k`.
  abbrev pub IsAbove : ℕ → BTreeMap V → Type 0
  IsAbove k [] = Unit
  IsAbove k ((j, w) ∷ m) = (k < j) × IsAbove j m

  abbrev pub IsOrdered : BTreeMap V → Type 0
  IsOrdered [] = Unit
  IsOrdered ((j, w) ∷ m) = IsAbove j m
