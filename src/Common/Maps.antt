-- ===== src/Common/Maps.antt =====
-- A `BTreeMap` with numbers for keys: its entries in the order of their keys.
use Prim.Native.Nat.{ℕ, compare, Ordering}
use mathlib.Core.List.{List, [], ◌∷◌}
use mathlib.Core.Option.{Option, none, some}
use sandbx.Common.Tests.{◌==◌, if◌then◌else◌}

abbrev pub Entries {ℓ} : Type ℓ → Type ℓ
Entries V = List (ℕ × V)

module _ {ℓ} {V : Type ℓ} where
  abbrev pub insert : ℕ → V → Entries V → Entries V
  insert k v [] = (k, v) ∷ []
  insert k v ((j, w) ∷ m) = elim (compare k j) [
    | Ordering.lt ↦ (k, v) ∷ (j, w) ∷ m
    | Ordering.eq ↦ (k, v) ∷ m
    | Ordering.gt ↦ (j, w) ∷ insert k v m
  ]

  abbrev pub remove : ℕ → Entries V → Entries V
  remove k [] = []
  remove k ((j, w) ∷ m) = if j == k then m else (j, w) ∷ remove k m

  abbrev pub get : ℕ → Entries V → Option V
  get k [] = none
  get k ((j, w) ∷ m) = if j == k then some w else get k m

  -- `get_mut`, and a change of what it gives.
  abbrev pub adjust : ℕ → (V → V) → Entries V → Entries V
  adjust k f [] = []
  adjust k f ((j, w) ∷ m) = if j == k then (j, f w) ∷ m else (j, w) ∷ adjust k f m
