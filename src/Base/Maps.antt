-- ===== src/Base/Maps.antt =====
-- Hash maps and hash sets keyed by numbers, as association lists and lists of keys.
use Prim.Native.Nat.{ℕ}
use mathlib.Core.Path.{◌≡◌, refl}
use mathlib.Core.List.{List, [], ◌∷◌}
use mathlib.Core.Option.{Option, none, some}
use native.Mathlib.Omega.{arith}
use y_delta_crankers.Base.Tests.{◌==◌, if◌then◌else◌}

abbrev pub Map {ℓ} : Type ℓ → Type ℓ
Map V = List (ℕ × V)

module _ {ℓ} {V : Type ℓ} where
  -- `map.get(&k)`
  abbrev pub lookup : ℕ → Map V → Option V
  lookup k [] = none
  lookup k ((j, v) ∷ m) = if j == k then some v else lookup k m

  -- `map.insert(k, v)`
  abbrev pub insert : ℕ → V → Map V → Map V
  insert k v [] = (k, v) ∷ []
  insert k v ((j, w) ∷ m) = if j == k then (k, v) ∷ m else (j, w) ∷ insert k v m

  -- `map.entry(k).or_insert(v)`
  abbrev pub or_insert : ℕ → V → Map V → Map V
  or_insert k v [] = (k, v) ∷ []
  or_insert k v ((j, w) ∷ m) = if j == k then (j, w) ∷ m else (j, w) ∷ or_insert k v m

  pub lookup-insert :
      (k j : ℕ) (v : V) (m : Map V)
      → lookup j (insert k v m) ≡ (if k == j then some v else lookup j m)
  lookup-insert k j v [] = refl
  lookup-insert k j v ((i, w) ∷ m) = ground (arith, lookup-insert k j v m)

  pub lookup-or_insert :
      (k j : ℕ) (v : V) (m : Map V)
      → lookup j (or_insert k v m)
        ≡ (elim (lookup j m) [ some w ↦ some w | none ↦ if k == j then some v else none ])
  lookup-or_insert k j v [] = ground arith
  lookup-or_insert k j v ((i, w) ∷ m) = ground (arith, lookup-or_insert k j v m)
