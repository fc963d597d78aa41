-- ===== src/Prelude/Maps.antt =====
-- JavaScript's `Map` with number keys: an association list in insertion order, as iteration sees it.
use Prim.Native.Nat.{ℕ}
use mathlib.Core.Path.{◌≡◌, refl}
use mathlib.Core.Bool.{Bool, true, false}
use mathlib.Core.List.{List, [], ◌∷◌}
use mathlib.Core.Option.{Option, none, some}
use native.Mathlib.Omega.{arith}
use h4_projekt_gruppe_0_sm.Prelude.Tests.{if◌then◌else◌, ◌==◌}

abbrev pub NumMap {ℓ} : Type ℓ → Type ℓ
NumMap V = List (ℕ × V)

module _ {ℓ} {V : Type ℓ} where
  -- `m.get(k)`
  abbrev pub map_get : NumMap V → ℕ → Option V
  map_get [] k = none
  map_get ((j, v) ∷ m) k = if j == k then some v else map_get m k

  -- `m.set(k, v)`: a key that is there keeps its place
  abbrev pub map_set : NumMap V → ℕ → V → NumMap V
  map_set [] k v = (k, v) ∷ []
  map_set ((j, w) ∷ m) k v = if j == k then (k, v) ∷ m else (j, w) ∷ map_set m k v

  abbrev pub map_has : NumMap V → ℕ → Bool
  map_has [] k = false
  map_has ((j, v) ∷ m) k = if j == k then true else map_has m k

  pub map_get-map_set :
      (m : NumMap V) (k j : ℕ) (v : V)
      → map_get (map_set m k v) j ≡ (if k == j then some v else map_get m j)
  map_get-map_set [] k j v = refl
  map_get-map_set ((i, w) ∷ m) k j v = ground (arith, map_get-map_set m k j v)
