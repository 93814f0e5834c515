-- ===== src/Prelude/Map.antt =====
-- std::unordered_map with 64-bit keys, as an association list with one entry a key. The three laws
-- say all that its clients use; the order of the entries is not specified by the source's library.
use Prim.Native.Nat.{ℕ}
use mathlib.Core.Path.{◌≡◌, refl}
use mathlib.Core.List.{List, [], ◌∷◌}
use mathlib.Core.Option.{Option, none, some}
use native.Mathlib.Omega.{arith}
use clear_space.Prelude.Tests.{◌==◌, if◌then◌else◌}

abbrev pub Map {ℓ} : Type ℓ → Type ℓ
Map V = List (ℕ × V)

module _ {ℓ} {V : Type ℓ} where
  -- m.find(k), with `none` for m.end()
  unfoldable pub find : Map V → ℕ → Option V
  find [] k = none
  find ((j, v) ∷ m) k = if j == k then some v else find m k

  -- m[k] = v
  unfoldable pub assign : Map V → ℕ → V → Map V
  assign [] k v = (k, v) ∷ []
  assign ((j, w) ∷ m) k v = if j == k then (k, v) ∷ m else (j, w) ∷ assign m k v

  -- m.erase(k)
  unfoldable pub erase : Map V → ℕ → Map V
  erase [] k = []
  erase ((j, v) ∷ m) k = let rest = erase m k in if j == k then rest else (j, v) ∷ rest

  pub find-assign :
      (m : Map V) (k : ℕ) (v : V) (j : ℕ)
      → find (assign m k v) j ≡ (if k == j then some v else find m j)
  unfolding find assign
  find-assign [] k v j = refl
  find-assign ((i, w) ∷ m) k v j = ground (arith, find-assign m k v j)

  pub find-erase : (m : Map V) (k j : ℕ) → find (erase m k) j ≡ (if k == j then none else find m j)
  unfolding find erase
  find-erase [] k j = ground arith
  find-erase ((i, w) ∷ m) k j = ground (arith, find-erase m k j)

  pub find-nil : (k : ℕ) → find [] k ≡ none
  unfolding find
  find-nil k = refl
