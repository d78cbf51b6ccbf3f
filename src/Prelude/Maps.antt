-- ===== src/Prelude/Maps.antt =====
-- Go maps with unsigned integer keys, as association lists with one entry for a key.
use Prim.Native.Nat.{ℕ}
use mathlib.Core.Path.{◌≡◌, refl}
use mathlib.Core.Option.{Option, none, some}
use mathlib.Core.List.{List, [], ◌∷◌}
use native.Mathlib.Omega.{arith}
use cim_backend.Prelude.Tests.{◌==◌, if◌then◌else◌}

abbrev pub Map {ℓ} : Type ℓ → Type ℓ
Map V = List (ℕ × V)

module _ {ℓ} {V : Type ℓ} where
  -- `v, ok := m[k]`
  unfoldable pub lookup : ℕ → Map V → Option V
  lookup k [] = none
  lookup k ((j, v) ∷ m) = if j == k then some v else lookup k m

  -- `v := m[k]`, with the zero value of the type on a missing key
  unfoldable pub lookup_or : V → ℕ → Map V → V
  lookup_or d k m = elim (lookup k m) [ none ↦ d | some v ↦ v ]

  -- `m[k] = v`
  unfoldable pub put : ℕ → V → Map V → Map V
  put k v [] = (k, v) ∷ []
  put k v ((j, w) ∷ m) = if j == k then (k, v) ∷ m else (j, w) ∷ put k v m

  pub lookup-put :
      (k j : ℕ) (v : V) (m : Map V) → lookup j (put k v m) ≡ (if k == j then some v else lookup j m)
  unfolding lookup put
  lookup-put k j v [] = refl
  lookup-put k j v ((i, w) ∷ m) = ground (arith, lookup-put k j v m)

  pub lookup_or-put :
      (d : V) (k j : ℕ) (v : V) (m : Map V)
      → lookup_or d j (put k v m) ≡ (if k == j then v else lookup_or d j m)
  unfolding lookup_or
  lookup_or-put d k j v m = ground (arith, lookup-put k j v m)
