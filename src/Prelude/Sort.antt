-- ===== src/Prelude/Sort.antt =====
-- Stable sorting, as `sort.SliceStable` and `ORDER BY` do it: insertion by a Boolean order.
use mathlib.Core.Bool.{Bool}
use mathlib.Core.List.{List, [], ◌∷◌}
use cim_backend.Prelude.Tests.{if◌then◌else◌}

module _ {ℓ} {A : Type ℓ} (less : A → A → Bool) where
  -- Before the first element that is greater.
  unfoldable pub insert_sorted : A → List A → List A
  insert_sorted x [] = x ∷ []
  insert_sorted x (y ∷ ys) = if less x y then x ∷ y ∷ ys else y ∷ insert_sorted x ys

  unfoldable pub insert_all : List A → List A → List A
  insert_all acc [] = acc
  insert_all acc (x ∷ xs) = insert_all (insert_sorted x acc) xs

  unfoldable pub sort_stable : List A → List A
  sort_stable xs = insert_all [] xs
