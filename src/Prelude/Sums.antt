-- ===== src/Prelude/Sums.antt =====
-- Sums of integers over a list, and sorting, which does not change them.
use mathlib.Core.Path.{◌≡◌, refl}
use mathlib.Core.Logic.{inl, inr}
use mathlib.Core.Bool.{Bool}
use mathlib.Core.List.{List, [], ◌∷◌, ◌++◌}
use cim_backend.Prelude.Tests.{Bool-cases}
use cim_backend.Prelude.Int.{ℤ, pos, ◌+ℤ◌, int_laws}
use cim_backend.Prelude.Sort.{insert_sorted, insert_all, sort_stable}

module _ {ℓ} {A : Type ℓ} where
  abbrev pub sum_by : (A → ℤ) → List A → ℤ
  sum_by f [] = pos 0
  sum_by f (x ∷ xs) = f x +ℤ sum_by f xs

  pub sum_by-append :
      (f : A → ℤ) (xs ys : List A) → sum_by f (xs ++ ys) ≡ sum_by f xs +ℤ sum_by f ys
  sum_by-append f [] ys = omega int_laws
  sum_by-append f (x ∷ xs) ys = rw (sum_by-append f xs ys) (omega int_laws)

  sum_by-insert_sorted :
      (less : A → A → Bool) (f : A → ℤ) (x : A) (ys : List A)
      → sum_by f (insert_sorted less x ys) ≡ f x +ℤ sum_by f ys
  unfolding insert_sorted
  sum_by-insert_sorted less f x [] = refl
  sum_by-insert_sorted less f x (y ∷ ys) = elim (Bool-cases (less x y)) [
    | inl first ↦ rw first refl
    | inr later ↦ rw later (rw (sum_by-insert_sorted less f x ys) (omega int_laws))
  ]

  sum_by-insert_all :
      (less : A → A → Bool) (f : A → ℤ) (acc xs : List A)
      → sum_by f (insert_all less acc xs) ≡ sum_by f acc +ℤ sum_by f xs
  unfolding insert_all
  sum_by-insert_all less f acc [] = omega int_laws
  sum_by-insert_all less f acc (x ∷ xs) =
      rw (sum_by-insert_all less f (insert_sorted less x acc) xs, sum_by-insert_sorted less f x acc)
        (omega int_laws)

  pub sum_by-sort_stable :
      (less : A → A → Bool) (f : A → ℤ) (xs : List A) → sum_by f (sort_stable less xs) ≡ sum_by f xs
  unfolding sort_stable
  sum_by-sort_stable less f xs = rw (sum_by-insert_all less f [] xs) (omega int_laws)
