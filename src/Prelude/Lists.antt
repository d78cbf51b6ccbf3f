-- ===== src/Prelude/Lists.antt =====
-- Lists: the native length, membership tests, and Go's `for` over a slice.
use Prim.Native.Nat.{ℕ, zero, suc}
use mathlib.Core.Path.{◌≡◌, refl, subst}
use mathlib.Core.Logic.{◌⊎◌, inl, inr}
use mathlib.Core.Bool.{Bool, true, false, ◌&&◌, ◌||◌}
use mathlib.Core.Option.{Option, none, some}
use mathlib.Core.List.{List, [], ◌∷◌, ◌++◌}
use native.Mathlib.Omega.{arith}
use cim_backend.Prelude.Tests.{◌==◌, if◌then◌else◌}

module _ {ℓ} {A : Type ℓ} where
  abbrev pub length : List A → ℕ
  length [] = 0
  length (x ∷ xs) = suc (length xs)

  abbrev pub take : ℕ → List A → List A
  take zero xs = []
  take (suc n) [] = []
  take (suc n) (x ∷ xs) = x ∷ take n xs

  abbrev pub any : (A → Bool) → List A → Bool
  any p [] = false
  any p (x ∷ xs) = p x || any p xs

  -- The elements that pass the test, in order.
  abbrev pub select : (A → Bool) → List A → List A
  select p [] = []
  select p (x ∷ xs) = let rest = select p xs in if p x then x ∷ rest else rest

  -- The first element that passes the test.
  abbrev pub find : (A → Bool) → List A → Option A
  find p [] = none
  find p (x ∷ xs) = let rest = find p xs in if p x then some x else rest

  -- A predicate at every element.
  abbrev pub All {κ} : (A → Type κ) → List A → Type κ
  All P [] = Unit
  All P (x ∷ xs) = P x × All P xs

-- Text as a list of code points.
abbrev pub Text : Type 0
Text = List ℕ

abbrev pub text_eq : Text → Text → Bool
text_eq [] [] = true
text_eq (x ∷ xs) (y ∷ ys) = x == y && text_eq xs ys
text_eq _ _ = false

pub text_eq→eq : (s t : Text) → text_eq s t ≡ true → s ≡ t
text_eq→eq [] [] h = refl
text_eq→eq [] (y ∷ ys) h = ground arith
text_eq→eq (x ∷ xs) [] h = ground arith
text_eq→eq (x ∷ xs) (y ∷ ys) h = ground (arith, text_eq→eq xs ys)

pub text_eq_refl : (s : Text) → text_eq s s ≡ true
text_eq_refl [] = refl
text_eq_refl (x ∷ xs) = ground (arith, text_eq_refl xs)

pub list_cases {ℓ} : {A : Type ℓ} (l : List A) → (l ≡ []) ⊎ ((x : A) × (xs : List A) × (l ≡ x ∷ xs))
list_cases [] = inl refl
list_cases (x ∷ xs) = inr (x, xs, refl)

pub find-holds {ℓ} :
    {A : Type ℓ} (p : A → Bool) (l : List A) (a : A) → find p l ≡ some a → p a ≡ true
find-holds p [] a h = absurd (cc)
find-holds p (x ∷ xs) a h =
    elim (p x) as (λ b. p x ≡ b → p a ≡ true) [
      | true ↦ λ e. let f = rw e at h in cc
      | false ↦ λ e. find-holds p xs a (rw e at h)
    ]
      refl

module _ {ℓ κ} {A : Type ℓ} (P : A → Type κ) where
  pub All-find : (p : A → Bool) (xs : List A) (a : A) → find p xs ≡ some a → All P xs → P a
  All-find p [] a h all = absurd (cc)
  All-find p (x ∷ xs) a h (here, all) =
      elim (p x) as (λ b. p x ≡ b → P a) [
        | true ↦ λ e. let same : x ≡ a = cc (rw e at h) in subst P same here
        | false ↦ λ e. All-find p xs a (rw e at h) all
      ]
        refl

  pub All-append : (xs ys : List A) → All P xs → All P ys → All P (xs ++ ys)
  All-append [] ys hx hy = hy
  All-append (x ∷ xs) ys (h, hx) hy = (h, All-append xs ys hx hy)

pub any-append {ℓ} :
    {A : Type ℓ} (p : A → Bool) (xs ys : List A) → any p (xs ++ ys) ≡ (any p xs || any p ys)
any-append p [] ys = refl
any-append p (x ∷ xs) ys = rw (any-append p xs ys) (ground arith)

pub select-same {ℓ} :
    {A : Type ℓ} (p q : A → Bool) (xs : List A) → ((x : A) → p x ≡ q x) → select p xs ≡ select q xs
select-same p q [] e = refl
select-same p q (x ∷ xs) e = rw (e x, select-same p q xs e) refl

-- What is selected passes the test.
pub select-holds {ℓ} :
    {A : Type ℓ} (p : A → Bool) (xs : List A) → All (λ x. p x ≡ true) (select p xs)
select-holds p [] = tt
select-holds p (x ∷ xs) =
    let rest = select-holds p xs in
    elim (p x)
        as (λ b. (p x ≡ b) → All (λ y. p y ≡ true) (if b then x ∷ select p xs else select p xs)) [
          | true ↦ λ e. (e, rest)
          | false ↦ λ e. rest
        ]
      refl
