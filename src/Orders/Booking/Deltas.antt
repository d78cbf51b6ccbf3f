-- ===== src/Orders/Booking/Deltas.antt =====
-- What raising the items of the stock by the deltas of a delivery adds to the stock.
use cim_backend.Prelude.{
  ℕ, ◌+◌, ◌≡◌, refl, subst, inl, inr, Bool, false, Bool-cases, ◌==◌, ◌⊎◌, ==_refl, none, some,
  Option-cases, List, [], ◌∷◌, map, find, All, Map, lookup, lookup-put, put, arith, if◌then◌else◌,
}
use cim_backend.Decimal.{Decimal, plus, minus, add_parts, sides, is_negative_test}
use cim_backend.Models.Item.{InventoryItem}
use cim_backend.Stock.Fifo.Items.{DistinctIds}
use cim_backend.Stock.Fifo.Conserved.{on_hand}
use cim_backend.Orders.Receive.{raise_delta}
use cim_backend.Orders.Booking.{raised_item}

module _ {D : Type 0} ⦃dec : Decimal D⦄ where
  -- What the deltas add to the item with the id.
  abbrev pub delta_of : ℕ → Map D → ℕ
  delta_of k m = elim (lookup k m) [ none ↦ 0 | some d ↦ plus d ]

  abbrev pub AllGained : Map D → Type 0
  AllGained m = (k : ℕ) (d : D) → lookup k m ≡ some d → minus d ≡ 0

  pub add_gained :
      (a b : D)
      → minus a ≡ 0
      → minus b ≡ 0
      → (minus (dec.add a b) ≡ 0) × (plus (dec.add a b) ≡ plus a + plus b)
  add_gained a b ha hb = ground (arith, add_parts a b, sides (dec.add a b))

  raise_delta_cases :
      (k : ℕ) (q : D) (m : Map D)
      → ((lookup k m ≡ none) × (raise_delta k q m ≡ put k q m))
        ⊎ ((e : D) × (lookup k m ≡ some e) × (raise_delta k q m ≡ put k (dec.add e q) m))
  raise_delta_cases k q m = elim (Option-cases (lookup k m)) [
    | inl new ↦ inl (new, rw (new, raise_delta) refl)
    | inr (e, old) ↦ inr (e, old, rw (old, raise_delta) refl)
  ]

  pub raise_delta-AllGained :
      (k : ℕ) (q : D) (m : Map D) → minus q ≡ 0 → AllGained m → AllGained (raise_delta k q m)
  raise_delta-AllGained k q m hq hm j d found = elim (raise_delta_cases k q m) [
    | inl (new, eq) ↦ let f = rw eq at found in ground (arith, lookup-put k j q m, f, hm j d, hq)
    | inr (e, old, eq) ↦
        let f = rw eq at found in
        ground
          (arith, lookup-put k j (dec.add e q) m, f, hm j d, (add_gained e q (hm k e old) hq).0)
  ]

  pub delta_of-raise_delta :
      (j k : ℕ) (q : D) (m : Map D)
      → minus q ≡ 0
      → AllGained m
      → delta_of j (raise_delta k q m) ≡ delta_of j m + (if j == k then plus q else 0)
  delta_of-raise_delta j k q m hq hm = elim (raise_delta_cases k q m) [
    | inl (new, eq) ↦ rw eq (ground (arith, lookup-put k j q m, new))
    | inr (e, old, eq) ↦
        rw eq (ground (arith, lookup-put k j (dec.add e q) m, old, add_gained e q (hm k e old) hq))
  ]

module _ {D F : Type 0} ⦃dec : Decimal D⦄ where
  abbrev pub AllStocked : List (InventoryItem D F) → Type 0
  AllStocked items = All (λ i. minus i.quantity ≡ 0) items

  raised_item-quantity :
      (m : Map D) (i : InventoryItem D F)
      → AllGained m
      → minus i.quantity ≡ 0
      → plus (raised_item m i).quantity ≡ plus i.quantity + delta_of i.id m
  raised_item-quantity m i hm hi = elim (Option-cases (lookup i.id m)) [
    | inl none_there ↦ rw (none_there, raised_item, delta_of) (omega arith)
    | inr (d, there) ↦
        let (up, sum) = add_gained i.quantity d hi (hm i.id d there) in
        rw (there, raised_item, delta_of)
          (ground (arith, up, sum, is_negative_test (dec.add i.quantity d)))
  ]

  -- What the deltas add to the items of a list.
  abbrev pub sum_deltas : Map D → List (InventoryItem D F) → ℕ
  sum_deltas m [] = 0
  sum_deltas m (x ∷ xs) = delta_of x.id m + sum_deltas m xs

  pub on_hand-raised_item :
      (m : Map D) (items : List (InventoryItem D F))
      → AllGained m
      → AllStocked items
      → on_hand (map (raised_item m) items) ≡ on_hand items + sum_deltas m items
  on_hand-raised_item m [] hm hs = omega arith
  on_hand-raised_item m (x ∷ xs) hm (h, hs) =
      omega (arith, raised_item-quantity m x hm h, on_hand-raised_item m xs hm hs)

  -- A number once for every item with the id.
  abbrev once : ℕ → ℕ → List (InventoryItem D F) → ℕ
  once k n [] = 0
  once k n (x ∷ xs) = (if x.id == k then n else 0) + once k n xs

  sum_deltas-raise_delta :
      (k : ℕ) (q : D) (m : Map D) (items : List (InventoryItem D F))
      → minus q ≡ 0
      → AllGained m
      → sum_deltas (raise_delta k q m) items ≡ sum_deltas m items + once k (plus q) items
  sum_deltas-raise_delta k q m [] hq hm = omega arith
  sum_deltas-raise_delta k q m (x ∷ xs) hq hm =
      omega (arith, delta_of-raise_delta x.id k q m hq hm, sum_deltas-raise_delta k q m xs hq hm)

  once-missing :
      (k n : ℕ) (items : List (InventoryItem D F))
      → find (λ i. i.id == k) items ≡ none
      → once k n items ≡ 0
  once-missing k n [] h = refl
  once-missing k n (x ∷ xs) h = elim (Bool-cases (x.id == k)) [
    | inl here ↦ absurd (cc (rw here at h))
    | inr other ↦ rw other (omega (arith, once-missing k n xs (rw other at h)))
  ]

  -- An item that some test finds has its id once, where ids are distinct.
  once-found :
      (p : InventoryItem D F → Bool) (n : ℕ) (items : List (InventoryItem D F))
      (i : InventoryItem D F)
      → DistinctIds items
      → find p items ≡ some i
      → once i.id n items ≡ n
  once-found p n [] i d h = absurd (cc)
  once-found p n (x ∷ xs) i (apart, d) h = elim (Bool-cases (p x)) [
    | inl here ↦
        let e : x ≡ i = cc (rw here at h) in
        subst (λ (z : InventoryItem D F). once z.id n (x ∷ xs) ≡ n) e
          (rw (==_refl x.id) (omega (arith, once-missing x.id n xs apart)))
    | inr later ↦
        let there = rw later at h in
        rw (found_other x.id p xs i apart there) (omega (arith, once-found p n xs i d there))
  ]
    where
      found_other :
          (k : ℕ) (p : InventoryItem D F → Bool) (xs : List (InventoryItem D F))
          (i : InventoryItem D F)
          → find (λ j. j.id == k) xs ≡ none
          → find p xs ≡ some i
          → (k == i.id) ≡ false
      found_other k p [] i a b = absurd (cc)
      found_other k p (y ∷ ys) i a b = elim (Bool-cases (y.id == k)) [
        | inl same ↦ absurd (cc (rw same at a))
        | inr other ↦ elim (Bool-cases (p y)) [
          | inl here ↦
              let e : y ≡ i = cc (rw here at b) in
              subst (λ (z : InventoryItem D F). (k == z.id) ≡ false) e (ground (arith, other))
          | inr later ↦ found_other k p ys i (rw other at a) (rw later at b)
        ]
      ]

  -- A delta of an item that is found raises the items by its quantity.
  pub sum_deltas-found :
      (p : InventoryItem D F → Bool) (q : D) (m : Map D) (items : List (InventoryItem D F))
      (i : InventoryItem D F)
      → minus q ≡ 0
      → AllGained m
      → DistinctIds items
      → find p items ≡ some i
      → sum_deltas (raise_delta i.id q m) items ≡ sum_deltas m items + plus q
  sum_deltas-found p q m items i hq hm d h =
      omega (arith, sum_deltas-raise_delta i.id q m items hq hm, once-found p (plus q) items i d h)
