-- ===== src/Stock/Fifo/Changes.antt =====
-- The changes that `consumeFIFO` returns, item by item.
use cim_backend.Prelude.{
  ℕ, ◌≡◌, refl, inl, inr, true, ◌==◌, ==_iff, Bool-cases, Option, none, some, List, [], ◌∷◌, ◌++◌,
  find, Map, lookup_or, if◌then◌else◌, ap,
}
use cim_backend.Decimal.{Decimal}
use cim_backend.Models.Item.{InventoryItem, InventoryItemChange}
use cim_backend.Stock.Fifo.{ConsumeHandler, consume_item, item_after, consume_items}
use cim_backend.Stock.Fifo.Items.{DistinctIds}

module _ {D F : Type 0} where
  -- The quantity that the changes give an item.
  unfoldable pub changed_quantity : ℕ → List (InventoryItemChange D F) → Option D
  changed_quantity k [] = none
  changed_quantity k (c ∷ cs) =
      if c.item.id == k then some c.item.quantity else changed_quantity k cs

  pub changed_quantity-append :
      (k : ℕ) (xs ys : List (InventoryItemChange D F))
      → changed_quantity k (xs ++ ys)
        ≡ (elim (changed_quantity k xs) [ some q ↦ some q | none ↦ changed_quantity k ys ])
  unfolding changed_quantity
  changed_quantity-append k [] ys = refl
  changed_quantity-append k (x ∷ xs) ys = elim (Bool-cases (x.item.id == k)) [
    | inl here ↦ rw here refl
    | inr later ↦ rw later (changed_quantity-append k xs ys)
  ]

module _ {S D F : Type 0} ⦃dec : Decimal D⦄ (handler : ConsumeHandler S D F) (wanted : Map D)
    (k : ℕ) where
  -- An id that no item has is in no change, and on no item afterwards.
  pub consume_items-absent :
      (s : S) (items : List (InventoryItem D F))
      → find (λ j. j.id == k) items ≡ none
      → let c = consume_items handler wanted s items in
        (changed_quantity k c.changes ≡ none) × (find (λ j. j.id == k) c.items ≡ none)
  unfolding consume_items changed_quantity item_after
  consume_items-absent s [] h = (refl, refl)
  consume_items-absent s (x ∷ xs) h =
      let q = lookup_or dec.zero_value x.id wanted in
      let r = consume_item handler x s q in
      elim (Bool-cases (x.id == k)) [
        | inl same ↦ absurd (cc (rw same at h))
        | inr other ↦ elim (Bool-cases (dec.is_zero q)) [
          | inl skip ↦ rw (skip, other) (consume_items-absent s xs (rw other at h))
          | inr taken ↦ rw (taken, other) (consume_items-absent r.handler_state xs (rw other at h))
        ]
      ]

  -- The item with the id is kept where nothing is taken from it, and lowered otherwise.
  pub consume_items-present :
      (s : S) (items : List (InventoryItem D F)) (i : InventoryItem D F)
      → DistinctIds items
      → find (λ j. j.id == k) items ≡ some i
      → let c = consume_items handler wanted s items in
        let q = lookup_or dec.zero_value k wanted in
        (changed_quantity k c.changes
          ≡ (if dec.is_zero q then none else some (dec.sub i.quantity q)))
        × (dec.is_zero q ≡ true → find (λ j. j.id == k) c.items ≡ some i)
  unfolding consume_items changed_quantity item_after
  consume_items-present s [] i d h = absurd (cc)
  consume_items-present s (x ∷ xs) i (apart, d) h =
      let q = lookup_or dec.zero_value x.id wanted in
      let r = consume_item handler x s q in
      elim (Bool-cases (x.id == k)) [
        | inl same ↦
            let e : x.id ≡ k = (==_iff x.id k).0 same in
            let f : x ≡ i = cc (rw same at h) in
            elim (Bool-cases (dec.is_zero q)) [
              | inl skip ↦
                  let gone = consume_items-absent s xs (rw e at apart) in
                  rw (skip, same, rw e at skip) (gone.0, λ t. ap some f)
              | inr taken ↦
                  rw (taken, same, rw e at taken)
                    (
                      ap some (λ l. dec.sub (f l).quantity (lookup_or dec.zero_value (e l) wanted)),
                      λ t. absurd (cc),
                    )
            ]
        | inr other ↦ elim (Bool-cases (dec.is_zero q)) [
          | inl skip ↦ rw (skip, other) (consume_items-present s xs i d (rw other at h))
          | inr taken ↦
              rw (taken, other) (consume_items-present r.handler_state xs i d (rw other at h))
        ]
      ]

module _ {S D F : Type 0} ⦃dec : Decimal D⦄ (handler : ConsumeHandler S D F) (wanted : Map D) where
  pub consume_items-DistinctIds :
      (s : S) (items : List (InventoryItem D F))
      → DistinctIds items
      → DistinctIds (consume_items handler wanted s items).items
  unfolding consume_items item_after
  consume_items-DistinctIds s [] d = tt
  consume_items-DistinctIds s (x ∷ xs) (apart, d) =
      let q = lookup_or dec.zero_value x.id wanted in
      let r = consume_item handler x s q in
      elim (Bool-cases (dec.is_zero q)) [
        | inl skip ↦ rw skip (
          (consume_items-absent handler wanted x.id s xs apart).1,
          consume_items-DistinctIds s xs d,
        )
        | inr taken ↦ rw taken (
          (consume_items-absent handler wanted x.id r.handler_state xs apart).1,
          consume_items-DistinctIds r.handler_state xs d,
        )
      ]
