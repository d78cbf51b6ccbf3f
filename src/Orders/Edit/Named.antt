-- ===== src/Orders/Edit/Named.antt =====
-- The row that an edit finds by its supplier and product, and which rows its request names.
use cim_backend.Prelude.{
  ℕ, ◌≡◌, ◌∙◌, refl, ap, subst, inl, inr, Bool, true, false, Bool-cases, ◌&&◌, ◌||◌, not, ◌==◌,
  none, some, Option-cases, List, [], ◌∷◌, any, map, All, ok, arith,
}
use cim_backend.Decimal.{Decimal}
use cim_backend.Orders.{PurchaseOrderItem}
use cim_backend.Orders.Edit.{
  EditItem, existing_item, is_keyed, is_overwritten, is_requested, removed_ids,
}
use cim_backend.Orders.Edit.Rows.{is_received, removed_ids-cases}

module _ {D F : Type 0} where
  pub existing_item-All :
      (P : PurchaseOrderItem D F → Type 0) (supplier product : ℕ)
      (items : List (PurchaseOrderItem D F)) (x : PurchaseOrderItem D F)
      → All P items
      → existing_item supplier product items ≡ some x
      → P x
  unfolding existing_item
  existing_item-All P supplier product [] x all h = absurd (cc)
  existing_item-All P supplier product (y ∷ ys) x (here, all) h =
      elim (Option-cases (existing_item supplier product ys)) [
        | inr (z, later) ↦
            let same : z ≡ x = cc (rw (later, existing_item) at h) in
            existing_item-All P supplier product ys x all (later ∙ ap some same)
        | inl last ↦
            let h1 = rw (last, existing_item) at h in
            elim (Bool-cases (not y.is_deleted && is_keyed supplier product y)) [
              | inr other ↦ absurd (cc (rw other at h1))
              | inl its ↦ let same : y ≡ x = cc (rw its at h1) in subst P same here
            ]
      ]

  -- A change of the rows that keeps their keys and their deletions.
  pub existing_item-map :
      (f : PurchaseOrderItem D F → PurchaseOrderItem D F) (supplier product : ℕ)
      (items : List (PurchaseOrderItem D F))
      → ((j : PurchaseOrderItem D F)
          → (not (f j).is_deleted && is_keyed supplier product (f j))
            ≡ (not j.is_deleted && is_keyed supplier product j))
      → existing_item supplier product (map f items)
        ≡ elim (existing_item supplier product items) [ none ↦ none | some x ↦ some (f x) ]
  unfolding existing_item
  existing_item-map f supplier product [] keeps = refl
  existing_item-map f supplier product (y ∷ ys) keeps =
      let ih = existing_item-map f supplier product ys keeps in
      elim (Option-cases (existing_item supplier product ys)) [
        | inr (z, later) ↦ rw (existing_item, ih, later) refl
        | inl last ↦ elim (Bool-cases (not y.is_deleted && is_keyed supplier product y)) [
          | inl its ↦ rw (existing_item, ih, last, keeps y, its) refl
          | inr other ↦ rw (existing_item, ih, last, keeps y, other) refl
        ]
      ]

module _ {D F : Type 0} ⦃dec : Decimal D⦄ where
  -- What was received is not more than what is ordered.
  abbrev pub Fits : PurchaseOrderItem D F → Type 0
  Fits x = dec.greater_than x.received_quantity x.quantity ≡ false

  abbrev pub is_named : ℕ → ℕ → List (EditItem D F) → Bool
  is_named supplier product requests =
      any (λ (r : EditItem D F). r.supplier_id == supplier && r.product_id == product) requests

  -- A received row is named by the request, or the edit is refused.
  pub removed_ids-named :
      (requests : List (EditItem D F)) (supplier product : ℕ) (items : List (PurchaseOrderItem D F))
      (x : PurchaseOrderItem D F) (ids : List ℕ)
      → removed_ids requests items ≡ ok ids
      → existing_item supplier product items ≡ some x
      → is_received x ≡ true
      → is_named supplier product requests ≡ true
  unfolding existing_item removed_ids
  removed_ids-named requests supplier product [] x ids h there received = absurd (cc)
  removed_ids-named requests supplier product (y ∷ ys) x ids h there received =
      elim (Option-cases (existing_item supplier product ys)) [
        | inr (z, later) ↦
            let same : z ≡ x = cc (rw (later, existing_item) at there) in
            let still = later ∙ ap some same in
            elim (removed_ids-cases requests y ys ids h) [
              | inl rest ↦ removed_ids-named requests supplier product ys x ids rest still received
              | inr (l, rest, _, _) ↦
                  removed_ids-named requests supplier product ys x l rest still received
            ]
        | inl last ↦
            let h1 = rw (last, existing_item) at there in
            elim (Bool-cases (not y.is_deleted && is_keyed supplier product y)) [
              | inr other ↦ absurd (cc (rw other at h1))
              | inl its ↦
                  let same : y ≡ x = cc (rw its at h1) in
                  let s : y.supplier_id ≡ supplier = ground (arith, its) in
                  let p : y.product_id ≡ product = ground (arith, its) in
                  let live : y.is_deleted ≡ false = ground (arith, its) in
                  let gone : existing_item y.supplier_id y.product_id ys ≡ none =
                    ap (λ k. existing_item k y.product_id ys) s
                    ∙ ap (λ k. existing_item supplier k ys) p
                    ∙ last in
                  let got : is_received y ≡ true =
                    ap (λ (z : PurchaseOrderItem D F). is_received z) same ∙ received in
                  elim (Bool-cases (is_requested requests y)) [
                    | inl named ↦
                        subst (λ k. is_named k product requests ≡ true) s
                          (subst (λ k. is_named y.supplier_id k requests ≡ true) p named)
                    | inr unnamed ↦
                        let over : is_overwritten y ys ≡ false = rw (is_overwritten, gone) refl in
                        let goes : (y.is_deleted || is_overwritten y ys || is_requested requests y)
                            ≡ false =
                          ground (arith, live, over, unnamed) in
                        absurd (cc (rw (removed_ids, goes, got) at h))
                  ]
            ]
      ]
