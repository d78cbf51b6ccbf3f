-- ===== src/Orders/Edit/Edited.antt =====
-- What an edit makes of a row of the order.
use cim_backend.Prelude.{
  ℕ, ◌≡◌, ◌⊎◌, ◌∙◌, refl, ap, inl, inr, false, Bool-cases, ◌==◌, none, List, [], ◌∷◌, find, map,
  if◌then◌else◌,
}
use cim_backend.Decimal.{Decimal}
use cim_backend.Orders.{PurchaseOrderItem}
use cim_backend.Orders.Edit.{EditItem, edit_item}
use cim_backend.Orders.Edit.Rows.{DistinctRows, AllOnly, AllSpared}

module _ {D F : Type 0} ⦃dec : Decimal D⦄ where
  -- The row `j` is what an edit has made of the row `i`: what was received of it stays, and is not
  -- more than what is ordered where that has changed.
  pub record Edited (i j : PurchaseOrderItem D F) : Type 0 where
    pub same_id : j.id ≡ i.id
    pub same_product : j.product_id ≡ i.product_id
    pub same_supplier : j.supplier_id ≡ i.supplier_id
    pub same_received : j.received_quantity ≡ i.received_quantity
    pub same_deleted : j.is_deleted ≡ i.is_deleted
    pub enough :
        (j.quantity ≡ i.quantity) ⊎ (dec.greater_than j.received_quantity j.quantity ≡ false)

  abbrev pub AllEdited : List (PurchaseOrderItem D F) → List (PurchaseOrderItem D F) → Type 0
  AllEdited [] [] = Unit
  AllEdited (i ∷ is) (j ∷ js) = Edited i j × AllEdited is js
  AllEdited _ _ = ⊥

  Edited-refl : (i : PurchaseOrderItem D F) → Edited i i
  Edited-refl i = record {
    same_id = refl;
    same_product = refl;
    same_supplier = refl;
    same_received = refl;
    same_deleted = refl;
    enough = inl refl;
  }

  pub AllEdited-refl : (is : List (PurchaseOrderItem D F)) → AllEdited is is
  AllEdited-refl [] = tt
  AllEdited-refl (i ∷ is) = (Edited-refl i, AllEdited-refl is)

  Edited-edit_item :
      (r : EditItem D F) (i j : PurchaseOrderItem D F)
      → Edited i j
      → dec.greater_than j.received_quantity r.quantity ≡ false
      → Edited i (edit_item r j)
  unfolding edit_item
  Edited-edit_item r i j e enough = record {
    same_id = e.same_id;
    same_product = e.same_product;
    same_supplier = e.same_supplier;
    same_received = e.same_received;
    same_deleted = e.same_deleted;
    enough = inr enough;
  }

  -- The edit of the rows with an id.
  abbrev pub edited_rows :
      EditItem D F
      → PurchaseOrderItem D F
      → List (PurchaseOrderItem D F)
      → List (PurchaseOrderItem D F)
  edited_rows r i rows = map (λ j. if j.id == i.id then edit_item r j else j) rows

  pub AllEdited-edited_rows :
      (r : EditItem D F) (i : PurchaseOrderItem D F) (is js : List (PurchaseOrderItem D F))
      → dec.greater_than i.received_quantity r.quantity ≡ false
      → AllOnly i js
      → AllEdited is js
      → AllEdited is (edited_rows r i js)
  AllEdited-edited_rows r i [] [] enough only all = tt
  AllEdited-edited_rows r i [] (y ∷ js) enough only all = absurd all
  AllEdited-edited_rows r i (x ∷ is) [] enough only all = absurd all
  AllEdited-edited_rows r i (x ∷ is) (y ∷ js) enough (same, only) (here, all) =
      elim (Bool-cases (y.id == i.id)) [
        | inl its ↦
            let fits =
              ap (λ (z : PurchaseOrderItem D F). dec.greater_than z.received_quantity r.quantity)
                (same its)
              ∙ enough in
            rw its
              (Edited-edit_item r x y here fits, AllEdited-edited_rows r i is js enough only all)
        | inr other ↦ rw other (here, AllEdited-edited_rows r i is js enough only all)
      ]

  -- An edit of rows that keeps ids and received quantities.
  find-edited_rows :
      (r : EditItem D F) (i : PurchaseOrderItem D F) (k : ℕ) (js : List (PurchaseOrderItem D F))
      → find (λ j. j.id == k) js ≡ none
      → find (λ j. j.id == k) (edited_rows r i js) ≡ none
  unfolding edit_item
  find-edited_rows r i k [] h = refl
  find-edited_rows r i k (y ∷ js) h = elim (Bool-cases (y.id == k)) [
    | inl here ↦ absurd (cc (rw here at h))
    | inr other ↦
        let rest = find-edited_rows r i k js (rw other at h) in
        elim (Bool-cases (y.id == i.id)) [
          | inl its ↦ rw (its, other) rest
          | inr far ↦ rw (far, other) rest
        ]
  ]

  pub edited_rows-kept :
      (r : EditItem D F) (i : PurchaseOrderItem D F) (ids : List ℕ)
      (js : List (PurchaseOrderItem D F))
      → DistinctRows js
      → AllSpared ids js
      → DistinctRows (edited_rows r i js) × AllSpared ids (edited_rows r i js)
  unfolding edit_item
  edited_rows-kept r i ids [] d s = (tt, tt)
  edited_rows-kept r i ids (y ∷ js) (apart, d) (kept, s) =
      let missing = find-edited_rows r i y.id js apart in
      let (d', s') = edited_rows-kept r i ids js d s in
      elim (Bool-cases (y.id == i.id)) [
        | inl its ↦ rw its ((missing, d'), (kept, s'))
        | inr far ↦ rw far ((missing, d'), (kept, s'))
      ]
