-- ===== src/Orders/Edit/Left.antt =====
-- The rows of an order after the deletions and creations of an edit.
use cim_backend.Prelude.{
  ℕ, ◌+◌, ◌≡◌, ◌⊎◌, ◌∙◌, ap, sym, inl, inr, true, false, Bool-cases, ◌==◌, List, [], ◌∷◌, ◌++◌, any,
  ok, ok-injective, if◌then◌else◌,
}
use mathlib.Core.List.{append-nil, append_assoc}
use cim_backend.Decimal.{Decimal}
use cim_backend.Orders.{PurchaseOrderItem}
use cim_backend.Orders.Edit.{is_keyed, delete_items, create_order_items}
use cim_backend.Orders.Edit.Rows.{is_received, AllSpared}
use cim_backend.Orders.Edit.Edited.{Edited, AllEdited}
use cim_backend.Orders.Edit.Going.{AllNothing}

module _ {D F : Type 0} ⦃dec : Decimal D⦄ where
  -- The row `j` is what is left of the row `i`.
  pub record Kept (i j : PurchaseOrderItem D F) : Type 0 where
    pub same_id : j.id ≡ i.id
    pub same_product : j.product_id ≡ i.product_id
    pub same_supplier : j.supplier_id ≡ i.supplier_id
    pub same_received : j.received_quantity ≡ i.received_quantity
    pub stays : is_received i ≡ true → j.is_deleted ≡ i.is_deleted
    pub enough :
        (j.quantity ≡ i.quantity) ⊎ (dec.greater_than j.received_quantity j.quantity ≡ false)

  -- Every row in its place, and after them new ones that have received nothing.
  abbrev pub AllKept : List (PurchaseOrderItem D F) → List (PurchaseOrderItem D F) → Type 0
  AllKept [] js = AllNothing js
  AllKept (i ∷ is) [] = ⊥
  AllKept (i ∷ is) (j ∷ js) = Kept i j × AllKept is js

  delete_items-AllNothing :
      (ids : List ℕ) (js : List (PurchaseOrderItem D F))
      → AllNothing js
      → AllNothing (delete_items ids js)
  delete_items-AllNothing ids [] h = tt
  delete_items-AllNothing ids (j ∷ js) (here, h) = elim (Bool-cases (any (λ k. k == j.id) ids)) [
    | inl goes ↦ rw goes (here, delete_items-AllNothing ids js h)
    | inr stays ↦ rw stays (here, delete_items-AllNothing ids js h)
  ]

  Kept-delete_items :
      (ids : List ℕ) (i j : PurchaseOrderItem D F)
      → Edited i j
      → (is_received j ≡ true → any (λ k. k == j.id) ids ≡ false)
      → Kept i (if any (λ k. k == j.id) ids then record j { is_deleted = true } else j)
  Kept-delete_items ids i j e spared =
      let received = λ (h : is_received i ≡ true).
        ap (λ q. dec.greater_than q dec.zero_value) e.same_received ∙ h in
      elim (Bool-cases (any (λ k. k == j.id) ids)) [
        | inl goes ↦ rw goes (record {
          same_id = e.same_id;
          same_product = e.same_product;
          same_supplier = e.same_supplier;
          same_received = e.same_received;
          stays = λ h. absurd (cc (spared (received h), goes));
          enough = e.enough;
        })
        | inr stays ↦ rw stays (record {
          same_id = e.same_id;
          same_product = e.same_product;
          same_supplier = e.same_supplier;
          same_received = e.same_received;
          stays = λ h. e.same_deleted;
          enough = e.enough;
        })
      ]

  pub AllKept-delete_items :
      (ids : List ℕ) (is js news : List (PurchaseOrderItem D F))
      → AllEdited is js
      → AllSpared ids js
      → AllNothing news
      → AllKept is (delete_items ids (js ++ news))
  AllKept-delete_items ids [] [] news e s n = delete_items-AllNothing ids news n
  AllKept-delete_items ids [] (j ∷ js) news e s n = absurd e
  AllKept-delete_items ids (i ∷ is) [] news e s n = absurd e
  AllKept-delete_items ids (i ∷ is) (j ∷ js) news (here, e) (spared, s) n =
      (Kept-delete_items ids i j here spared, AllKept-delete_items ids is js news e s n)

  -- The rows that were created stand after those that there were.
  pub create_order_items-appended :
      (is rows created : List (PurchaseOrderItem D F)) (next last : ℕ)
      → AllNothing is
      → create_order_items is rows next ≡ ok (created, last)
      → (news : List (PurchaseOrderItem D F)) × (created ≡ rows ++ news) × AllNothing news
  unfolding create_order_items
  create_order_items-appended [] rows created next last n h =
      ([], ap (λ q. q.0) (sym (ok-injective h)) ∙ sym (append-nil rows), tt)
  create_order_items-appended (i ∷ is) rows created next last (here, n) h =
      elim (Bool-cases (any (is_keyed i.supplier_id i.product_id) rows)) [
        | inl taken ↦ absurd (cc (rw (taken, create_order_items) at h))
        | inr free ↦
            let row = record i { id = next } in
            let (news, whole, nothing) =
              create_order_items-appended is (rows ++ row ∷ []) created (next + 1) last n
                (rw (free, create_order_items) at h) in
            (row ∷ news, whole ∙ append_assoc rows (row ∷ []) news, (here, nothing))
      ]
