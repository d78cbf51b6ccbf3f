-- ===== src/Orders/Edit/Going.antt =====
-- The loop over the request of an edit: what it keeps of every row.
use cim_backend.Prelude.{
  ◌≡◌, refl, subst, inl, inr, Bool, Bool-cases, ◌&&◌, not, Option-cases, List, [], ◌∷◌, All,
  All-append, passed_test, and_then-eq-ok, ok, ok-injective,
}
use cim_backend.Decimal.{Decimal}
use cim_backend.Orders.{PurchaseOrderItem}
use cim_backend.Orders.Edit.{
  EditItem, OrderEdit, existing_item, edit_existing, edit_new, new_order_item, edit_lines,
  same_unit,
}
use cim_backend.Orders.Edit.Rows.{
  DistinctRows, AllOnly, existing_item-AllOnly, is_received, AllSpared, AllSpared-last,
}
use cim_backend.Orders.Edit.Edited.{AllEdited, AllEdited-edited_rows, edited_rows-kept}

module _ {D F : Type 0} ⦃dec : Decimal D⦄ where
  abbrev pub AllNothing : List (PurchaseOrderItem D F) → Type 0
  AllNothing items = All (λ i. i.received_quantity ≡ dec.zero_value) items

  -- The edit so far of an order with the rows.
  pub record Going (rows : List (PurchaseOrderItem D F)) (e : OrderEdit D F) : Type 0 where
    pub edited : AllEdited rows e.items
    pub distinct : DistinctRows e.items
    pub spared : AllSpared e.deleted e.items
    pub nothing : AllNothing e.new_items

module _ {D F : Type 0} ⦃dec : Decimal D⦄ (same_price : F → F → Bool)
    (rows : List (PurchaseOrderItem D F)) where
  pub edit_new-Going :
      (r : EditItem D F) (e : OrderEdit D F) → Going rows e → Going rows (edit_new r e)
  unfolding edit_new new_order_item
  edit_new-Going r e g = elim (Bool-cases (not (dec.greater_than r.quantity dec.zero_value))) [
    | inl none_asked ↦ rw (none_asked, edit_new) g
    | inr asked ↦
        rw (asked, edit_new)
          (record {
            edited = g.edited;
            distinct = g.distinct;
            spared = g.spared;
            nothing = All-append _ e.new_items (new_order_item r ∷ []) g.nothing (refl, tt);
          })
  ]

  pub edit_existing-Going :
      (r : EditItem D F) (i : PurchaseOrderItem D F) (e e' : OrderEdit D F)
      → AllOnly i e.items
      → Going rows e
      → edit_existing same_price r i e ≡ ok e'
      → Going rows e'
  unfolding edit_existing
  edit_existing-Going r i e e' only g h =
      elim (Bool-cases (not (dec.greater_than r.quantity dec.zero_value))) [
        | inl removes ↦
            let (nothing, h1) =
              passed_test (is_received i) _ _ e' (rw (removes, edit_existing) at h) in
            subst (Going rows) (ok-injective h1) (record {
              edited = g.edited;
              distinct = g.distinct;
              spared = AllSpared-last e.deleted i e.items only nothing g.spared;
              nothing = g.nothing;
            })
        | inr asks ↦
            let (fits, h1) =
              passed_test (dec.greater_than i.received_quantity r.quantity) _ _ e'
                (rw (asks, edit_existing) at h) in
            elim (Bool-cases (
              dec.equal i.quantity r.quantity
              && same_price i.unit_price r.unit_price
              && same_unit i.unit_id r.unit_id)) [
                | inl unchanged ↦ subst (Going rows) (ok-injective (rw unchanged at h1)) (record {
                  edited = g.edited;
                  distinct = g.distinct;
                  spared = g.spared;
                  nothing = g.nothing;
                })
                | inr changed ↦
                    let (distinct, spared) =
                      edited_rows-kept r i e.deleted e.items g.distinct g.spared in
                    subst (Going rows) (ok-injective (rw changed at h1)) (record {
                      edited = AllEdited-edited_rows r i rows e.items fits only g.edited;
                      distinct = distinct;
                      spared = spared;
                      nothing = g.nothing;
                    })
              ]
      ]

  pub edit_lines-Going :
      (rs : List (EditItem D F)) (e e' : OrderEdit D F)
      → Going rows e
      → edit_lines same_price rs e ≡ ok e'
      → Going rows e'
  unfolding edit_lines
  edit_lines-Going [] e e' g h = subst (Going rows) (ok-injective h) g
  edit_lines-Going (r ∷ rs) e e' g h =
      elim (Option-cases (existing_item r.supplier_id r.product_id e.items)) [
        | inl new ↦
            edit_lines-Going rs (edit_new r e) e' (edit_new-Going r e g) (rw (new, edit_lines) at h)
        | inr (i, there) ↦
            let h1 = rw (there, edit_lines) at h in
            let only =
              (existing_item-AllOnly r.supplier_id r.product_id e.items i g.distinct there).1 in
            let (f, fine, h2) = and_then-eq-ok _ _ h1 in
            edit_lines-Going rs f e' (edit_existing-Going r i e f only g fine) h2
      ]
