-- ===== src/Orders/Edit/Follows.antt =====
-- What the change of one line of an edit does to the row that another line may name.
use cim_backend.Prelude.{
  ℕ, ◌≡◌, ◌∙◌, refl, ap, sym, subst, inl, inr, Bool, true, false, Bool-cases, ◌&&◌, not, ◌==◌,
  ==_refl, some, passed_test, ok, ok-injective, if◌then◌else◌, arith,
}
use cim_backend.Decimal.{Decimal, equal_test, greater_than_test}
use cim_backend.Orders.{PurchaseOrderItem}
use cim_backend.Orders.Edit.{
  EditItem, OrderEdit, existing_item, is_keyed, edit_item, edit_existing, same_unit,
}
use cim_backend.Orders.Edit.Rows.{AllOnly, is_received}
use cim_backend.Orders.Edit.Edited.{edited_rows}
use cim_backend.Orders.Edit.Named.{Fits, existing_item-All, existing_item-map}

module _ {D F : Type 0} ⦃dec : Decimal D⦄ where
  -- A row after a change: it is still received, fits if it did, and the row that is edited fits.
  pub record Follows (supplier product : ℕ) (i x : PurchaseOrderItem D F) (e : OrderEdit D F)
      : Type 0 where
    pub row : PurchaseOrderItem D F
    pub there : existing_item supplier product e.items ≡ some row
    pub same_id : row.id ≡ x.id
    pub received : is_received row ≡ true
    pub stays : Fits x → Fits row
    pub edited : i ≡ x → Fits row

  same_items-Follows :
      (supplier product : ℕ) (i x : PurchaseOrderItem D F) (e e' : OrderEdit D F)
      → existing_item supplier product e.items ≡ some x
      → is_received x ≡ true
      → (i ≡ x → Fits x)
      → e'.items ≡ e.items
      → Follows supplier product i x e'
  same_items-Follows supplier product i x e e' there received fits same = record {
    row = x;
    there = ap (existing_item supplier product) same ∙ there;
    same_id = refl;
    received = received;
    stays = λ h. h;
    edited = fits;
  }

  edited_rows-Follows :
      (supplier product : ℕ) (r : EditItem D F) (i x : PurchaseOrderItem D F) (e e' : OrderEdit D F)
      → existing_item supplier product e.items ≡ some x
      → is_received x ≡ true
      → dec.greater_than i.received_quantity r.quantity ≡ false
      → AllOnly i e.items
      → e'.items ≡ edited_rows r i e.items
      → Follows supplier product i x e'
  unfolding edit_item
  edited_rows-Follows supplier product r i x e e' there received fits only same =
      let f : PurchaseOrderItem D F → PurchaseOrderItem D F =
        λ j. if j.id == i.id then edit_item r j else j in
      let keeps : (j : PurchaseOrderItem D F)
          → (not (f j).is_deleted && is_keyed supplier product (f j))
            ≡ (not j.is_deleted && is_keyed supplier product j) =
        λ j. elim (Bool-cases (j.id == i.id)) [ inl its ↦ rw its refl | inr far ↦ rw far refl ] in
      let there' : existing_item supplier product e'.items ≡ some (f x) =
        ap (existing_item supplier product) same
        ∙ existing_item-map f supplier product e.items keeps
        ∙ rw there refl in
      elim (Bool-cases (x.id == i.id)) [
        | inl its ↦
            let e : x ≡ i =
              existing_item-All (λ j. (j.id == i.id) ≡ true → j ≡ i) supplier product _ x only there
                its in
            let fits' : dec.greater_than x.received_quantity r.quantity ≡ false =
              ap (λ (z : PurchaseOrderItem D F). dec.greater_than z.received_quantity r.quantity) e
              ∙ fits in
            record {
              row = edit_item r x;
              there = there' ∙ rw its refl;
              same_id = refl;
              received = received;
              stays = λ h. fits';
              edited = λ h. fits';
            }
        | inr far ↦ record {
          row = x;
          there = there' ∙ rw far refl;
          same_id = refl;
          received = received;
          stays = λ h. h;
          edited = λ h.
              absurd
                (cc (ap (λ (z : PurchaseOrderItem D F). z.id == i.id) (sym h), ==_refl i.id, far));
        }
      ]

  module _ (same_price : F → F → Bool) where
    pub edit_existing-Follows :
        (supplier product : ℕ) (r : EditItem D F) (i x : PurchaseOrderItem D F)
        (e e' : OrderEdit D F)
        → existing_item supplier product e.items ≡ some x
        → is_received x ≡ true
        → AllOnly i e.items
        → edit_existing same_price r i e ≡ ok e'
        → Follows supplier product i x e'
    unfolding edit_existing
    edit_existing-Follows supplier product r i x e e' there received only h =
        elim (Bool-cases (not (dec.greater_than r.quantity dec.zero_value))) [
          | inl removes ↦
              let (nothing, h1) =
                passed_test (is_received i) _ _ e' (rw (removes, edit_existing) at h) in
              same_items-Follows supplier product i x e e' there received
                (λ same.
                  absurd (
                    cc (ap (λ (z : PurchaseOrderItem D F). is_received z) same, received, nothing)))
                (ap (λ (z : OrderEdit D F). z.items) (sym (ok-injective h1)))
          | inr asks ↦
              let (fits, h1) =
                passed_test (dec.greater_than i.received_quantity r.quantity) _ _ e'
                  (rw (asks, edit_existing) at h) in
              elim (Bool-cases (
                dec.equal i.quantity r.quantity
                && same_price i.unit_price r.unit_price
                && same_unit i.unit_id r.unit_id)) [
                  | inl unchanged ↦
                      let equal : dec.equal i.quantity r.quantity ≡ true =
                        ground (arith, unchanged) in
                      let here : Fits i = ground (
                        arith,
                        equal,
                        fits,
                        equal_test i.quantity r.quantity,
                        greater_than_test i.received_quantity r.quantity,
                        greater_than_test i.received_quantity i.quantity,
                      ) in
                      same_items-Follows supplier product i x e e' there received
                        (λ same. subst Fits same here)
                        (ap (λ (z : OrderEdit D F). z.items)
                          (sym (ok-injective (rw unchanged at h1))))
                  | inr changed ↦
                      edited_rows-Follows supplier product r i x e e' there received fits only (
                        ap (λ (z : OrderEdit D F). z.items) (sym (ok-injective (rw changed at h1))))
                ]
        ]
