-- ===== src/Orders/Edit.antt =====
-- `UpdatePurchaseOrder` of internal/repository/purchase_order_repository.go: the edit of an order,
-- which keeps what was received. A map of the source's by supplier and product is a search for the
-- last live item with them; the error for a received item that is to be removed leaves out whose
-- it is, which is up to the order of a Go map.
pub mod Rows
pub mod Edited
pub mod Going
pub mod Named
pub mod Follows
pub mod Ordered
pub mod Left
pub mod Kept
use cim_backend.Prelude.{
  ℕ, ◌+◌, String, Bool, true, false, ◌&&◌, ◌||◌, not, ◌==◌, Option, none, some, List, [], ◌∷◌, ◌++◌,
  any, find, select, map, length, Outcome, ok, err, and_then, if◌then◌else◌,
}
use cim_backend.Decimal.{Decimal}
use cim_backend.Errors.{
  AppError, PurchaseOrderStatus, partially_delivered, fully_delivered, completed, cancelled,
  order_eq, purchase_order_not_found, cannot_edit_purchase_order,
  cannot_delete_item_with_received_quantity, received_quantity_greater_than_updated,
  failed_to_save_purchase_order_item, prepare_update_fields,
}
use cim_backend.Caller.{Caller}
use cim_backend.Orders.{
  PurchaseOrderItem, PurchaseOrder, awaiting_delivery, update_item_status, update_order_status,
}
use cim_backend.Orders.Receive.{OrderStore}
use cim_backend.Orders.Booking.{Received, save_order}

-- dto.UpdatePurchaseOrderItemRequest
pub record EditItem (D F : Type 0) : Type 0 where
  pub supplier_id : ℕ
  pub product_id : ℕ
  pub unit_id : Option ℕ
  pub quantity : D
  pub unit_price : F

-- dto.UpdatePurchaseOrderRequest
pub record EditRequest (D F : Type 0) : Type 0 where
  pub notes : String
  pub items : List (EditItem D F)

-- What the loop over the request has made: the status of the order, its rows, the items to be
-- created and the ids of those to be deleted.
pub record OrderEdit (D F : Type 0) : Type 0 where
  pub status : PurchaseOrderStatus
  pub items : List (PurchaseOrderItem D F)
  pub new_items : List (PurchaseOrderItem D F)
  pub deleted : List ℕ

abbrev pub same_unit : Option ℕ → Option ℕ → Bool
same_unit none none = true
same_unit (some a) (some b) = a == b
same_unit _ _ = false

module _ {D F : Type 0} where
  -- Whether the item is of the supplier and the product.
  abbrev pub is_keyed : ℕ → ℕ → PurchaseOrderItem D F → Bool
  is_keyed supplier product i = i.supplier_id == supplier && i.product_id == product

  -- `existingItemsMap`, whose later entries replace earlier ones.
  unfoldable pub existing_item :
      ℕ → ℕ → List (PurchaseOrderItem D F) → Option (PurchaseOrderItem D F)
  existing_item supplier product [] = none
  existing_item supplier product (i ∷ is) = elim (existing_item supplier product is) [
    | some j ↦ some j
    | none ↦ if not i.is_deleted && is_keyed supplier product i then some i else none
  ]

  abbrev pub is_requested : List (EditItem D F) → PurchaseOrderItem D F → Bool
  is_requested items i =
      any (λ (r : EditItem D F). r.supplier_id == i.supplier_id && r.product_id == i.product_id)
        items

  abbrev pub is_overwritten : PurchaseOrderItem D F → List (PurchaseOrderItem D F) → Bool
  is_overwritten i is = elim (existing_item i.supplier_id i.product_id is) [
    | none ↦ false
    | some _ ↦ true
  ]

  abbrev pub delete_items : List ℕ → List (PurchaseOrderItem D F) → List (PurchaseOrderItem D F)
  delete_items ids items =
      map (λ i. if any (λ k. k == i.id) ids then record i { is_deleted = true } else i) items

  -- `Create` of the new items. idx_product_supplier_po counts the deleted rows too: the migration
  -- that was to add deleted_at to it asks for the same name and `IF NOT EXISTS`.
  unfoldable pub create_order_items :
      List (PurchaseOrderItem D F)
      → List (PurchaseOrderItem D F)
      → ℕ
      → Outcome AppError (List (PurchaseOrderItem D F) × ℕ)
  create_order_items [] rows next = ok (rows, next)
  create_order_items (i ∷ is) rows next =
      if any (is_keyed i.supplier_id i.product_id) rows
      then err (failed_to_save_purchase_order_item i.supplier_id i.product_id)
      else create_order_items is (rows ++ record i { id = next } ∷ []) (next + 1)

module _ {D F : Type 0} ⦃dec : Decimal D⦄ where
  -- The items that the request does not name: they are to be deleted.
  unfoldable pub removed_ids :
      List (EditItem D F) → List (PurchaseOrderItem D F) → Outcome AppError (List ℕ)
  removed_ids items [] = ok []
  removed_ids items (i ∷ is) =
      let rest = removed_ids items is in
      if i.is_deleted || is_overwritten i is || is_requested items i
      then rest
      else if dec.greater_than i.received_quantity dec.zero_value
      then err cannot_delete_item_with_received_quantity
      else and_then rest (λ ids. ok (i.id ∷ ids))

  unfoldable pub edit_item : EditItem D F → PurchaseOrderItem D F → PurchaseOrderItem D F
  edit_item r i = update_item_status (record i {
    quantity = r.quantity;
    unit_price = r.unit_price;
    unit_id = elim r.unit_id [ none ↦ i.unit_id | some unit ↦ some unit ];
  })

  unfoldable pub new_order_item : EditItem D F → PurchaseOrderItem D F
  new_order_item r = record {
    id = 0;
    is_deleted = false;
    product_id = r.product_id;
    supplier_id = r.supplier_id;
    unit_id = r.unit_id;
    unit_price = r.unit_price;
    quantity = r.quantity;
    received_quantity = dec.zero_value;
    status = awaiting_delivery;
  }

  unfoldable pub edit_new : EditItem D F → OrderEdit D F → OrderEdit D F
  edit_new r e = if not (dec.greater_than r.quantity dec.zero_value) then e else record e {
    status = if order_eq e.status fully_delivered then partially_delivered else e.status;
    new_items = e.new_items ++ new_order_item r ∷ [];
  }

  -- What is saved, and the status of the order after it. The audit hooks of the rows that are written
  -- want the email of the caller.
  unfoldable pub save_edit :
      Caller → String → OrderEdit D F → PurchaseOrder D F → OrderStore D F → Received D F
  save_edit ctx notes e po s = elim ctx.user_email [
    | none ↦ err prepare_update_fields
    | some _ ↦
        and_then (create_order_items e.new_items e.items s.next_order_item_id) (λ (created, next).
          let rows = delete_items e.deleted created in
          let remaining = select (λ i. not i.is_deleted) rows in
          let edited = record po { status = e.status; items = remaining; notes = notes } in
          and_then (if length remaining == 0 then ok edited else update_order_status edited)
            (λ after. ok (
              after,
              record s {
                orders = save_order (record after { items = rows }) s.orders;
                next_order_item_id = next;
              },
            )))
  ]

-- `same_price` is the `==` of two prices, which are floating point numbers.
module _ {D F : Type 0} ⦃dec : Decimal D⦄ (same_price : F → F → Bool) where
  unfoldable pub edit_existing :
      EditItem D F → PurchaseOrderItem D F → OrderEdit D F → Outcome AppError (OrderEdit D F)
  edit_existing r i e =
      let awaits =
        dec.greater_than i.received_quantity dec.zero_value
        && dec.less_than i.received_quantity r.quantity in
      let status = if awaits then partially_delivered else e.status in
      if not (dec.greater_than r.quantity dec.zero_value)
      then (if dec.greater_than i.received_quantity dec.zero_value
          then err cannot_delete_item_with_received_quantity
          else ok (record e { deleted = e.deleted ++ i.id ∷ [] }))
      else if dec.greater_than i.received_quantity r.quantity
      then err (received_quantity_greater_than_updated r.product_id r.supplier_id)
      else if dec.equal i.quantity r.quantity
          && same_price i.unit_price r.unit_price
          && same_unit i.unit_id r.unit_id
      then ok (record e { status = status })
      else ok (record e {
        status = status;
        items = map (λ j. if j.id == i.id then edit_item r j else j) e.items;
      })

  unfoldable pub edit_lines : List (EditItem D F) → OrderEdit D F → Outcome AppError (OrderEdit D F)
  edit_lines [] e = ok e
  edit_lines (r ∷ rs) e = elim (existing_item r.supplier_id r.product_id e.items) [
    | none ↦ edit_lines rs (edit_new r e)
    | some i ↦ and_then (edit_existing r i e) (λ e'. edit_lines rs e')
  ]

  -- `UpdatePurchaseOrder`
  unfoldable pub update_purchase_order :
      Caller → ℕ → EditRequest D F → OrderStore D F → Received D F
  update_purchase_order ctx id req s = elim (find (λ o. o.id == id) s.orders) [
    | none ↦ err (purchase_order_not_found id)
    | some po ↦
        if order_eq po.status completed || order_eq po.status cancelled
        then err (cannot_edit_purchase_order po.status)
        else and_then (removed_ids req.items po.items) (λ removed.
          and_then
            (edit_lines req.items
              (record { status = po.status; items = po.items; new_items = []; deleted = removed }))
            (λ e. save_edit ctx req.notes e po s))
  ]
