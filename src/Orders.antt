-- ===== src/Orders.antt =====
-- The delivery statuses of internal/models/purchase_order.go and purchase_order_item.go.
pub mod Receive
pub mod Booking
pub mod Edit
pub mod Flags
pub mod Statuses
use cim_backend.Prelude.{
  ℕ, String, Option, Bool, ◌&&◌, ◌||◌, not, ◌==◌, List, any, length, Outcome, ok, err,
  if◌then◌else◌,
}
use cim_backend.Decimal.{Decimal}
use cim_backend.Errors.{
  AppError, PurchaseOrderStatus, order_placed, partially_delivered, fully_delivered, order_eq,
  purchase_order_no_items,
}

-- PurchaseOrderItemStatus
pub data PurchaseOrderItemStatus : Type 0 where
  awaiting_delivery item_partially_delivered delivered over_delivered item_cancelled :
      PurchaseOrderItemStatus

abbrev item_code : PurchaseOrderItemStatus → ℕ
item_code awaiting_delivery = 0
item_code item_partially_delivered = 1
item_code delivered = 2
item_code over_delivered = 3
item_code item_cancelled = 4

abbrev pub item_eq : PurchaseOrderItemStatus → PurchaseOrderItemStatus → Bool
item_eq s t = item_code s == item_code t

pub record PurchaseOrderItem (D F : Type 0) : Type 0 where
  pub id : ℕ
  pub is_deleted : Bool
  pub product_id : ℕ
  pub supplier_id : ℕ
  pub unit_id : Option ℕ
  pub unit_price : F
  pub quantity : D
  pub received_quantity : D
  pub status : PurchaseOrderItemStatus

-- An order with its items, which are rows of their own.
pub record PurchaseOrder (D F : Type 0) : Type 0 where
  pub id : ℕ
  pub inventory_id : Option ℕ
  pub status : PurchaseOrderStatus
  pub notes : String
  pub confirmed_at : Option ℕ
  pub confirmation_notes : String
  pub items : List (PurchaseOrderItem D F)

module _ {D F : Type 0} ⦃dec : Decimal D⦄ where
  -- The status that `UpdateStatus` of an item sets.
  unfoldable pub item_status_after : PurchaseOrderItem D F → PurchaseOrderItemStatus
  item_status_after item =
      if dec.equal item.received_quantity dec.zero_value
      then (if item_eq item.status item_partially_delivered
            || item_eq item.status delivered
            || item_eq item.status over_delivered
          then awaiting_delivery
          else item.status)
      else if dec.greater_than item.received_quantity item.quantity
      then over_delivered
      else if dec.equal item.received_quantity item.quantity
      then (if item_eq item.status awaiting_delivery
            || item_eq item.status item_partially_delivered
            || item_eq item.status over_delivered
          then delivered
          else item.status)
      else if dec.greater_than item.received_quantity dec.zero_value
          && dec.less_than item.received_quantity item.quantity
      then (if item_eq item.status awaiting_delivery
            || item_eq item.status delivered
            || item_eq item.status over_delivered
          then item_partially_delivered
          else item.status)
      else item.status

  abbrev pub update_item_status : PurchaseOrderItem D F → PurchaseOrderItem D F
  update_item_status item = record item { status = item_status_after item }

-- Whether an item has the status.
abbrev pub has_item : {D F : Type 0} → PurchaseOrderItemStatus → List (PurchaseOrderItem D F) → Bool
has_item status items = any (λ i. item_eq i.status status) items

-- The three transitions of `UpdateStatus` of an order, one after another; the flags are those of
-- the loop: awaiting, partially delivered, delivered, over delivered.
abbrev begin_delivery : PurchaseOrderStatus → Bool → Bool → Bool → PurchaseOrderStatus
begin_delivery s partial whole over =
    if order_eq s order_placed && (partial || whole || over) then partially_delivered else s

abbrev reopen_delivery : PurchaseOrderStatus → Bool → Bool → PurchaseOrderStatus
reopen_delivery s awaiting partial =
    if order_eq s fully_delivered && (awaiting || partial) then partially_delivered else s

abbrev end_delivery : PurchaseOrderStatus → Bool → Bool → Bool → Bool → PurchaseOrderStatus
end_delivery s awaiting partial whole over =
    if order_eq s partially_delivered && not awaiting && not partial && (whole || over)
    then fully_delivered
    else s

abbrev pub next_status : PurchaseOrderStatus → Bool → Bool → Bool → Bool → PurchaseOrderStatus
next_status s awaiting partial whole over =
    end_delivery (reopen_delivery (begin_delivery s partial whole over) awaiting partial) awaiting
      partial whole over

-- `UpdateStatus` of an order
unfoldable pub update_order_status :
    {D F : Type 0} → PurchaseOrder D F → Outcome AppError (PurchaseOrder D F)
update_order_status po =
    if length po.items == 0
    then err purchase_order_no_items
    else ok (record po {
      status =
          next_status po.status (has_item awaiting_delivery po.items)
            (has_item item_partially_delivered po.items) (has_item delivered po.items)
            (has_item over_delivered po.items);
    })
