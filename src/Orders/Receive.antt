-- ===== src/Orders/Receive.antt =====
-- `ReceiveInventory` of internal/repository/purchase_order_repository.go: a delivery is added to the
-- items of its order and to the stock. The row of the order is locked, so that deliveries of an
-- order run one after another.
use cim_backend.Prelude.{
  Text, ℕ, String, false, ◌&&◌, ltb, ◌==◌, Option, none, some, List, [], ◌∷◌, ◌++◌, find, map, Map,
  lookup, put, Outcome, ok, err, if◌then◌else◌,
}
use cim_backend.Decimal.{Decimal, decimal_places}
use cim_backend.Errors.{
  AppError, purchase_order_item_not_found, received_quantity_negative,
  more_decimal_places_than_unit,
}
use cim_backend.Models.Transaction.{InventoryTransaction, purchase}
use cim_backend.Models.Item.{InventoryItem, active, is_active}
use cim_backend.Store.{Store}
use cim_backend.Orders.{PurchaseOrder, PurchaseOrderItem, update_item_status}

-- A product with its unit: the columns that are joined to an order's item.
pub record Product : Type 0 where
  pub id : ℕ
  pub unit_id : ℕ
  pub decimal_places : ℕ

-- The tables, and the next id of an order's item. A receipt is the key under which a delivery of an
-- order was applied.
pub record OrderStore (D F : Type 0) : Type 0 where
  pub orders : List (PurchaseOrder D F)
  pub products : List Product
  pub receipts : List (ℕ × String)
  pub next_order_item_id : ℕ
  pub stock : Store D F

pub record ReceivedItem (D : Type 0) : Type 0 where
  pub id : ℕ
  pub received_quantity : D

-- dto.UpdatePurchaseOrderDeliveryStatusRequest
pub record DeliveryRequest (D : Type 0) : Type 0 where
  pub purchase_order_id : ℕ
  pub items : List (ReceivedItem D)
  pub confirmation_notes : String
  pub idempotency_key : String

-- `POIData`: an item of the order with its product's unit, and the active inventory item of the
-- product where there is one.
pub record OrderRow (D F : Type 0) : Type 0 where
  pub item : PurchaseOrderItem D F
  pub inventory_item_id : Option ℕ
  pub product_unit : Product

-- What the loop over the lines has made: the items of the order, the transactions, the items to be
-- created, and what is added to those that there are.
pub record Delivery (D F : Type 0) : Type 0 where
  pub items : List (PurchaseOrderItem D F)
  pub transactions : List (InventoryTransaction D F)
  pub new_items : List (InventoryItem D F)
  pub deltas : Map D

module _ {D F : Type 0} where
  abbrev pub active_item_id : ℕ → ℕ → List (InventoryItem D F) → Option ℕ
  active_item_id inventory product items =
      elim (find (λ i. i.product_id == product && is_active i.status && i.inventory_id == inventory)
        items) [ none ↦ none | some i ↦ some i.id ]

  -- The joins, which ask for no live item: a deleted one is found as well.
  unfoldable pub join_rows : ℕ → OrderStore D F → List (PurchaseOrderItem D F) → List (OrderRow D F)
  join_rows inventory s [] = []
  join_rows inventory s (item ∷ items) = elim (find (λ p. p.id == item.product_id) s.products) [
    | none ↦ join_rows inventory s items
    | some p ↦
        record {
          item = item;
          inventory_item_id = active_item_id inventory item.product_id s.stock.items;
          product_unit = p;
        }
        ∷ join_rows inventory s items
  ]

  abbrev pub row_of : ℕ → List (OrderRow D F) → Option (OrderRow D F)
  row_of id rows = find (λ r. r.item.id == id) rows

  abbrev pub start_delivery : List (OrderRow D F) → Delivery D F
  start_delivery rows = record {
    items = map (λ r. r.item) rows;
    transactions = [];
    new_items = [];
    deltas = [];
  }

module _ {D : Type 0} ⦃dec : Decimal D⦄ where
  -- `updateInvetoryDeltas`
  abbrev pub raise_delta : ℕ → D → Map D → Map D
  raise_delta id quantity deltas = elim (lookup id deltas) [
    | some existing ↦ put id (dec.add existing quantity) deltas
    | none ↦ put id quantity deltas
  ]

module _ {D F : Type 0} ⦃dec : Decimal D⦄ where
  -- `CompatifyUnit`, the addition and `UpdateStatus`.
  unfoldable pub receive_item : ℕ → D → PurchaseOrderItem D F → PurchaseOrderItem D F
  receive_item unit quantity item = update_item_status (record item {
    unit_id = some unit;
    received_quantity = dec.add item.received_quantity quantity;
  })

  unfoldable pub purchase_txn : OrderRow D F → D → InventoryTransaction D F
  purchase_txn row quantity = record {
    id = 0;
    created_at = 0;
    inventory_item_id = elim row.inventory_item_id [ none ↦ 0 | some id ↦ id ];
    transaction_type = purchase;
    price = row.item.unit_price;
    quantity = quantity;
    consumed_quantity = dec.zero_value;
    counter_transaction_id = none;
    is_adjustment = false;
    inventory_item = elim row.inventory_item_id [ none ↦ some row.item.product_id | some _ ↦ none ];
  }

  unfoldable pub new_stock_item : ℕ → OrderRow D F → D → InventoryItem D F
  new_stock_item inventory row quantity = record {
    id = 0;
    inventory_id = inventory;
    product_id = row.item.product_id;
    quantity = quantity;
    unit_id = row.product_unit.unit_id;
    status = active;
    consuming_transaction_id = 0;
    consumable_transactions = [];
  }

  -- What an accepted line does.
  unfoldable pub take_line : ℕ → OrderRow D F → D → Delivery D F → Delivery D F
  take_line inventory row quantity d =
      let booked = record d {
        items =
            map
              (λ i.
                if i.id == row.item.id then receive_item row.product_unit.unit_id quantity i else i)
              d.items;
        transactions = d.transactions ++ purchase_txn row quantity ∷ [];
      } in
      elim row.inventory_item_id [
        | some id ↦ record booked { deltas = raise_delta id quantity d.deltas }
        | none ↦ record booked {
          new_items = d.new_items ++ new_stock_item inventory row quantity ∷ [];
        }
      ]

-- `to_string` is the decimal's `String()`.
module _ {D F : Type 0} ⦃dec : Decimal D⦄ (to_string : D → Text) where
  -- The body of the loop over the lines.
  unfoldable pub receive_line :
      ℕ → List (OrderRow D F) → ReceivedItem D → Delivery D F → Outcome AppError (Delivery D F)
  receive_line inventory rows line d = elim (row_of line.id rows) [
    | none ↦ err (purchase_order_item_not_found line.id)
    | some row ↦
        if dec.is_negative line.received_quantity
        then err (received_quantity_negative line.id)
        else if ltb row.product_unit.decimal_places
            (decimal_places to_string line.received_quantity)
        then err (
            more_decimal_places_than_unit (decimal_places to_string line.received_quantity)
              row.product_unit.decimal_places)
        else ok (take_line inventory row line.received_quantity d)
  ]

  unfoldable pub receive_lines :
      ℕ
      → List (OrderRow D F)
      → List (ReceivedItem D)
      → Delivery D F
      → Outcome AppError (Delivery D F)
  receive_lines inventory rows [] d = ok d
  receive_lines inventory rows (line ∷ lines) d = elim (receive_line inventory rows line d) [
    | err e ↦ err e
    | ok d' ↦ receive_lines inventory rows lines d'
  ]
