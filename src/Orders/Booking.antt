-- ===== src/Orders/Booking.antt =====
-- The rest of `ReceiveInventory` of internal/repository/purchase_order_repository.go: what its checks
-- of the order are, and what it saves.
pub mod Taken
pub mod Deltas
pub mod Saved
pub mod Carried
pub mod Applied
pub mod Booked
pub mod Replayed
pub mod Lines
pub mod Items
pub mod Outstanding
use cim_backend.Prelude.{
  Text, ℕ, String, Bool, ◌&&◌, ◌||◌, not, ◌==◌, str_eq, Option, none, some, List, [], ◌∷◌, ◌++◌,
  any, find, select, map, length, Map, lookup, Outcome, ok, err, and_then, if◌then◌else◌,
}
use cim_backend.Decimal.{Decimal}
use cim_backend.Errors.{
  AppError, completed, cancelled, fully_delivered, order_eq, purchase_order_without_inventory,
  cannot_receive_purchase_order, no_purchase_order_items, inventory_item_exists,
  failed_to_save_transactions, prepare_update_fields,
}
use cim_backend.Caller.{Caller}
use cim_backend.Models.Transaction.{InventoryTransaction}
use cim_backend.Models.Item.{InventoryItem}
use cim_backend.Store.{Store}
use cim_backend.Store.Items.{save_item, save_transactions}
use cim_backend.Orders.{PurchaseOrder, update_order_status}
use cim_backend.Orders.Receive.{
  Delivery, DeliveryRequest, OrderStore, join_rows, start_delivery, receive_lines,
}

abbrev pub Received : Type 0 → Type 0 → Type 0
Received D F = Outcome AppError (PurchaseOrder D F × OrderStore D F)

module _ {D : Type 0} where
  unfoldable pub add_receipt : DeliveryRequest D → List (ℕ × String) → List (ℕ × String)
  add_receipt req receipts =
      if str_eq req.idempotency_key ""
      then receipts
      else receipts ++ (req.purchase_order_id, req.idempotency_key) ∷ []

module _ {D F : Type 0} ⦃dec : Decimal D⦄ where
  -- `Create` of the new items; idx_inventory_items_unique lets a product have one in an inventory.
  unfoldable pub create_items : List (InventoryItem D F) → Store D F → Outcome AppError (Store D F)
  create_items [] s = ok s
  create_items (i ∷ is) s =
      if any (λ r. r.inventory_id == i.inventory_id && r.product_id == i.product_id) s.items
      then err (inventory_item_exists i.inventory_id i.product_id)
      else create_items is (save_item s i)

  -- `GREATEST(0, quantity + delta)`
  abbrev pub raised_item : Map D → InventoryItem D F → InventoryItem D F
  raised_item deltas i = elim (lookup i.id deltas) [
    | none ↦ i
    | some delta ↦
        let quantity = dec.add i.quantity delta in
        record i { quantity = if dec.is_negative quantity then dec.zero_value else quantity }
  ]

  -- `increaseQuantityInventoryItems`
  unfoldable pub increase_quantity_inventory_items : Map D → Store D F → Store D F
  increase_quantity_inventory_items deltas s = record s { items = map (raised_item deltas) s.items }

  -- `txn.InventoryItemID = txn.InventoryItem.ID`: the created item of the product.
  abbrev pub link_purchase :
      ℕ → List (InventoryItem D F) → InventoryTransaction D F → InventoryTransaction D F
  link_purchase inventory items t = elim t.inventory_item [
    | none ↦ t
    | some product ↦ record t {
      inventory_item_id =
          elim (find (λ i. i.inventory_id == inventory && i.product_id == product) items) [
            | none ↦ t.inventory_item_id
            | some i ↦ i.id
          ];
      inventory_item = none;
    }
  ]

  -- Step 4 on the stock. Each row's hook asks for the user; no rows are an error to GORM.
  unfoldable pub book_delivery :
      Caller → ℕ → Delivery D F → Store D F → Outcome AppError (Store D F)
  book_delivery ctx inventory d s =
      if length d.transactions == 0 then err failed_to_save_transactions else elim ctx.user_email [
        | none ↦ err prepare_update_fields
        | some _ ↦ and_then (create_items d.new_items s) (λ created. ok (
            save_transactions (increase_quantity_inventory_items d.deltas created)
              (map (link_purchase inventory created.items) d.transactions)))
      ]

module _ {D F : Type 0} where
  -- The row that step 1 finds. It looks for no error, and goes on with an empty order.
  unfoldable pub receivable_order : ℕ → OrderStore D F → Option (PurchaseOrder D F)
  receivable_order id s = find (λ po. po.id == id && not (order_eq po.status cancelled)) s.orders

  abbrev pub is_applied : DeliveryRequest D → OrderStore D F → Bool
  is_applied req s =
      not (str_eq req.idempotency_key "")
      && any (λ r. r.0 == req.purchase_order_id && str_eq r.1 req.idempotency_key) s.receipts

  abbrev pub is_terminal : PurchaseOrder D F → Bool
  is_terminal po = order_eq po.status completed || order_eq po.status fully_delivered

  -- The order with its items as a preload reads them: the deleted ones are left out.
  abbrev pub read_order : PurchaseOrder D F → PurchaseOrder D F
  read_order po = record po { items = select (λ i. not i.is_deleted) po.items }

  -- `Save` of the order with its items.
  abbrev pub save_order : PurchaseOrder D F → List (PurchaseOrder D F) → List (PurchaseOrder D F)
  save_order po orders = map (λ o. if o.id == po.id then po else o) orders

module _ {D F : Type 0} ⦃dec : Decimal D⦄ (to_string : D → Text) where
  -- From step 2 on.
  unfoldable pub apply_delivery :
      Caller → DeliveryRequest D → ℕ → PurchaseOrder D F → OrderStore D F → Received D F
  apply_delivery ctx req inventory po s =
      let rows = join_rows inventory s po.items in
      if length rows == 0
      then err no_purchase_order_items
      else and_then (receive_lines to_string inventory rows req.items (start_delivery rows)) (λ d.
        and_then (book_delivery ctx inventory d s.stock) (λ stock.
          and_then
            (update_order_status (record po {
              items = d.items;
              confirmed_at = some s.stock.clock;
              confirmation_notes = req.confirmation_notes;
            }))
            (λ after. ok (
              after,
              record s {
                orders = save_order after s.orders;
                receipts = add_receipt req s.receipts;
                stock = stock;
              },
            ))))

  -- `ReceiveInventory`
  unfoldable pub receive_inventory : Caller → DeliveryRequest D → OrderStore D F → Received D F
  receive_inventory ctx req s = elim (receivable_order req.purchase_order_id s) [
    | none ↦ err purchase_order_without_inventory
    | some po ↦ elim po.inventory_id [
      | none ↦ err purchase_order_without_inventory
      | some inventory ↦
          if is_applied req s
          then ok (read_order po, s)
          else if is_terminal po
          then err (cannot_receive_purchase_order po.status)
          else apply_delivery ctx req inventory po s
    ]
  ]
