-- ===== src/Stock/Transfer.antt =====
-- The consume handler of `transferInventory` (internal/services/inventory_service.go): what is taken
-- from an item of the source inventory is put on the item of the same product of the destination.
use cim_backend.Prelude.{
  ℕ, Bool, ◌||◌, none, some, List, [], ◌∷◌, Map, lookup, put, false, ◌==◌, if◌then◌else◌,
}
use cim_backend.Decimal.{Decimal}
use cim_backend.Models.Transaction.{
  InventoryTransaction, type_eq, transfer_out, transfer_in, reconcile_stock_up, initial,
}
use cim_backend.Models.Item.{InventoryItem, InventoryItemChange, active}
use cim_backend.Stock.Fifo.{ConsumeHandler}

-- What the closure keeps: `destIvtrItemChanges`, by product.
abbrev pub Destination : Type 0 → Type 0 → Type 0
Destination D F = Map (InventoryItemChange D F)

module _ {D F : Type 0} where
  -- `buildProductIDMap`: the last item of a product, and none of product 0.
  abbrev pub put_product : Map (InventoryItem D F) → InventoryItem D F → Map (InventoryItem D F)
  put_product m i = if i.product_id == 0 then m else put i.product_id i m

  abbrev pub put_products :
      Map (InventoryItem D F) → List (InventoryItem D F) → Map (InventoryItem D F)
  put_products m [] = m
  put_products m (i ∷ is) = put_products (put_product m i) is

  unfoldable pub build_product_id_map : List (InventoryItem D F) → Map (InventoryItem D F)
  build_product_id_map items = put_products [] items

module _ {D F : Type 0} ⦃dec : Decimal D⦄ where
  -- `fromFound`
  abbrev pub from_found : InventoryTransaction D F → Bool
  from_found t =
      t.is_adjustment
      || type_eq t.transaction_type reconcile_stock_up
      || type_eq t.transaction_type initial

  unfoldable pub transfer_out_txn :
      InventoryItem D F → InventoryTransaction D F → D → InventoryTransaction D F
  transfer_out_txn item consume_txn quantity = record {
    id = 0;
    created_at = 0;
    inventory_item_id = item.id;
    transaction_type = transfer_out;
    price = consume_txn.price;
    quantity = quantity;
    consumed_quantity = dec.zero_value;
    counter_transaction_id = some consume_txn.id;
    is_adjustment = false;
    inventory_item = none;
  }

  -- `linkTxnWithInventoryItem` points the transaction at the item of the destination's change.
  unfoldable pub transfer_in_txn :
      InventoryItem D F → InventoryTransaction D F → D → InventoryTransaction D F
  transfer_in_txn item consume_txn quantity = record {
    id = 0;
    created_at = 0;
    inventory_item_id = 0;
    transaction_type = transfer_in;
    price = consume_txn.price;
    quantity = quantity;
    consumed_quantity = dec.zero_value;
    counter_transaction_id = some consume_txn.id;
    is_adjustment = from_found consume_txn;
    inventory_item = some item.product_id;
  }

  -- The destination's item where the inventory has none of the product.
  unfoldable pub new_destination : ℕ → InventoryItem D F → InventoryItem D F
  new_destination destination item = record {
    id = 0;
    inventory_id = destination;
    product_id = item.product_id;
    quantity = dec.zero_value;
    unit_id = item.unit_id;
    status = active;
    consuming_transaction_id = 0;
    consumable_transactions = [];
  }

  -- The change of the product so far, or one that does not change it yet.
  unfoldable pub change_of :
      ℕ → Map (InventoryItem D F) → Destination D F → InventoryItem D F → InventoryItemChange D F
  unfolding new_destination
  change_of destination dest_items changes item = elim (lookup item.product_id changes) [
    | some change ↦ change
    | none ↦ elim (lookup item.product_id dest_items) [
      | some i ↦ record { item = i; original_quantity = i.quantity }
      | none ↦ record {
        item = new_destination destination item;
        original_quantity = (new_destination destination item).quantity;
      }
    ]
  ]

  abbrev pub raise_change : D → InventoryItemChange D F → InventoryItemChange D F
  raise_change quantity change = record change {
    item = record change.item { quantity = dec.add change.item.quantity quantity };
  }

  -- `transferTransactionCreator`
  unfoldable pub transfer_handler :
      ℕ → Map (InventoryItem D F) → ConsumeHandler (Destination D F) D F
  unfolding change_of transfer_out_txn transfer_in_txn
  transfer_handler destination dest_items changes item consume_txn quantity = (
    put item.product_id (raise_change quantity (change_of destination dest_items changes item))
        changes,
    transfer_out_txn item consume_txn quantity ∷ transfer_in_txn item consume_txn quantity ∷ [],
  )
