-- ===== src/Stock/Handlers.antt =====
-- The consume handlers of the inventory service that keep nothing between calls: each consumed
-- movement is answered by one transaction for the same quantity at the same price.
use cim_backend.Prelude.{ℕ, false, none, some, [], ◌∷◌}
use cim_backend.Decimal.{Decimal}
use cim_backend.Models.Transaction.{TransactionType, InventoryTransaction}
use cim_backend.Models.Item.{InventoryItem}
use cim_backend.Stock.Fifo.{ConsumeHandler}

module _ {D F : Type 0} ⦃dec : Decimal D⦄ where
  -- `created_at` is 0 where the literal leaves it out.
  unfoldable pub counter_txn :
      TransactionType
      → ℕ
      → InventoryItem D F
      → InventoryTransaction D F
      → D
      → InventoryTransaction D F
  counter_txn type created_at item consume_txn quantity = record {
    id = 0;
    created_at = created_at;
    inventory_item_id = item.id;
    transaction_type = type;
    price = consume_txn.price;
    quantity = quantity;
    consumed_quantity = dec.zero_value;
    counter_transaction_id = some consume_txn.id;
    is_adjustment = false;
    inventory_item = none;
  }

  unfoldable pub counter_handler : TransactionType → ℕ → ConsumeHandler (Unit {0}) D F
  counter_handler type created_at s item consume_txn quantity =
      (tt, counter_txn type created_at item consume_txn quantity ∷ [])
