-- ===== src/Recon/Apply.antt =====
-- `applyReconcileSnapshotAware` and `buildReconcileStockUps` of
-- internal/services/inventory_reconcile_processing.go: the counted quantities become stock movements.
pub mod Maps
pub mod Split
pub mod StockUp
pub mod Counted
use cim_backend.Prelude.{
  ℕ, Bool, true, false, not, ◌==◌, Option, none, some, List, [], ◌∷◌, ◌++◌, map, select, Map,
  lookup, put, is_some, Outcome, ok, err, and_then, if◌then◌else◌,
}
use cim_backend.Decimal.{Decimal, Float64}
use cim_backend.Errors.{
  AppError, inventory_item_not_found, counted_quantity_missing, consume_fifo_failed,
}
use cim_backend.Caller.{Caller}
use cim_backend.Models.Transaction.{InventoryTransaction, sell, reconcile_stock_up}
use cim_backend.Models.Item.{InventoryItem, InventoryItemChange}
use cim_backend.Models.Submission.{InventorySubmission, QuantityItem, get_item_ids}
use cim_backend.Stock.Fifo.{Consumed, consume_fifo}
use cim_backend.Stock.Handlers.{counter_handler}
use cim_backend.Store.{Tx, ◌>>=◌, ◌>>◌, pure, lift}
use cim_backend.Store.Items.{get_active_inventory_items, save_inventory_item_changes}

module _ {D F : Type 0} where
  -- `buildItemMap`: the last item with an id, and none with id 0.
  abbrev pub put_item : Map (InventoryItem D F) → InventoryItem D F → Map (InventoryItem D F)
  put_item m i = if i.id == 0 then m else put i.id i m

  abbrev pub put_items :
      Map (InventoryItem D F) → List (InventoryItem D F) → Map (InventoryItem D F)
  put_items m [] = m
  put_items m (i ∷ is) = put_items (put_item m i) is

  unfoldable pub build_item_map : List (InventoryItem D F) → Map (InventoryItem D F)
  build_item_map items = put_items [] items

-- The quantities to consume and to stock up, by item.
pub record Deltas (D : Type 0) : Type 0 where
  pub consume : Map D
  pub stock_up : Map D

module _ {D : Type 0} ⦃dec : Decimal D⦄ where
  abbrev pub add_delta : ℕ → D → Deltas D → Deltas D
  add_delta id delta ds =
      if dec.is_positive delta
      then record ds { consume = put id delta ds.consume }
      else if dec.is_negative delta
      then record ds { stock_up = put id (dec.neg delta) ds.stock_up }
      else ds

module _ {D F : Type 0} ⦃dec : Decimal D⦄ where
  -- The loop over the request's lines.
  unfoldable pub split_deltas :
      Map (InventoryItem D F) → Deltas D → List (QuantityItem D) → Outcome AppError (Deltas D)
  split_deltas active ds [] = ok ds
  split_deltas active ds (line ∷ rest) = elim line.quantity [
    | none ↦ err (counted_quantity_missing line.inventory_item_id)
    | some counted ↦ elim (lookup line.inventory_item_id active) [
      | none ↦ err (inventory_item_not_found line.inventory_item_id)
      | some item ↦
          split_deltas active
            (add_delta line.inventory_item_id (dec.sub line.prev_quantity counted) ds) rest
    ]
  ]

  -- One surplus: the item raised by it. Every id of the map is one that the loop above looked up, so
  -- that the item is there.
  unfoldable pub stock_up_change : Map (InventoryItem D F) → ℕ → D → List (InventoryItemChange D F)
  stock_up_change active id surplus = elim (lookup id active) [
    | none ↦ []
    | some item ↦
        record {
          item = record item { quantity = dec.add item.quantity surplus };
          original_quantity = item.quantity;
        }
        ∷ []
  ]

  unfoldable pub stock_up_changes : Map (InventoryItem D F) → Map D → List (InventoryItemChange D F)
  stock_up_changes active [] = []
  stock_up_changes active ((id, surplus) ∷ rest) =
      stock_up_change active id surplus ++ stock_up_changes active rest

module _ {D F : Type 0} ⦃dec : Decimal D⦄ ⦃fl : Float64 F⦄ where
  abbrev pub stock_up_txn : ℕ → ℕ → D → InventoryTransaction D F
  stock_up_txn backdated_at id surplus = record {
    id = 0;
    created_at = backdated_at;
    inventory_item_id = id;
    transaction_type = reconcile_stock_up;
    price = fl.float_zero;
    quantity = surplus;
    consumed_quantity = dec.zero_value;
    counter_transaction_id = none;
    is_adjustment = true;
    inventory_item = none;
  }

  abbrev pub stock_up_txns : ℕ → Map D → List (InventoryTransaction D F)
  stock_up_txns backdated_at [] = []
  stock_up_txns backdated_at ((id, surplus) ∷ rest) =
      stock_up_txn backdated_at id surplus ∷ stock_up_txns backdated_at rest

  -- What is to be saved: consumed first, then stocked up on the same item objects.
  unfoldable pub book_deltas :
      ℕ
      → List (InventoryItem D F)
      → Deltas D
      → Outcome AppError (List (InventoryItemChange D F) × List (InventoryTransaction D F))
  book_deltas created_at items ds =
      elim (consume_fifo (counter_handler sell created_at) tt [] items ds.consume) [
        | err _ ↦ err consume_fifo_failed
        | ok c ↦ ok (
          c.changes ++ stock_up_changes (build_item_map c.items) ds.stock_up,
          c.txns ++ stock_up_txns created_at ds.stock_up,
        )
      ]

  unfoldable pub plan_reconcile :
      ℕ
      → List (InventoryItem D F)
      → List (QuantityItem D)
      → Outcome AppError (List (InventoryItemChange D F) × List (InventoryTransaction D F))
  plan_reconcile created_at items lines =
      and_then (split_deltas (build_item_map items) (record { consume = []; stock_up = [] }) lines)
        (book_deltas created_at items)

  -- `applyReconcileSnapshotAware`; `models.GetIDs` leaves out the id 0.
  unfoldable pub apply_reconcile_snapshot_aware :
      Caller → InventorySubmission D → List (QuantityItem D) → Tx D F (Unit {0})
  apply_reconcile_snapshot_aware ctx parent lines =
      elim (select (λ id. not (id == 0)) (get_item_ids lines)) [
        | [] ↦ pure tt
        | id ∷ ids ↦ (do
          items ← get_active_inventory_items parent.inventory_id (id ∷ ids)
          plan ← lift (plan_reconcile parent.created_at items lines)
          save_inventory_item_changes ctx plan.0 plan.1)
      ]
