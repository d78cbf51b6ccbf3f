-- ===== src/Stock/Fifo.antt =====
-- `consumeFIFO` of internal/services/inventory_service.go: stock is taken from the oldest movements.
pub mod Layers
pub mod Items
pub mod Ledger
pub mod Changes
pub mod Conserved
use cim_backend.Prelude.{
  ℕ, Option, none, some, List, [], ◌∷◌, ◌++◌, ◌==◌, Map, lookup_or, find, Outcome, ok, err,
  if◌then◌else◌,
}
use cim_backend.Decimal.{Decimal}
use cim_backend.Errors.{
  AppError, inventory_item_not_found, consume_quantity_negative, consume_quantity_exceeds,
  consume_fifo_validation_failed, has_any_errors,
}
use cim_backend.Models.Transaction.{InventoryTransaction}
use cim_backend.Models.Item.{InventoryItem, InventoryItemChange, unconsumed}

-- A `consumeHandler` is a closure: S is what it keeps between its calls.
abbrev pub ConsumeHandler : Type 0 → Type 0 → Type 0 → Type 0
ConsumeHandler S D F =
    S → InventoryItem D F → InventoryTransaction D F → D → S × List (InventoryTransaction D F)

-- The variables of the inner loop, where it ends: the closure's state, the transactions it added to
-- `txns`, the item's movements as it leaves them, `consumingTxnID` and `toConsume`.
pub record LoopState (S D F : Type 0) : Type 0 where
  pub handler_state : S
  pub txns : List (InventoryTransaction D F)
  pub layers : List (InventoryTransaction D F)
  pub consuming_txn_id : ℕ
  pub to_consume : D

-- What `consumeFIFO` returns: the changes and transactions to save. `items` are the active items as
-- it leaves them, since it writes through their pointers.
pub record Consumed (S D F : Type 0) : Type 0 where
  pub handler_state : S
  pub changes : List (InventoryItemChange D F)
  pub txns : List (InventoryTransaction D F)
  pub items : List (InventoryItem D F)

module _ {D F : Type 0} ⦃dec : Decimal D⦄ where
  -- The part of `toConsume` that one movement gives.
  unfoldable pub consume_qty_for_txn : D → InventoryTransaction D F → D
  unfolding unconsumed
  consume_qty_for_txn to_consume txn =
      if dec.less_than to_consume (unconsumed txn) then to_consume else unconsumed txn

  unfoldable pub consume_txn : D → InventoryTransaction D F → InventoryTransaction D F
  consume_txn qty txn = record txn { consumed_quantity = dec.add txn.consumed_quantity qty }

module _ {S D F : Type 0} ⦃dec : Decimal D⦄ where
  -- A round that skips a movement, and a round that takes `qty` from it.
  abbrev pub keep_layer : InventoryTransaction D F → LoopState S D F → LoopState S D F
  keep_layer txn rest = record rest { layers = txn ∷ rest.layers }

  abbrev pub take_layer :
      List (InventoryTransaction D F) → InventoryTransaction D F → LoopState S D F → LoopState S D F
  take_layer new_txns txn rest = record rest {
    txns = new_txns ++ (txn ∷ rest.txns);
    layers = txn ∷ rest.layers;
  }

  unfoldable pub consume_layers :
      ConsumeHandler S D F
      → InventoryItem D F
      → S
      → ℕ
      → D
      → List (InventoryTransaction D F)
      → LoopState S D F
  unfolding consume_qty_for_txn consume_txn
  consume_layers handler item s last to_consume [] = record {
    handler_state = s;
    txns = [];
    layers = [];
    consuming_txn_id = last;
    to_consume = to_consume;
  }
  consume_layers handler item s last to_consume (txn ∷ rest) =
      let skipped = keep_layer txn (consume_layers handler item s last to_consume rest) in
      let qty = consume_qty_for_txn to_consume txn in
      let called = handler s item txn qty in
      let taken =
        take_layer called.1 (consume_txn qty txn)
          (consume_layers handler item called.0 txn.id (dec.sub to_consume qty) rest) in
      let stopped : LoopState S D F = record {
        handler_state = s;
        txns = [];
        layers = txn ∷ rest;
        consuming_txn_id = last;
        to_consume = to_consume;
      } in
      if dec.greater_than to_consume dec.zero_value
      then if dec.is_zero (unconsumed txn) then skipped else taken
      else stopped

  -- One active item with something to consume: its movements, then its quantity.
  unfoldable pub consume_item : ConsumeHandler S D F → InventoryItem D F → S → D → LoopState S D F
  consume_item handler item s qty = consume_layers handler item s 0 qty item.consumable_transactions

  unfoldable pub item_after : InventoryItem D F → D → LoopState S D F → InventoryItem D F
  item_after item qty r = record item {
    quantity = dec.sub item.quantity qty;
    consuming_transaction_id = r.consuming_txn_id;
    consumable_transactions = r.layers;
  }

  unfoldable pub consume_items :
      ConsumeHandler S D F → Map D → S → List (InventoryItem D F) → Consumed S D F
  consume_items handler wanted s [] = record {
    handler_state = s;
    changes = [];
    txns = [];
    items = [];
  }
  consume_items handler wanted s (item ∷ rest) =
      let qty = lookup_or dec.zero_value item.id wanted in
      let skipped = consume_items handler wanted s rest in
      let r = consume_item handler item s qty in
      let after = consume_items handler wanted r.handler_state rest in
      let item' = item_after item qty r in
      if dec.is_zero qty then record skipped { items = item ∷ skipped.items } else record after {
        changes = record { item = item'; original_quantity = item.quantity } ∷ after.changes;
        txns = r.txns ++ after.txns;
        items = item' ∷ after.items;
      }

-- One entry of the validation: the reason why the quantity cannot be consumed.
module _ {D F : Type 0} ⦃dec : Decimal D⦄ where
  unfoldable pub validate_consume : List (InventoryItem D F) → ℕ → D → Option AppError
  validate_consume items item_id qty = elim (find (λ i. i.id == item_id) items) [
    | none ↦ some (inventory_item_not_found item_id)
    | some item ↦
        if dec.is_negative qty
        then some (consume_quantity_negative item_id)
        else if dec.greater_than qty item.quantity
        then some (consume_quantity_exceeds item_id)
        else none
  ]

  unfoldable pub validate_consumes : List (InventoryItem D F) → Map D → List AppError
  validate_consumes items [] = []
  validate_consumes items ((item_id, qty) ∷ wanted) =
      let rest = validate_consumes items wanted in
      elim (validate_consume items item_id qty) [ none ↦ rest | some e ↦ e ∷ rest ]

module _ {S D F : Type 0} ⦃dec : Decimal D⦄ where
  -- `ps` holds the errors so far: an error returns them all, the last one added here.
  unfoldable pub consume_fifo :
      ConsumeHandler S D F
      → S
      → List AppError
      → List (InventoryItem D F)
      → Map D
      → Outcome (List AppError) (Consumed S D F)
  consume_fifo handler s ps items wanted =
      let errors = ps ++ validate_consumes items wanted in
      if has_any_errors errors
      then err (errors ++ consume_fifo_validation_failed ∷ [])
      else ok (consume_items handler wanted s items)
