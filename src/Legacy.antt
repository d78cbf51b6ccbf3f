-- ===== src/Legacy.antt =====
-- The submissions that a manager approves or rejects at once: reconcileInventory, disposeInventory,
-- transferInventory and processSubmission of internal/services/inventory_service.go. The errors of
-- a `processingState` are the list that the functions return; on an error the transaction around
-- them is rolled back.
pub mod Approval
pub mod Once
pub mod Creation
pub mod Covered
pub mod Counted
pub mod Transfers
pub mod Frame
pub mod Rows
pub mod Steps
pub mod Requests
pub mod Decided
pub mod Failed
pub mod Editing
use cim_backend.Prelude.{
  ℕ, Bool, true, not, ◌&&◌, ◌==◌, Option, none, some, List, [], ◌∷◌, ◌++◌, any, Map, lookup, put,
  map, select, Outcome, ok, err, if◌then◌else◌,
}
use cim_backend.Decimal.{Decimal}
use cim_backend.Errors.{
  AppError, actual_quantity_required, quantity_required, inventory_item_not_found,
  optimistic_lock_conflict, quantity_exceeds_available, reconcile_validation_failed,
  dispose_validation_failed, transfer_validation_failed, consume_fifo_failed, unmarshal_payload,
  unknown_submission_type, item_validation_failed, has_any_errors,
}
use cim_backend.Caller.{Caller}
use cim_backend.Models.Transaction.{sell, disposal}
use cim_backend.Models.Item.{InventoryItem, InventoryItemChange, is_active}
use cim_backend.Models.Submission.{
  InventorySubmission, InventoryRequest, TransferRequest, QuantityItem, get_item_ids, unmarshal,
  unmarshal_transfer, reconcile, dispose, transfer, unknown_type, completed,
}
use cim_backend.Stock.Fifo.{Consumed, consume_fifo}
use cim_backend.Stock.Handlers.{counter_handler}
use cim_backend.Stock.Transfer.{Destination, build_product_id_map, transfer_handler}
use cim_backend.Store.{Store}
use cim_backend.Store.Items.{
  populate, is_valid_item, get_active_inventory_items, save_inventory_item_changes,
}
use cim_backend.Store.Submissions.{update_processing_status}
use cim_backend.Recon.Apply.{build_item_map}

-- The errors of a processing state, and the store.
abbrev pub Attempt : Type 0 → Type 0 → Type 0
Attempt D F = Store D F → List AppError × Store D F

-- `ps.errors` and `itemConsumeQuantity` in the loop over the lines of a request.
pub record Checked (D : Type 0) : Type 0 where
  pub errors : List AppError
  pub wanted : Map D

module _ {D : Type 0} where
  -- The loop: a line gives its quantity to consume or adds an error.
  unfoldable pub check_lines :
      (QuantityItem D → Outcome AppError D) → Checked D → List (QuantityItem D) → Checked D
  check_lines check acc [] = acc
  check_lines check acc (line ∷ lines) = elim (check line) [
    | ok quantity ↦
        check_lines check (record acc { wanted = put line.inventory_item_id quantity acc.wanted })
          lines
    | err e ↦ check_lines check (record acc { errors = acc.errors ++ e ∷ [] }) lines
  ]

  abbrev pub checked : (QuantityItem D → Outcome AppError D) → List (QuantityItem D) → Checked D
  checked check lines = check_lines check (record { errors = []; wanted = [] }) lines

  -- The lines' checks of the three operations.
  unfoldable pub dispose_line : QuantityItem D → Outcome AppError D
  dispose_line line = elim line.quantity [
    | none ↦ err (quantity_required line.inventory_item_id)
    | some quantity ↦ ok quantity
  ]

module _ {D F : Type 0} ⦃dec : Decimal D⦄ where
  unfoldable pub reconcile_line : Map (InventoryItem D F) → QuantityItem D → Outcome AppError D
  reconcile_line active line = elim line.quantity [
    | none ↦ err (actual_quantity_required line.inventory_item_id)
    | some counted ↦ elim (lookup line.inventory_item_id active) [
      | none ↦ err (inventory_item_not_found line.inventory_item_id)
      | some item ↦
          if not (dec.equal item.quantity line.prev_quantity)
          then err (optimistic_lock_conflict line.inventory_item_id)
          else ok (dec.sub item.quantity counted)
    ]
  ]

  unfoldable pub transfer_line : Map (InventoryItem D F) → QuantityItem D → Outcome AppError D
  transfer_line source line = elim line.quantity [
    | none ↦ err (actual_quantity_required line.inventory_item_id)
    | some quantity ↦ elim (lookup line.inventory_item_id source) [
      | none ↦ err (inventory_item_not_found line.inventory_item_id)
      | some item ↦
          if dec.greater_than quantity item.quantity
          then err (quantity_exceeds_available line.inventory_item_id)
          else ok quantity
    ]
  ]

  -- `productIDs`, used only where no line was refused.
  abbrev pub product_ids : Map (InventoryItem D F) → List (QuantityItem D) → List ℕ
  product_ids source [] = []
  product_ids source (line ∷ lines) = elim (lookup line.inventory_item_id source) [
    | none ↦ product_ids source lines
    | some item ↦ item.product_id ∷ product_ids source lines
  ]

  -- What `consumeFIFO` answers is saved, with the changes that the closure kept.
  unfoldable pub save_consumed :
      {S : Type 0}
      → Caller
      → (S → List (InventoryItemChange D F))
      → Outcome (List AppError) (Consumed S D F)
      → Attempt D F
  save_consumed ctx kept (err errors) s = (errors ++ consume_fifo_failed ∷ [], s)
  save_consumed ctx kept (ok c) s =
      elim (save_inventory_item_changes ctx (c.changes ++ kept c.handler_state) c.txns s) [
        | err e ↦ (e ∷ [], s)
        | ok (_, t) ↦ ([], t)
      ]

  -- From the checked lines of a reconcile request to what is saved.
  unfoldable pub plan_legacy_reconcile :
      List (InventoryItem D F)
      → List (QuantityItem D)
      → Outcome (List AppError) (Consumed (Unit {0}) D F)
  plan_legacy_reconcile items lines =
      let c = checked (reconcile_line (build_item_map items)) lines in
      consume_fifo (counter_handler sell 0) tt [] items c.wanted

  -- `reconcileInventory`
  unfoldable pub reconcile_inventory : Caller → InventoryRequest D → Attempt D F
  reconcile_inventory ctx req s =
      elim (get_active_inventory_items req.inventory_id (get_item_ids req.items) s) [
        | err e ↦ (e ∷ [], s)
        | ok (items, s1) ↦
            let c = checked (reconcile_line (build_item_map items)) req.items in
            if has_any_errors c.errors
            then (c.errors ++ reconcile_validation_failed ∷ [], s1)
            else save_consumed ctx (λ _. []) (plan_legacy_reconcile items req.items) s1
      ]

  -- `disposeInventory`
  unfoldable pub dispose_inventory : Caller → InventoryRequest D → Attempt D F
  dispose_inventory ctx req s =
      elim (get_active_inventory_items req.inventory_id (get_item_ids req.items) s) [
        | err e ↦ (e ∷ [], s)
        | ok (items, s1) ↦
            let c = checked dispose_line req.items in
            if has_any_errors c.errors
            then (c.errors ++ dispose_validation_failed ∷ [], s1)
            else save_consumed ctx (λ _. [])
                (consume_fifo (counter_handler disposal 0) tt [] items c.wanted) s1
      ]

  -- The query of `GetActiveInventoryItemsByProductIDs`.
  unfoldable pub active_products_query : ℕ → List ℕ → Store D F → List (InventoryItem D F)
  active_products_query inventory_id products s = map (populate s) (
      select
        (λ i.
          i.inventory_id == inventory_id
          && any (λ p. p == i.product_id) products
          && is_active i.status)
        s.items)

  -- `changesOf` the destination, in the order of their creation.
  abbrev pub destination_changes : Destination D F → List (InventoryItemChange D F)
  destination_changes [] = []
  destination_changes ((_, change) ∷ changes) = change ∷ destination_changes changes

  -- `transferInventory`. No item of the products at the destination is no error.
  unfoldable pub transfer_inventory : Caller → TransferRequest D → Attempt D F
  transfer_inventory ctx req s =
      elim (get_active_inventory_items req.source_inventory_id (get_item_ids req.items) s) [
        | err e ↦ (e ∷ [], s)
        | ok (items, s1) ↦
            let source = build_item_map items in
            let c = checked (transfer_line source) req.items in
            let dest_items =
              active_products_query req.destination_inventory_id (product_ids source req.items)
                s1 in
            let handler =
              transfer_handler req.destination_inventory_id (build_product_id_map dest_items) in
            if has_any_errors c.errors
            then (c.errors ++ transfer_validation_failed ∷ [], s1)
            else if any (λ i. not (is_valid_item i)) dest_items
            then (item_validation_failed ∷ [], s1)
            else save_consumed ctx destination_changes (consume_fifo handler [] [] items c.wanted)
                s1
      ]

module _ {D F : Type 0} where
  -- `ps.end` on the atomic path: without errors the row is completed; an error of that is logged.
  unfoldable pub end_processing : Caller → ℕ → List AppError × Store D F → List AppError × Store D F
  end_processing ctx id ([], s) = elim (update_processing_status ctx id completed s) [
    | ok (_, t) ↦ ([], t)
    | err _ ↦ ([], s)
  ]
  end_processing ctx id (e ∷ es, s) = (e ∷ es, s)

module _ {D F : Type 0} ⦃dec : Decimal D⦄ where
  -- The `switch` of `processSubmission`.
  unfoldable pub run_operation : Caller → InventorySubmission D → Attempt D F
  run_operation ctx submission s = elim submission.submission_type [
    | reconcile ↦ elim (unmarshal submission.payload) [
      | none ↦ (unmarshal_payload ∷ [], s)
      | some req ↦ reconcile_inventory ctx req s
    ]
    | dispose ↦ elim (unmarshal submission.payload) [
      | none ↦ (unmarshal_payload ∷ [], s)
      | some req ↦ dispose_inventory ctx req s
    ]
    | transfer ↦ elim (unmarshal_transfer submission.payload) [
      | none ↦ (unmarshal_payload ∷ [], s)
      | some req ↦ transfer_inventory ctx req s
    ]
    | unknown_type ↦ (unknown_submission_type ∷ [], s)
  ]

  -- `processSubmission`, atomic: it applied where the list is empty.
  unfoldable pub process_submission : Caller → InventorySubmission D → Attempt D F
  process_submission ctx submission s =
      end_processing ctx submission.id (run_operation ctx submission s)
