-- ===== src/Legacy/Creation.antt =====
-- `CreateReconcileSubmission`, `CreateDisposeSubmission` and `CreateTransferSubmission` of
-- internal/services/inventory_service.go: a request is checked against the stock and stored.
use cim_backend.Prelude.{
  ℕ, false, Bool, not, any, ◌==◌, Option, none, some, List, [], ◌∷◌, Map, lookup, if◌then◌else◌,
}
use cim_backend.Decimal.{Decimal}
use cim_backend.Errors.{
  AppError, unset, actual_quantity_required, quantity_required, quantity_not_positive,
  inventory_item_not_found, optimistic_lock_conflict, quantity_exceeds_previous,
  quantity_exceeds_available, same_inventories, inventory_not_found,
}
use cim_backend.Errors
use cim_backend.Caller.{Caller}
use cim_backend.Models.Item.{InventoryItem}
use cim_backend.Models.Submission.{
  InventorySubmission, InventoryRequest, TransferRequest, QuantityItem, SubmissionType, Payload,
  request, transfer_request, get_item_ids, reconcile, dispose, transfer, pending,
}
use cim_backend.Store.{Tx, ◌>>=◌, ◌>>◌, raise_if, gets}
use cim_backend.Store.Items.{get_active_inventory_items, raise_some}
use cim_backend.Store.Submissions.{create_submission}
use cim_backend.Recon.Apply.{build_item_map}
use cim_backend.Recon.Lifecycle.{guard_no_active_pending}

module _ {D : Type 0} where
  -- The row that is created, before the database fills in its id and time.
  abbrev pub new_submission : ℕ → SubmissionType → Payload D → InventorySubmission D
  new_submission inventory_id type payload = record {
    id = 0;
    inventory_id = inventory_id;
    created_at = 0;
    submission_type = type;
    processing_status = pending;
    approval_status = Errors.ApprovalStatus.pending;
    payload = payload;
    reason = "";
    error = [];
    reconcile_status = unset;
    processed_at = none;
  }

  -- A loop that returns at its first error.
  unfoldable pub first_refusal :
      (QuantityItem D → Option AppError) → List (QuantityItem D) → Option AppError
  first_refusal check [] = none
  first_refusal check (line ∷ lines) = elim (check line) [
    | some e ↦ some e
    | none ↦ first_refusal check lines
  ]

module _ {D : Type 0} ⦃dec : Decimal D⦄ where
  -- `requireConsumeQuantity`
  unfoldable pub require_consume_quantity : Option D → ℕ → Option AppError
  require_consume_quantity none id = some (quantity_required id)
  require_consume_quantity (some quantity) id =
      if not (dec.is_positive quantity) then some (quantity_not_positive id) else none

module _ {D F : Type 0} ⦃dec : Decimal D⦄ where
  -- The body of the loop of `CreateReconcileSubmission`.
  unfoldable pub refuse_count : Map (InventoryItem D F) → QuantityItem D → Option AppError
  refuse_count active line = elim line.quantity [
    | none ↦ some (actual_quantity_required line.inventory_item_id)
    | some counted ↦ elim (lookup line.inventory_item_id active) [
      | none ↦ some (inventory_item_not_found line.inventory_item_id)
      | some item ↦
          if not (dec.equal item.quantity line.prev_quantity)
          then some (optimistic_lock_conflict line.inventory_item_id)
          else if dec.greater_than counted item.quantity
          then some (quantity_exceeds_previous line.inventory_item_id)
          else none
    ]
  ]

  -- What is refused of a quantity that the item does not have.
  abbrev exceeds : QuantityItem D → InventoryItem D F → Bool
  exceeds line item = elim line.quantity [
    | none ↦ false
    | some quantity ↦ dec.greater_than quantity item.quantity
  ]

  -- The body of the loops of `CreateDisposeSubmission` and `CreateTransferSubmission`.
  unfoldable pub refuse_consume : Map (InventoryItem D F) → QuantityItem D → Option AppError
  refuse_consume active line =
      elim (require_consume_quantity line.quantity line.inventory_item_id) [
        | some e ↦ some e
        | none ↦ elim (lookup line.inventory_item_id active) [
          | none ↦ some (inventory_item_not_found line.inventory_item_id)
          | some item ↦
              if exceeds line item
              then some (quantity_exceeds_available line.inventory_item_id)
              else none
        ]
      ]

  unfoldable pub create_reconcile_submission :
      Caller → InventoryRequest D → Tx D F (InventorySubmission D)
  create_reconcile_submission ctx req = do
    guard_no_active_pending req.inventory_id
    items ← get_active_inventory_items req.inventory_id (get_item_ids req.items)
    raise_some (first_refusal (refuse_count (build_item_map items)) req.items)
    create_submission ctx (new_submission req.inventory_id reconcile (request req))

  unfoldable pub create_dispose_submission :
      Caller → InventoryRequest D → Tx D F (InventorySubmission D)
  create_dispose_submission ctx req = do
    items ← get_active_inventory_items req.inventory_id (get_item_ids req.items)
    raise_some (first_refusal (refuse_consume (build_item_map items)) req.items)
    create_submission ctx (new_submission req.inventory_id dispose (request req))

  unfoldable pub create_transfer_submission :
      Caller → TransferRequest D → Tx D F (InventorySubmission D)
  create_transfer_submission ctx req = do
    raise_if (req.source_inventory_id == req.destination_inventory_id) same_inventories
    source ← gets (λ s. any (λ i. i == req.source_inventory_id) s.inventories)
    raise_if (not source) (inventory_not_found req.source_inventory_id)
    destination ← gets (λ s. any (λ i. i == req.destination_inventory_id) s.inventories)
    raise_if (not destination) (inventory_not_found req.destination_inventory_id)
    items ← get_active_inventory_items req.source_inventory_id (get_item_ids req.items)
    raise_some (first_refusal (refuse_consume (build_item_map items)) req.items)
    create_submission ctx (new_submission req.source_inventory_id transfer (transfer_request req))
