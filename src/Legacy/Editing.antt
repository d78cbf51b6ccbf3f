-- ===== src/Legacy/Editing.antt =====
-- `UpdateSubmission` of internal/services/inventory_service.go: the items of a pending submission are
-- replaced. It runs in no transaction, so that an error after the write leaves it.
pub mod Checks
pub mod Edited
use cim_backend.Prelude.{
  ◌&&◌, ℤ, eqb_ℤ, ℕ, Bool, true, not, any, ◌==◌, Option, none, some, List, Map, lookup,
  if◌then◌else◌, Outcome, ok, err,
}
use cim_backend.Decimal.{Decimal}
use cim_backend.Errors.{
  AppError, actual_quantity_required, inventory_item_not_found, optimistic_lock_conflict,
  quantity_exceeds_previous, inventory_not_found, submission_not_found, submission_not_editable,
  unmarshal_payload, unknown_submission_type,
}
use cim_backend.Caller.{Caller}
use cim_backend.Models.Item.{InventoryItem}
use cim_backend.Models.Submission.{
  InventorySubmission, QuantityItem, Payload, request, transfer_request, get_item_ids,
  unmarshal_transfer, reconcile, dispose, transfer, unknown_type,
}
use cim_backend.Store.{Store, Tx, ◌>>=◌, ◌>>◌, pure, raise_if, gets, or_raise}
use cim_backend.Store.Items.{get_active_inventory_items, raise_some}
use cim_backend.Store.Submissions.{submission_by_id, update_submission_payload}
use cim_backend.Recon.Apply.{build_item_map}
use cim_backend.Legacy.Approval.{is_pending, guard_not_initiated_reconcile}
use cim_backend.Legacy.Creation.{first_refusal, refuse_consume}

module _ {D : Type 0} where
  -- The payload with the new items; the inventories stay.
  unfoldable pub updated_payload :
      InventorySubmission D → List (QuantityItem D) → Option (Payload D)
  updated_payload row lines = elim row.submission_type [
    | reconcile ↦ some (request (record { inventory_id = row.inventory_id; items = lines }))
    | dispose ↦ some (request (record { inventory_id = row.inventory_id; items = lines }))
    | transfer ↦ elim (unmarshal_transfer row.payload) [
      | none ↦ none
      | some original ↦ some (transfer_request (record original { items = lines }))
    ]
    | unknown_type ↦ none
  ]

module _ {D F : Type 0} ⦃dec : Decimal D⦄ where
  -- The body of `validateDisposeUpdate` and `validateTransferUpdate`, whose checks of a line are
  -- those of the creation.
  unfoldable pub validate_consume_update : ℕ → List (QuantityItem D) → Tx D F (Unit {0})
  validate_consume_update inventory_id lines = do
    items ← get_active_inventory_items inventory_id (get_item_ids lines)
    raise_some (first_refusal (refuse_consume (build_item_map items)) lines)

-- A `decimal.Decimal` as a struct: the pointer to its digits, and its exponent.
pub record DecimalStruct : Type 0 where
  pub pointer : ℕ
  pub exponent : ℤ

-- Go's `==` on two such structs.
abbrev pub same_struct : DecimalStruct → DecimalStruct → Bool
same_struct a b = (a.pointer == b.pointer) && eqb_ℤ a.exponent b.exponent

-- The structs in the quantities that a call compares: those that the query made for the items, and
-- those that the decoding made for the lines.
pub record Structs (D F : Type 0) : Type 0 where
  pub of_quantity : InventoryItem D F → DecimalStruct
  pub of_prev_quantity : QuantityItem D → DecimalStruct

module _ {D F : Type 0} ⦃dec : Decimal D⦄ (structs : Structs D F) where
  -- The body of the loop of `validateReconcileUpdate`.
  unfoldable pub refuse_edited_count : Map (InventoryItem D F) → QuantityItem D → Option AppError
  refuse_edited_count active line = elim line.quantity [
    | none ↦ some (actual_quantity_required line.inventory_item_id)
    | some counted ↦ elim (lookup line.inventory_item_id active) [
      | none ↦ some (inventory_item_not_found line.inventory_item_id)
      | some item ↦
          if not (same_struct (structs.of_quantity item) (structs.of_prev_quantity line))
          then some (optimistic_lock_conflict line.inventory_item_id)
          else if dec.greater_than counted item.quantity
          then some (quantity_exceeds_previous line.inventory_item_id)
          else none
    ]
  ]

  -- `validateReconcileUpdate`
  unfoldable pub validate_reconcile_update : ℕ → List (QuantityItem D) → Tx D F (Unit {0})
  validate_reconcile_update inventory_id lines = do
    items ← get_active_inventory_items inventory_id (get_item_ids lines)
    raise_some (first_refusal (refuse_edited_count (build_item_map items)) lines)

  -- The first `switch`.
  unfoldable pub validate_update : InventorySubmission D → List (QuantityItem D) → Tx D F (Unit {0})
  validate_update row lines = elim row.submission_type [
    | reconcile ↦ validate_reconcile_update row.inventory_id lines
    | dispose ↦ validate_consume_update row.inventory_id lines
    | transfer ↦ do
      original ← or_raise (unmarshal_transfer row.payload) unmarshal_payload
      validate_consume_update original.source_inventory_id lines
    | unknown_type ↦ raise_if true unknown_submission_type
  ]

  -- Up to the write: the row with its new payload.
  unfoldable pub write_items : Caller → ℕ → List (QuantityItem D) → Tx D F (InventorySubmission D)
  write_items ctx id lines = do
    found ← gets (submission_by_id id)
    row ← or_raise found (submission_not_found id)
    raise_if (not (is_pending row)) (submission_not_editable row.approval_status)
    guard_not_initiated_reconcile row
    validate_update row lines
    payload ← or_raise (updated_payload row lines) unmarshal_payload
    update_submission_payload ctx row.id payload
    pure (record row { payload = payload })

  -- `UpdateSubmission`: the reply needs the inventory's row. Its item summaries and warnings, and the
  -- error of an item without a product, are not modelled.
  unfoldable pub update_submission_items :
      Caller
      → ℕ
      → List (QuantityItem D)
      → Store D F
      → Outcome AppError (InventorySubmission D) × Store D F
  update_submission_items ctx id lines s = elim (write_items ctx id lines s) [
    | err e ↦ (err e, s)
    | ok (row, t) ↦
        if any (λ i. i == row.inventory_id) t.inventories
        then (ok row, t)
        else (err (inventory_not_found row.inventory_id), t)
  ]
