-- ===== src/Errors.antt =====
-- The errors of pkg/error_helpers.go that the modelled code returns: one constructor for each call
-- site's error, with the identifiers and statuses that its message carries. Texts are not modelled.
-- The statuses that messages name stand here too (internal/models/inventory_submission.go and
-- purchase_order.go).
use cim_backend.Prelude.{ℕ, Bool, true, false, ◌==◌, List, [], ◌∷◌, Text}

-- `unset` is the empty string of a submission that is no initiated reconcile.
pub data ReconcileStatus : Type 0 where
  unset open_status closed processing processed canceled : ReconcileStatus

abbrev reconcile_code : ReconcileStatus → ℕ
reconcile_code unset = 0
reconcile_code open_status = 1
reconcile_code closed = 2
reconcile_code processing = 3
reconcile_code processed = 4
reconcile_code canceled = 5

abbrev pub reconcile_eq : ReconcileStatus → ReconcileStatus → Bool
reconcile_eq s t = reconcile_code s == reconcile_code t

pub data ApprovalStatus : Type 0 where
  pending approved rejected : ApprovalStatus

abbrev approval_code : ApprovalStatus → ℕ
approval_code pending = 0
approval_code approved = 1
approval_code rejected = 2

abbrev pub approval_eq : ApprovalStatus → ApprovalStatus → Bool
approval_eq s t = approval_code s == approval_code t

-- PurchaseOrderStatus
pub data PurchaseOrderStatus : Type 0 where
  order_placed partially_delivered fully_delivered completed cancelled : PurchaseOrderStatus

abbrev pub order_code : PurchaseOrderStatus → ℕ
order_code order_placed = 0
order_code partially_delivered = 1
order_code fully_delivered = 2
order_code completed = 3
order_code cancelled = 4

abbrev pub order_eq : PurchaseOrderStatus → PurchaseOrderStatus → Bool
order_eq s t = order_code s == order_code t

pub data AppError : Type 0 where
  -- consumeFIFO
  inventory_item_not_found consume_quantity_negative consume_quantity_exceeds : ℕ → AppError
  consume_fifo_validation_failed consume_fifo_failed : AppError
  -- the inventory item repository
  no_active_inventory_items item_validation_failed : AppError
  optimistic_lock_conflict : ℕ → AppError
  save_changes_failed : AppError
  -- permissions and audit columns
  forbidden unauthorized prepare_update_fields : AppError
  -- reconciliations
  inventory_id_required : AppError
  inventory_not_found no_active_items_in_inventory active_pending_reconcile_conflict : ℕ → AppError
  recon_parent_not_found recon_parent_not_initiated : ℕ → AppError
  recon_parent_not_in_flight recon_submission_closed : ℕ → ReconcileStatus → AppError
  recon_invalid_lifecycle_transition : ℕ → ReconcileStatus → ReconcileStatus → AppError
  recon_item_not_found : ℕ → AppError
  recon_item_not_in_parent : ℕ → ℕ → AppError
  recon_item_not_owned readiness_restricted_to_staff invalid_item_status : AppError
  recon_item_missing_quantity recon_item_negative_quantity : ℕ → AppError
  recon_item_label_too_long recon_item_no_snapshot_baseline : ℕ → AppError
  recon_item_label_required_for_duplicate : ℕ → AppError
  recon_item_label_conflict : ℕ → Text → AppError
  recon_row_label_too_long recon_row_label_required : AppError
  recon_row_label_conflict : Text → AppError
  bad_recon_item_payload : ℕ → AppError
  enforce_failed : AppError
  counted_quantity_missing : ℕ → AppError
  -- `errReconDriftRollback`, with the submissions that the captured result warns of
  recon_drift_rollback : List ℕ → AppError
  -- submissions
  submission_not_found submission_started_by_initiate : ℕ → AppError
  approval_not_pending : ApprovalStatus → AppError
  approval_no_longer_pending : AppError
  invalid_action unmarshal_payload unknown_submission_type : AppError
  recon_cannot_reject_in_lifecycle : ℕ → ReconcileStatus → AppError
  actual_quantity_required quantity_exceeds_previous : ℕ → AppError
  reconcile_validation_failed dispose_validation_failed transfer_validation_failed : AppError
  quantity_required quantity_not_positive quantity_exceeds_available : ℕ → AppError
  same_inventories : AppError
  submission_not_editable : ApprovalStatus → AppError
  -- purchase orders
  purchase_order_no_items no_purchase_order_items purchase_order_without_inventory : AppError
  purchase_order_not_found purchase_order_item_not_found received_quantity_negative : ℕ → AppError
  more_decimal_places_than_unit : ℕ → ℕ → AppError
  cannot_receive_purchase_order cannot_edit_purchase_order : PurchaseOrderStatus → AppError
  inventory_item_exists received_quantity_greater_than_updated : ℕ → ℕ → AppError
  failed_to_save_transactions cannot_delete_item_with_received_quantity : AppError
  failed_to_save_purchase_order_item : ℕ → ℕ → AppError

-- `hasAnyErrors` of the processing state
abbrev pub has_any_errors : List AppError → Bool
has_any_errors [] = false
has_any_errors (e ∷ es) = true
