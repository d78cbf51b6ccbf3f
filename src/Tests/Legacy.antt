-- ===== src/Tests/Legacy.antt =====
-- Submissions that are approved, refused and rejected, and a transfer.
use cim_backend.Prelude.{
  ◌≡◌, ◌+◌, true, false, refl, ℕ, lookup, lookup_or, put, ◌+ℤ◌, ◌-ℤ◌, ℤ, pos, some, none, List, [],
  ◌∷◌, find, ok, err, sort_stable, insert_sorted, insert_all, ◌==◌,
}
use cim_backend.Decimal.{int_decimal}
use cim_backend.Errors.{
  approved, actual_quantity_required, consume_quantity_exceeds, approval_not_pending,
  consume_fifo_validation_failed, consume_fifo_failed, has_any_errors,
}
use cim_backend.Errors
use cim_backend.Caller.{Caller, has_permission, resource_inventory_submissions, action_approve}
use cim_backend.Models.Transaction.{InventoryTransaction, is_consumable, disposal, sell}
use cim_backend.Models.Item.{InventoryItem, unconsumed, validate_active_purchase_transactions}
use cim_backend.Models.Submission.{InventorySubmission, QuantityItem, request, completed, dispose}
use cim_backend.Stock.Fifo.{
  Consumed, consume_qty_for_txn, consume_txn, consume_layers, consume_item, item_after,
  consume_items, validate_consume, validate_consumes, consume_fifo,
}
use cim_backend.Stock.Fifo.Conserved.{on_hand}
use cim_backend.Stock.Handlers.{counter_txn, counter_handler}
use cim_backend.Stock.Transfer.{Destination, build_product_id_map, transfer_handler}
use cim_backend.Store.{Store}
use cim_backend.Store.Submissions.{
  submission_by_id, snapshots_exist, update_submission, update_approval_status,
  update_processing_status, set_processed_at, fail_submission_processing_with_errors,
}
use cim_backend.Store.Items.{
  populate, active_items_query, get_active_inventory_items, save_item, save_transaction,
  save_inventory_item_changes,
}
use cim_backend.Recon.Apply.{build_item_map}
use cim_backend.Recon.Apply.StockUp.{quantity_after}
use cim_backend.Legacy.{
  check_lines, checked, dispose_line, reconcile_line, plan_legacy_reconcile, save_consumed,
  dispose_inventory, run_operation, end_processing, process_submission,
}
use cim_backend.Legacy.Approval.{
  approve, ApprovalRequest, may_approve, load_pending, guard_not_initiated_reconcile,
  start_approval, approve_tx, approve_submission, record_failure, check_request, process_approval,
}
use cim_backend.Legacy.Requests.{Decided}
use cim_backend.Legacy.Decided.{process_approval-Decided}
use cim_backend.Legacy.Once.{decision, nothing, process_approval-once}
use cim_backend.Legacy.Failed.{OnlyAudited, process_approval-OnlyAudited}
use cim_backend.Legacy.Counted.{plan_legacy_reconcile-counted}
use cim_backend.Legacy.Transfers.{gained, transfer_handler-conserves}
use cim_backend.Legacy.Creation.{first_refusal, refuse_consume, require_consume_quantity}
use cim_backend.Legacy.Covered.{accepted_dispose-consumed}
use cim_backend.Tests.Stock.{rice-IsInSync, salt-IsInSync}
use cim_backend.Tests.Sample.{nat_float, bought, two_items, line_of, open_reconcile, open_store}

abbrev pub approver : Caller
approver = record {
  user_email = some "boss@example.com";
  permissions =
      some (record { resource = resource_inventory_submissions; action = action_approve } ∷ []);
}

-- Submission 5 disposes of some rice.
abbrev pub disposal_of : ℕ → InventorySubmission ℤ
disposal_of quantity = record open_reconcile {
  submission_type = dispose;
  payload = request (record { inventory_id = 3; items = line_of 7 quantity 0 ∷ [] });
  reconcile_status = Errors.ReconcileStatus.unset;
}

abbrev pub store_of : ℕ → Store ℤ ℕ
store_of quantity = record open_store {
  transactions = bought 1 7 5 2 ∷ bought 2 7 4 0 ∷ bought 3 8 3 0 ∷ [];
  submissions = disposal_of quantity ∷ [];
  snapshots = [];
}

abbrev approval_of_five : ApprovalRequest
approval_of_five = record { submission_id = 5; action = approve; reason = "expired" }

abbrev approved_row : InventorySubmission ℤ
approved_row = record (disposal_of 5) {
  processing_status = completed;
  approval_status = approved;
  reason = "expired";
  processed_at = some 20;
}

abbrev approved_store : Store ℤ ℕ
approved_store = (process_approval approver approval_of_five (store_of 5)).1

approved_now :
    process_approval approver approval_of_five (store_of 5) ≡ (ok approved_row, approved_store)
unfolding process_approval check_request has_permission load_pending guard_not_initiated_reconcile
    approve_submission approve_tx start_approval process_submission run_operation end_processing
    dispose_inventory check_lines dispose_line save_consumed submission_by_id snapshots_exist
    update_submission update_approval_status update_processing_status set_processed_at put lookup
    lookup_or sort_stable insert_sorted insert_all ◌+ℤ◌ ◌-ℤ◌ get_active_inventory_items
    active_items_query populate consume_fifo validate_consumes validate_consume consume_items
    consume_item consume_layers consume_qty_for_txn consume_txn item_after unconsumed
    counter_handler counter_txn save_inventory_item_changes save_item save_transaction is_consumable
    validate_active_purchase_transactions
approved_now = refl

process_approval-Decided_example :
    Decided approver approval_of_five (store_of 5) approved_store approved_row
process_approval-Decided_example =
    process_approval-Decided approver approval_of_five (store_of 5) approved_store approved_row
      approved_now

approver-may : may_approve approver ≡ true
unfolding has_permission
approver-may = refl

-- The approval is tried once more.
abbrev tried_store : Store ℤ ℕ
tried_store = (process_approval approver approval_of_five approved_store).1

process_approval-once_example :
    process_approval approver approval_of_five tried_store
    ≡ (err (approval_not_pending approved), tried_store)
process_approval-once_example =
    process_approval-once approver approver approval_of_five approval_of_five (store_of 5)
      approved_store tried_store approved_row approved_now
      (decision approved_store approver approval_of_five nothing) approver-may refl

-- Nine are more than there are.
abbrev refused_store : Store ℤ ℕ
refused_store = (process_approval approver approval_of_five (store_of 9)).1

refused_now :
    process_approval approver approval_of_five (store_of 9)
    ≡ (err (consume_quantity_exceeds 7), refused_store)
unfolding process_approval check_request has_permission load_pending guard_not_initiated_reconcile
    approve_submission approve_tx start_approval process_submission run_operation end_processing
    dispose_inventory check_lines dispose_line save_consumed submission_by_id snapshots_exist
    update_submission update_approval_status record_failure fail_submission_processing_with_errors
    put lookup lookup_or sort_stable insert_sorted insert_all ◌+ℤ◌ ◌-ℤ◌ get_active_inventory_items
    active_items_query populate consume_fifo validate_consumes validate_consume unconsumed
    is_consumable validate_active_purchase_transactions
refused_now = refl

process_approval-OnlyAudited_example : OnlyAudited 5 (store_of 9) refused_store
process_approval-OnlyAudited_example =
    process_approval-OnlyAudited approver approval_of_five (store_of 9) refused_store
      (consume_quantity_exceeds 7) refused_now

-- Four of the rice go to inventory 4, which has none.
abbrev four_of_rice : List (ℕ × ℤ)
four_of_rice = (7, pos 4) ∷ []

abbrev handler_to_four :
    Destination ℤ ℕ
    → InventoryItem ℤ ℕ
    → InventoryTransaction ℤ ℕ
    → ℤ
    → Destination ℤ ℕ × List (InventoryTransaction ℤ ℕ)
handler_to_four = transfer_handler 4 (build_product_id_map [])

abbrev moved_rice : Consumed (Destination ℤ ℕ) ℤ ℕ
moved_rice = consume_items handler_to_four four_of_rice [] two_items

moved_now : consume_fifo handler_to_four [] [] two_items four_of_rice ≡ ok moved_rice
unfolding consume_fifo validate_consumes validate_consume
moved_now = refl

transfer_handler-conserves_example :
    on_hand moved_rice.items + gained moved_rice.handler_state ≡ on_hand two_items
transfer_handler-conserves_example =
    transfer_handler-conserves 4 [] two_items four_of_rice moved_rice tt (refl, (refl, tt))
      (rice-IsInSync, (salt-IsInSync, tt)) moved_now

-- Rice was counted as 4 where 7 were on hand.
abbrev rice_line : QuantityItem ℤ
rice_line = line_of 7 4 7

abbrev counted_rice : Consumed (Unit {0}) ℤ ℕ
counted_rice = consume_items (counter_handler sell 0) ((7, pos 3) ∷ []) tt two_items

counted_now : plan_legacy_reconcile two_items (rice_line ∷ []) ≡ ok counted_rice
unfolding plan_legacy_reconcile check_lines reconcile_line build_item_map put lookup ◌-ℤ◌
    consume_fifo validate_consumes validate_consume
counted_now = refl

clean_now :
    has_any_errors (checked (reconcile_line (build_item_map two_items)) (rice_line ∷ [])).errors
    ≡ false
unfolding check_lines reconcile_line build_item_map put lookup
clean_now = refl

plan_legacy_reconcile-counted_example :
    (item : InventoryItem ℤ ℕ) × (counted : ℤ) × (find (λ j. j.id == 7) two_items ≡ some item)
    × (rice_line.quantity ≡ some counted)
    × (int_decimal.equal (quantity_after counted_rice.changes item) counted ≡ true)
plan_legacy_reconcile-counted_example =
    plan_legacy_reconcile-counted two_items (rice_line ∷ []) rice_line counted_rice
      (refl, (refl, tt)) (refl, tt) refl refl clean_now counted_now

accepted_now : first_refusal (refuse_consume (build_item_map two_items)) (rice_line ∷ []) ≡ none
unfolding first_refusal refuse_consume require_consume_quantity build_item_map put lookup
accepted_now = refl

accepted_dispose-consumed_example :
    ((checked dispose_line (rice_line ∷ [])).errors ≡ [])
    × (c : Consumed (Unit {0}) ℤ ℕ) × (consume_fifo
          (counter_handler disposal 0)
          tt
          []
          two_items
          (checked dispose_line (rice_line ∷ [])).wanted
        ≡ ok c)
accepted_dispose-consumed_example =
    accepted_dispose-consumed two_items (rice_line ∷ []) (refl, (refl, tt)) (refl, tt) accepted_now
