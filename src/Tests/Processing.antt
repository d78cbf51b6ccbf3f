-- ===== src/Tests/Processing.antt =====
-- A run of `StartProcessing` that succeeds.
use cim_backend.Store.Submissions.{create_submission, exists_active_pending}
use cim_backend.Store.Submissions.Pending.{pending_count, create_submission-pending_count}
use cim_backend.Prelude.{
  ◌≤◌, arith, ℕ, ◌≡◌, refl, lookup, lookup_or, put, ◌+ℤ◌, ◌-ℤ◌, ℤ, some, [], ◌∷◌, ok, sort_stable,
  insert_sorted, insert_all,
}
use cim_backend.Decimal.{int_decimal}
use cim_backend.Errors.{closed, processed, approved}
use cim_backend.Caller.{has_permission}
use cim_backend.Models.Transaction.{is_consumable}
use cim_backend.Models.Item.{unconsumed, validate_active_purchase_transactions}
use cim_backend.Models.Submission.{InventorySubmission, is_active_reconcile, request, completed}
use cim_backend.Stock.Fifo.{
  consume_qty_for_txn, consume_txn, consume_layers, consume_item, item_after, consume_items,
  validate_consume, validate_consumes, consume_fifo,
}
use cim_backend.Stock.Handlers.{counter_txn, counter_handler}
use cim_backend.Store.{Store}
use cim_backend.Store.Submissions.{
  submission_by_id, snapshots_exist, update_submission, prev_quantities, snapshot_captured_at,
  list_consuming_processed_since, mark_processed, update_submission_payload,
}
use cim_backend.Store.Sessions.{list_by_submission, role_by_email}
use cim_backend.Store.Items.{
  populate, active_items_query, get_active_inventory_items, save_item, save_transaction,
  save_inventory_item_changes,
}
use cim_backend.Recon.Guards.{load_active_reconcile_parent}
use cim_backend.Recon.Managers.{manager_owned_sessions}
use cim_backend.Recon.Synthesize.{
  item_ids, add_line, add_entry, entries_of, totals_of, session_breakdown, aggregate_review_label,
  synthesize_reconcile,
}
use cim_backend.Recon.Apply.{
  build_item_map, split_deltas, stock_up_change, stock_up_changes, book_deltas, plan_reconcile,
  apply_reconcile_snapshot_aware,
}
use cim_backend.Recon.Lifecycle.{
  start_processing, start_processing_tx, synthesize_submission_payload, applied,
}
use cim_backend.Recon.Lifecycle.Processing.{Processed, start_processing-Processed}
use cim_backend.Tests.Sample.{
  nat_float, bought, two_lines, manager, open_reconcile, open_store, no_managers, snapshot_of,
}

abbrev ready_store : Store ℤ ℕ
ready_store = record open_store {
  transactions = bought 1 7 5 2 ∷ bought 2 7 4 0 ∷ bought 3 8 3 0 ∷ [];
  submissions = record open_reconcile { reconcile_status = closed } ∷ [];
  snapshots = snapshot_of 7 7 ∷ snapshot_of 8 3 ∷ [];
}

abbrev processed_row : InventorySubmission ℤ
processed_row = record open_reconcile {
  reconcile_status = processed;
  processing_status = completed;
  approval_status = approved;
  payload = request (record { inventory_id = 3; items = two_lines });
  processed_at = some 20;
}

abbrev processed_store : Store ℤ ℕ
processed_store = (start_processing no_managers manager 5 ready_store).1

processed_now :
    start_processing no_managers manager 5 ready_store
    ≡ (ok (applied processed_row), processed_store)
unfolding start_processing start_processing_tx item_ids has_permission load_active_reconcile_parent
    submission_by_id snapshots_exist is_active_reconcile list_by_submission update_submission
    manager_owned_sessions role_by_email synthesize_submission_payload prev_quantities
    snapshot_captured_at list_consuming_processed_since mark_processed update_submission_payload
    synthesize_reconcile totals_of add_line session_breakdown entries_of add_entry
    aggregate_review_label put lookup lookup_or sort_stable insert_sorted insert_all ◌+ℤ◌ ◌-ℤ◌
    apply_reconcile_snapshot_aware get_active_inventory_items active_items_query populate
    plan_reconcile split_deltas book_deltas build_item_map stock_up_changes stock_up_change
    consume_fifo validate_consumes validate_consume consume_items consume_item consume_layers
    consume_qty_for_txn consume_txn item_after unconsumed counter_handler counter_txn
    save_inventory_item_changes save_item save_transaction is_consumable
    validate_active_purchase_transactions
processed_now = refl

start_processing-Processed_example : Processed manager 5 ready_store processed_store processed_row
start_processing-Processed_example =
    start_processing-Processed no_managers manager 5 ready_store processed_store processed_row
      processed_now

-- A reconciliation is created for inventory 4, while inventory 3 has a pending one.
abbrev created : InventorySubmission ℤ
created = record open_reconcile { id = 9; inventory_id = 4; created_at = 20 }

abbrev created_store : Store ℤ ℕ
created_store = record open_store {
  submissions = open_reconcile ∷ created ∷ [];
  next_submission_id = 10;
}

created_now :
    create_submission manager (record open_reconcile { inventory_id = 4 }) open_store
    ≡ ok (created, created_store)
unfolding create_submission exists_active_pending
created_now = refl

create_submission-pending_count_example : pending_count 4 created_store.submissions ≤ 1
create_submission-pending_count_example =
    create_submission-pending_count manager (record open_reconcile { inventory_id = 4 }) created
      open_store created_store 4 (omega arith) created_now
