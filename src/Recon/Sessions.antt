-- ===== src/Recon/Sessions.antt =====
-- The handlers of count sessions: internal/services/inventory_reconcile_items.go, lines 255 to 507.
-- Each is one transaction; its result is the row, before product names are looked up for the reply.
use cim_backend.Prelude.{ℕ, not, List, str_eq, ltb, sort_stable, Text, if◌then◌else◌}
use cim_backend.Decimal.{Decimal}
use cim_backend.Errors.{
  reconcile_eq, open_status, unauthorized, readiness_restricted_to_staff, invalid_item_status,
  recon_submission_closed, recon_item_not_owned, recon_parent_not_found, recon_parent_not_initiated,
}
use cim_backend.Caller.{Caller}
use cim_backend.Models.Submission.{submission_type_eq, reconcile}
use cim_backend.Models.Session.{
  ReconciliationRequestItem, SessionStatus, in_progress, is_valid_status,
}
use cim_backend.Store.{Tx, ◌>>=◌, ◌>>◌, pure, raise_if, gets, or_raise, lift}
use cim_backend.Store.Submissions.{submission_by_id, prev_quantities, snapshots_exist}
use cim_backend.Store.Sessions.{
  create_session, list_by_submission, list_by_submission_and_creator,
  update_label_payload_and_status, update_session_status, soft_delete_session,
}
use cim_backend.Recon.Guards.{
  can_manage, load_active_reconcile_parent, guard_parent_editable, load_item_in_parent,
  guard_ownership,
}
use cim_backend.Recon.Counts.{
  ReconciliationCountItem, validate_row_label, validate_counts_against_snapshot,
}

module _ {D F : Type 0} ⦃dec : Decimal D⦄ where
  -- `CreateReconciliationItem`
  unfoldable pub create_reconciliation_item :
      Caller → ℕ → Text → List (ReconciliationCountItem D) → Tx D F (ReconciliationRequestItem D)
  create_reconciliation_item ctx submission_id label items = do
    parent ← load_active_reconcile_parent submission_id
    guard_parent_editable ctx parent
    sibling_rows ← gets (list_by_submission submission_id)
    caller_email ← or_raise ctx.user_email unauthorized
    row_label ← lift (validate_row_label caller_email label 0 sibling_rows)
    baselines ← gets (prev_quantities submission_id)
    payload ← lift (validate_counts_against_snapshot baselines items)
    create_session ctx submission_id row_label payload in_progress

  -- `UpdateReconciliationItem`
  unfoldable pub update_reconciliation_item :
      Caller
      → ℕ
      → ℕ
      → Text
      → List (ReconciliationCountItem D)
      → Tx D F (ReconciliationRequestItem D)
  update_reconciliation_item ctx submission_id item_id label items = do
    parent ← load_active_reconcile_parent submission_id
    guard_parent_editable ctx parent
    item ← load_item_in_parent submission_id item_id
    guard_ownership ctx item
    sibling_rows ← gets (list_by_submission submission_id)
    row_label ← lift (validate_row_label item.created_by label item.id sibling_rows)
    baselines ← gets (prev_quantities submission_id)
    payload ← lift (validate_counts_against_snapshot baselines items)
    update_label_payload_and_status ctx item.id row_label payload in_progress
    let updated : ReconciliationRequestItem D = record item {
      label = row_label;
      payload = payload;
      status = in_progress;
    }
    pure updated

module _ {D F : Type 0} where
  -- `SetReconciliationItemReadiness`
  unfoldable pub set_reconciliation_item_readiness :
      Caller → ℕ → ℕ → SessionStatus → Tx D F (ReconciliationRequestItem D)
  set_reconciliation_item_readiness ctx submission_id item_id status = do
    raise_if (not (is_valid_status status)) invalid_item_status
    parent ← load_active_reconcile_parent submission_id
    raise_if (not (reconcile_eq parent.reconcile_status open_status))
        (recon_submission_closed parent.id parent.reconcile_status)
    item ← load_item_in_parent submission_id item_id
    raise_if (can_manage ctx) readiness_restricted_to_staff
    caller_email ← or_raise ctx.user_email unauthorized
    raise_if (not (str_eq item.created_by caller_email)) recon_item_not_owned
    update_session_status ctx item.id status
    let updated : ReconciliationRequestItem D = record item { status = status }
    pure updated

  -- `DeleteReconciliationItem`
  unfoldable pub delete_reconciliation_item : Caller → ℕ → ℕ → Tx D F (Unit {0})
  delete_reconciliation_item ctx submission_id item_id = do
    parent ← load_active_reconcile_parent submission_id
    guard_parent_editable ctx parent
    item ← load_item_in_parent submission_id item_id
    guard_ownership ctx item
    soft_delete_session ctx item.id

  abbrev pub rows_for : Caller → ℕ → Tx D F (List (ReconciliationRequestItem D))
  rows_for ctx submission_id =
      if can_manage ctx
      then gets (λ s. sort_stable (λ a b. ltb a.id b.id) (list_by_submission submission_id s))
      else (do
        caller_email ← or_raise ctx.user_email unauthorized
        gets (list_by_submission_and_creator submission_id caller_email))

  -- `ListReconciliationItems`
  unfoldable pub list_reconciliation_items :
      Caller → ℕ → Tx D F (List (ReconciliationRequestItem D))
  list_reconciliation_items ctx submission_id = do
    found ← gets (submission_by_id submission_id)
    submission ← or_raise found (recon_parent_not_found submission_id)
    raise_if (not (submission_type_eq submission.submission_type reconcile))
        (recon_parent_not_initiated submission_id)
    has_snapshots ← gets (snapshots_exist submission_id)
    raise_if (not has_snapshots) (recon_parent_not_initiated submission_id)
    rows_for ctx submission_id
