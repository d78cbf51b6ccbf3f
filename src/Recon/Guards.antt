-- ===== src/Recon/Guards.antt =====
-- The guards of internal/services/inventory_reconcile_items.go, lines 25 to 98.
use cim_backend.Prelude.{ℕ, Bool, ◌&&◌, not, ◌==◌, str_eq, if◌then◌else◌}
use cim_backend.Errors.{
  reconcile_eq, open_status, closed, unauthorized, recon_parent_not_found,
  recon_parent_not_initiated, recon_parent_not_in_flight, recon_submission_closed,
  recon_item_not_found, recon_item_not_in_parent, recon_item_not_owned,
}
use cim_backend.Caller.{Caller, has_permission, resource_inventory_submissions, action_recon_manage}
use cim_backend.Models.Submission.{
  InventorySubmission, submission_type_eq, reconcile, is_active_reconcile,
}
use cim_backend.Models.Session.{ReconciliationRequestItem}
use cim_backend.Store.{Tx, ◌>>=◌, ◌>>◌, pure, raise, raise_if, gets, or_raise}
use cim_backend.Store.Submissions.{submission_by_id, snapshots_exist}
use cim_backend.Store.Sessions.{session_by_id}

abbrev pub can_manage : Caller → Bool
can_manage ctx = has_permission ctx resource_inventory_submissions action_recon_manage

module _ {D F : Type 0} where
  -- `loadActiveReconcileParent`
  unfoldable pub load_active_reconcile_parent : ℕ → Tx D F (InventorySubmission D)
  load_active_reconcile_parent id = do
    found ← gets (submission_by_id id)
    submission ← or_raise found (recon_parent_not_found id)
    raise_if (not (submission_type_eq submission.submission_type reconcile))
        (recon_parent_not_initiated id)
    has_snapshots ← gets (snapshots_exist id)
    raise_if (not has_snapshots) (recon_parent_not_initiated id)
    raise_if (not (is_active_reconcile submission))
        (recon_parent_not_in_flight id submission.reconcile_status)
    pure submission

  -- `guardParentEditable`
  unfoldable pub guard_parent_editable : Caller → InventorySubmission D → Tx D F (Unit {0})
  guard_parent_editable ctx parent =
      if reconcile_eq parent.reconcile_status open_status
      then pure tt
      else if can_manage ctx && reconcile_eq parent.reconcile_status closed
      then pure tt
      else raise (recon_submission_closed parent.id parent.reconcile_status)

  -- `loadItemInParent`
  unfoldable pub load_item_in_parent : ℕ → ℕ → Tx D F (ReconciliationRequestItem D)
  load_item_in_parent submission_id item_id = do
    found ← gets (session_by_id item_id)
    item ← or_raise found (recon_item_not_found item_id)
    raise_if (not (item.submission_id == submission_id))
        (recon_item_not_in_parent item_id submission_id)
    pure item

  -- `guardOwnership`
  unfoldable pub guard_ownership : Caller → ReconciliationRequestItem D → Tx D F (Unit {0})
  guard_ownership ctx item = if can_manage ctx then pure tt else (do
    email ← or_raise ctx.user_email unauthorized
    raise_if (not (str_eq item.created_by email)) recon_item_not_owned)
