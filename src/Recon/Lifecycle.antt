-- ===== src/Recon/Lifecycle.antt =====
-- The lifecycle of a reconciliation: `InitiateReconcile` of internal/services/inventory_service.go and
-- internal/services/inventory_reconcile_processing.go.
pub mod Loads
pub mod Statuses
mod Frame
pub mod Moves
pub mod Processing
use cim_backend.Prelude.{
  ℕ, String, Bool, true, false, ◌&&◌, ◌||◌, not, ◌==◌, Option, none, some, List, [], ◌∷◌, map, any,
  select, Outcome, ok, err, if◌then◌else◌,
}
use cim_backend.Decimal.{Decimal, Float64}
use cim_backend.Errors.{
  AppError, ReconcileStatus, unset, open_status, closed, processing, processed, reconcile_eq,
  forbidden, inventory_id_required, inventory_not_found, no_active_items_in_inventory,
  active_pending_reconcile_conflict, recon_invalid_lifecycle_transition, submission_not_found,
  recon_drift_rollback, approved, rejected,
}
use cim_backend.Errors
use cim_backend.Caller.{
  Caller, has_permission, resource_inventory_submissions, action_initiate_reconciliation,
}
use cim_backend.Models.Submission.{
  InventorySubmission, Payload, no_payload, request, reconcile, pending, completed, canceled,
}
use cim_backend.Models.Session.{ReconciliationRequestItem, is_ready}
use cim_backend.Store.{Store, Tx, ◌>>=◌, ◌>>◌, pure, raise, raise_if, gets, or_raise, lift}
use cim_backend.Store.Submissions.{
  submission_by_id, exists_active_pending, create_submission, update_reconcile_status,
  cancel_reconciliation_row, mark_processed, update_submission_payload,
  list_consuming_processed_since, snapshot_captured_at, prev_quantities,
  build_reconciliation_snapshots,
}
use cim_backend.Store.Sessions.{list_by_submission}
use cim_backend.Recon.Guards.{can_manage, load_active_reconcile_parent}
use cim_backend.Recon.Managers.{Enforce, manager_owned_sessions, owned}
use cim_backend.Recon.Synthesize.{SynthesizedReconcile, synthesize_reconcile}
use cim_backend.Recon.Apply.{apply_reconcile_snapshot_aware}

module _ {D : Type 0} where
  abbrev pub new_reconcile : ℕ → InventorySubmission D
  new_reconcile inventory_id = record {
    id = 0;
    inventory_id = inventory_id;
    created_at = 0;
    submission_type = reconcile;
    processing_status = pending;
    approval_status = Errors.ApprovalStatus.pending;
    payload = no_payload;
    reason = "";
    error = [];
    reconcile_status = open_status;
    processed_at = none;
  }

  -- `buildNotReadySessionWarnings`, by the ids of the sessions that it names
  unfoldable pub build_not_ready_session_warnings :
      List (ReconciliationRequestItem D) → List ℕ → List ℕ
  build_not_ready_session_warnings rows managers =
      map (λ (r : ReconciliationRequestItem D). r.id)
        (select (λ r. not (owned managers r.id) && not (is_ready r.status)) rows)

  abbrev pub or_created_at : Option ℕ → InventorySubmission D → ℕ
  or_created_at none parent = parent.created_at
  or_created_at (some t) parent = t

module _ {D F : Type 0} where
  -- `guardNoActivePending`
  unfoldable pub guard_no_active_pending : ℕ → Tx D F (Unit {0})
  guard_no_active_pending inventory_id = do
    exists ← gets (exists_active_pending inventory_id)
    raise_if exists (active_pending_reconcile_conflict inventory_id)

  -- The advisory lock serialises transactions, which is how `Tx` runs them.
  unfoldable pub initiate_tx : Caller → ℕ → Tx D F (InventorySubmission D)
  initiate_tx ctx inventory_id = do
    guard_no_active_pending inventory_id
    submission ← create_submission ctx (new_reconcile inventory_id)
    count ← build_reconciliation_snapshots ctx submission.id inventory_id
    raise_if (count == 0) (no_active_items_in_inventory inventory_id)
    pure submission

  -- `InitiateReconcile`
  unfoldable pub initiate_reconcile : Caller → ℕ → Tx D F (InventorySubmission D)
  initiate_reconcile ctx inventory_id = do
    raise_if
        (not (has_permission ctx resource_inventory_submissions action_initiate_reconciliation))
        forbidden
    raise_if (inventory_id == 0) inventory_id_required
    exists ← gets (λ s. any (λ i. i == inventory_id) s.inventories)
    raise_if (not exists) (inventory_not_found inventory_id)
    initiate_tx ctx inventory_id

  -- `transitionReconcileStatus`
  unfoldable pub transition_reconcile_status :
      Caller → ℕ → ReconcileStatus → ReconcileStatus → Tx D F (InventorySubmission D)
  transition_reconcile_status ctx id from to = do
    raise_if (not (can_manage ctx)) forbidden
    parent ← load_active_reconcile_parent id
    raise_if (not (reconcile_eq parent.reconcile_status from))
        (recon_invalid_lifecycle_transition id parent.reconcile_status to)
    update_reconcile_status ctx id to
    let moved : InventorySubmission D = record parent { reconcile_status = to }
    pure moved

  -- `ReopenReconciliation`
  unfoldable pub reopen_reconciliation : Caller → ℕ → Tx D F (InventorySubmission D)
  reopen_reconciliation ctx id = transition_reconcile_status ctx id closed open_status

  -- `CloseReconciliation`
  unfoldable pub close_reconciliation :
      Enforce → Caller → ℕ → Tx D F (InventorySubmission D × List ℕ)
  close_reconciliation enforce ctx id = do
    raise_if (not (can_manage ctx)) forbidden
    parent ← load_active_reconcile_parent id
    raise_if (not (reconcile_eq parent.reconcile_status open_status))
        (recon_invalid_lifecycle_transition id parent.reconcile_status closed)
    rows ← gets (list_by_submission id)
    update_reconcile_status ctx id closed
    found ← gets (λ s. manager_owned_sessions enforce s rows)
    managers ← lift found
    let result : InventorySubmission D × List ℕ = (
      record parent { reconcile_status = closed },
      build_not_ready_session_warnings rows managers,
    )
    pure result

  -- `CancelReconciliation`
  unfoldable pub cancel_reconciliation : Caller → ℕ → Tx D F (InventorySubmission D)
  cancel_reconciliation ctx id = do
    raise_if (not (can_manage ctx)) forbidden
    parent ← load_active_reconcile_parent id
    raise_if
        (not (reconcile_eq parent.reconcile_status open_status)
          && not (reconcile_eq parent.reconcile_status closed))
        (recon_invalid_lifecycle_transition id parent.reconcile_status
          Errors.ReconcileStatus.canceled)
    cancel_reconciliation_row ctx id
    let result : InventorySubmission D = record parent {
      reconcile_status = Errors.ReconcileStatus.canceled;
      processing_status = canceled;
      approval_status = rejected;
    }
    pure result

-- `dto.StartProcessingResult`
pub data StartResult (D : Type 0) : Type 0 where
  drift_detected : List ℕ → StartResult D
  applied : InventorySubmission D → StartResult D

module _ {D F : Type 0} ⦃dec : Decimal D⦄ where
  -- `SynthesizeSubmissionPayload` and `synthesizeFromRows`
  unfoldable pub synthesize_submission_payload : Enforce → ℕ → Tx D F (SynthesizedReconcile D)
  synthesize_submission_payload enforce id = do
    found ← gets (submission_by_id id)
    submission ← or_raise found (submission_not_found id)
    rows ← gets (list_by_submission id)
    baselines ← gets (prev_quantities id)
    managers ← gets (λ s. manager_owned_sessions enforce s rows)
    ids ← lift managers
    lift (synthesize_reconcile submission.inventory_id rows baselines (owned ids))

module _ {D F : Type 0} ⦃dec : Decimal D⦄ ⦃fl : Float64 F⦄ where
  -- The transaction of `StartProcessing`.
  unfoldable pub start_processing_tx : Enforce → Caller → ℕ → Tx D F (InventorySubmission D)
  start_processing_tx enforce ctx id = do
    parent ← load_active_reconcile_parent id
    raise_if (not (reconcile_eq parent.reconcile_status closed))
        (recon_invalid_lifecycle_transition id parent.reconcile_status processing)
    captured ← gets (snapshot_captured_at parent.id)
    drifted ← gets (
        list_consuming_processed_since parent.inventory_id parent.id
          (or_created_at captured parent))
    raise_if (any (λ r. true) drifted) (recon_drift_rollback (map (λ r. r.id) drifted))
    syn ← synthesize_submission_payload enforce id
    apply_reconcile_snapshot_aware ctx parent syn.request.items
    update_submission_payload ctx id (request syn.request)
    at ← mark_processed ctx id processed
    let result : InventorySubmission D = record parent {
      payload = request syn.request;
      approval_status = approved;
      processing_status = completed;
      reconcile_status = processed;
      processed_at = some at;
      error = [];
    }
    pure result

  -- `StartProcessing`: on drift the transaction is rolled back and the warnings are returned.
  unfoldable pub start_processing :
      Enforce → Caller → ℕ → Store D F → Outcome AppError (StartResult D) × Store D F
  start_processing enforce ctx id s =
      if not (can_manage ctx)
      then (err forbidden, s)
      else elim (start_processing_tx enforce ctx id s) [
        | ok (row, s') ↦ (ok (applied row), s')
        | err e ↦ elim e [
          | recon_drift_rollback warnings ↦ (ok (drift_detected warnings), s)
          | other ↦ (err other, s)
        ]
      ]
