-- ===== src/Legacy/Approval.antt =====
-- `ProcessSubmission` of internal/services/inventory_service.go: a pending submission is approved,
-- which runs its operation, or rejected. The advisory lock orders transactions and writes nothing.
use cim_backend.Prelude.{
  ℕ, String, Bool, true, ◌&&◌, not, none, some, List, [], ◌∷◌, Outcome, ok, err,
}
use cim_backend.Decimal.{Decimal}
use cim_backend.Errors.{
  AppError, ApprovalStatus, ReconcileStatus, approval_eq, approved, rejected, reconcile_eq, unset,
  open_status, forbidden, submission_not_found, submission_started_by_initiate,
  approval_not_pending, invalid_action, recon_cannot_reject_in_lifecycle,
}
use cim_backend.Errors
use cim_backend.Caller.{Caller, has_permission, resource_inventory_submissions, action_approve}
use cim_backend.Models.Submission.{InventorySubmission, submission_type_eq, reconcile, canceled}
use cim_backend.Store.{Store, Tx, ◌>>=◌, ◌>>◌, pure, raise_if, gets, or_raise}
use cim_backend.Store.Submissions.{
  submission_by_id, snapshots_exist, update_approval_status, update_processing_status,
  set_processed_at, fail_submission_processing_with_errors,
}
use cim_backend.Legacy.{process_submission}

-- dto.SubmissionApprovalRequest; `other_action` is any other string.
pub data Action : Type 0 where
  approve reject other_action : Action

pub record ApprovalRequest : Type 0 where
  pub submission_id : ℕ
  pub action : Action
  pub reason : String

abbrev pub may_approve : Caller → Bool
may_approve ctx = has_permission ctx resource_inventory_submissions action_approve

abbrev pub is_pending : {D : Type 0} → InventorySubmission D → Bool
is_pending r = approval_eq r.approval_status Errors.ApprovalStatus.pending

-- The test before `ErrReconCannotRejectInLifecycle`.
abbrev pub past_rejecting : {D : Type 0} → InventorySubmission D → Bool
past_rejecting r =
    submission_type_eq r.submission_type reconcile
    && not (reconcile_eq r.reconcile_status unset)
    && not (reconcile_eq r.reconcile_status open_status)

module _ {D F : Type 0} where
  -- `guardNotInitiatedReconcile`
  abbrev pub is_initiated : InventorySubmission D → Store D F → Bool
  is_initiated r s = submission_type_eq r.submission_type reconcile && snapshots_exist r.id s

  unfoldable pub guard_not_initiated_reconcile : InventorySubmission D → Tx D F (Unit {0})
  guard_not_initiated_reconcile r = do
    initiated ← gets (is_initiated r)
    raise_if initiated (submission_started_by_initiate r.id)

  -- The row is read again under its lock, and must still be pending.
  unfoldable pub load_pending : ℕ → Tx D F (InventorySubmission D)
  load_pending id = do
    found ← gets (submission_by_id id)
    row ← or_raise found (submission_not_found id)
    raise_if (not (is_pending row)) (approval_not_pending row.approval_status)
    pure row

  -- The transaction of a rejection.
  unfoldable pub reject_tx : Caller → ApprovalRequest → Tx D F (Unit {0})
  reject_tx ctx req = do
    locked ← load_pending req.submission_id
    raise_if (past_rejecting locked)
        (recon_cannot_reject_in_lifecycle locked.id locked.reconcile_status)
    update_approval_status ctx req.submission_id rejected req.reason
    update_processing_status ctx req.submission_id canceled

  -- The transaction of an approval up to the operation.
  unfoldable pub start_approval : Caller → ApprovalRequest → Tx D F (InventorySubmission D)
  start_approval ctx req = do
    locked ← load_pending req.submission_id
    update_approval_status ctx req.submission_id approved req.reason
    pure locked

  -- `recordFailure`, after the rollback; an error of it is logged.
  unfoldable pub record_failure : Caller → ℕ → List AppError → Store D F → Store D F
  record_failure ctx id [] s = s
  record_failure ctx id (e ∷ es) s =
      elim (fail_submission_processing_with_errors ctx id (e ∷ es) s) [ ok (_, t) ↦ t | err _ ↦ s ]

  -- The row that is returned is read again.
  abbrev pub reload : ℕ → Store D F → Outcome AppError (InventorySubmission D) × Store D F
  reload id s = elim (submission_by_id id s) [
    | none ↦ (err (submission_not_found id), s)
    | some row ↦ (ok row, s)
  ]

  unfoldable pub reject_submission :
      Caller → ApprovalRequest → Store D F → Outcome AppError (InventorySubmission D) × Store D F
  reject_submission ctx req s = elim (reject_tx ctx req s) [
    | err e ↦ (err e, s)
    | ok (_, t) ↦ reload req.submission_id t
  ]

  -- What is read before the transaction.
  unfoldable pub check_request : Caller → ApprovalRequest → Tx D F (Unit {0})
  check_request ctx req = do
    raise_if (not (may_approve ctx)) forbidden
    row ← load_pending req.submission_id
    elim req.action [
      | approve ↦ guard_not_initiated_reconcile row
      | reject ↦ pure tt
      | other_action ↦ raise_if true invalid_action
    ]

-- Why an approval was rolled back: the error, and the errors of the processing state where the
-- operation failed.
pub record Rollback : Type 0 where
  pub cause : AppError
  pub failed : List AppError

module _ {D F : Type 0} ⦃dec : Decimal D⦄ where
  -- The transaction of an approval.
  unfoldable pub approve_tx : Caller → ApprovalRequest → Store D F → Outcome Rollback (Store D F)
  approve_tx ctx req s = elim (start_approval ctx req s) [
    | err e ↦ err (record { cause = e; failed = [] })
    | ok (locked, s1) ↦
        let processed = process_submission ctx locked s1 in
        elim processed.0 [
          | e ∷ es ↦ err (record { cause = e; failed = e ∷ es })
          | [] ↦ elim (set_processed_at ctx req.submission_id processed.1) [
            | err e ↦ err (record { cause = e; failed = [] })
            | ok (_, t) ↦ ok t
          ]
        ]
  ]

  unfoldable pub approve_submission :
      Caller → ApprovalRequest → Store D F → Outcome AppError (InventorySubmission D) × Store D F
  approve_submission ctx req s = elim (approve_tx ctx req s) [
    | err r ↦ (err r.cause, record_failure ctx req.submission_id r.failed s)
    | ok t ↦ reload req.submission_id t
  ]

  -- `ProcessSubmission`
  unfoldable pub process_approval :
      Caller → ApprovalRequest → Store D F → Outcome AppError (InventorySubmission D) × Store D F
  process_approval ctx req s = elim (check_request ctx req s) [
    | err e ↦ (err e, s)
    | ok _ ↦ elim req.action [
      | approve ↦ approve_submission ctx req s
      | _ ↦ reject_submission ctx req s
    ]
  ]
