-- ===== src/Store/Submissions.antt =====
-- internal/repository/inventory_submission_repository.go and reconciliation_snapshot_repository.go.
pub mod Pending
use cim_backend.Prelude.{
  ℕ, ◌+◌, String, Bool, false, ◌&&◌, ◌||◌, not, ◌==◌, leb, Option, none, some, List, [], ◌∷◌, ◌++◌,
  map, any, find, select, length, Map, put, min, if◌then◌else◌,
}
use cim_backend.Errors.{
  AppError, ReconcileStatus, ApprovalStatus, approved, approval_eq, rejected,
  active_pending_reconcile_conflict, approval_no_longer_pending, unset, reconcile_eq,
}
use cim_backend.Errors
use cim_backend.Caller.{Caller}
use cim_backend.Models.Submission.{
  InventorySubmission, Payload, ProcessingStatus, processing_eq, submission_type_eq, pending,
  failed, completed, canceled, reconcile, dispose, transfer,
}
use cim_backend.Models.Session.{ReconciliationSnapshot}
use cim_backend.Models.Item.{InventoryItem, is_active}
use cim_backend.Store.Tables.{
  Store, Tx, ◌>>=◌, ◌>>◌, pure, raise_if, gets, modify, with_update_fields,
}

abbrev pub processed_since : ℕ → Option ℕ → Bool
processed_since since none = false
processed_since since (some at) = leb since at

module _ {D : Type 0} where
  -- A row that the index uq_inventory_submissions_one_active_pending covers.
  abbrev pub is_pending_reconcile : ℕ → InventorySubmission D → Bool
  is_pending_reconcile inventory_id r =
      r.inventory_id == inventory_id
      && processing_eq r.processing_status pending
      && submission_type_eq r.submission_type reconcile

  abbrev pub is_consuming : InventorySubmission D → Bool
  is_consuming r =
      submission_type_eq r.submission_type dispose
      || submission_type_eq r.submission_type transfer
      || submission_type_eq r.submission_type reconcile

  abbrev min_instant : List (ReconciliationSnapshot D) → Option ℕ
  min_instant [] = none
  min_instant (r ∷ rs) = elim (min_instant rs) [
    | none ↦ some r.created_at
    | some t ↦ some (min r.created_at t)
  ]

  abbrev put_baselines : Map D → List (ReconciliationSnapshot D) → Map D
  put_baselines out [] = out
  put_baselines out (r ∷ rs) = put_baselines (put r.inventory_item_id r.prev_quantity out) rs

module _ {D F : Type 0} where
  -- `GetByID`, `GetByIDForUpdate`: row locks serialise transactions, which is how `Tx` runs them.
  unfoldable pub submission_by_id : ℕ → Store D F → Option (InventorySubmission D)
  submission_by_id id s = find (λ r. r.id == id) s.submissions

  -- An `UPDATE … WHERE id = ?`.
  unfoldable pub update_submission :
      ℕ → (InventorySubmission D → InventorySubmission D) → Store D F → Store D F
  update_submission id f s = record s {
    submissions = map (λ r. if r.id == id then f r else r) s.submissions;
  }

  unfoldable pub exists_active_pending : ℕ → Store D F → Bool
  exists_active_pending inventory_id s = any (is_pending_reconcile inventory_id) s.submissions

  -- `Create`: the new row's id. The unique index refuses a second pending reconcile.
  unfoldable pub create_submission : Caller → InventorySubmission D → Tx D F (InventorySubmission D)
  create_submission ctx r = do
    with_update_fields ctx
    taken ← gets (exists_active_pending r.inventory_id)
    raise_if (is_pending_reconcile r.inventory_id r && taken)
        (active_pending_reconcile_conflict r.inventory_id)
    id ← gets (λ s. s.next_submission_id)
    now ← gets (λ s. s.clock)
    let row : InventorySubmission D = record r { id = id; created_at = now }
    modify (λ s. record s {
      submissions = s.submissions ++ row ∷ [];
      next_submission_id = s.next_submission_id + 1;
    })
    pure row

  unfoldable pub update_approval_status : Caller → ℕ → ApprovalStatus → String → Tx D F (Unit {0})
  update_approval_status ctx id status reason = do
    with_update_fields ctx
    hit ← gets (λ s.
        any (λ r. r.id == id && approval_eq r.approval_status Errors.ApprovalStatus.pending)
          s.submissions)
    raise_if (not hit) approval_no_longer_pending
    modify (
        update_submission id (λ r.
          if approval_eq r.approval_status Errors.ApprovalStatus.pending
          then record r { approval_status = status; reason = reason }
          else r))

  unfoldable pub update_processing_status : Caller → ℕ → ProcessingStatus → Tx D F (Unit {0})
  update_processing_status ctx id status = do
    with_update_fields ctx
    modify (
        update_submission id (λ r. record r {
          processing_status = status;
          error = if processing_eq status completed then [] else r.error;
        }))

  unfoldable pub fail_submission_processing_with_errors :
      Caller → ℕ → List AppError → Tx D F (Unit {0})
  fail_submission_processing_with_errors ctx id errors = do
    with_update_fields ctx
    modify (update_submission id (λ r. record r { processing_status = failed; error = errors }))

  unfoldable pub update_reconcile_status : Caller → ℕ → ReconcileStatus → Tx D F (Unit {0})
  update_reconcile_status ctx id status = do
    with_update_fields ctx
    modify (update_submission id (λ r. record r { reconcile_status = status }))

  unfoldable pub cancel_reconciliation_row : Caller → ℕ → Tx D F (Unit {0})
  cancel_reconciliation_row ctx id = do
    with_update_fields ctx
    modify (
        update_submission id (λ r. record r {
          reconcile_status = Errors.ReconcileStatus.canceled;
          processing_status = canceled;
          approval_status = rejected;
        }))

  -- `MarkProcessed` returns the instant that the database stamped.
  unfoldable pub mark_processed : Caller → ℕ → ReconcileStatus → Tx D F ℕ
  mark_processed ctx id status = do
    with_update_fields ctx
    now ← gets (λ s. s.clock)
    modify (
        update_submission id (λ r. record r {
          processing_status = completed;
          approval_status = approved;
          processed_at = some now;
          error = [];
          reconcile_status = if reconcile_eq status unset then r.reconcile_status else status;
        }))
    pure now

  unfoldable pub set_processed_at : Caller → ℕ → Tx D F (Unit {0})
  set_processed_at ctx id = do
    with_update_fields ctx
    now ← gets (λ s. s.clock)
    modify (
        update_submission id
          (λ r. record r { processing_status = completed; processed_at = some now }))

  unfoldable pub update_submission_payload : Caller → ℕ → Payload D → Tx D F (Unit {0})
  update_submission_payload ctx id payload = do
    with_update_fields ctx
    modify (update_submission id (λ r. record r { payload = payload }))

  -- `ListConsumingProcessedSince`
  unfoldable pub list_consuming_processed_since :
      ℕ → ℕ → ℕ → Store D F → List (InventorySubmission D)
  list_consuming_processed_since inventory_id exclude since s =
      select
        (λ r.
          r.inventory_id == inventory_id
          && not (r.id == exclude)
          && is_consuming r
          && approval_eq r.approval_status approved
          && processing_eq r.processing_status completed
          && processed_since since r.processed_at)
        s.submissions

  abbrev pub snapshots_of : ℕ → Store D F → List (ReconciliationSnapshot D)
  snapshots_of id s = select (λ r. r.submission_id == id) s.snapshots

  -- `ExistsForSubmission`
  unfoldable pub snapshots_exist : ℕ → Store D F → Bool
  snapshots_exist id s = any (λ r. r.submission_id == id) s.snapshots

  -- `GetSnapshotCapturedAt`
  unfoldable pub snapshot_captured_at : ℕ → Store D F → Option ℕ
  snapshot_captured_at id s = min_instant (snapshots_of id s)

  -- `GetPrevQuantitiesBySubmission`
  unfoldable pub prev_quantities : ℕ → Store D F → Map D
  prev_quantities id s = put_baselines [] (snapshots_of id s)

  -- `BuildReconciliationSnapshots`: one row for each active item, and their number.
  unfoldable pub build_reconciliation_snapshots : Caller → ℕ → ℕ → Tx D F ℕ
  build_reconciliation_snapshots ctx submission_id inventory_id = do
    with_update_fields ctx
    now ← gets (λ s. s.clock)
    rows ← gets (λ s. select (λ i. i.inventory_id == inventory_id && is_active i.status) s.items)
    let snapshot = λ (i : InventoryItem D F).
        let r : ReconciliationSnapshot D = record {
          submission_id = submission_id;
          inventory_item_id = i.id;
          prev_quantity = i.quantity;
          created_at = now;
        } in
        r
    modify (λ s. record s { snapshots = s.snapshots ++ map snapshot rows })
    pure (length rows)
