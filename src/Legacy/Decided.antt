-- ===== src/Legacy/Decided.antt =====
-- What `ProcessSubmission` leaves of the submissions when it decides one.
use cim_backend.Prelude.{
  String, ℕ, ◌≡◌, ◌∙◌, refl, ap, sym, subst, inl, inr, true, false, some, ok, Outcome-cases,
}
use cim_backend.Decimal.{Decimal}
use cim_backend.Errors.{approved, rejected}
use cim_backend.Caller.{Caller}
use cim_backend.Models.Submission.{InventorySubmission, completed, canceled}
use cim_backend.Store.{Store}
use cim_backend.Store.Submissions.{submission_by_id, update_submission}
use cim_backend.Legacy.Approval.{
  approve, reject, ApprovalRequest, may_approve, is_initiated, reject_tx, approve_tx,
  approve_submission, reject_submission, check_request, process_approval,
}
use cim_backend.Legacy.Rows.{
  decided, decided-id, decided-pending, with_processing, stamped, updated-here, updated-elsewhere,
}
use cim_backend.Legacy.Requests.{
  Verdict, approval, rejection, Decided, twice, same_rows, reloaded, check_request-ok,
}
use cim_backend.Legacy.Steps.{Applied, reject_tx-ok, approve_tx-ok}

module _ {D F : Type 0} where
  pub rejected_row :
      (id : ℕ) (reason : String) (s t : Store D F) (r : InventorySubmission D)
      → submission_by_id id s ≡ some r
      → t
        ≡ update_submission id
            (with_processing canceled)
            (update_submission id (decided rejected reason) s)
      → submission_by_id id t ≡ some (with_processing canceled (decided rejected reason r))
  rejected_row id reason s t r found stores =
      let f = decided rejected reason in
      ap (submission_by_id id) stores
      ∙ twice id f (with_processing canceled) s (update_submission id f s) r
          (decided-id rejected reason) (λ x. refl) refl found

module _ {D F : Type 0} ⦃dec : Decimal D⦄ where
  pub approved_row :
      (id : ℕ) (reason : String) (s t : Store D F) (r : InventorySubmission D)
      (a : Applied id reason s t r)
      → submission_by_id id t
        ≡ some (stamped a.done.clock (with_processing completed (decided approved reason r)))
  approved_row id reason s t r a =
      let g = with_processing completed in
      let row = g (decided approved reason r) in
      let completed_row : submission_by_id id a.done ≡ some row =
        ap (submission_by_id id) a.completing
        ∙ twice id (decided approved reason) g s a.u r (decided-id approved reason) (λ x. refl)
            a.same a.loaded.found in
      ap (submission_by_id id) a.stamping
      ∙ updated-here id (stamped a.done.clock) a.done a.done row (λ x. refl) refl completed_row

  approve_submission-Decided :
      (ctx : Caller) (req : ApprovalRequest) (s t : Store D F) (row : InventorySubmission D)
      → may_approve ctx ≡ true
      → req.action ≡ approve
      → ((r : InventorySubmission D)
          → submission_by_id req.submission_id s ≡ some r
          → is_initiated r s ≡ false)
      → approve_submission ctx req s ≡ (ok row, t)
      → Decided ctx req s t row
  unfolding approve_submission
  approve_submission-Decided ctx req s t row may action fresh h =
      elim (Outcome-cases (approve_tx ctx req s)) [
        | inr (r, bad) ↦ absurd (cc (rw (bad, approve_submission) at h))
        | inl (v, done) ↦
            let h1 = rw (done, approve_submission) at h in
            let (r, a) = approve_tx-ok ctx req s v done in
            let id = req.submission_id in
            let f = decided approved req.reason in
            let g = with_processing completed in
            let stored = approved_row id req.reason s v r a in
            let (same_row, same_store) = reloaded id v t _ row stored h1 in
            let status : (f r).approval_status ≡ approved =
              ap (λ (x : InventorySubmission D). x.approval_status)
                (decided-pending approved req.reason r a.loaded.pending) in
            record {
              may = may;
              before = r;
              found = a.loaded.found;
              was_pending = a.loaded.pending;
              verdict = subst (Verdict s r row) (sym action) (
                  approval (fresh r a.loaded.found)
                    (ap (λ (x : InventorySubmission D). x.approval_status) (sym same_row) ∙ status)
                    (ap (λ (x : InventorySubmission D). x.processing_status) (sym same_row))
                    a.done.clock
                    (ap (λ (x : InventorySubmission D). x.processed_at) (sym same_row)));
              after = ap (submission_by_id id) (sym same_store) ∙ stored ∙ ap some same_row;
              others = λ j apart.
                  ap (submission_by_id j) (sym same_store)
                  ∙ ap (submission_by_id j) a.stamping
                  ∙ updated-elsewhere id j (stamped a.done.clock) a.done (λ x. refl) apart
                  ∙ ap (submission_by_id j) a.completing
                  ∙ updated-elsewhere id j g a.u (λ x. refl) apart
                  ∙ same_rows j (update_submission id f s) a.u a.same
                  ∙ updated-elsewhere id j f s (decided-id approved req.reason) apart;
            }
      ]

  reject_submission-Decided :
      (ctx : Caller) (req : ApprovalRequest) (s t : Store D F) (row : InventorySubmission D)
      → may_approve ctx ≡ true
      → req.action ≡ reject
      → reject_submission ctx req s ≡ (ok row, t)
      → Decided ctx req s t row
  unfolding reject_submission
  reject_submission-Decided ctx req s t row may action h =
      elim (Outcome-cases (reject_tx ctx req s)) [
        | inr (r, bad) ↦ absurd (cc (rw (bad, reject_submission) at h))
        | inl ((_, v), done) ↦
            let h1 = rw (done, reject_submission) at h in
            let (r, loaded, may_reject, stores) = reject_tx-ok ctx req s v done in
            let id = req.submission_id in
            let f = decided rejected req.reason in
            let g = with_processing canceled in
            let stored = rejected_row id req.reason s v r loaded.found stores in
            let (same_row, same_store) = reloaded id v t _ row stored h1 in
            let status : (f r).approval_status ≡ rejected =
              ap (λ (x : InventorySubmission D). x.approval_status)
                (decided-pending rejected req.reason r loaded.pending) in
            record {
              may = may;
              before = r;
              found = loaded.found;
              was_pending = loaded.pending;
              verdict = subst (Verdict s r row) (sym action) (
                  rejection may_reject
                    (ap (λ (x : InventorySubmission D). x.approval_status) (sym same_row) ∙ status)
                    (ap (λ (x : InventorySubmission D). x.processing_status) (sym same_row)));
              after = ap (submission_by_id id) (sym same_store) ∙ stored ∙ ap some same_row;
              others = λ j apart.
                  ap (submission_by_id j) (sym same_store)
                  ∙ ap (submission_by_id j) stores
                  ∙ updated-elsewhere id j g (update_submission id f s) (λ x. refl) apart
                  ∙ updated-elsewhere id j f s (decided-id rejected req.reason) apart;
            }
      ]

  -- When ProcessSubmission succeeds, the caller may approve and the submission was pending. On an
  -- approval it was no initiated reconciliation, and its row is then approved, completed and stamped
  -- with the time; on a rejection it was no reconciliation past its open phase, and its row is then
  -- rejected and canceled. The row that is returned is the row then stored under the id, and every
  -- other submission is as before.
  pub process_approval-Decided :
      (ctx : Caller) (req : ApprovalRequest) (s t : Store D F) (row : InventorySubmission D)
      → process_approval ctx req s ≡ (ok row, t)
      → Decided ctx req s t row
  unfolding process_approval
  process_approval-Decided ctx req s t row h = elim (Outcome-cases (check_request ctx req s)) [
    | inr (e, bad) ↦ absurd (cc (rw (bad, process_approval) at h))
    | inl ((_, u), checked) ↦
        let h1 = rw (checked, process_approval) at h in
        let (may, action, fresh) = check_request-ok ctx req s u checked in
        elim action [
          | inl a ↦
              approve_submission-Decided ctx req s t row may a (λ r found. fresh r found a)
                (rw a at h1)
          | inr a ↦ reject_submission-Decided ctx req s t row may a (rw a at h1)
        ]
  ]
