-- ===== src/Legacy/Failed.antt =====
-- What `ProcessSubmission` leaves where it fails.
use cim_backend.Prelude.{
  ℕ, ◌≡◌, refl, ap, sym, subst, inl, inr, ◌⊎◌, some, Option-cases, List, [], ◌∷◌, err,
  Outcome-cases,
}
use cim_backend.Decimal.{Decimal}
use cim_backend.Errors.{AppError}
use cim_backend.Caller.{Caller}
use cim_backend.Models.Submission.{InventorySubmission, failed}
use cim_backend.Store.{Store}
use cim_backend.Store.Submissions.{
  submission_by_id, update_submission, fail_submission_processing_with_errors,
}
use cim_backend.Legacy.Approval.{
  ApprovalRequest, reject_tx, approve_tx, record_failure, reload, approve_submission,
  reject_submission, check_request, process_approval,
}
use cim_backend.Legacy.Steps.{reject_tx-ok, approve_tx-ok}
use cim_backend.Legacy.Requests.{check_request-ok}
use cim_backend.Legacy.Decided.{approved_row, rejected_row}

abbrev pub as_failed : {D : Type 0} → List AppError → InventorySubmission D → InventorySubmission D
as_failed errors r = record r { processing_status = failed; error = errors }

-- Nothing changed, or the row of the submission was marked failed with the errors of the operation.
abbrev pub OnlyAudited : {D F : Type 0} → ℕ → Store D F → Store D F → Type 0
OnlyAudited id s t =
    (t ≡ s) ⊎ ((errors : List AppError) × (t ≡ update_submission id (as_failed errors) s))

module _ {D F : Type 0} where
  record_failure-OnlyAudited :
      (ctx : Caller) (id : ℕ) (errors : List AppError) (s : Store D F)
      → OnlyAudited id s (record_failure ctx id errors s)
  unfolding record_failure fail_submission_processing_with_errors
  record_failure-OnlyAudited ctx id [] s = inl refl
  record_failure-OnlyAudited ctx id (e ∷ es) s = elim (Option-cases ctx.user_email) [
    | inl missing ↦ inl (rw missing refl)
    | inr (email, there) ↦ inr (e ∷ es, rw there refl)
  ]

  not_failed :
      (id : ℕ) (s t : Store D F) (r : InventorySubmission D) (e : AppError)
      → submission_by_id id s ≡ some r
      → ¬ (reload id s ≡ (err e, t))
  not_failed id s t r e found h = absurd (cc (rw (found, reload) at h))

  reject_submission-OnlyAudited :
      (ctx : Caller) (req : ApprovalRequest) (s t : Store D F) (e : AppError)
      → reject_submission ctx req s ≡ (err e, t)
      → OnlyAudited req.submission_id s t
  unfolding reject_submission
  reject_submission-OnlyAudited ctx req s t e h = elim (Outcome-cases (reject_tx ctx req s)) [
    | inr (x, bad) ↦ inl (ap (λ p. p.1) (sym (rw (bad, reject_submission) at h)))
    | inl ((_, v), done) ↦
        let (r, loaded, may_reject, stores) = reject_tx-ok ctx req s v done in
        let row = rejected_row req.submission_id req.reason s v r loaded.found stores in
        absurd (not_failed req.submission_id v t _ e row (rw (done, reject_submission) at h))
  ]

module _ {D F : Type 0} ⦃dec : Decimal D⦄ where
  approve_submission-OnlyAudited :
      (ctx : Caller) (req : ApprovalRequest) (s t : Store D F) (e : AppError)
      → approve_submission ctx req s ≡ (err e, t)
      → OnlyAudited req.submission_id s t
  unfolding approve_submission
  approve_submission-OnlyAudited ctx req s t e h = elim (Outcome-cases (approve_tx ctx req s)) [
    | inr (x, bad) ↦
        let left : record_failure ctx req.submission_id x.failed s ≡ t =
          ap (λ p. p.1) (rw (bad, approve_submission) at h) in
        subst (OnlyAudited req.submission_id s) left
          (record_failure-OnlyAudited ctx req.submission_id x.failed s)
    | inl (v, done) ↦
        let (r, a) = approve_tx-ok ctx req s v done in
        let row = approved_row req.submission_id req.reason s v r a in
        absurd (not_failed req.submission_id v t _ e row (rw (done, approve_submission) at h))
  ]

  -- When ProcessSubmission fails, every table is as before, except that the row of the submission
  -- may be marked failed with the errors of the operation that was rolled back.
  pub process_approval-OnlyAudited :
      (ctx : Caller) (req : ApprovalRequest) (s t : Store D F) (e : AppError)
      → process_approval ctx req s ≡ (err e, t)
      → OnlyAudited req.submission_id s t
  unfolding process_approval
  process_approval-OnlyAudited ctx req s t e h = elim (Outcome-cases (check_request ctx req s)) [
    | inr (x, bad) ↦ inl (ap (λ p. p.1) (sym (rw (bad, process_approval) at h)))
    | inl ((_, u), checked) ↦
        let h1 = rw (checked, process_approval) at h in
        let (may, action, fresh) = check_request-ok ctx req s u checked in
        elim action [
          | inl a ↦ approve_submission-OnlyAudited ctx req s t e (rw a at h1)
          | inr a ↦ reject_submission-OnlyAudited ctx req s t e (rw a at h1)
        ]
  ]
