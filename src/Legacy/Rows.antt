-- ===== src/Legacy/Rows.antt =====
-- The updates of a submission's row, and what they leave of every row.
use cim_backend.Prelude.{
  ℕ, ◌≡◌, ok-injective, ◌&&◌, refl, ap, sym, inl, inr, true, false, any, Bool-cases, some,
  Option-cases, [], ◌==◌, ==_refl, find, Outcome, ok, String, if◌then◌else◌,
}
use cim_backend.Errors.{
  AppError, ApprovalStatus, unmarshal_payload, unknown_submission_type, approval_eq, has_any_errors,
}
use cim_backend.Errors
use cim_backend.Caller.{Caller}
use cim_backend.Models.Submission.{InventorySubmission, ProcessingStatus, completed, processing_eq}
use cim_backend.Store.{Store}
use cim_backend.Store.Submissions.{
  submission_by_id, update_submission, update_approval_status, update_processing_status,
  set_processed_at,
}
use cim_backend.Recon.Lifecycle.Loads.{submission_by_id-update}

abbrev pub Update : Type 0 → Type 0
Update D = InventorySubmission D → InventorySubmission D

abbrev pub decided : {D : Type 0} → ApprovalStatus → String → Update D
decided status reason r =
    if approval_eq r.approval_status Errors.ApprovalStatus.pending
    then record r { approval_status = status; reason = reason }
    else r

abbrev pub with_processing : {D : Type 0} → ProcessingStatus → Update D
with_processing status r = record r {
  processing_status = status;
  error = if processing_eq status completed then [] else r.error;
}

abbrev pub stamped : {D : Type 0} → ℕ → Update D
stamped now r = record r { processing_status = completed; processed_at = some now }

module _ {D : Type 0} where
  pub decided-id :
      (status : ApprovalStatus) (reason : String) (x : InventorySubmission D)
      → (decided status reason x).id ≡ x.id
  decided-id status reason x =
      elim (Bool-cases (approval_eq x.approval_status Errors.ApprovalStatus.pending)) [
        | inl p ↦ rw p refl
        | inr p ↦ rw p refl
      ]

  pub decided-pending :
      (status : ApprovalStatus) (reason : String) (x : InventorySubmission D)
      → approval_eq x.approval_status Errors.ApprovalStatus.pending ≡ true
      → decided status reason x ≡ record x { approval_status = status; reason = reason }
  decided-pending status reason x p = rw p refl

module _ {D F : Type 0} where
  stored :
      {A : Type 0} {a b : A} {s t : Store D F}
      → ◌≡◌ {A = Outcome AppError (A × Store D F)} (ok (a, s)) (ok (b, t))
      → t ≡ s
  stored h = ap (λ p. p.1) (sym (ok-injective h))

  -- What a successful update has done.
  pub update_approval_status-ok :
      (ctx : Caller) (id : ℕ) (status : ApprovalStatus) (reason : String) (s t : Store D F)
      → update_approval_status ctx id status reason s ≡ ok (tt, t)
      → t ≡ update_submission id (decided status reason) s
  unfolding update_approval_status
  update_approval_status-ok ctx id status reason s t h = elim (Option-cases ctx.user_email) [
    | inl missing ↦ absurd (cc (rw missing at h))
    | inr (email, there) ↦
        let h1 = rw there at h in
        let pending_here =
          any (λ r. r.id == id && approval_eq r.approval_status Errors.ApprovalStatus.pending)
            s.submissions in
        elim (Bool-cases pending_here) [
          | inl hit ↦ stored (rw hit at h1)
          | inr miss ↦ absurd (cc (rw miss at h1))
        ]
  ]

  pub update_processing_status-ok :
      (ctx : Caller) (id : ℕ) (status : ProcessingStatus) (s t : Store D F)
      → update_processing_status ctx id status s ≡ ok (tt, t)
      → t ≡ update_submission id (with_processing status) s
  unfolding update_processing_status
  update_processing_status-ok ctx id status s t h = elim (Option-cases ctx.user_email) [
    | inl missing ↦ absurd (cc (rw missing at h))
    | inr (email, there) ↦ stored (rw there at h)
  ]

  pub set_processed_at-ok :
      (ctx : Caller) (id : ℕ) (s t : Store D F)
      → set_processed_at ctx id s ≡ ok (tt, t)
      → t ≡ update_submission id (stamped s.clock) s
  unfolding set_processed_at
  set_processed_at-ok ctx id s t h = elim (Option-cases ctx.user_email) [
    | inl missing ↦ absurd (cc (rw missing at h))
    | inr (email, there) ↦ stored (rw there at h)
  ]

  -- The row under the id, and every other row, after an update of the row under the id.
  pub updated-here :
      (id : ℕ) (f : Update D) (s u : Store D F) (r : InventorySubmission D)
      → ((x : InventorySubmission D) → (f x).id ≡ x.id)
      → u.submissions ≡ s.submissions
      → submission_by_id id s ≡ some r
      → submission_by_id id (update_submission id f u) ≡ some (f r)
  unfolding submission_by_id update_submission
  updated-here id f s u r keeps same found =
      rw (submission_by_id-update id id f u.submissions keeps, same, found, ==_refl id) refl

  pub updated-elsewhere :
      (id j : ℕ) (f : Update D) (s : Store D F)
      → ((x : InventorySubmission D) → (f x).id ≡ x.id)
      → (j == id) ≡ false
      → submission_by_id j (update_submission id f s) ≡ submission_by_id j s
  unfolding submission_by_id update_submission
  updated-elsewhere id j f s keeps apart =
      elim (Option-cases (find (λ x. x.id == j) s.submissions)) [
        | inl missing ↦ rw (submission_by_id-update id j f s.submissions keeps, missing) refl
        | inr (x, found) ↦
            rw (submission_by_id-update id j f s.submissions keeps, found, apart) refl
      ]
