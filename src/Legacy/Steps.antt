-- ===== src/Legacy/Steps.antt =====
-- The steps of `ProcessSubmission` that succeed, and the stores that they leave.
use cim_backend.Prelude.{
  ℕ, ◌≡◌, ◌∙◌, refl, ap, sym, subst, ok-injective, inl, inr, ◌⊎◌, true, false, Bool-cases, some,
  Option-cases, List, [], ◌∷◌, list_cases, ◌==◌, ==_iff, find-holds, ok, err, Outcome-cases, String,
}
use cim_backend.Decimal.{Decimal}
use cim_backend.Errors.{AppError, approved, rejected, submission_not_found, approval_not_pending}
use cim_backend.Caller.{Caller}
use cim_backend.Models.Submission.{InventorySubmission, completed, canceled}
use cim_backend.Store.{Store, ◌>>=◌}
use cim_backend.Store.Submissions.{
  submission_by_id, update_submission, update_approval_status, update_processing_status,
  set_processed_at,
}
use cim_backend.Legacy.{run_operation, end_processing, process_submission}
use cim_backend.Legacy.Approval.{
  ApprovalRequest, is_pending, past_rejecting, load_pending, reject_tx, start_approval, approve_tx,
}
use cim_backend.Legacy.Rows.{
  decided, with_processing, stamped, update_approval_status-ok, update_processing_status-ok,
  set_processed_at-ok,
}
use cim_backend.Legacy.Frame.{run_operation-submissions}

module _ {D F : Type 0} where
  -- The row that is read under its lock.
  pub record Pending (id : ℕ) (s : Store D F) (r : InventorySubmission D) : Type 0 where
    pub found : submission_by_id id s ≡ some r
    pub pending : is_pending r ≡ true

  pub load_pending_cases :
      (id : ℕ) (s : Store D F)
      → ((r : InventorySubmission D) × Pending id s r × (load_pending id s ≡ ok (r, s)))
        ⊎ ((e : AppError) × (load_pending id s ≡ err e))
  unfolding load_pending
  load_pending_cases id s = elim (Option-cases (submission_by_id id s)) [
    | inl missing ↦ inr (submission_not_found id, rw missing refl)
    | inr (r, found) ↦ elim (Bool-cases (is_pending r)) [
      | inr wrong ↦ inr (approval_not_pending r.approval_status, rw (found, wrong) refl)
      | inl right ↦ inl (r, record { found = found; pending = right }, rw (found, right) refl)
    ]
  ]

  pub load_pending-refused :
      (id : ℕ) (s : Store D F) (r : InventorySubmission D)
      → submission_by_id id s ≡ some r
      → is_pending r ≡ false
      → load_pending id s ≡ err (approval_not_pending r.approval_status)
  unfolding load_pending
  load_pending-refused id s r found settled = rw (found, settled) refl

  -- The store of a rejection.
  pub reject_tx-ok :
      (ctx : Caller) (req : ApprovalRequest) (s t : Store D F)
      → reject_tx ctx req s ≡ ok (tt, t)
      → (r : InventorySubmission D) × Pending req.submission_id s r
        × (past_rejecting r ≡ false)
        × (t
            ≡ update_submission req.submission_id
                (with_processing canceled)
                (update_submission req.submission_id (decided rejected req.reason) s))
  unfolding reject_tx
  reject_tx-ok ctx req s t h = elim (load_pending_cases req.submission_id s) [
    | inr (e, bad) ↦ absurd (cc (rw (bad, ◌>>=◌) at h))
    | inl (r, loaded, eq) ↦
        let h1 = rw (eq, ◌>>=◌) at h in
        elim (Bool-cases (past_rejecting r)) [
          | inl past ↦ absurd (cc (rw past at h1))
          | inr may_reject ↦
              let h2 = rw may_reject at h1 in
              elim (Outcome-cases
                (update_approval_status ctx req.submission_id rejected req.reason s)) [
                  | inr (e, bad) ↦ absurd (cc (rw (bad, ◌>>=◌) at h2))
                  | inl ((_, u), step) ↦
                      let h3 = rw (step, ◌>>=◌) at h2 in
                      let first =
                        update_approval_status-ok ctx req.submission_id rejected req.reason s u
                          step in
                      let second =
                        update_processing_status-ok ctx req.submission_id canceled u t h3 in
                      (
                        r,
                        loaded,
                        may_reject,
                        second
                            ∙ ap (update_submission req.submission_id (with_processing canceled))
                                first,
                      )
                ]
        ]
  ]

  start_approval-ok :
      (ctx : Caller) (req : ApprovalRequest) (s t : Store D F) (r : InventorySubmission D)
      → start_approval ctx req s ≡ ok (r, t)
      → Pending req.submission_id s r
        × (t ≡ update_submission req.submission_id (decided approved req.reason) s)
  unfolding start_approval
  start_approval-ok ctx req s t r h = elim (load_pending_cases req.submission_id s) [
    | inr (e, bad) ↦ absurd (cc (rw (bad, ◌>>=◌) at h))
    | inl (x, loaded, eq) ↦
        let h1 = rw (eq, ◌>>=◌) at h in
        elim (Outcome-cases (update_approval_status ctx req.submission_id approved req.reason s)) [
          | inr (e, bad) ↦ absurd (cc (rw (bad, ◌>>=◌) at h1))
          | inl ((_, u), step) ↦
              let h2 = ok-injective (rw (step, ◌>>=◌) at h1) in
              (
                subst (Pending req.submission_id s) (ap (λ p. p.0) h2) loaded,
                sym (ap (λ p. p.1) h2)
                    ∙ update_approval_status-ok ctx req.submission_id approved req.reason s u step,
              )
        ]
  ]

  set_processed_at-email :
      (ctx : Caller) (id : ℕ) (s t : Store D F)
      → set_processed_at ctx id s ≡ ok (tt, t)
      → (email : String) × (ctx.user_email ≡ some email)
  unfolding set_processed_at
  set_processed_at-email ctx id s t h = elim (Option-cases ctx.user_email) [
    | inl missing ↦ absurd (cc (rw missing at h))
    | inr there ↦ there
  ]

  pub submission_by_id-id :
      (id : ℕ) (s : Store D F) (r : InventorySubmission D)
      → submission_by_id id s ≡ some r
      → r.id ≡ id
  unfolding submission_by_id
  submission_by_id-id id s r h = (==_iff r.id id).0 (find-holds (λ x. x.id == id) s.submissions r h)

  end_processing-ok :
      (ctx : Caller) (id : ℕ) (o : List AppError × Store D F) (email : String)
      → ctx.user_email ≡ some email
      → (end_processing ctx id o).0 ≡ []
      → (end_processing ctx id o).1 ≡ update_submission id (with_processing completed) o.1
  unfolding end_processing update_processing_status
  end_processing-ok ctx id (e ∷ es, s) email there h = absurd (cc)
  end_processing-ok ctx id ([], s) email there h = rw there refl

module _ {D F : Type 0} ⦃dec : Decimal D⦄ where
  -- The stores of an approval: the operation leaves the submissions of `u`.
  pub record Applied (id : ℕ) (reason : String) (s t : Store D F) (r : InventorySubmission D)
      : Type 0 where
    pub loaded : Pending id s r
    pub u : Store D F
    pub same : u.submissions ≡ (update_submission id (decided approved reason) s).submissions
    pub done : Store D F
    pub completing : done ≡ update_submission id (with_processing completed) u
    pub stamping : t ≡ update_submission id (stamped done.clock) done

  process_submission-ok :
      (ctx : Caller) (r : InventorySubmission D) (s : Store D F) (email : String)
      → ctx.user_email ≡ some email
      → (process_submission ctx r s).0 ≡ []
      → (u : Store D F) × (u.submissions ≡ s.submissions)
        × ((process_submission ctx r s).1 ≡ update_submission r.id (with_processing completed) u)
  unfolding process_submission
  process_submission-ok ctx r s email there h =
      let o = run_operation ctx r s in
      (o.1, run_operation-submissions ctx r s, end_processing-ok ctx r.id o email there h)

  pub approve_tx-ok :
      (ctx : Caller) (req : ApprovalRequest) (s t : Store D F)
      → approve_tx ctx req s ≡ ok t
      → (r : InventorySubmission D) × Applied req.submission_id req.reason s t r
  unfolding approve_tx
  approve_tx-ok ctx req s t h = elim (Outcome-cases (start_approval ctx req s)) [
    | inr (e, bad) ↦ absurd (cc (rw (bad, approve_tx) at h))
    | inl ((r, s1), begun) ↦
        let h1 = rw (begun, approve_tx) at h in
        let (loaded, first) = start_approval-ok ctx req s s1 r begun in
        let p = process_submission ctx r s1 in
        elim (list_cases p.0) [
          | inr (e, es, failed) ↦ absurd (cc (rw failed at h1))
          | inl fine ↦
              let h2 = rw fine at h1 in
              elim (Outcome-cases (set_processed_at ctx req.submission_id p.1)) [
                | inr (e, bad) ↦ absurd (cc (rw bad at h2))
                | inl ((_, v), step) ↦
                    let h3 : v ≡ t = ok-injective (rw step at h2) in
                    let (email, there) = set_processed_at-email ctx req.submission_id p.1 v step in
                    let (u, same, completing) = process_submission-ok ctx r s1 email there fine in
                    let at = submission_by_id-id req.submission_id s r loaded.found in
                    (
                      r,
                      record {
                        loaded = loaded;
                        u = u;
                        same = same ∙ ap (λ (x : Store D F). x.submissions) first;
                        done = p.1;
                        completing =
                            completing
                            ∙ ap (λ i. update_submission i (with_processing completed) u) at;
                        stamping = sym h3 ∙ set_processed_at-ok ctx req.submission_id p.1 v step;
                      },
                    )
              ]
        ]
  ]
