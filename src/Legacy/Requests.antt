-- ===== src/Legacy/Requests.antt =====
-- What a decision of `ProcessSubmission` is, and what is checked before it.
use cim_backend.Prelude.{
  ℕ, ◌≡◌, ◌∙◌, refl, ap, sym, subst, inl, inr, ◌⊎◌, true, false, Bool-cases, some, ◌==◌, ok, err,
}
use cim_backend.Errors.{approved, rejected, approval_not_pending}
use cim_backend.Caller.{Caller}
use cim_backend.Models.Submission.{InventorySubmission, completed, canceled}
use cim_backend.Store.{Store, ◌>>=◌}
use cim_backend.Store.Submissions.{submission_by_id, update_submission}
use cim_backend.Legacy.Approval.{
  Action, approve, reject, other_action, ApprovalRequest, may_approve, is_pending, is_initiated,
  past_rejecting, check_request, guard_not_initiated_reconcile, reload,
}
use cim_backend.Legacy.Rows.{updated-here}
use cim_backend.Legacy.Steps.{load_pending_cases, load_pending-refused}

-- What a decision requires of the row, and what it makes of it.
pub data Verdict {D F : Type 0} (s : Store D F) (before row : InventorySubmission D)
    : Action → Type 0 where
  approval :
      is_initiated before s ≡ false
      → row.approval_status ≡ approved
      → row.processing_status ≡ completed
      → (now : ℕ) → row.processed_at ≡ some now
      → Verdict s before row approve
  rejection :
      past_rejecting before ≡ false
      → row.approval_status ≡ rejected
      → row.processing_status ≡ canceled
      → Verdict s before row reject

Action-cases : (a : Action) → (a ≡ approve) ⊎ (a ≡ reject) ⊎ (a ≡ other_action)
Action-cases approve = inl refl
Action-cases reject = inr (inl refl)
Action-cases other_action = inr (inr refl)

pub Verdict-not_pending :
    {D F : Type 0} (s : Store D F) (before row : InventorySubmission D) (a : Action)
    → Verdict s before row a
    → is_pending row ≡ false
Verdict-not_pending s before row a (approval fresh status processing now at) = rw status refl
Verdict-not_pending s before row a (rejection may status processing) = rw status refl

module _ {D F : Type 0} where
  -- A caller who may approve decided the pending submission, and no other submission changed.
  pub record Decided (ctx : Caller) (req : ApprovalRequest) (s t : Store D F)
      (row : InventorySubmission D) : Type 0 where
    pub may : may_approve ctx ≡ true
    pub before : InventorySubmission D
    pub found : submission_by_id req.submission_id s ≡ some before
    pub was_pending : is_pending before ≡ true
    pub verdict : Verdict s before row req.action
    pub after : submission_by_id req.submission_id t ≡ some row
    pub others :
        (j : ℕ) → (j == req.submission_id) ≡ false → submission_by_id j t ≡ submission_by_id j s

  -- Two updates of the row with the id, with an operation between them that writes no submission.
  pub twice :
      (id : ℕ) (f g : InventorySubmission D → InventorySubmission D) (s u : Store D F)
      (r : InventorySubmission D)
      → ((x : InventorySubmission D) → (f x).id ≡ x.id)
      → ((x : InventorySubmission D) → (g x).id ≡ x.id)
      → u.submissions ≡ (update_submission id f s).submissions
      → submission_by_id id s ≡ some r
      → submission_by_id id (update_submission id g u) ≡ some (g (f r))
  twice id f g s u r kf kg same found =
      updated-here id g (update_submission id f s) u (f r) kg same
        (updated-here id f s s r kf refl found)

  pub same_rows :
      (j : ℕ) (s u : Store D F)
      → u.submissions ≡ s.submissions
      → submission_by_id j u ≡ submission_by_id j s
  unfolding submission_by_id
  same_rows j s u same = rw same refl

  pub reloaded :
      (id : ℕ) (s t : Store D F) (r row : InventorySubmission D)
      → submission_by_id id s ≡ some r
      → reload id s ≡ (ok row, t)
      → (r ≡ row) × (s ≡ t)
  reloaded id s t r row found h = let h1 = rw (found, reload) at h in (cc, ap (λ p. p.1) h1)

  pub check_request-ok :
      (ctx : Caller) (req : ApprovalRequest) (s t : Store D F)
      → check_request ctx req s ≡ ok (tt, t)
      → (may_approve ctx ≡ true)
        × ((req.action ≡ approve) ⊎ (req.action ≡ reject))
        × ((r : InventorySubmission D)
            → submission_by_id req.submission_id s ≡ some r
            → req.action ≡ approve
            → is_initiated r s ≡ false)
  unfolding check_request guard_not_initiated_reconcile
  check_request-ok ctx req s t h = elim (Bool-cases (may_approve ctx)) [
    | inr denied ↦ absurd (cc (rw denied at h))
    | inl may ↦ elim (load_pending_cases req.submission_id s) [
      | inr (e, bad) ↦ absurd (cc (rw (may, bad, ◌>>=◌) at h))
      | inl (r, loaded, eq) ↦
          let h1 = rw (may, eq, ◌>>=◌) at h in
          elim (Action-cases req.action) [
            | inl action ↦
                let h2 = rw action at h1 in
                elim (Bool-cases (is_initiated r s)) [
                  | inl initiated ↦ absurd (cc (rw initiated at h2))
                  | inr fresh ↦ (
                    may,
                    inl action,
                    λ x found a.
                        let e : r ≡ x = cc (loaded.found) in
                        subst (λ y. is_initiated y s ≡ false) e fresh,
                  )
                ]
            | inr (inl action) ↦ (may, inr action, λ r' found a. absurd (cc (sym action ∙ a)))
            | inr (inr action) ↦ absurd (cc (rw action at h1))
          ]
    ]
  ]

  pub check_request-refused :
      (ctx : Caller) (req : ApprovalRequest) (s : Store D F) (row : InventorySubmission D)
      → may_approve ctx ≡ true
      → submission_by_id req.submission_id s ≡ some row
      → is_pending row ≡ false
      → check_request ctx req s ≡ err (approval_not_pending row.approval_status)
  unfolding check_request
  check_request-refused ctx req s row may there settled =
      rw (may, load_pending-refused req.submission_id s row there settled, ◌>>=◌) refl
