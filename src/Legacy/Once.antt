-- ===== src/Legacy/Once.antt =====
-- A submission that `ProcessSubmission` has decided stays decided, whatever decisions and edits are
-- tried afterwards.
use cim_backend.Prelude.{
  ℕ, ◌≡◌, ◌∙◌, refl, ap, sym, subst, inl, inr, true, false, Bool-cases, ◌==◌, ==_iff, some, List,
  Outcome, ok, err, Outcome-cases,
}
use cim_backend.Decimal.{Decimal}
use cim_backend.Errors.{AppError, ApprovalStatus, approval_not_pending}
use cim_backend.Caller.{Caller}
use cim_backend.Models.Submission.{InventorySubmission, QuantityItem}
use cim_backend.Store.{Store}
use cim_backend.Store.Submissions.{submission_by_id, update_submission}
use cim_backend.Legacy.Approval.{ApprovalRequest, is_pending, may_approve, process_approval}
use cim_backend.Legacy.Rows.{Update, updated-here, updated-elsewhere}
use cim_backend.Legacy.Requests.{Verdict-not_pending, check_request-refused}
use cim_backend.Legacy.Decided.{process_approval-Decided}
use cim_backend.Legacy.Failed.{OnlyAudited, as_failed, process_approval-OnlyAudited}
use cim_backend.Legacy.Editing.{Structs, update_submission_items}
use cim_backend.Legacy.Editing.Checks.{with_payload}
use cim_backend.Legacy.Editing.Edited.{
  Updated, refused, answered, unanswered, update_submission_items-Updated,
}

module _ {D F : Type 0} where
  -- The submission with the id has the approval status, which is not pending.
  record Settled (id : ℕ) (status : ApprovalStatus) (s : Store D F) : Type 0 where
    row : InventorySubmission D
    there : submission_by_id id s ≡ some row
    has_status : row.approval_status ≡ status
    settled : is_pending row ≡ false

  -- An update of another submission, or one that leaves what was decided.
  kept-Settled :
      (id j : ℕ) (status : ApprovalStatus) (f : Update D) (s : Store D F)
      → ((x : InventorySubmission D) → (f x).id ≡ x.id)
      → ((x : InventorySubmission D) → (f x).approval_status ≡ x.approval_status)
      → ((x : InventorySubmission D) → is_pending (f x) ≡ is_pending x)
      → Settled id status s
      → Settled id status (update_submission j f s)
  kept-Settled id j status f s keeps same pending h = elim (Bool-cases (id == j)) [
    | inl here ↦
        let e : id ≡ j = (==_iff id j).0 here in
        record {
          row = f h.row;
          there =
              subst (λ k. submission_by_id id (update_submission k f s) ≡ some (f h.row)) e
                (updated-here id f s s h.row keeps refl h.there);
          has_status = same h.row ∙ h.has_status;
          settled = pending h.row ∙ h.settled;
        }
    | inr apart ↦ record {
      row = h.row;
      there = updated-elsewhere j id f s keeps apart ∙ h.there;
      has_status = h.has_status;
      settled = h.settled;
    }
  ]

  OnlyAudited-Settled :
      (id j : ℕ) (status : ApprovalStatus) (s t : Store D F)
      → OnlyAudited j s t
      → Settled id status s
      → Settled id status t
  OnlyAudited-Settled id j status s t (inl same) h = subst (Settled id status) (sym same) h
  OnlyAudited-Settled id j status s t (inr (errors, same)) h =
      subst (Settled id status) (sym same)
        (kept-Settled id j status (as_failed errors) s (λ x. refl) (λ x. refl) (λ x. refl) h)

module _ {D F : Type 0} ⦃dec : Decimal D⦄ where
  process_approval-Settled :
      (id : ℕ) (status : ApprovalStatus) (ctx : Caller) (req : ApprovalRequest) (s : Store D F)
      → Settled id status s
      → Settled id status (process_approval ctx req s).1
  process_approval-Settled id status ctx req s h =
      let t = (process_approval ctx req s).1 in
      elim (Outcome-cases (process_approval ctx req s).0) [
        | inr (e, bad) ↦
            OnlyAudited-Settled id req.submission_id status s t
              (process_approval-OnlyAudited ctx req s t e (ap (λ o. (o, t)) bad)) h
        | inl (row, good) ↦
            let d = process_approval-Decided ctx req s t row (ap (λ o. (o, t)) good) in
            elim (Bool-cases (id == req.submission_id)) [
              | inr apart ↦ record {
                row = h.row;
                there = d.others id apart ∙ h.there;
                has_status = h.has_status;
                settled = h.settled;
              }
              | inl here ↦
                  let e : id ≡ req.submission_id = (==_iff id req.submission_id).0 here in
                  let both : some d.before ≡ some h.row =
                    sym d.found ∙ ap (λ i. submission_by_id i s) (sym e) ∙ h.there in
                  let same : d.before ≡ h.row = cc in
                  let pending : is_pending h.row ≡ true =
                    ap is_pending (sym same) ∙ d.was_pending in
                  absurd (cc (pending, h.settled))
            ]
      ]

  Updated-Settled :
      (id j : ℕ) (status : ApprovalStatus) (structs : Structs D F) (lines : List (QuantityItem D))
      (s : Store D F) (p : Outcome AppError (InventorySubmission D) × Store D F)
      → Updated structs j lines s p
      → Settled id status s
      → Settled id status p.1
  Updated-Settled id j status structs lines s p (refused e) h = h
  Updated-Settled id j status structs lines s p (answered t row edited) h =
      subst (Settled id status) (sym edited.stores) (
        kept-Settled id j status (with_payload row.payload) s (λ x. refl) (λ x. refl) (λ x. refl) h)
  Updated-Settled id j status structs lines s p (unanswered t row edited) h =
      subst (Settled id status) (sym edited.stores) (
        kept-Settled id j status (with_payload row.payload) s (λ x. refl) (λ x. refl) (λ x. refl) h)

  -- Decisions and edits that are tried one after another, by any callers on any submissions, whether
  -- they succeed or fail.
  pub data Tried (s : Store D F) : Store D F → Type 0 where
    nothing : Tried s s
    decision :
        (t : Store D F) (ctx : Caller) (req : ApprovalRequest)
        → Tried s t
        → Tried s (process_approval ctx req t).1
    edit :
        (t : Store D F) (structs : Structs D F) (ctx : Caller) (id : ℕ)
        (lines : List (QuantityItem D))
        → Tried s t
        → Tried s (update_submission_items structs ctx id lines t).1

  Tried-Settled :
      (id : ℕ) (status : ApprovalStatus) (s t : Store D F)
      → Tried s t
      → Settled id status s
      → Settled id status t
  Tried-Settled id status s t nothing h = h
  Tried-Settled id status s t (decision u ctx req before) h =
      process_approval-Settled id status ctx req u (Tried-Settled id status s u before h)
  Tried-Settled id status s t (edit u structs ctx j lines before) h =
      Updated-Settled id j status structs lines u _
        (update_submission_items-Updated structs ctx j lines u)
        (Tried-Settled id status s u before h)

  -- Once ProcessSubmission has decided a submission, and any decisions and edits of submissions have
  -- been tried after that, a decision on it by a caller who may approve is refused with the status
  -- that the first decision gave it, and changes nothing.
  pub process_approval-once :
      (ctx later : Caller) (req again : ApprovalRequest) (s t u : Store D F)
      (row : InventorySubmission D)
      → process_approval ctx req s ≡ (ok row, t)
      → Tried t u
      → may_approve later ≡ true
      → again.submission_id ≡ req.submission_id
      → process_approval later again u ≡ (err (approval_not_pending row.approval_status), u)
  unfolding process_approval
  process_approval-once ctx later req again s t u row h tried may same =
      let d = process_approval-Decided ctx req s t row h in
      let id = req.submission_id in
      let first : Settled id row.approval_status t = record {
        row = row;
        there = d.after;
        has_status = refl;
        settled = Verdict-not_pending s d.before row req.action d.verdict;
      } in
      let now = Tried-Settled id row.approval_status t u tried first in
      let there : submission_by_id again.submission_id u ≡ some now.row =
        ap (λ i. submission_by_id i u) same ∙ now.there in
      let refused_now = check_request-refused later again u now.row may there now.settled in
      rw (refused_now, process_approval, now.has_status) refl
