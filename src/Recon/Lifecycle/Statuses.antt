-- ===== src/Recon/Lifecycle/Statuses.antt =====
-- The moves of a reconciliation between its statuses, and how an update makes one.
use cim_backend.Prelude.{
  ◌≡◌, ℕ, refl, ap, subst, ◌∙◌, sym, true, false, some, none, arith, Option-cases, inl, inr, ◌==◌,
  ==_refl, not, ◌&&◌, if◌then◌else◌, find,
}
use cim_backend.Caller.{Caller}
use cim_backend.Errors.{
  AppError, recon_parent_not_found, recon_parent_not_initiated, recon_parent_not_in_flight,
  ReconcileStatus, rejected, unset, processing, open_status, closed, processed, reconcile_eq,
}
use cim_backend.Errors
use cim_backend.Models.Submission.{InventorySubmission, canceled}
use cim_backend.Store.{Store}
use cim_backend.Store.Submissions.{submission_by_id, update_submission}
use cim_backend.Recon.Guards.{can_manage}
use cim_backend.Recon.Lifecycle.Loads.{Loaded, submission_by_id-update}

-- What an operation does to the status of a reconciliation.
pub data Move : Type 0 where
  closing reopening canceling finishing : Move

-- The statuses before and after each move.
pub data Allowed : Move → ReconcileStatus → ReconcileStatus → Type 0 where
  closes_open : Allowed closing open_status closed
  reopens_closed : Allowed reopening closed open_status
  cancels_open : Allowed canceling open_status Errors.ReconcileStatus.canceled
  cancels_closed : Allowed canceling closed Errors.ReconcileStatus.canceled
  finishes_closed : Allowed finishing closed processed

pub reconcile_eq→eq : (a b : ReconcileStatus) → reconcile_eq a b ≡ true → a ≡ b
reconcile_eq→eq a b h = ground arith

abbrev pub with_status :
    {D : Type 0} → ReconcileStatus → InventorySubmission D → InventorySubmission D
with_status to r = record r { reconcile_status = to }

abbrev pub as_canceled : {D : Type 0} → InventorySubmission D → InventorySubmission D
as_canceled r = record r {
  reconcile_status = Errors.ReconcileStatus.canceled;
  processing_status = canceled;
  approval_status = rejected;
}

pub open_or_closed :
    (a : ReconcileStatus)
    → (not (reconcile_eq a open_status) && not (reconcile_eq a closed)) ≡ false
    → Allowed canceling a Errors.ReconcileStatus.canceled
open_or_closed open_status h = cancels_open
open_or_closed closed h = cancels_closed
open_or_closed unset h = absurd (cc)
open_or_closed processing h = absurd (cc)
open_or_closed processed h = absurd (cc)
open_or_closed Errors.ReconcileStatus.canceled h = absurd (cc)

module _ {D F : Type 0} where
  -- A manager made the move of the reconciliation with the id, and no other submission changed.
  pub record Moved (move : Move) (ctx : Caller) (id : ℕ) (s t : Store D F)
      (row : InventorySubmission D) : Type 0 where
    pub manager : can_manage ctx ≡ true
    pub before : InventorySubmission D
    pub loaded : Loaded id s before
    pub allowed : Allowed move before.reconcile_status row.reconcile_status
    pub after : submission_by_id id t ≡ some row
    pub others : (j : ℕ) → (j == id) ≡ false → submission_by_id j t ≡ submission_by_id j s

  pub stored-Moved :
      (move : Move) (ctx : Caller) (id : ℕ) (s t : Store D F) (r : InventorySubmission D)
      (f : InventorySubmission D → InventorySubmission D)
      → ((x : InventorySubmission D) → (f x).id ≡ x.id)
      → can_manage ctx ≡ true
      → Loaded id s r
      → Allowed move r.reconcile_status (f r).reconcile_status
      → t ≡ update_submission id f s
      → Moved move ctx id s t (f r)
  unfolding update_submission submission_by_id
  stored-Moved move ctx id s t r f keeps manager loaded allowed stored = record {
    manager = manager;
    before = r;
    loaded = loaded;
    allowed = allowed;
    after =
        ap (submission_by_id id) stored
        ∙ submission_by_id-update id id f s.submissions keeps
        ∙ rw (loaded.found, ==_refl id) refl;
    others = λ j apart.
        ap (submission_by_id j) stored
        ∙ submission_by_id-update id j f s.submissions keeps
        ∙ elsewhere j apart;
  }
    where
      elsewhere :
          (j : ℕ)
          → (j == id) ≡ false
          → (elim (find (λ x. x.id == j) s.submissions) [
            | none ↦ none
            | some x ↦ some (if j == id then f x else x)
          ])
            ≡ find (λ x. x.id == j) s.submissions
      elsewhere j apart = elim (Option-cases (find (λ x. x.id == j) s.submissions)) [
        | inl missing ↦ rw missing refl
        | inr (x, found) ↦ rw (found, apart) refl
      ]

  pub ends-Moved :
      (move : Move) (ctx : Caller) (id : ℕ) (s t : Store D F) (r row : InventorySubmission D)
      (f : InventorySubmission D → InventorySubmission D)
      → ((x : InventorySubmission D) → (f x).id ≡ x.id)
      → can_manage ctx ≡ true
      → Loaded id s r
      → Allowed move r.reconcile_status (f r).reconcile_status
      → ◌≡◌ {A = InventorySubmission D × Store D F} (f r, update_submission id f s) (row, t)
      → Moved move ctx id s t row
  ends-Moved move ctx id s t r row f keeps manager loaded allowed e =
      subst (Moved move ctx id s t) (ap (λ p. p.0) e)
        (stored-Moved move ctx id s t r f keeps manager loaded allowed (sym (ap (λ p. p.1) e)))
