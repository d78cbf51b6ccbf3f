-- ===== src/Recon/Lifecycle/Moves.antt =====
-- The moves between the statuses of a reconciliation that its operations make.
use cim_backend.Prelude.{
  ◌≡◌, ℕ, refl, ap, subst, sym, ok-injective, ok, Bool-cases, Option-cases, Outcome-cases, inl, inr,
  not, ◌&&◌, List,
}
use cim_backend.Caller.{Caller}
use cim_backend.Errors.{ReconcileStatus, open_status, closed, reconcile_eq}
use cim_backend.Models.Submission.{InventorySubmission}
use cim_backend.Store.{Store, ◌>>=◌}
use cim_backend.Store.Submissions.{
  update_submission, update_reconcile_status, cancel_reconciliation_row,
}
use cim_backend.Recon.Guards.{can_manage}
use cim_backend.Store.Sessions.{list_by_submission}
use cim_backend.Recon.Managers.{Enforce, manager_owned_sessions}
use cim_backend.Recon.Lifecycle.{
  close_reconciliation, transition_reconcile_status, reopen_reconciliation, cancel_reconciliation,
}
use cim_backend.Recon.Lifecycle.Loads.{load_cases}
use cim_backend.Recon.Lifecycle.Statuses.{
  Move, closing, reopening, canceling, finishing, Allowed, closes_open, reopens_closed,
  reconcile_eq→eq, Moved, ends-Moved, with_status, as_canceled, open_or_closed,
}

module _ {D F : Type 0} where
  transition_reconcile_status-Moved :
      (move : Move) (ctx : Caller) (id : ℕ) (from to : ReconcileStatus) (s t : Store D F)
      (row : InventorySubmission D)
      → Allowed move from to
      → transition_reconcile_status ctx id from to s ≡ ok (row, t)
      → Moved move ctx id s t row
  unfolding transition_reconcile_status update_reconcile_status
  transition_reconcile_status-Moved move ctx id from to s t row allowed h =
      elim (Bool-cases (can_manage ctx)) [
        | inr staff ↦ absurd (cc (rw staff at h))
        | inl manager ↦ elim (load_cases id s) [
          | inr (e, bad) ↦ absurd (cc (rw (manager, bad, ◌>>=◌) at h))
          | inl (r, loaded, eq) ↦
              let h1 = rw (manager, eq, ◌>>=◌) at h in
              elim (Bool-cases (reconcile_eq r.reconcile_status from)) [
                | inr wrong ↦ absurd (cc (rw wrong at h1))
                | inl right ↦
                    let h2 = rw right at h1 in
                    elim (Option-cases ctx.user_email) [
                      | inl missing ↦ absurd (cc (rw missing at h2))
                      | inr (email, there) ↦
                          let allowed' =
                            subst (λ a. Allowed move a to)
                              (sym (reconcile_eq→eq r.reconcile_status from right)) allowed in
                          ends-Moved move ctx id s t r row (with_status to) (λ x. refl) manager
                            loaded allowed' (ok-injective (rw there at h2))
                    ]
              ]
        ]
      ]

  cancel_reconciliation-Moved :
      (ctx : Caller) (id : ℕ) (s t : Store D F) (row : InventorySubmission D)
      → cancel_reconciliation ctx id s ≡ ok (row, t)
      → Moved canceling ctx id s t row
  unfolding cancel_reconciliation cancel_reconciliation_row
  cancel_reconciliation-Moved ctx id s t row h = elim (Bool-cases (can_manage ctx)) [
    | inr staff ↦ absurd (cc (rw staff at h))
    | inl manager ↦ elim (load_cases id s) [
      | inr (e, bad) ↦ absurd (cc (rw (manager, bad, ◌>>=◌) at h))
      | inl (r, loaded, eq) ↦
          let h1 = rw (manager, eq, ◌>>=◌) at h in
          elim (Bool-cases (
            not (reconcile_eq r.reconcile_status open_status)
            && not (reconcile_eq r.reconcile_status closed))) [
              | inl wrong ↦ absurd (cc (rw wrong at h1))
              | inr right ↦
                  let h2 = rw right at h1 in
                  elim (Option-cases ctx.user_email) [
                    | inl missing ↦ absurd (cc (rw missing at h2))
                    | inr (email, there) ↦
                        ends-Moved canceling ctx id s t r row as_canceled (λ x. refl) manager loaded
                          (open_or_closed r.reconcile_status right) (ok-injective (rw there at h2))
                  ]
            ]
    ]
  ]

  close_reconciliation-Moved :
      (enforce : Enforce) (ctx : Caller) (id : ℕ) (s t : Store D F) (row : InventorySubmission D)
      (warnings : List ℕ)
      → close_reconciliation enforce ctx id s ≡ ok ((row, warnings), t)
      → Moved closing ctx id s t row
  unfolding close_reconciliation update_reconcile_status
  close_reconciliation-Moved enforce ctx id s t row warnings h =
      elim (Bool-cases (can_manage ctx)) [
        | inr staff ↦ absurd (cc (rw staff at h))
        | inl manager ↦ elim (load_cases id s) [
          | inr (e, bad) ↦ absurd (cc (rw (manager, bad, ◌>>=◌) at h))
          | inl (r, loaded, eq) ↦
              let h1 = rw (manager, eq, ◌>>=◌) at h in
              elim (Bool-cases (reconcile_eq r.reconcile_status open_status)) [
                | inr wrong ↦ absurd (cc (rw wrong at h1))
                | inl right ↦
                    let h2 = rw right at h1 in
                    elim (Option-cases ctx.user_email) [
                      | inl missing ↦ absurd (cc (rw missing at h2))
                      | inr (email, there) ↦
                          let h3 = rw there at h2 in
                          let t' = update_submission id (with_status closed) s in
                          elim (Outcome-cases
                            (manager_owned_sessions enforce t' (list_by_submission id s))) [
                              | inr (e, bad) ↦ absurd (cc (rw bad at h3))
                              | inl (managers, owned) ↦
                                  let allowed =
                                    subst (λ a. Allowed closing a closed)
                                      (sym (reconcile_eq→eq r.reconcile_status open_status right))
                                      closes_open in
                                  ends-Moved closing ctx id s t r row (with_status closed)
                                    (λ x. refl) manager loaded allowed
                                    (ap (λ p. (p.0.0, p.1)) (ok-injective (rw owned at h3)))
                            ]
                    ]
              ]
        ]
      ]

  -- A successful run of the operation that makes the move, on the reconciliation with the id, by
  -- the row that it returns.
  pub data Step (enforce : Enforce) (ctx : Caller) (id : ℕ) (s t : Store D F)
      (row : InventorySubmission D) : Move → Type 0 where
    closes :
        (warnings : List ℕ)
        → close_reconciliation enforce ctx id s ≡ ok ((row, warnings), t)
        → Step enforce ctx id s t row closing
    reopens : reopen_reconciliation ctx id s ≡ ok (row, t) → Step enforce ctx id s t row reopening
    cancels : cancel_reconciliation ctx id s ≡ ok (row, t) → Step enforce ctx id s t row canceling

  -- When closing, reopening or canceling a reconciliation succeeds, the caller is a manager and
  -- the submission was a pending reconcile with snapshots; closing moves its status from open to
  -- closed, reopening from closed to open, and canceling from open or closed to canceled; the row
  -- that is returned is the row then stored under the id; and every other submission is as before.
  pub Step-Moved :
      (enforce : Enforce) (ctx : Caller) (id : ℕ) (s t : Store D F) (row : InventorySubmission D)
      (move : Move)
      → Step enforce ctx id s t row move
      → Moved move ctx id s t row
  unfolding reopen_reconciliation
  Step-Moved enforce ctx id s t row closing (closes warnings h) =
      close_reconciliation-Moved enforce ctx id s t row warnings h
  Step-Moved enforce ctx id s t row reopening (reopens h) =
      transition_reconcile_status-Moved reopening ctx id closed open_status s t row reopens_closed h
  Step-Moved enforce ctx id s t row canceling (cancels h) =
      cancel_reconciliation-Moved ctx id s t row h
  Step-Moved enforce ctx id s t row finishing step = elim step [ ]
