-- ===== src/Recon/Lifecycle/Processing.antt =====
-- What `StartProcessing` leaves of the submissions.
use cim_backend.Prelude.{
  ℕ, ◌≡◌, ◌∙◌, refl, ap, sym, subst, inl, inr, true, any, Bool-cases, some, Option-cases, [],
  Outcome, ok, err, Outcome-cases, ok-injective,
}
use cim_backend.Decimal.{Decimal, Float64}
use cim_backend.Errors.{AppError, closed, processed, reconcile_eq, approved, recon_drift_rollback}
use cim_backend.Caller.{Caller}
use cim_backend.Models.Submission.{InventorySubmission, InventoryRequest, completed, request}
use cim_backend.Store.{Store, ◌>>=◌}
use cim_backend.Store.Keeps.{KeepsFrom}
use cim_backend.Store.Submissions.{
  submission_by_id, update_submission, snapshot_captured_at, list_consuming_processed_since,
  mark_processed, update_submission_payload,
}
use cim_backend.Recon.Guards.{can_manage}
use cim_backend.Recon.Managers.{Enforce}
use cim_backend.Recon.Apply.{apply_reconcile_snapshot_aware}
use cim_backend.Recon.Lifecycle.{
  or_created_at, synthesize_submission_payload, start_processing_tx, start_processing, StartResult,
  applied, drift_detected,
}
use cim_backend.Recon.Lifecycle.Statuses.{
  Moved, finishing, finishes_closed, Allowed, reconcile_eq→eq,
}
use cim_backend.Recon.Lifecycle.Loads.{Loaded, load_cases}
use cim_backend.Recon.Lifecycle.Frame.{
  synthesize_submission_payload-Keeps, apply_reconcile_snapshot_aware-Keeps, twice-here,
  twice-elsewhere,
}

abbrev with_payload :
    {D : Type 0} → InventoryRequest D → InventorySubmission D → InventorySubmission D
with_payload req r = record r { payload = request req }

abbrev as_processed : {D : Type 0} → ℕ → InventorySubmission D → InventorySubmission D
as_processed now r = record r {
  processing_status = completed;
  approval_status = approved;
  processed_at = some now;
  error = [];
  reconcile_status = processed;
}

module _ {D F : Type 0} where
  -- A closed reconciliation became processed, completed and approved.
  pub record Processed (ctx : Caller) (id : ℕ) (s t : Store D F) (row : InventorySubmission D)
      : Type 0 where
    pub moved : Moved finishing ctx id s t row
    pub was_closed : moved.before.reconcile_status ≡ closed
    pub now_processed : row.reconcile_status ≡ processed
    pub now_completed : row.processing_status ≡ completed
    pub now_approved : row.approval_status ≡ approved

module _ {D F : Type 0} ⦃dec : Decimal D⦄ ⦃fl : Float64 F⦄ where
  finished :
      (ctx : Caller) (id : ℕ) (s u t : Store D F) (r row : InventorySubmission D)
      (req : InventoryRequest D)
      → can_manage ctx ≡ true
      → Loaded id s r
      → r.reconcile_status ≡ closed
      → u.submissions ≡ s.submissions
      → ◌≡◌ {A = InventorySubmission D × Store D F}
          (
            as_processed u.clock (with_payload req r),
            update_submission id (as_processed u.clock) (update_submission id (with_payload req) u),
          )
          (row, t)
      → Processed ctx id s t row
  finished ctx id s u t r row req manager loaded was same e =
      let f = with_payload req in
      let g = as_processed u.clock in
      let to : as_processed u.clock (with_payload req r) ≡ row = ap (λ p. p.0) e in
      let stored : update_submission id g (update_submission id f u) ≡ t = ap (λ p. p.1) e in
      let moved : Moved finishing ctx id s t row = record {
        manager = manager;
        before = r;
        loaded = loaded;
        allowed =
            subst (λ a. Allowed finishing a row.reconcile_status) (sym was)
              (subst (λ (x : InventorySubmission D). Allowed finishing closed x.reconcile_status) to
                finishes_closed);
        after =
            ap (submission_by_id id) (sym stored)
            ∙ twice-here id f g s u r (λ x. refl) (λ x. refl) same loaded.found
            ∙ ap some to;
        others = λ j apart.
            ap (submission_by_id j) (sym stored)
            ∙ twice-elsewhere id j f g s u (λ x. refl) (λ x. refl) same apart;
      } in
      record {
        moved = moved;
        was_closed = was;
        now_processed = ap (λ (x : InventorySubmission D). x.reconcile_status) (sym to);
        now_completed = ap (λ (x : InventorySubmission D). x.processing_status) (sym to);
        now_approved = ap (λ (x : InventorySubmission D). x.approval_status) (sym to);
      }

  start_processing_tx-Processed :
      (enforce : Enforce) (ctx : Caller) (id : ℕ) (s t : Store D F) (row : InventorySubmission D)
      → can_manage ctx ≡ true
      → start_processing_tx enforce ctx id s ≡ ok (row, t)
      → Processed ctx id s t row
  unfolding start_processing_tx mark_processed update_submission_payload update_submission
  start_processing_tx-Processed enforce ctx id s t row manager h = elim (load_cases id s) [
    | inr (e, bad) ↦ absurd (cc (rw (bad, ◌>>=◌) at h))
    | inl (r, loaded, eq) ↦
        let h1 = rw (eq, ◌>>=◌) at h in
        elim (Bool-cases (reconcile_eq r.reconcile_status closed)) [
          | inr wrong ↦ absurd (cc (rw wrong at h1))
          | inl right ↦
              let h2 = rw right at h1 in
              let drifted =
                list_consuming_processed_since r.inventory_id r.id
                  (or_created_at (snapshot_captured_at r.id s) r) s in
              elim (Bool-cases (any (λ x. true) drifted)) [
                | inl drift ↦ absurd (cc (rw drift at h2))
                | inr calm ↦
                    let h3 = rw calm at h2 in
                    elim (Outcome-cases (synthesize_submission_payload enforce id s)) [
                      | inr (e, bad) ↦ absurd (cc (rw (bad, ◌>>=◌) at h3))
                      | inl ((syn, s1), summed) ↦
                          let h4 = rw (summed, ◌>>=◌) at h3 in
                          let kept =
                            subst (KeepsFrom s) summed
                              ((synthesize_submission_payload-Keeps enforce id).run s) in
                          elim (Outcome-cases
                            (apply_reconcile_snapshot_aware ctx r syn.request.items s1)) [
                              | inr (e, bad) ↦ absurd (cc (rw (bad, ◌>>=◌) at h4))
                              | inl ((_, u), booked) ↦
                                  let h5 = rw (booked, ◌>>=◌) at h4 in
                                  let kept' = subst (KeepsFrom s1) booked (
                                    (apply_reconcile_snapshot_aware-Keeps ctx r
                                        syn.request.items).run
                                      s1) in
                                  elim (Option-cases ctx.user_email) [
                                    | inl missing ↦ absurd (cc (rw missing at h5))
                                    | inr (email, there) ↦
                                        finished ctx id s u t r row syn.request manager loaded
                                          (reconcile_eq→eq r.reconcile_status closed right)
                                          (kept' ∙ kept) (ok-injective (rw there at h5))
                                  ]
                            ]
                    ]
              ]
        ]
  ]

  -- What `start_processing` answers on an error.
  abbrev answer : Store D F → AppError → Outcome AppError (StartResult D) × Store D F
  answer s e = elim e [
    | recon_drift_rollback warnings ↦ (ok (drift_detected warnings), s)
    | other ↦ (err other, s)
  ]

  not_applied :
      (e : AppError) (s t : Store D F) (row : InventorySubmission D)
      → ¬ (answer s e ≡ (ok (applied row), t))
  not_applied e s t row = elim e as (λ k. ¬ (answer s k ≡ (ok (applied row), t))) [
    | recon_drift_rollback warnings ↦ λ h. absurd (cc)
    | other ↦ λ h. absurd (cc)
  ]

  -- When start_processing answers that the reconciliation was applied, the caller is a manager,
  -- the submission was a pending reconcile with snapshots that is closed, the row that is
  -- returned is processed, completed and approved and is the row then stored under the id, and
  -- every other submission is as before.
  pub start_processing-Processed :
      (enforce : Enforce) (ctx : Caller) (id : ℕ) (s t : Store D F) (row : InventorySubmission D)
      → start_processing enforce ctx id s ≡ (ok (applied row), t)
      → Processed ctx id s t row
  unfolding start_processing
  start_processing-Processed enforce ctx id s t row h = elim (Bool-cases (can_manage ctx)) [
    | inr staff ↦ absurd (cc (rw staff at h))
    | inl manager ↦ elim (Outcome-cases (start_processing_tx enforce ctx id s)) [
      | inl ((row', t'), done) ↦
          let h1 = rw (manager, done) at h in
          start_processing_tx-Processed enforce ctx id s t row manager (done ∙ cc)
      | inr (e, bad) ↦ let h1 = rw (manager, bad) at h in absurd (not_applied e s t row h1)
    ]
  ]
