-- ===== src/Legacy/Editing/Edited.antt =====
-- What `UpdateSubmission` leaves of the submissions.
use cim_backend.Prelude.{
  ℕ, ◌≡◌, ◌∙◌, refl, ap, sym, subst, ok-injective, inl, inr, true, false, Bool-cases, any, some,
  Option-cases, List, Outcome, ok, err, Outcome-cases, ◌==◌,
}
use cim_backend.Decimal.{Decimal}
use cim_backend.Errors.{AppError, inventory_not_found}
use cim_backend.Caller.{Caller}
use cim_backend.Models.Submission.{
  InventorySubmission, TransferRequest, QuantityItem, Payload, SubmissionType, unmarshal,
  unmarshal_transfer, reconcile, dispose, transfer,
}
use cim_backend.Store.{Store, ◌>>=◌}
use cim_backend.Store.Submissions.{submission_by_id, update_submission, update_submission_payload}
use cim_backend.Legacy.Approval.{is_pending, is_initiated, guard_not_initiated_reconcile}
use cim_backend.Legacy.Rows.{updated-here}
use cim_backend.Legacy.Steps.{submission_by_id-id}
use cim_backend.Legacy.Editing.{
  Structs, updated_payload, validate_update, write_items, update_submission_items,
}
use cim_backend.Legacy.Editing.Checks.{
  SubmissionType-cases, with_payload, request_stored, transfer_stored, AreCovered,
  validate_consume_update-ok, update_submission_payload-ok, AreRecounts,
  validate_reconcile_update-ok,
}

module _ {D F : Type 0} ⦃dec : Decimal D⦄ (structs : Structs D F) where
  -- What an accepted edit requires of the lines, and the payload that it stores.
  pub data Edit (s : Store D F) (before : InventorySubmission D) (lines : List (QuantityItem D))
      (p : Payload D) : SubmissionType → Type 0 where
    recounted :
        unmarshal p ≡ some (record { inventory_id = before.inventory_id; items = lines })
        → AreRecounts structs before.inventory_id lines s
        → Edit s before lines p reconcile
    redisposed :
        unmarshal p ≡ some (record { inventory_id = before.inventory_id; items = lines })
        → AreCovered before.inventory_id lines s
        → Edit s before lines p dispose
    retransferred :
        (original : TransferRequest D)
        → unmarshal_transfer before.payload ≡ some original
        → unmarshal_transfer p ≡ some (record original { items = lines })
        → AreCovered original.source_inventory_id lines s
        → Edit s before lines p transfer

  -- The submission was pending and not initiated, its payload holds the new lines, and nothing but
  -- that payload changed.
  pub record Edited (id : ℕ) (lines : List (QuantityItem D)) (s t : Store D F)
      (row : InventorySubmission D) : Type 0 where
    pub before : InventorySubmission D
    pub found : submission_by_id id s ≡ some before
    pub was_pending : is_pending before ≡ true
    pub fresh : is_initiated before s ≡ false
    pub edit : Edit s before lines row.payload before.submission_type
    pub kept : row ≡ with_payload row.payload before
    pub after : submission_by_id id t ≡ some row
    pub stores : t ≡ update_submission id (with_payload row.payload) s

  written-Edited :
      (id : ℕ) (lines : List (QuantityItem D)) (s : Store D F) (r : InventorySubmission D)
      (p : Payload D)
      → submission_by_id id s ≡ some r
      → is_pending r ≡ true
      → is_initiated r s ≡ false
      → Edit s r lines p r.submission_type
      → Edited id lines s (update_submission id (with_payload p) s) (with_payload p r)
  written-Edited id lines s r p found pending fresh edit = record {
    before = r;
    found = found;
    was_pending = pending;
    fresh = fresh;
    edit = edit;
    kept = refl;
    after = updated-here id (with_payload p) s s r (λ x. refl) refl found;
    stores = refl;
  }

  validate_update-ok :
      (row : InventorySubmission D) (lines : List (QuantityItem D)) (p : Payload D)
      (s t : Store D F)
      → validate_update structs row lines s ≡ ok (tt, t)
      → updated_payload row lines ≡ some p
      → (s ≡ t) × Edit s row lines p row.submission_type
  unfolding validate_update updated_payload
  validate_update-ok row lines p s t h written = elim (SubmissionType-cases row.submission_type) [
    | inl k ↦
        let (same, counts) =
          validate_reconcile_update-ok structs row.inventory_id lines s t
            (rw (k, validate_update) at h) in
        (
          same,
          subst (Edit s row lines p) (sym k)
              (recounted (request_stored _ p (rw (k, updated_payload) at written)) counts),
        )
    | inr (inl k) ↦
        let (same, covered) =
          validate_consume_update-ok row.inventory_id lines s t (rw (k, validate_update) at h) in
        (
          same,
          subst (Edit s row lines p) (sym k)
              (redisposed (request_stored _ p (rw (k, updated_payload) at written)) covered),
        )
    | inr (inr (inl k)) ↦
        let h1 = rw (k, validate_update) at h in
        let w = rw (k, updated_payload) at written in
        elim (Option-cases (unmarshal_transfer row.payload)) [
          | inl bad ↦ absurd (cc (rw bad at w))
          | inr (original, there) ↦
              let (same, covered) =
                validate_consume_update-ok original.source_inventory_id lines s t
                  (rw there at h1) in
              (
                same,
                subst (Edit s row lines p) (sym k)
                    (retransferred original there (transfer_stored _ p (rw there at w)) covered),
              )
        ]
    | inr (inr (inr k)) ↦ absurd (cc (rw (k, validate_update) at h))
  ]

  write_items-Edited :
      (ctx : Caller) (id : ℕ) (lines : List (QuantityItem D)) (s t : Store D F)
      (row : InventorySubmission D)
      → write_items structs ctx id lines s ≡ ok (row, t)
      → Edited id lines s t row
  unfolding write_items guard_not_initiated_reconcile
  write_items-Edited ctx id lines s t row h = elim (Option-cases (submission_by_id id s)) [
    | inl missing ↦ absurd (cc (rw missing at h))
    | inr (r, found) ↦
        let h1 = rw found at h in
        elim (Bool-cases (is_pending r)) [
          | inr settled ↦ absurd (cc (rw settled at h1))
          | inl pending ↦
              let h2 = rw pending at h1 in
              elim (Bool-cases (is_initiated r s)) [
                | inl initiated ↦
                    absurd (cc (rw (initiated, guard_not_initiated_reconcile, ◌>>=◌) at h2))
                | inr fresh ↦
                    let h3 = rw (fresh, guard_not_initiated_reconcile, ◌>>=◌) at h2 in
                    elim (Outcome-cases (validate_update structs r lines s)) [
                      | inr (e, bad) ↦ absurd (cc (rw (bad, ◌>>=◌) at h3))
                      | inl ((_, u), valid) ↦
                          let h4 = rw (valid, ◌>>=◌) at h3 in
                          elim (Option-cases (updated_payload r lines)) [
                            | inl bad ↦ absurd (cc (rw bad at h4))
                            | inr (p, renewed) ↦
                                let h5 = rw renewed at h4 in
                                elim (Outcome-cases (update_submission_payload ctx r.id p u)) [
                                  | inr (e, bad) ↦ absurd (cc (rw (bad, ◌>>=◌) at h5))
                                  | inl ((_, v), step) ↦
                                      let h6 = ok-injective (rw (step, ◌>>=◌) at h5) in
                                      let (same, edit) =
                                        validate_update-ok r lines p s u valid renewed in
                                      let at = submission_by_id-id id s r found in
                                      let stored =
                                        update_submission_payload-ok ctx r.id p u v step
                                        ∙ ap (λ i. update_submission i (with_payload p) u) at
                                        ∙ ap (update_submission id (with_payload p)) (sym same) in
                                      subst (λ q. Edited id lines s q.1 q.0) h6
                                        (subst (λ w. Edited id lines s w (with_payload p r))
                                          (sym stored)
                                          (written-Edited id lines s r p found pending fresh edit))
                                ]
                          ]
                    ]
              ]
        ]
  ]

  -- An answer with the store that it leaves.
  pub data Updated (id : ℕ) (lines : List (QuantityItem D)) (s : Store D F)
      : Outcome AppError (InventorySubmission D) × Store D F → Type 0 where
    refused : (e : AppError) → Updated id lines s (err e, s)
    answered :
        (t : Store D F) (row : InventorySubmission D)
        → Edited id lines s t row
        → Updated id lines s (ok row, t)
    unanswered :
        (t : Store D F) (row : InventorySubmission D)
        → Edited id lines s t row
        → Updated id lines s (err (inventory_not_found row.inventory_id), t)

  -- Either UpdateSubmission answers an error and changes nothing, or the submission was pending and
  -- not initiated, its lines are counts of, or covered by, active items of the inventory that they
  -- are taken from, and nothing changed but the payload of that submission, which holds the lines
  -- for the inventories that it was for. It then answers the row that is stored, or that the row of
  -- the inventory is missing.
  pub update_submission_items-Updated :
      (ctx : Caller) (id : ℕ) (lines : List (QuantityItem D)) (s : Store D F)
      → Updated id lines s (update_submission_items structs ctx id lines s)
  unfolding update_submission_items
  update_submission_items-Updated ctx id lines s =
      elim (Outcome-cases (write_items structs ctx id lines s)) [
        | inr (e, bad) ↦ rw (bad, update_submission_items) (refused e)
        | inl ((row, t), done) ↦
            let edited = write_items-Edited ctx id lines s t row done in
            elim (Bool-cases (any (λ i. i == row.inventory_id) t.inventories)) [
              | inl there ↦ rw (done, update_submission_items, there) (answered t row edited)
              | inr gone ↦ rw (done, update_submission_items, gone) (unanswered t row edited)
            ]
      ]
