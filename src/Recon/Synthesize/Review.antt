-- ===== src/Recon/Synthesize/Review.antt =====
-- The review label against the sessions that staff own.
use cim_backend.Prelude.{
  ℕ, ◌≡◌, refl, inl, inr, Bool, true, false, not, ◌&&◌, ◌||◌, Bool-cases, List, [], ◌∷◌, any,
  select, arith, if◌then◌else◌,
}
use cim_backend.Decimal.{Decimal}
use cim_backend.Models.Session.{ReconciliationRequestItem, is_ready}
use cim_backend.Recon.Synthesize.{
  in_progress, ready_for_review, review_loop, aggregate_review_label,
}

module _ {D : Type 0} ⦃dec : Decimal D⦄ (manager_owned : ℕ → Bool) where
  -- The sessions that no manager owns.
  abbrev pub staff_sessions :
      List (ReconciliationRequestItem D) → List (ReconciliationRequestItem D)
  staff_sessions rows = select (λ r. not (manager_owned r.id)) rows

  abbrev pub some_unready : List (ReconciliationRequestItem D) → Bool
  some_unready rows = any (λ r. not (is_ready r.status)) (staff_sessions rows)

  abbrev pub some_staff : List (ReconciliationRequestItem D) → Bool
  some_staff rows = any (λ r. true) (staff_sessions rows)

  review_loop-all :
      (seen : Bool) (rows : List (ReconciliationRequestItem D))
      → review_loop manager_owned seen rows ≡ (
          if not (some_unready rows) && (seen || some_staff rows)
          then ready_for_review
          else in_progress)
  review_loop-all true [] = refl
  review_loop-all false [] = refl
  review_loop-all seen (row ∷ rows) = elim (Bool-cases (manager_owned row.id)) [
    | inl theirs ↦ rw theirs (review_loop-all seen rows)
    | inr staff ↦ elim (Bool-cases (is_ready row.status)) [
      | inl ready ↦ rw (staff, ready) (rw (review_loop-all true rows) (ground arith))
      | inr waiting ↦ rw (staff, waiting) refl
    ]
  ]

  -- A reconciliation is ready for review exactly when some session is owned by no manager and
  -- every session that no manager owns is ready, and otherwise it is in progress.
  pub aggregate_review_label-staff :
      (rows : List (ReconciliationRequestItem D))
      → aggregate_review_label rows manager_owned
        ≡ (if not (some_unready rows) && some_staff rows then ready_for_review else in_progress)
  unfolding aggregate_review_label
  aggregate_review_label-staff rows = review_loop-all false rows
