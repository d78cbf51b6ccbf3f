-- ===== src/Recon/Lifecycle/Loads.antt =====
-- The row that a lifecycle operation loads, and the rows after its update.
use cim_backend.Prelude.{
  ◌≡◌, ℕ, refl, ap, ◌∙◌, true, false, some, none, ok, err, Bool-cases, Option-cases, inl, inr, ◌⊎◌,
  ◌==◌, ==_iff, if◌then◌else◌, find, map, List, [], ◌∷◌,
}
use cim_backend.Errors.{
  AppError, recon_parent_not_found, recon_parent_not_initiated, recon_parent_not_in_flight,
}
use cim_backend.Models.Submission.{
  InventorySubmission, is_active_reconcile, submission_type_eq, reconcile,
}
use cim_backend.Store.{Store}
use cim_backend.Store.Submissions.{submission_by_id, snapshots_exist}
use cim_backend.Recon.Guards.{load_active_reconcile_parent}

module _ {D F : Type 0} where
  -- The parent that the guard finds.
  pub record Loaded (id : ℕ) (s : Store D F) (r : InventorySubmission D) : Type 0 where
    pub found : submission_by_id id s ≡ some r
    pub active : is_active_reconcile r ≡ true
    pub has_snapshots : snapshots_exist id s ≡ true

  pub load_cases :
      (id : ℕ) (s : Store D F)
      → ((r : InventorySubmission D) × Loaded id s r
          × (load_active_reconcile_parent id s ≡ ok (r, s)))
        ⊎ ((e : AppError) × (load_active_reconcile_parent id s ≡ err e))
  unfolding load_active_reconcile_parent
  load_cases id s = elim (Option-cases (submission_by_id id s)) [
    | inl missing ↦ inr (recon_parent_not_found id, rw missing refl)
    | inr (r, found) ↦ elim (Bool-cases (submission_type_eq r.submission_type reconcile)) [
      | inr wrong ↦ inr (recon_parent_not_initiated id, rw (found, wrong) refl)
      | inl right ↦ elim (Bool-cases (snapshots_exist id s)) [
        | inr fresh ↦ inr (recon_parent_not_initiated id, rw (found, right, fresh) refl)
        | inl has ↦ elim (Bool-cases (is_active_reconcile r)) [
          | inr over ↦
              inr (
                recon_parent_not_in_flight id r.reconcile_status,
                rw (found, right, has, over) refl,
              )
          | inl active ↦ inl (
            r,
            record { found = found; active = active; has_snapshots = has },
            rw (found, right, has, active) refl,
          )
        ]
      ]
    ]
  ]

module _ {D : Type 0} where
  -- A row after the update of one row, whose id the update keeps.
  pub submission_by_id-update :
      (id j : ℕ) (f : InventorySubmission D → InventorySubmission D)
      (rows : List (InventorySubmission D))
      → ((r : InventorySubmission D) → (f r).id ≡ r.id)
      → find (λ r. r.id == j) (map (λ r. if r.id == id then f r else r) rows)
        ≡ (elim (find (λ r. r.id == j) rows) [
          | none ↦ none
          | some r ↦ some (if j == id then f r else r)
        ])
  submission_by_id-update id j f [] keeps = refl
  submission_by_id-update id j f (x ∷ xs) keeps =
      let ih = submission_by_id-update id j f xs keeps in
      elim (Bool-cases (x.id == j)) [
        | inl same ↦
            let e : x.id ≡ j = (==_iff x.id j).0 same in
            let kept : ((f x).id == j) ≡ true = ap (λ n. n == j) (keeps x) ∙ same in
            elim (Bool-cases (x.id == id)) [
              | inl hit ↦ rw (hit, kept, same, rw e at hit) refl
              | inr miss ↦ rw (miss, same, rw e at miss) refl
            ]
        | inr other ↦
            let kept : ((f x).id == j) ≡ false = ap (λ n. n == j) (keeps x) ∙ other in
            elim (Bool-cases (x.id == id)) [
              | inl hit ↦ rw (hit, kept, other) ih
              | inr miss ↦ rw (miss, other) ih
            ]
      ]
