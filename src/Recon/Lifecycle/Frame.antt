-- ===== src/Recon/Lifecycle/Frame.antt =====
-- The parts of `StartProcessing` that leave every submission as it is, and the updates that do not.
use cim_backend.Prelude.{
  ℕ, ◌≡◌, refl, inl, inr, false, not, some, Option-cases, List, ◌∷◌, list_cases, select, find, ◌==◌,
  ==_refl,
}
use cim_backend.Decimal.{Decimal, Float64}
use cim_backend.Errors.{submission_not_found}
use cim_backend.Caller.{Caller}
use cim_backend.Models.Submission.{InventorySubmission, QuantityItem, get_item_ids}
use cim_backend.Store.{Store}
use cim_backend.Store.Keeps.{
  Keeps, bind-Keeps, pure-Keeps, gets-Keeps, or_raise-Keeps, lift-Keeps,
  save_inventory_item_changes-Keeps, get_active_inventory_items-Keeps,
}
use cim_backend.Store.Submissions.{submission_by_id, update_submission, prev_quantities}
use cim_backend.Store.Sessions.{list_by_submission}
use cim_backend.Recon.Managers.{Enforce, manager_owned_sessions, owned}
use cim_backend.Recon.Synthesize.{synthesize_reconcile}
use cim_backend.Recon.Apply.{plan_reconcile, apply_reconcile_snapshot_aware}
use cim_backend.Recon.Lifecycle.{synthesize_submission_payload}
use cim_backend.Recon.Lifecycle.Loads.{submission_by_id-update}

module _ {D F : Type 0} ⦃dec : Decimal D⦄ where
  pub synthesize_submission_payload-Keeps :
      (enforce : Enforce) (id : ℕ)
      → Keeps {D = D} {F = F} (synthesize_submission_payload enforce id)
  unfolding synthesize_submission_payload
  synthesize_submission_payload-Keeps enforce id =
      bind-Keeps _ _ (gets-Keeps (submission_by_id id)) (λ found.
        bind-Keeps _ _ (or_raise-Keeps found (submission_not_found id)) (λ submission.
          bind-Keeps _ _ (gets-Keeps (list_by_submission id)) (λ rows.
            bind-Keeps _ _ (gets-Keeps (prev_quantities id)) (λ baselines.
              bind-Keeps _ _ (gets-Keeps (λ s. manager_owned_sessions enforce s rows)) (λ managers.
                bind-Keeps _ _ (lift-Keeps managers) (λ ids.
                  lift-Keeps
                    (synthesize_reconcile submission.inventory_id rows baselines (owned ids))))))))

module _ {D F : Type 0} ⦃dec : Decimal D⦄ ⦃fl : Float64 F⦄ where
  pub apply_reconcile_snapshot_aware-Keeps :
      (ctx : Caller) (parent : InventorySubmission D) (lines : List (QuantityItem D))
      → Keeps {D = D} {F = F} (apply_reconcile_snapshot_aware ctx parent lines)
  unfolding apply_reconcile_snapshot_aware
  apply_reconcile_snapshot_aware-Keeps ctx parent lines =
      elim (list_cases (select (λ id. not (id == 0)) (get_item_ids lines))) [
        | inl no_ids ↦ rw (no_ids, apply_reconcile_snapshot_aware) (pure-Keeps tt)
        | inr (id, ids, some_ids) ↦
            rw (some_ids, apply_reconcile_snapshot_aware)
              (bind-Keeps _ _ (get_active_inventory_items-Keeps parent.inventory_id (id ∷ ids))
                (λ items.
                  bind-Keeps _ _ (lift-Keeps (plan_reconcile parent.created_at items lines))
                    (λ plan. save_inventory_item_changes-Keeps ctx plan.0 plan.1)))
      ]

abbrev pub Update : Type 0 → Type 0
Update D = InventorySubmission D → InventorySubmission D

-- A row that two updates in turn have changed.
module _ {D F : Type 0} where
  pub twice-here :
      (id : ℕ) (f g : Update D) (s u : Store D F) (r : InventorySubmission D)
      → ((x : InventorySubmission D) → (f x).id ≡ x.id)
      → ((x : InventorySubmission D) → (g x).id ≡ x.id)
      → u.submissions ≡ s.submissions
      → submission_by_id id s ≡ some r
      → submission_by_id id (update_submission id g (update_submission id f u)) ≡ some (g (f r))
  unfolding submission_by_id update_submission
  twice-here id f g s u r kf kg same found =
      rw
        (
          submission_by_id-update id id g _ kg,
          submission_by_id-update id id f u.submissions kf,
          same,
          found,
          ==_refl id,
        )
        refl

  pub twice-elsewhere :
      (id j : ℕ) (f g : Update D) (s u : Store D F)
      → ((x : InventorySubmission D) → (f x).id ≡ x.id)
      → ((x : InventorySubmission D) → (g x).id ≡ x.id)
      → u.submissions ≡ s.submissions
      → (j == id) ≡ false
      → submission_by_id j (update_submission id g (update_submission id f u))
        ≡ submission_by_id j s
  unfolding submission_by_id update_submission
  twice-elsewhere id j f g s u kf kg same apart =
      elim (Option-cases (find (λ x. x.id == j) s.submissions)) [
        | inl missing ↦
            rw
              (
                submission_by_id-update id j g _ kg,
                submission_by_id-update id j f u.submissions kf,
                same,
                missing,
              )
              refl
        | inr (x, found) ↦
            rw
              (
                submission_by_id-update id j g _ kg,
                submission_by_id-update id j f u.submissions kf,
                same,
                found,
                apart,
              )
              refl
      ]
