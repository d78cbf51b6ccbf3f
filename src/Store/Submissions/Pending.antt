-- ===== src/Store/Submissions/Pending.antt =====
-- The unique index on pending reconciliations.
use cim_backend.Prelude.{
  ℕ, ◌+◌, ◌≤◌, ◌≡◌, refl, ap, subst, inl, inr, true, false, ◌&&◌, ◌==◌, ==_iff, Bool-cases,
  Option-cases, List, [], ◌∷◌, ◌++◌, any, arith, ok, ok-injective, if◌then◌else◌,
}
use cim_backend.Caller.{Caller}
use cim_backend.Models.Submission.{InventorySubmission}
use cim_backend.Store.Tables.{Store}
use cim_backend.Store.Submissions.{is_pending_reconcile, exists_active_pending, create_submission}

module _ {D : Type 0} (k : ℕ) where
  -- The pending reconciliations of an inventory.
  abbrev pub pending_count : List (InventorySubmission D) → ℕ
  pending_count [] = 0
  pending_count (r ∷ rs) = (if is_pending_reconcile k r then 1 else 0) + pending_count rs

  pending_count-append :
      (rs : List (InventorySubmission D)) (r : InventorySubmission D)
      → pending_count (rs ++ r ∷ [])
        ≡ pending_count rs + (if is_pending_reconcile k r then 1 else 0)
  pending_count-append [] r = omega arith
  pending_count-append (x ∷ xs) r = omega (arith, pending_count-append xs r)

  pending_count-none :
      (rs : List (InventorySubmission D))
      → any (is_pending_reconcile k) rs ≡ false
      → pending_count rs ≡ 0
  pending_count-none [] h = refl
  pending_count-none (x ∷ xs) h = elim (Bool-cases (is_pending_reconcile k x)) [
    | inl here ↦ absurd (cc (rw here at h))
    | inr other ↦ rw other (omega (arith, pending_count-none xs (rw other at h)))
  ]

module _ {D F : Type 0} where
  -- When an inventory has at most one pending reconciliation and create_submission succeeds, for
  -- that inventory or for another, the inventory still has at most one.
  pub create_submission-pending_count :
      (ctx : Caller) (r row : InventorySubmission D) (s t : Store D F) (k : ℕ)
      → pending_count k s.submissions ≤ 1
      → create_submission ctx r s ≡ ok (row, t)
      → pending_count k t.submissions ≤ 1
  unfolding create_submission exists_active_pending
  create_submission-pending_count ctx r row s t k before h = elim (Option-cases ctx.user_email) [
    | inl missing ↦ absurd (cc (rw missing at h))
    | inr (email, there) ↦
        let h1 = rw there at h in
        elim (Bool-cases (
          is_pending_reconcile r.inventory_id r
          && any (is_pending_reconcile r.inventory_id) s.submissions)) [
            | inl taken ↦ absurd (cc (rw taken at h1))
            | inr free ↦
                let e = ok-injective (rw free at h1) in
                let made : InventorySubmission D = record r {
                  id = s.next_submission_id;
                  created_at = s.clock;
                } in
                let stored : s.submissions ++ made ∷ [] ≡ t.submissions =
                  ap (λ p. p.1.submissions) e in
                subst (λ rs. pending_count k rs ≤ 1) stored (room made free refl)
          ]
  ]
    where
      pending_at : is_pending_reconcile k r ≡ true → r.inventory_id ≡ k
      pending_at covered = elim (Bool-cases (r.inventory_id == k)) [
        | inl same ↦ (==_iff r.inventory_id k).0 same
        | inr other ↦ absurd (cc (rw other at covered))
      ]

      room :
          (made : InventorySubmission D)
          → (is_pending_reconcile r.inventory_id r
              && any (is_pending_reconcile r.inventory_id) s.submissions)
            ≡ false
          → is_pending_reconcile k made ≡ is_pending_reconcile k r
          → pending_count k (s.submissions ++ made ∷ []) ≤ 1
      room made free same = elim (Bool-cases (is_pending_reconcile k r)) [
        | inr other ↦ rw (pending_count-append, same, other) (omega (arith, before))
        | inl covered ↦
            let at_k : r.inventory_id ≡ k = pending_at covered in
            let clear =
              subst
                (λ i.
                  (is_pending_reconcile i r && any (is_pending_reconcile i) s.submissions) ≡ false)
                at_k free in
            let none_yet : any (is_pending_reconcile k) s.submissions ≡ false =
              rw covered at clear in
            rw (pending_count-append, same, covered)
              (omega (arith, pending_count-none k s.submissions none_yet))
      ]
