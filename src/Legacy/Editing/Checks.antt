-- ===== src/Legacy/Editing/Checks.antt =====
-- What the checks of `UpdateSubmission` accept.
use cim_backend.Prelude.{
  ℕ, ◌≡◌, ◌∙◌, refl, ap, sym, ok-injective, inl, inr, ◌⊎◌, true, false, Bool-cases, not, any, none,
  some, Option-cases, List, [], ◌∷◌, All, ok, Outcome-cases, Map, lookup,
}
use cim_backend.Decimal.{Decimal}
use cim_backend.Caller.{Caller}
use cim_backend.Models.Item.{InventoryItem}
use cim_backend.Models.Submission.{
  InventorySubmission, InventoryRequest, TransferRequest, QuantityItem, Payload, SubmissionType,
  get_item_ids, unmarshal, unmarshal_transfer, reconcile, dispose, transfer, unknown_type, request,
  transfer_request,
}
use cim_backend.Store.{Store, ◌>>=◌}
use cim_backend.Store.Items.{get_active_inventory_items, active_items_query, is_valid_item}
use cim_backend.Store.Submissions.{update_submission, update_submission_payload}
use cim_backend.Recon.Apply.{build_item_map}
use cim_backend.Legacy.Creation.{first_refusal, refuse_consume}
use cim_backend.Legacy.Covered.{IsCovered, first_refusal-refuse_consume_iff}
use cim_backend.Legacy.Editing.{
  Structs, same_struct, validate_consume_update, refuse_edited_count, validate_reconcile_update,
}

pub SubmissionType-cases :
    (k : SubmissionType) → (k ≡ reconcile) ⊎ (k ≡ dispose) ⊎ (k ≡ transfer) ⊎ (k ≡ unknown_type)
SubmissionType-cases reconcile = inl refl
SubmissionType-cases dispose = inr (inl refl)
SubmissionType-cases transfer = inr (inr (inl refl))
SubmissionType-cases unknown_type = inr (inr (inr refl))

abbrev pub with_payload : {D : Type 0} → Payload D → InventorySubmission D → InventorySubmission D
with_payload p r = record r { payload = p }

module _ {D : Type 0} where
  pub request_stored :
      (r : InventoryRequest D) (p : Payload D) → some (request r) ≡ some p → unmarshal p ≡ some r
  request_stored r p h = ap (λ o. elim o [ none ↦ none | some x ↦ unmarshal x ]) (sym h)

  pub transfer_stored :
      (r : TransferRequest D) (p : Payload D)
      → some (transfer_request r) ≡ some p
      → unmarshal_transfer p ≡ some r
  transfer_stored r p h = ap (λ o. elim o [ none ↦ none | some x ↦ unmarshal_transfer x ]) (sym h)

module _ {D F : Type 0} ⦃dec : Decimal D⦄ where
  get_active_inventory_items-reads :
      (inventory_id : ℕ) (ids : List ℕ) (s t : Store D F) (items : List (InventoryItem D F))
      → get_active_inventory_items inventory_id ids s ≡ ok (items, t)
      → s ≡ t
  unfolding get_active_inventory_items
  get_active_inventory_items-reads inventory_id ids s t items h =
      let rows = active_items_query inventory_id ids s in
      elim (Bool-cases (not (any (λ i. true) rows))) [
        | inl empty ↦ absurd (cc (rw empty at h))
        | inr full ↦
            let h1 = rw full at h in
            elim (Bool-cases (any (λ i. not (is_valid_item i)) rows)) [
              | inl invalid ↦ absurd (cc (rw invalid at h1))
              | inr valid ↦ ap (λ p. p.1) (ok-injective (rw valid at h1))
            ]
      ]

module _ {D F : Type 0} ⦃dec : Decimal D⦄ where
  -- The lines are covered by active items of an inventory, as the store has them.
  pub record AreCovered (inventory_id : ℕ) (lines : List (QuantityItem D)) (s : Store D F)
      : Type 0 where
    pub items : List (InventoryItem D F)
    pub read : get_active_inventory_items inventory_id (get_item_ids lines) s ≡ ok (items, s)
    pub covered : All (IsCovered (build_item_map items)) lines

  pub validate_consume_update-ok :
      (inventory_id : ℕ) (lines : List (QuantityItem D)) (s t : Store D F)
      → validate_consume_update inventory_id lines s ≡ ok (tt, t)
      → (s ≡ t) × AreCovered inventory_id lines s
  unfolding validate_consume_update
  validate_consume_update-ok inventory_id lines s t h =
      elim (Outcome-cases (get_active_inventory_items inventory_id (get_item_ids lines) s)) [
        | inr (e, bad) ↦ absurd (cc (rw (bad, ◌>>=◌) at h))
        | inl ((items, u), read) ↦
            let h1 = rw (read, ◌>>=◌) at h in
            let same =
              get_active_inventory_items-reads inventory_id (get_item_ids lines) s u items read in
            elim (Option-cases (first_refusal (refuse_consume (build_item_map items)) lines)) [
              | inr (e, bad) ↦ absurd (cc (rw bad at h1))
              | inl fine ↦ (
                same ∙ ap (λ p. p.1) (ok-injective (rw fine at h1)),
                record {
                  items = items;
                  read = read ∙ ap (λ v. ok (items, v)) (sym same);
                  covered = (first_refusal-refuse_consume_iff (build_item_map items) lines).0 fine;
                },
              )
            ]
      ]

  pub update_submission_payload-ok :
      (ctx : Caller) (id : ℕ) (p : Payload D) (s t : Store D F)
      → update_submission_payload ctx id p s ≡ ok (tt, t)
      → t ≡ update_submission id (with_payload p) s
  unfolding update_submission_payload
  update_submission_payload-ok ctx id p s t h = elim (Option-cases ctx.user_email) [
    | inl missing ↦ absurd (cc (rw missing at h))
    | inr (email, there) ↦ ap (λ q. q.1) (sym (ok-injective (rw there at h)))
  ]

module _ {D F : Type 0} ⦃dec : Decimal D⦄ (structs : Structs D F) where
  -- A count that is at most what the active item has on hand, whose quantity is the one that the
  -- line was counted from.
  pub record IsRecount (active : Map (InventoryItem D F)) (line : QuantityItem D) : Type 0 where
    pub item : InventoryItem D F
    pub counted : D
    pub there : lookup line.inventory_item_id active ≡ some item
    pub has_quantity : line.quantity ≡ some counted
    pub unchanged : same_struct (structs.of_quantity item) (structs.of_prev_quantity line) ≡ true
    pub enough : dec.greater_than counted item.quantity ≡ false

  refuse_edited_count-IsRecount :
      (active : Map (InventoryItem D F)) (line : QuantityItem D)
      → refuse_edited_count structs active line ≡ none
      → IsRecount active line
  unfolding refuse_edited_count
  refuse_edited_count-IsRecount active line h = elim (Option-cases line.quantity) [
    | inl missing ↦ absurd (cc (rw (missing, refuse_edited_count) at h))
    | inr (q, has) ↦
        let h1 = rw (has, refuse_edited_count) at h in
        elim (Option-cases (lookup line.inventory_item_id active)) [
          | inl missing ↦ absurd (cc (rw missing at h1))
          | inr (item, there) ↦
              let h2 = rw there at h1 in
              elim (Bool-cases
                (same_struct (structs.of_quantity item) (structs.of_prev_quantity line))) [
                  | inr changed ↦ absurd (cc (rw changed at h2))
                  | inl unchanged ↦
                      let h3 = rw unchanged at h2 in
                      elim (Bool-cases (dec.greater_than q item.quantity)) [
                        | inl over ↦ absurd (cc (rw over at h3))
                        | inr enough ↦ record {
                          item = item;
                          counted = q;
                          there = there;
                          has_quantity = has;
                          unchanged = unchanged;
                          enough = enough;
                        }
                      ]
                ]
        ]
  ]

  first_refusal-IsRecount :
      (active : Map (InventoryItem D F)) (lines : List (QuantityItem D))
      → first_refusal (refuse_edited_count structs active) lines ≡ none
      → All (IsRecount active) lines
  unfolding first_refusal
  first_refusal-IsRecount active [] h = tt
  first_refusal-IsRecount active (x ∷ xs) h =
      elim (Option-cases (refuse_edited_count structs active x)) [
        | inr (e, bad) ↦ absurd (cc (rw (bad, first_refusal) at h))
        | inl fine ↦ (
          refuse_edited_count-IsRecount active x fine,
          first_refusal-IsRecount active xs (rw (fine, first_refusal) at h),
        )
      ]

  -- The lines are counts of active items of an inventory, as the store has them.
  pub record AreRecounts (inventory_id : ℕ) (lines : List (QuantityItem D)) (s : Store D F)
      : Type 0 where
    pub items : List (InventoryItem D F)
    pub read : get_active_inventory_items inventory_id (get_item_ids lines) s ≡ ok (items, s)
    pub counts : All (IsRecount (build_item_map items)) lines

  pub validate_reconcile_update-ok :
      (inventory_id : ℕ) (lines : List (QuantityItem D)) (s t : Store D F)
      → validate_reconcile_update structs inventory_id lines s ≡ ok (tt, t)
      → (s ≡ t) × AreRecounts inventory_id lines s
  unfolding validate_reconcile_update
  validate_reconcile_update-ok inventory_id lines s t h =
      let ids = get_item_ids lines in
      elim (Outcome-cases (get_active_inventory_items inventory_id ids s)) [
        | inr (e, bad) ↦ absurd (cc (rw (bad, ◌>>=◌) at h))
        | inl ((items, u), read) ↦
            let h1 = rw (read, ◌>>=◌) at h in
            let check = first_refusal (refuse_edited_count structs (build_item_map items)) lines in
            elim (Option-cases check) [
              | inr (e, bad) ↦ absurd (cc (rw bad at h1))
              | inl fine ↦
                  let same = get_active_inventory_items-reads inventory_id ids s u items read in
                  (
                    same ∙ ap (λ p. p.1) (ok-injective (rw fine at h1)),
                    record {
                      items = items;
                      read = read ∙ ap (λ v. ok (items, v)) (sym same);
                      counts = first_refusal-IsRecount (build_item_map items) lines fine;
                    },
                  )
            ]
      ]
