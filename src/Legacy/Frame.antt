-- ===== src/Legacy/Frame.antt =====
-- What the operations leave of the submissions.
use cim_backend.Prelude.{
  ℕ, ◌≡◌, ◌++◌, ◌∙◌, refl, subst, inl, inr, Bool, true, false, any, not, Bool-cases, none, some,
  Option-cases, List, [], ◌∷◌, Outcome, ok, err, Outcome-cases, if◌then◌else◌,
}
use cim_backend.Decimal.{Decimal}
use cim_backend.Errors.{AppError, unmarshal_payload, unknown_submission_type, has_any_errors}
use cim_backend.Caller.{Caller}
use cim_backend.Models.Item.{InventoryItem, InventoryItemChange}
use cim_backend.Models.Submission.{
  InventorySubmission, InventoryRequest, TransferRequest, get_item_ids, unmarshal,
  unmarshal_transfer, reconcile, dispose, transfer, unknown_type,
}
use cim_backend.Stock.Fifo.{Consumed}
use cim_backend.Store.{Store}
use cim_backend.Store.Keeps.{
  KeepsFrom, save_inventory_item_changes-Keeps, get_active_inventory_items-Keeps,
}
use cim_backend.Store.Items.{is_valid_item, get_active_inventory_items, save_inventory_item_changes}
use cim_backend.Recon.Apply.{build_item_map}
use cim_backend.Legacy.{
  checked, transfer_line, active_products_query, product_ids, destination_changes, save_consumed,
  reconcile_inventory, dispose_inventory, transfer_inventory, run_operation,
}

module _ {D F : Type 0} ⦃dec : Decimal D⦄ where
  pub save_consumed-submissions :
      {S : Type 0} (ctx : Caller) (kept : S → List (InventoryItemChange D F))
      (o : Outcome (List AppError) (Consumed S D F)) (s : Store D F)
      → (save_consumed ctx kept o s).1.submissions ≡ s.submissions
  unfolding save_consumed
  save_consumed-submissions ctx kept (err errors) s = refl
  save_consumed-submissions ctx kept (ok c) s =
      let changes = c.changes ++ kept c.handler_state in
      elim (Outcome-cases (save_inventory_item_changes ctx changes c.txns s)) [
        | inr (e, bad) ↦ rw (bad, save_consumed) refl
        | inl ((_, t), saved) ↦
            let same =
              subst (KeepsFrom s) saved
                ((save_inventory_item_changes-Keeps ctx changes c.txns).run s) in
            rw (saved, save_consumed) same
      ]

  -- Reading the items of an inventory changes nothing.
  active_items-same :
      (inventory_id : ℕ) (ids : List ℕ) (s t : Store D F) (items : List (InventoryItem D F))
      → get_active_inventory_items inventory_id ids s ≡ ok (items, t)
      → t.submissions ≡ s.submissions
  active_items-same inventory_id ids s t items read =
      subst (KeepsFrom s) read ((get_active_inventory_items-Keeps inventory_id ids).run s)

  either :
      (b : Bool) (x y : List AppError × Store D F) (rows : List (InventorySubmission D))
      → x.1.submissions ≡ rows
      → y.1.submissions ≡ rows
      → (if b then x else y).1.submissions ≡ rows
  either true x y rows hx hy = hx
  either false x y rows hx hy = hy

  reconcile_inventory-submissions :
      (ctx : Caller) (req : InventoryRequest D) (s : Store D F)
      → (reconcile_inventory ctx req s).1.submissions ≡ s.submissions
  unfolding reconcile_inventory
  reconcile_inventory-submissions ctx req s =
      elim (Outcome-cases
        (get_active_inventory_items req.inventory_id (get_item_ids req.items) s)) [
          | inr (e, bad) ↦ rw (bad, reconcile_inventory) refl
          | inl ((items, t), read) ↦
              let same =
                active_items-same req.inventory_id (get_item_ids req.items) s t items read in
              rw (read, reconcile_inventory)
                (either _ _ _ s.submissions same (save_consumed-submissions ctx _ _ t ∙ same))
        ]

  dispose_inventory-submissions :
      (ctx : Caller) (req : InventoryRequest D) (s : Store D F)
      → (dispose_inventory ctx req s).1.submissions ≡ s.submissions
  unfolding dispose_inventory
  dispose_inventory-submissions ctx req s =
      elim (Outcome-cases
        (get_active_inventory_items req.inventory_id (get_item_ids req.items) s)) [
          | inr (e, bad) ↦ rw (bad, dispose_inventory) refl
          | inl ((items, t), read) ↦
              let same =
                active_items-same req.inventory_id (get_item_ids req.items) s t items read in
              rw (read, dispose_inventory)
                (either _ _ _ s.submissions same (save_consumed-submissions ctx _ _ t ∙ same))
        ]

  transfer_inventory-submissions :
      (ctx : Caller) (req : TransferRequest D) (s : Store D F)
      → (transfer_inventory ctx req s).1.submissions ≡ s.submissions
  unfolding transfer_inventory
  transfer_inventory-submissions ctx req s =
      let ids = get_item_ids req.items in
      elim (Outcome-cases (get_active_inventory_items req.source_inventory_id ids s)) [
        | inr (e, bad) ↦ rw (bad, transfer_inventory) refl
        | inl ((items, t), read) ↦
            let same = active_items-same req.source_inventory_id ids s t items read in
            let c = checked (transfer_line (build_item_map items)) req.items in
            let dest_items =
              active_products_query req.destination_inventory_id
                (product_ids (build_item_map items) req.items) t in
            elim (Bool-cases (has_any_errors c.errors)) [
              | inl bad ↦ rw (read, transfer_inventory, bad) same
              | inr fine ↦ elim (Bool-cases (any (λ i. not (is_valid_item i)) dest_items)) [
                | inl invalid ↦ rw (read, transfer_inventory, fine, invalid) same
                | inr good ↦
                    rw (read, transfer_inventory, fine, good)
                      (save_consumed-submissions ctx destination_changes _ t ∙ same)
              ]
            ]
      ]

  -- An operation writes no submission.
  pub run_operation-submissions :
      (ctx : Caller) (r : InventorySubmission D) (s : Store D F)
      → (run_operation ctx r s).1.submissions ≡ s.submissions
  unfolding run_operation
  run_operation-submissions ctx r s =
      elim r.submission_type
        as (λ k.
          (elim k as (λ _. List AppError × Store D F) [
            | reconcile ↦ elim (unmarshal r.payload) [
              | none ↦ (unmarshal_payload ∷ [], s)
              | some req ↦ reconcile_inventory ctx req s
            ]
            | dispose ↦ elim (unmarshal r.payload) [
              | none ↦ (unmarshal_payload ∷ [], s)
              | some req ↦ dispose_inventory ctx req s
            ]
            | transfer ↦ elim (unmarshal_transfer r.payload) [
              | none ↦ (unmarshal_payload ∷ [], s)
              | some req ↦ transfer_inventory ctx req s
            ]
            | unknown_type ↦ (unknown_submission_type ∷ [], s)
          ]).1.submissions
          ≡ s.submissions) [
            | reconcile ↦ elim (Option-cases (unmarshal r.payload)) [
              | inl bad ↦ rw bad refl
              | inr (req, there) ↦ rw there (reconcile_inventory-submissions ctx req s)
            ]
            | dispose ↦ elim (Option-cases (unmarshal r.payload)) [
              | inl bad ↦ rw bad refl
              | inr (req, there) ↦ rw there (dispose_inventory-submissions ctx req s)
            ]
            | transfer ↦ elim (Option-cases (unmarshal_transfer r.payload)) [
              | inl bad ↦ rw bad refl
              | inr (req, there) ↦ rw there (transfer_inventory-submissions ctx req s)
            ]
            | unknown_type ↦ refl
          ]
