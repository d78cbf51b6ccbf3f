-- ===== src/Tests/Editing.antt =====
-- Pending submissions whose items are replaced.
use cim_backend.Prelude.{
  pos, ℕ, ok, lookup, put, sort_stable, insert_sorted, insert_all, ◌+ℤ◌, ◌-ℤ◌, ◌≡◌, refl, ℤ, [],
  ◌∷◌, List, err,
}
use cim_backend.Errors.{optimistic_lock_conflict}
use cim_backend.Models.Submission.{InventorySubmission, QuantityItem, reconcile}
use cim_backend.Store.{Store}
use cim_backend.Store.Submissions.{
  submission_by_id, snapshots_exist, update_submission, update_submission_payload,
}
use cim_backend.Store.Items.{populate, active_items_query, get_active_inventory_items}
use cim_backend.Models.Transaction.{is_consumable}
use cim_backend.Models.Item.{unconsumed, validate_active_purchase_transactions}
use cim_backend.Recon.Apply.{build_item_map}
use cim_backend.Legacy.Approval.{guard_not_initiated_reconcile}
use cim_backend.Legacy.Creation.{first_refusal, refuse_consume, require_consume_quantity}
use cim_backend.Legacy.Editing.{
  Structs, validate_reconcile_update, refuse_edited_count, update_submission_items, write_items,
  validate_update, validate_consume_update, updated_payload,
}
use cim_backend.Legacy.Editing.Edited.{Updated, update_submission_items-Updated}
use cim_backend.Tests.Sample.{nat_float, line_of}
use cim_backend.Decimal.{int_decimal}
use cim_backend.Tests.Legacy.{approver, disposal_of, store_of}

-- The query and the decoding make structs of their own.
abbrev apart : Structs ℤ ℕ
apart = record {
  of_quantity = λ i. record { pointer = 1; exponent = pos 0 };
  of_prev_quantity = λ l. record { pointer = 2; exponent = pos 0 };
}

-- Three of the rice in place of five.
abbrev three_of_rice : List (QuantityItem ℤ)
three_of_rice = line_of 7 3 0 ∷ []

update_submission_items-Updated_example :
    Updated apart 5 three_of_rice
      (store_of 5)
      (update_submission_items apart approver 5 three_of_rice (store_of 5))
update_submission_items-Updated_example =
    update_submission_items-Updated apart approver 5 three_of_rice (store_of 5)

abbrev edited_row : InventorySubmission ℤ
edited_row = disposal_of 3

edited_now :
    update_submission_items apart approver 5 three_of_rice (store_of 5)
    ≡ (ok edited_row, store_of 3)
unfolding update_submission_items write_items validate_update validate_consume_update
    updated_payload update_submission_payload update_submission guard_not_initiated_reconcile
    submission_by_id snapshots_exist put lookup sort_stable insert_sorted insert_all ◌+ℤ◌ ◌-ℤ◌
    get_active_inventory_items active_items_query populate unconsumed is_consumable
    validate_active_purchase_transactions first_refusal refuse_consume require_consume_quantity
    build_item_map
edited_now = refl

-- Submission 5 as a count of the rice.
abbrev count_row : InventorySubmission ℤ
count_row = record (disposal_of 4) { submission_type = reconcile }

abbrev count_store : Store ℤ ℕ
count_store = record (store_of 4) { submissions = count_row ∷ [] }

-- The count is corrected to three, with the quantity on hand that the caller saw.
conflict_now :
    update_submission_items apart approver 5 (line_of 7 3 7 ∷ []) count_store
    ≡ (err (optimistic_lock_conflict 7), count_store)
unfolding validate_reconcile_update refuse_edited_count update_submission_items write_items
    validate_update validate_consume_update updated_payload update_submission_payload
    update_submission guard_not_initiated_reconcile submission_by_id snapshots_exist put lookup
    sort_stable insert_sorted insert_all ◌+ℤ◌ ◌-ℤ◌ get_active_inventory_items active_items_query
    populate unconsumed is_consumable validate_active_purchase_transactions first_refusal
    refuse_consume require_consume_quantity build_item_map
conflict_now = refl
