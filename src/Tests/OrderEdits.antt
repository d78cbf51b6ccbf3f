-- ===== src/Tests/OrderEdits.antt =====
-- An order that is edited.
use cim_backend.Prelude.{ℕ, some, ◌≡◌, ◌==◌, refl, Bool, true, find, ℤ, pos, ok, err, List, [], ◌∷◌}
use cim_backend.Decimal.{int_decimal}
use cim_backend.Errors.{
  failed_to_save_purchase_order_item, received_quantity_greater_than_updated,
  cannot_delete_item_with_received_quantity,
}
use cim_backend.Orders.{
  delivered, PurchaseOrderItem, PurchaseOrder, item_status_after, update_order_status,
}
use cim_backend.Orders.Booking.{read_order}
use cim_backend.Orders.Edit.{
  EditItem, EditRequest, update_purchase_order, removed_ids, existing_item, edit_lines,
  edit_existing, edit_item, save_edit, create_order_items, edit_new, new_order_item,
}
use cim_backend.Orders.Edit.Left.{AllKept}
use cim_backend.Orders.Edit.Ordered.{AllOrdered}
use cim_backend.Orders.Edit.Kept.{update_purchase_order-Kept}
use cim_backend.Tests.Sample.{manager}
use cim_backend.Tests.Receive.{ordered, salt_item, ordered_items, order_four, orders}

abbrev edit_of : ℕ → ℕ → EditItem ℤ ℕ
edit_of product quantity = record {
  supplier_id = 2;
  product_id = product;
  unit_id = some 1;
  quantity = pos quantity;
  unit_price = 100;
}

-- Less rice, no tea, and milk.
abbrev edit : EditRequest ℤ ℕ
edit = record { notes = "milk"; items = edit_of 7 4 ∷ edit_of 10 3 ∷ [] }

abbrev same_number : ℕ → ℕ → Bool
same_number a b = a == b

abbrev edited_items : List (PurchaseOrderItem ℤ ℕ)
edited_items =
    record (ordered 1 7 4) { received_quantity = pos 4; status = delivered }
    ∷ record (ordered 2 9 5) { is_deleted = true }
    ∷ salt_item
    ∷ ordered 4 10 3
    ∷ []

abbrev edited_four : PurchaseOrder ℤ ℕ
edited_four = record order_four { notes = "milk"; items = edited_items }

edited_now :
    update_purchase_order same_number manager 4 edit orders
    ≡ ok (
      read_order edited_four,
      record orders { orders = edited_four ∷ []; next_order_item_id = 5 },
    )
unfolding update_purchase_order removed_ids existing_item edit_lines edit_existing edit_item
    save_edit create_order_items edit_new new_order_item update_order_status item_status_after
edited_now = refl

update_purchase_order-Kept_example :
    (stored : PurchaseOrder ℤ ℕ) × (find (λ o. o.id == 4) (edited_four ∷ []) ≡ some stored)
    × (read_order stored ≡ read_order edited_four)
    × AllKept ordered_items stored.items
    × AllOrdered ordered_items ordered_items stored.items
update_purchase_order-Kept_example =
    update_purchase_order-Kept same_number manager 4 edit orders
      (record orders { orders = edited_four ∷ []; next_order_item_id = 5 }) order_four
      (read_order edited_four) refl (refl, (refl, (refl, tt))) edited_now

-- Salt, which was removed from the order, cannot be ordered again.
salt_again :
    update_purchase_order same_number manager 4
      (record edit { items = edit_of 7 4 ∷ edit_of 8 6 ∷ [] })
      orders
    ≡ err (failed_to_save_purchase_order_item 2 8)
unfolding update_purchase_order removed_ids existing_item edit_lines edit_existing edit_item
    save_edit create_order_items edit_new new_order_item
salt_again = refl

-- Of the rice, 4 have come.
too_little_rice :
    update_purchase_order same_number manager 4 (record edit { items = edit_of 7 3 ∷ [] }) orders
    ≡ err (received_quantity_greater_than_updated 7 2)
unfolding update_purchase_order removed_ids existing_item edit_lines edit_existing
too_little_rice = refl

rice_kept :
    update_purchase_order same_number manager 4 (record edit { items = edit_of 9 5 ∷ [] }) orders
    ≡ err cannot_delete_item_with_received_quantity
unfolding update_purchase_order removed_ids existing_item
rice_kept = refl
