-- ===== src/Tests/Orders.antt =====
-- An order whose items are delivered.
use cim_backend.Prelude.{ℕ, none, some, ◌≡◌, ◌↔◌, refl, false, ℤ, pos, ok, err, [], ◌∷◌, All}
use cim_backend.Decimal.{int_decimal}
use cim_backend.Errors.{purchase_order_no_items, order_placed, partially_delivered, fully_delivered}
use cim_backend.Orders.{
  awaiting_delivery, item_partially_delivered, delivered, over_delivered, item_eq,
  PurchaseOrderItem, PurchaseOrder, item_status_after, update_order_status,
}
use cim_backend.Orders.Statuses.{update_order_status_iff, delivery_of, item_status_after-delivery}

abbrev half_received : PurchaseOrderItem ℤ ℕ
half_received = record {
  id = 1;
  is_deleted = false;
  product_id = 7;
  supplier_id = 2;
  unit_id = none;
  unit_price = 100;
  quantity = pos 8;
  received_quantity = pos 4;
  status = awaiting_delivery;
}

item_status_after-delivery_example : item_status_after half_received ≡ delivery_of (pos 4) (pos 8)
item_status_after-delivery_example = item_status_after-delivery half_received refl refl

abbrev received : PurchaseOrderItem ℤ ℕ
received = record half_received { received_quantity = pos 8; status = delivered }

abbrev placed_order : PurchaseOrder ℤ ℕ
placed_order = record {
  id = 4;
  inventory_id = some 3;
  notes = "";
  confirmed_at = none;
  confirmation_notes = "";
  status = order_placed;
  items = received ∷ record half_received { status = over_delivered } ∷ [];
}

abbrev delivered_order : PurchaseOrder ℤ ℕ
delivered_order = record placed_order { status = fully_delivered }

delivered_now : update_order_status placed_order ≡ ok delivered_order
unfolding update_order_status
delivered_now = refl

update_order_status_iff_example : (fully_delivered ≡ fully_delivered) ↔ (
    All (λ i. item_eq i.status awaiting_delivery ≡ false) placed_order.items
    × All (λ i. item_eq i.status item_partially_delivered ≡ false) placed_order.items)
update_order_status_iff_example =
    update_order_status_iff placed_order delivered_order delivered_now refl refl

-- More items are ordered later.
reopened_now :
    update_order_status (record delivered_order { items = received ∷ half_received ∷ [] })
    ≡ ok (record placed_order {
      status = partially_delivered;
      items = received ∷ half_received ∷ [];
    })
unfolding update_order_status
reopened_now = refl

empty_refused :
    update_order_status (record delivered_order { items = [] }) ≡ err purchase_order_no_items
unfolding update_order_status
empty_refused = refl
