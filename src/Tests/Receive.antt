-- ===== src/Tests/Receive.antt =====
-- An order whose delivery is received twice.
use cim_backend.Prelude.{
  split, Text, ℕ, none, some, ◌≡◌, ◌≢◌, ◌+◌, refl, true, false, ◌+ℤ◌, ℤ, pos, ok, err, List, [],
  ◌∷◌, All, arith,
}
use cim_backend.Decimal.{decimal_places, int_decimal, minus}
use cim_backend.Errors.{partially_delivered, fully_delivered, inventory_item_exists}
use cim_backend.Stock.Fifo.Conserved.{on_hand}
use cim_backend.Store.Items.{save_item}
use cim_backend.Orders.{
  awaiting_delivery, item_partially_delivered, PurchaseOrderItem, PurchaseOrder, item_status_after,
  update_order_status,
}
use cim_backend.Orders.Receive.{
  Product, OrderStore, DeliveryRequest, join_rows, receive_item, new_stock_item, take_line,
  receive_line, receive_lines,
}
use cim_backend.Orders.Booking.{
  create_items, book_delivery, read_order, receivable_order, apply_delivery, receive_inventory,
}
use cim_backend.Orders.Booking.Saved.{moved}
use cim_backend.Orders.Booking.Carried.{asked}
use cim_backend.Orders.Booking.Booked.{IsSound, receive_inventory-booked}
use cim_backend.Orders.Booking.Replayed.{receive_inventory-again}
use cim_backend.Orders.Booking.Items.{IsKnown}
use cim_backend.Orders.Booking.Outstanding.{receive_inventory-waits}
use cim_backend.Tests.Sample.{open_store, manager}

abbrev pub ordered : ℕ → ℕ → ℕ → PurchaseOrderItem ℤ ℕ
ordered id product quantity = record {
  id = id;
  is_deleted = false;
  product_id = product;
  supplier_id = 2;
  unit_id = some 1;
  unit_price = 100;
  quantity = pos quantity;
  received_quantity = pos 0;
  status = awaiting_delivery;
}

-- Rice is in stock and half of it has come, tea is new, and salt was removed from the order.
abbrev rice_item : PurchaseOrderItem ℤ ℕ
rice_item = record (ordered 1 7 8) { received_quantity = pos 4; status = item_partially_delivered }

abbrev pub salt_item : PurchaseOrderItem ℤ ℕ
salt_item = record (ordered 3 8 6) { is_deleted = true }

abbrev pub ordered_items : List (PurchaseOrderItem ℤ ℕ)
ordered_items = rice_item ∷ ordered 2 9 5 ∷ salt_item ∷ []

abbrev pub order_four : PurchaseOrder ℤ ℕ
order_four = record {
  id = 4;
  inventory_id = some 3;
  status = partially_delivered;
  notes = "";
  confirmed_at = none;
  confirmation_notes = "";
  items = ordered_items;
}

abbrev product_of : ℕ → Product
product_of id = record { id = id; unit_id = 1; decimal_places = 0 }

abbrev pub orders : OrderStore ℤ ℕ
orders = record {
  orders = order_four ∷ [];
  products = product_of 7 ∷ product_of 8 ∷ product_of 9 ∷ [];
  receipts = [];
  next_order_item_id = 4;
  stock = open_store;
}

abbrev delivery : DeliveryRequest ℤ
delivery = record {
  purchase_order_id = 4;
  items =
      record { id = 1; received_quantity = pos 4 }
      ∷ record { id = 2; received_quantity = pos 5 }
      ∷ [];
  confirmation_notes = "at noon";
  idempotency_key = "key";
}

-- A digit and no point.
abbrev whole_numbers : ℤ → Text
whole_numbers d = 48 ∷ []

abbrev after_delivery : PurchaseOrder ℤ ℕ × OrderStore ℤ ℕ
after_delivery = elim (receive_inventory whole_numbers manager delivery orders) [
  | ok done ↦ done
  | err e ↦ (order_four, orders)
]

received_now :
    receive_inventory whole_numbers manager delivery orders
    ≡ ok (after_delivery.0, after_delivery.1)
unfolding decimal_places split receive_inventory receivable_order apply_delivery join_rows
    receive_lines receive_line book_delivery take_line create_items new_stock_item
    update_order_status
received_now = refl

-- Every live item is delivered, but the order is not.
short_of_salt : after_delivery.0.status ≡ partially_delivered
unfolding decimal_places split receive_inventory receivable_order apply_delivery join_rows
    receive_lines receive_line book_delivery take_line create_items new_stock_item
    update_order_status receive_item item_status_after ◌+ℤ◌
short_of_salt = refl

open_store-IsSound : IsSound open_store
unfolding minus
open_store-IsSound = record {
  distinct = (refl, (refl, tt));
  under = (omega arith, (omega arith, tt));
  stocked = (refl, (refl, tt));
}

receive_inventory-booked_example :
    (on_hand after_delivery.1.stock.items ≡ on_hand open_store.items + asked delivery.items)
    × (moved after_delivery.1.stock.transactions
        ≡ moved open_store.transactions + asked delivery.items)
receive_inventory-booked_example =
    receive_inventory-booked whole_numbers manager delivery orders after_delivery.1 after_delivery.0
      open_store-IsSound refl received_now

receive_inventory-again_example :
    receive_inventory whole_numbers manager delivery after_delivery.1
    ≡ ok (read_order after_delivery.0, after_delivery.1)
receive_inventory-again_example =
    receive_inventory-again whole_numbers manager manager delivery orders after_delivery.1
      after_delivery.0 refl received_now

found_four : receivable_order 4 orders ≡ some order_four
unfolding receivable_order
found_four = refl

ordered_items-IsKnown : All (IsKnown orders.products) ordered_items
ordered_items-IsKnown = ((product_of 7, refl), ((product_of 9, refl), ((product_of 8, refl), tt)))

no_negatives : All (λ (i : PurchaseOrderItem ℤ ℕ). minus i.received_quantity ≡ 0) ordered_items
unfolding minus
no_negatives = (refl, (refl, (refl, tt)))

receive_inventory-waits_example : after_delivery.0.status ≢ fully_delivered
receive_inventory-waits_example =
    receive_inventory-waits whole_numbers manager delivery orders after_delivery.1 order_four
      after_delivery.0 salt_item found_four ordered_items-IsKnown no_negatives refl refl refl refl
      received_now

-- Tea, which is not in stock yet, is ordered from two suppliers and comes in one delivery.
tea_twice :
    receive_inventory whole_numbers manager
      (record delivery {
        items =
            record { id = 2; received_quantity = pos 5 }
            ∷ record { id = 4; received_quantity = pos 1 }
            ∷ [];
      })
      (record orders {
        orders =
            record order_four {
              items = ordered 2 9 5 ∷ record (ordered 4 9 1) { supplier_id = 3 } ∷ [];
            }
            ∷ [];
      })
    ≡ err (inventory_item_exists 3 9)
unfolding decimal_places split receive_inventory receivable_order apply_delivery join_rows
    receive_lines receive_line book_delivery take_line create_items new_stock_item save_item
tea_twice = refl
