-- ===== src/Orders/Booking/Applied.antt =====
-- What `ReceiveInventory` has done when it applied a delivery.
use cim_backend.Prelude.{
  Text, subst, ℕ, ◌≡◌, ap, inl, inr, false, Bool-cases, ◌==◌, some, Option-cases, length, ok,
  passed_test, and_then-eq-ok, ok-injective,
}
use cim_backend.Decimal.{Decimal}
use cim_backend.Caller.{Caller}
use cim_backend.Store.{Store}
use cim_backend.Orders.{PurchaseOrder, update_order_status}
use cim_backend.Orders.Receive.{
  OrderStore, DeliveryRequest, Delivery, join_rows, start_delivery, receive_lines,
}
use cim_backend.Orders.Booking.{
  receivable_order, is_applied, is_terminal, book_delivery, save_order, add_receipt, apply_delivery,
  receive_inventory,
}

module _ {D F : Type 0} where
  -- The order as it is before its status is updated.
  abbrev pub delivered_order :
      DeliveryRequest D → PurchaseOrder D F → OrderStore D F → Delivery D F → PurchaseOrder D F
  delivered_order req po s d = record po {
    items = d.items;
    confirmed_at = some s.stock.clock;
    confirmation_notes = req.confirmation_notes;
  }

module _ {D F : Type 0} ⦃dec : Decimal D⦄ (to_string : D → Text) where
  pub record Applied (ctx : Caller) (req : DeliveryRequest D) (s t : OrderStore D F)
      (after : PurchaseOrder D F) : Type 0 where
    pub po : PurchaseOrder D F
    pub found : receivable_order req.purchase_order_id s ≡ some po
    pub inventory : ℕ
    pub has_inventory : po.inventory_id ≡ some inventory
    pub not_terminal : is_terminal po ≡ false
    pub d : Delivery D F
    pub received :
        receive_lines to_string inventory
          (join_rows inventory s po.items)
          req.items
          (start_delivery (join_rows inventory s po.items))
        ≡ ok d
    pub stock : Store D F
    pub booked : book_delivery ctx inventory d s.stock ≡ ok stock
    pub updated : update_order_status (delivered_order req po s d) ≡ ok after
    pub stored :
        record s {
          orders = save_order after s.orders;
          receipts = add_receipt req s.receipts;
          stock = stock;
        }
        ≡ t

  apply_delivery-Applied :
      (ctx : Caller) (req : DeliveryRequest D) (inventory : ℕ) (po : PurchaseOrder D F)
      (s t : OrderStore D F) (after : PurchaseOrder D F)
      → receivable_order req.purchase_order_id s ≡ some po
      → po.inventory_id ≡ some inventory
      → is_terminal po ≡ false
      → apply_delivery to_string ctx req inventory po s ≡ ok (after, t)
      → Applied ctx req s t after
  unfolding apply_delivery
  apply_delivery-Applied ctx req inventory po s t after found there going h =
      let rows = join_rows inventory s po.items in
      let (full, h1) = passed_test (length rows == 0) _ _ _ h in
      let (d, received, h2) = and_then-eq-ok _ _ h1 in
      let (stock, booked, h3) = and_then-eq-ok _ _ h2 in
      let (a, updated, h4) = and_then-eq-ok _ _ h3 in
      let same : a ≡ after = ap (λ q. q.0) (ok-injective h4) in
      record {
        po = po;
        found = found;
        inventory = inventory;
        has_inventory = there;
        not_terminal = going;
        d = d;
        received = received;
        stock = stock;
        booked = booked;
        updated = subst (λ x. update_order_status (delivered_order req po s d) ≡ ok x) same updated;
        stored =
            subst
              (λ x.
                record s {
                  orders = save_order x s.orders;
                  receipts = add_receipt req s.receipts;
                  stock = stock;
                }
                ≡ t)
              same (ap (λ q. q.1) (ok-injective h4));
      }

  pub receive_inventory-Applied :
      (ctx : Caller) (req : DeliveryRequest D) (s t : OrderStore D F) (after : PurchaseOrder D F)
      → receive_inventory to_string ctx req s ≡ ok (after, t)
      → is_applied req s ≡ false
      → Applied ctx req s t after
  unfolding receive_inventory
  receive_inventory-Applied ctx req s t after h fresh =
      elim (Option-cases (receivable_order req.purchase_order_id s)) [
        | inl missing ↦ absurd (cc (rw (missing, receive_inventory) at h))
        | inr (po, found) ↦
            let h1 = rw (found, receive_inventory) at h in
            elim (Option-cases po.inventory_id) [
              | inl nowhere ↦ absurd (cc (rw nowhere at h1))
              | inr (inventory, there) ↦
                  let h2 = rw (there, fresh) at h1 in
                  elim (Bool-cases (is_terminal po)) [
                    | inl terminal ↦ absurd (cc (rw terminal at h2))
                    | inr going ↦
                        apply_delivery-Applied ctx req inventory po s t after found there going
                          (rw going at h2)
                  ]
            ]
      ]
