-- ===== src/Orders/Booking/Outstanding.antt =====
-- An order with an item that still awaits its delivery.
use cim_backend.Prelude.{
  Text, ◌≡◌, ◌≢◌, ◌∙◌, refl, ap, sym, subst, inl, inr, true, false, Bool-cases, ◌==◌, some, List,
  [], ◌∷◌, find, All, ok, arith,
}
use cim_backend.Decimal.{Decimal, minus}
use cim_backend.Caller.{Caller}
use cim_backend.Errors.{fully_delivered}
use cim_backend.Orders.{
  PurchaseOrderItem, PurchaseOrder, awaiting_delivery, item_partially_delivered, delivered,
  over_delivered, has_item, next_status, update_order_status,
}
use cim_backend.Orders.Flags.{next_status-waits}
use cim_backend.Orders.Statuses.{update_order_status-next}
use cim_backend.Orders.Receive.{OrderStore, ReceivedItem, DeliveryRequest}
use cim_backend.Orders.Booking.{receivable_order, is_applied, receive_inventory}
use cim_backend.Orders.Booking.Applied.{delivered_order, receive_inventory-Applied}
use cim_backend.Orders.Booking.Lines.{is_named}
use cim_backend.Orders.Booking.Items.{AllFollow, IsKnown, receive_inventory-items}

module _ {D F : Type 0} ⦃dec : Decimal D⦄ where
  AllFollow-waits :
      (lines : List (ReceivedItem D)) (is js : List (PurchaseOrderItem D F))
      (i : PurchaseOrderItem D F)
      → AllFollow lines is js
      → find (λ j. j.id == i.id) is ≡ some i
      → i.status ≡ awaiting_delivery
      → is_named i.id lines ≡ false
      → has_item awaiting_delivery js ≡ true
  AllFollow-waits lines [] js i all found waits unnamed = absurd (cc)
  AllFollow-waits lines (x ∷ is) [] i all found waits unnamed = absurd all
  AllFollow-waits lines (x ∷ is) (y ∷ js) i (here, all) found waits unnamed =
      elim (Bool-cases (x.id == i.id)) [
        | inl first ↦
            let same : x ≡ i = cc (rw first at found) in
            let kept =
              here.unnamed (
                subst (λ (z : PurchaseOrderItem D F). is_named z.id lines ≡ false) (sym same)
                  unnamed)
              ∙ same in
            rw (ap (λ (z : PurchaseOrderItem D F). z.status) kept ∙ waits) refl
        | inr later ↦
            rw (AllFollow-waits lines is js i all (rw later at found) waits unnamed) (ground arith)
      ]

  update_order_status-waits :
      (po after : PurchaseOrder D F)
      → update_order_status po ≡ ok after
      → has_item awaiting_delivery after.items ≡ true
      → after.status ≢ fully_delivered
  update_order_status-waits po after h waits full =
      let (some_items, same) = update_order_status-next po after h in
      let items = ap (λ (x : PurchaseOrder D F). x.items) same in
      let status = ap (λ (x : PurchaseOrder D F). x.status) same in
      next_status-waits po.status (has_item item_partially_delivered po.items)
        (has_item delivered po.items) (has_item over_delivered po.items)
        (ap
            (λ a.
              next_status po.status a (has_item item_partially_delivered po.items)
                (has_item delivered po.items) (has_item over_delivered po.items))
            (sym (ap (has_item awaiting_delivery) items ∙ waits))
          ∙ status
          ∙ full)

  -- An item of the order that awaits its delivery and that no line of the delivery names keeps the
  -- order from becoming fully delivered, whether the item is deleted or not; the items are of known
  -- products and have received no negative quantities.
  pub receive_inventory-waits :
      (to_string : D → Text) (ctx : Caller) (req : DeliveryRequest D) (s t : OrderStore D F)
      (po after : PurchaseOrder D F) (i : PurchaseOrderItem D F)
      → receivable_order req.purchase_order_id s ≡ some po
      → All (IsKnown s.products) po.items
      → All (λ j. minus j.received_quantity ≡ 0) po.items
      → find (λ j. j.id == i.id) po.items ≡ some i
      → i.status ≡ awaiting_delivery
      → is_named i.id req.items ≡ false
      → is_applied req s ≡ false
      → receive_inventory to_string ctx req s ≡ ok (after, t)
      → after.status ≢ fully_delivered
  receive_inventory-waits to_string ctx req s t po after i found known gained there waits unnamed
        fresh h =
      let a = receive_inventory-Applied to_string ctx req s t after h fresh in
      update_order_status-waits (delivered_order req a.po s a.d) after a.updated (
        AllFollow-waits req.items po.items after.items i
          (receive_inventory-items to_string ctx req s t po after found known gained fresh h) there
          waits unnamed)
