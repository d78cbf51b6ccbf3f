-- ===== src/Orders/Booking/Replayed.antt =====
-- A delivery that is received again under its key.
use cim_backend.Prelude.{
  Text, ℕ, String, ◌≡◌, ◌∙◌, refl, ap, sym, subst, inl, inr, Bool, true, false, Bool-cases, ◌&&◌,
  not, ◌==◌, ==_refl, ==_iff, str_eq, str_eq_iff, some, Option-cases, List, [], ◌∷◌, find,
  find-holds, any, any-append, select, ok, ok-injective, arith,
}
use cim_backend.Decimal.{Decimal}
use cim_backend.Caller.{Caller}
use cim_backend.Errors.{cancelled, order_eq}
use cim_backend.Orders.{
  PurchaseOrder, PurchaseOrderItem, update_order_status, has_item, awaiting_delivery,
  item_partially_delivered, delivered, over_delivered,
}
use cim_backend.Orders.Flags.{next_status-live}
use cim_backend.Orders.Statuses.{update_order_status-next}
use cim_backend.Orders.Receive.{OrderStore, DeliveryRequest}
use cim_backend.Orders.Booking.{
  receivable_order, is_applied, read_order, save_order, add_receipt, receive_inventory,
}
use cim_backend.Orders.Booking.Applied.{delivered_order, Applied, receive_inventory-Applied}

select-again : {A : Type 0} (p : A → Bool) (xs : List A) → select p (select p xs) ≡ select p xs
select-again p [] = refl
select-again p (x ∷ xs) = elim (Bool-cases (p x)) [
  | inl kept ↦ rw (kept, kept, select-again p xs) refl
  | inr left ↦ rw (left, select-again p xs) refl
]

&&-sides : (a b : Bool) → (a && b) ≡ true → (a ≡ true) × (b ≡ true)
&&-sides true b h = (refl, h)
&&-sides false b h = absurd (cc)

module _ {D F : Type 0} where
  -- The test of the row that is looked for.
  abbrev is_receivable : ℕ → PurchaseOrder D F → Bool
  is_receivable id o = o.id == id && not (order_eq o.status cancelled)

  receivable_order-save_order :
      (after po : PurchaseOrder D F) (orders : List (PurchaseOrder D F))
      → not (order_eq after.status cancelled) ≡ true
      → find (is_receivable after.id) orders ≡ some po
      → find (is_receivable after.id) (save_order after orders) ≡ some after
  receivable_order-save_order after po [] live h = absurd (cc)
  receivable_order-save_order after po (o ∷ os) live h = elim (Bool-cases (o.id == after.id)) [
    | inl here ↦ rw (here, ==_refl after.id, live) refl
    | inr other ↦ rw (other, other) (receivable_order-save_order after po os live (rw other at h))
  ]

  update_order_status-kept :
      (po after : PurchaseOrder D F)
      → update_order_status po ≡ ok after
      → (after.id ≡ po.id)
        × (after.inventory_id ≡ po.inventory_id)
        × (not (order_eq po.status cancelled) ≡ true → not (order_eq after.status cancelled) ≡ true)
  update_order_status-kept po after h =
      let items = po.items in
      rw (← (update_order_status-next po after h).1) (
        refl,
        refl,
        λ live.
            next_status-live po.status (has_item awaiting_delivery items)
              (has_item item_partially_delivered items) (has_item delivered items)
              (has_item over_delivered items) live,
      )

module _ {D : Type 0} where
  add_receipt-recorded :
      (req : DeliveryRequest D) (receipts : List (ℕ × String))
      → str_eq req.idempotency_key "" ≡ false
      → any
          (λ r. r.0 == req.purchase_order_id && str_eq r.1 req.idempotency_key)
          (add_receipt req receipts)
        ≡ true
  unfolding add_receipt
  add_receipt-recorded req receipts keyed =
      rw (keyed, add_receipt)
        (any-append _ receipts _
          ∙ rw (==_refl req.purchase_order_id, str_refl req.idempotency_key) (ground arith))
    where
      str_refl : (k : String) → str_eq k k ≡ true
      str_refl k = (str_eq_iff k k).1 refl

module _ {D F : Type 0} ⦃dec : Decimal D⦄ (to_string : D → Text) where
  received_again :
      (ctx : Caller) (req : DeliveryRequest D) (s : OrderStore D F) (po : PurchaseOrder D F)
      (inventory : ℕ)
      → receivable_order req.purchase_order_id s ≡ some po
      → po.inventory_id ≡ some inventory
      → is_applied req s ≡ true
      → receive_inventory to_string ctx req s ≡ ok (read_order po, s)
  unfolding receive_inventory
  received_again ctx req s po inventory found there applied =
      simp (receive_inventory, found, there, applied) refl

  read_order-again : (po : PurchaseOrder D F) → read_order (read_order po) ≡ read_order po
  read_order-again po =
      ap (λ (l : List (PurchaseOrderItem D F)). record po { items = l })
        (select-again (λ (i : PurchaseOrderItem D F). not i.is_deleted) po.items)

  replayed_order :
      (ctx : Caller) (req : DeliveryRequest D) (s t : OrderStore D F) (after : PurchaseOrder D F)
      → is_applied req s ≡ true
      → receive_inventory to_string ctx req s ≡ ok (after, t)
      → (po : PurchaseOrder D F) × (inventory : ℕ) × (receivable_order req.purchase_order_id s
          ≡ some po)
        × (po.inventory_id ≡ some inventory)
        × (read_order po ≡ after)
        × (s ≡ t)
  unfolding receive_inventory
  replayed_order ctx req s t after applied h =
      elim (Option-cases (receivable_order req.purchase_order_id s)) [
        | inl missing ↦ absurd (cc (rw (missing, receive_inventory) at h))
        | inr (po, found) ↦
            let h1 = rw (found, receive_inventory) at h in
            elim (Option-cases po.inventory_id) [
              | inl nowhere ↦ absurd (cc (simp nowhere at h1))
              | inr (inventory, there) ↦
                  let h2 =
                    ok-injective
                      (sym (received_again ctx req s po inventory found there applied) ∙ h) in
                  (po, inventory, found, there, ap (λ q. q.0) h2, ap (λ q. q.1) h2)
            ]
      ]

  Applied-recorded :
      (ctx : Caller) (req : DeliveryRequest D) (s t : OrderStore D F) (after : PurchaseOrder D F)
      → str_eq req.idempotency_key "" ≡ false
      → Applied to_string ctx req s t after
      → (inventory : ℕ) × (receivable_order req.purchase_order_id t ≡ some after)
        × (after.inventory_id ≡ some inventory)
        × (is_applied req t ≡ true)
  unfolding receivable_order
  Applied-recorded ctx req s t after keyed a =
      let saved = delivered_order req a.po s a.d in
      let (same_id, same_inventory, live) = update_order_status-kept saved after a.updated in
      let (its_id, going) =
        &&-sides _ _ (find-holds (is_receivable req.purchase_order_id) s.orders a.po a.found) in
      let same : after.id ≡ req.purchase_order_id =
        same_id ∙ (==_iff a.po.id req.purchase_order_id).0 its_id in
      let found = subst (λ k. find (is_receivable k) s.orders ≡ some a.po) (sym same) a.found in
      let kept = receivable_order-save_order after a.po s.orders (live going) found in
      let here =
        subst (λ k. find (is_receivable k) (save_order after s.orders) ≡ some after) same kept in
      (
        a.inventory,
        ap (λ (x : OrderStore D F). find (is_receivable req.purchase_order_id) x.orders)
              (sym a.stored)
            ∙ here,
        same_inventory ∙ a.has_inventory,
        ap (λ (x : OrderStore D F). is_applied req x) (sym a.stored)
            ∙ rw (keyed) (add_receipt-recorded req s.receipts keyed),
      )

  -- Once a delivery is received under a key, receiving it again, by any caller, changes nothing in
  -- the tables and answers with the order that the first time answered with, read without its
  -- deleted items.
  pub receive_inventory-again :
      (ctx again : Caller) (req : DeliveryRequest D) (s t : OrderStore D F)
      (after : PurchaseOrder D F)
      → str_eq req.idempotency_key "" ≡ false
      → receive_inventory to_string ctx req s ≡ ok (after, t)
      → receive_inventory to_string again req t ≡ ok (read_order after, t)
  receive_inventory-again ctx again req s t after keyed h = elim (Bool-cases (is_applied req s)) [
    | inl applied ↦
        let (po, inventory, found, there, same, stayed) =
          replayed_order ctx req s t after applied h in
        let replay = received_again again req s po inventory found there applied in
        subst
          (λ (x : PurchaseOrder D F × OrderStore D F).
            receive_inventory to_string again req x.1 ≡ ok (read_order x.0, x.1))
          (ap (λ x. (x, s)) same ∙ ap (λ x. (after, x)) stayed)
          (replay ∙ ap (λ x. ok (x, s)) (sym (read_order-again po)))
    | inr fresh ↦
        let a = receive_inventory-Applied to_string ctx req s t after h fresh in
        let (inventory, found, there, applied) = Applied-recorded ctx req s t after keyed a in
        received_again again req t after inventory found there applied
  ]
