-- ===== src/Orders/Statuses.antt =====
-- What the statuses say of the deliveries.
use cim_backend.Prelude.{
  ◌≡◌, refl, ap, sym, ◌∙◌, inl, inr, ◌↔◌, Bool, true, false, Bool-cases, ◌||◌, List, [], ◌∷◌, any,
  length, All, ok, ok-injective, subst, arith, ◌==◌, if◌then◌else◌,
}
use cim_backend.Decimal.{
  Decimal, is_negative_test, greater_than_test, less_than_test, equal_test, is_zero_test, sides,
  zero_value_parts,
}
use cim_backend.Errors.{PurchaseOrderStatus, fully_delivered}
use cim_backend.Orders.{
  PurchaseOrderItemStatus, awaiting_delivery, item_partially_delivered, delivered, over_delivered,
  item_cancelled, item_eq, PurchaseOrderItem, PurchaseOrder, item_status_after, has_item,
  next_status, update_order_status,
}
use cim_backend.Orders.Flags.{is_under_way, next_status-again, fully_delivered_iff}

none_of_iff :
    {A : Type 0} (f : A → Bool) (xs : List A) → (any f xs ≡ false) ↔ All (λ x. f x ≡ false) xs
none_of_iff f [] = (λ _. tt, λ _. refl)
none_of_iff f (x ∷ xs) =
    let ih = none_of_iff f xs in
    elim (Bool-cases (f x)) [
      | inl here ↦ rw here (λ h. absurd (cc), λ h. absurd (cc (h.0)))
      | inr here ↦ rw here (λ h. (refl, ih.0 h), λ h. ih.1 h.1)
    ]

module _ {D F : Type 0} where
  abbrev pub flagged : PurchaseOrderStatus → List (PurchaseOrderItem D F) → PurchaseOrderStatus
  flagged s items =
      next_status s (has_item awaiting_delivery items) (has_item item_partially_delivered items)
        (has_item delivered items) (has_item over_delivered items)

  pub update_order_status-next :
      (po after : PurchaseOrder D F)
      → update_order_status po ≡ ok after
      → (length po.items == 0 ≡ false) × (record po { status = flagged po.status po.items } ≡ after)
  unfolding update_order_status
  update_order_status-next po after h = elim (Bool-cases (length po.items == 0)) [
    | inl empty ↦ absurd (cc (rw (empty, update_order_status) at h))
    | inr full ↦ (full, ok-injective (rw (full, update_order_status) at h))
  ]

  -- For an order that is neither completed nor cancelled and has some item that is delivered or over
  -- delivered: UpdateStatus makes it fully delivered exactly when no item awaits its delivery or is
  -- partially delivered.
  pub update_order_status_iff :
      (po after : PurchaseOrder D F)
      → update_order_status po ≡ ok after
      → is_under_way po.status ≡ true
      → (has_item delivered po.items || has_item over_delivered po.items) ≡ true
      → (after.status ≡ fully_delivered) ↔ (
          All (λ i. item_eq i.status awaiting_delivery ≡ false) po.items
          × All (λ i. item_eq i.status item_partially_delivered ≡ false) po.items)
  update_order_status_iff po after h under_way some_here =
      let items = po.items in
      let same = ap (λ (x : PurchaseOrder D F). x.status) (update_order_status-next po after h).1 in
      let full =
        fully_delivered_iff po.status (has_item awaiting_delivery items)
          (has_item item_partially_delivered items) (has_item delivered items)
          (has_item over_delivered items) under_way some_here in
      let waits =
        none_of_iff (λ (i : PurchaseOrderItem D F). item_eq i.status awaiting_delivery) items in
      let partly =
        none_of_iff (λ (i : PurchaseOrderItem D F). item_eq i.status item_partially_delivered)
          items in
      (
        λ eq. let (w, p) = full.0 (same ∙ eq) in (waits.0 w, partly.0 p),
        λ (w, p). sym same ∙ full.1 (waits.1 w, partly.1 p),
      )

  -- Once the status of an order is updated, updating it again changes nothing, whatever the status.
  pub update_order_status-settled :
      (po after : PurchaseOrder D F)
      → update_order_status po ≡ ok after
      → update_order_status after ≡ ok after
  unfolding update_order_status
  update_order_status-settled po after h =
      let (full, same) = update_order_status-next po after h in
      let items = po.items in
      let again =
        next_status-again po.status (has_item awaiting_delivery items)
          (has_item item_partially_delivered items) (has_item delivered items)
          (has_item over_delivered items) in
      subst (λ x. update_order_status x ≡ ok x) same (rw (update_order_status, full, again) refl)

-- The status that the quantities call for.
abbrev pub delivery_of : {D : Type 0} ⦃dec : Decimal D⦄ → D → D → PurchaseOrderItemStatus
delivery_of ⦃dec = dec⦄ received quantity =
    if dec.is_zero received
    then awaiting_delivery
    else if dec.less_than received quantity
    then item_partially_delivered
    else if dec.less_than quantity received
    then over_delivered
    else delivered

module _ {D F : Type 0} ⦃dec : Decimal D⦄ where
  -- An item that is not cancelled and has not received a negative quantity gets the status that its
  -- quantities call for: it awaits its delivery where nothing was received, and otherwise it is
  -- partially delivered, delivered or over delivered where less than, exactly, or more than what
  -- was ordered was received.
  pub item_status_after-delivery :
      (item : PurchaseOrderItem D F)
      → item_eq item.status item_cancelled ≡ false
      → dec.is_negative item.received_quantity ≡ false
      → item_status_after item ≡ delivery_of item.received_quantity item.quantity
  unfolding item_status_after
  item_status_after-delivery item live gained =
      let r = item.received_quantity in
      let q = item.quantity in
      ground (
        arith,
        is_negative_test r,
        is_zero_test r,
        less_than_test r q,
        less_than_test q r,
        greater_than_test r q,
        greater_than_test r dec.zero_value,
        equal_test r q,
        equal_test r dec.zero_value,
        sides r,
        sides q,
        zero_value_parts dec,
        gained,
      )
