-- ===== src/Orders/Booking/Booked.antt =====
-- A delivery adds to the stock what was received, and moves as much.
use cim_backend.Prelude.{
  Text, map, ℕ, ◌+◌, ◌≤◌, ◌<◌, ◌≡◌, ◌∙◌, refl, ap, inl, inr, Bool, false, ◌&&◌, ◌==◌, length, some,
  Option-cases, List, [], ◌∷◌, ◌++◌, find, All, All-append, Map, lookup, ok, passed_test,
  and_then-eq-ok, ok-injective, arith,
}
use cim_backend.Decimal.{Decimal}
use cim_backend.Caller.{Caller}
use cim_backend.Models.Item.{InventoryItem, is_active}
use cim_backend.Stock.Fifo.Items.{DistinctIds}
use cim_backend.Stock.Fifo.Conserved.{on_hand}
use cim_backend.Store.{Store}
use cim_backend.Orders.{PurchaseOrder, PurchaseOrderItem}
use cim_backend.Orders.Receive.{
  OrderStore, OrderRow, DeliveryRequest, Delivery, active_item_id, join_rows, start_delivery,
}
use cim_backend.Orders.Booking.{
  increase_quantity_inventory_items, raised_item, book_delivery, is_applied, receive_inventory,
}
use cim_backend.Orders.Booking.Deltas.{AllStocked, delta_of, sum_deltas, on_hand-raised_item}
use cim_backend.Orders.Booking.Saved.{
  Created, moved, on_hand-append, create_items-Created, save_transactions-moved,
  moved-link_purchase,
}
use cim_backend.Orders.Booking.Carried.{asked, IsStocked, Carried, receive_lines-Carried}
use cim_backend.Orders.Booking.Applied.{receive_inventory-Applied}

module _ {D F : Type 0} ⦃dec : Decimal D⦄ where
  active_item_id-found :
      (inventory product : ℕ) (items : List (InventoryItem D F)) (k : ℕ)
      → active_item_id inventory product items ≡ some k
      → (p : InventoryItem D F → Bool) × (i : InventoryItem D F) × (find p items ≡ some i)
        × (i.id ≡ k)
  active_item_id-found inventory product items k h =
      let p = λ (i : InventoryItem D F).
        i.product_id == product && is_active i.status && i.inventory_id == inventory in
      elim (Option-cases (find p items)) [
        | inl missing ↦ absurd (cc (rw (missing, active_item_id) at h))
        | inr (i, found) ↦ (p, i, found, cc (rw (found, active_item_id) at h))
      ]

  join_rows-IsStocked :
      (inventory : ℕ) (s : OrderStore D F) (items : List (PurchaseOrderItem D F))
      → All (IsStocked s.stock.items) (join_rows inventory s items)
  unfolding join_rows
  join_rows-IsStocked inventory s [] = tt
  join_rows-IsStocked inventory s (x ∷ xs) =
      elim (Option-cases (find (λ p. p.id == x.product_id) s.products)) [
        | inl missing ↦ rw (missing, join_rows) (join_rows-IsStocked inventory s xs)
        | inr (p, found) ↦
            rw (found, join_rows)
              (
                record { at = active_item_id-found inventory x.product_id s.stock.items },
                join_rows-IsStocked inventory s xs,
              )
      ]

  start_delivery-Carried :
      (items : List (InventoryItem D F)) (bound : ℕ) (rows : List (OrderRow D F))
      → Carried items bound (start_delivery rows) 0
  unfolding lookup
  start_delivery-Carried items bound rows = record {
    gained = λ k d h. absurd (cc);
    stocked = tt;
    unsaved = tt;
    booked = nothing items;
    moving = refl;
    unsaved_moves = tt;
    bounded = λ k le. refl;
  }
    where
      nothing : (items : List (InventoryItem D F)) → sum_deltas [] items + 0 ≡ 0
      nothing [] = refl
      nothing (x ∷ xs) = omega (arith, nothing xs)

  sum_deltas-append :
      (m : Map D) (is js : List (InventoryItem D F))
      → sum_deltas m (is ++ js) ≡ sum_deltas m is + sum_deltas m js
  sum_deltas-append m [] js = omega arith
  sum_deltas-append m (i ∷ is) js = omega (arith, sum_deltas-append m is js)

  sum_deltas-later :
      (m : Map D) (bound : ℕ) (is : List (InventoryItem D F))
      → ((k : ℕ) → bound ≤ k → delta_of k m ≡ 0)
      → All (λ i. bound ≤ i.id) is
      → sum_deltas m is ≡ 0
  sum_deltas-later m bound [] below later = refl
  sum_deltas-later m bound (i ∷ is) below (here, later) =
      omega (arith, below i.id here, sum_deltas-later m bound is below later)

  -- The items of the stock: distinct ids below the next one, and quantities that are not negative.
  pub record IsSound (s : Store D F) : Type 0 where
    pub distinct : DistinctIds s.items
    pub under : All (λ i. i.id < s.next_item_id) s.items
    pub stocked : AllStocked s.items

  -- What is on hand once the new items are created and the others raised.
  on_hand-booked :
      (d : Delivery D F) (s u : Store D F) (n : ℕ)
      → IsSound s
      → Carried s.items s.next_item_id d n
      → Created s u d.new_items
      → on_hand (map (raised_item d.deltas) u.items) ≡ on_hand s.items + n
  on_hand-booked d s u n sound c made =
      let stocked : AllStocked u.items =
        rw made.appended (All-append _ s.items made.rows sound.stocked (made.stocked c.stocked)) in
      omega (
        arith,
        on_hand-raised_item d.deltas u.items c.gained stocked,
        ap on_hand made.appended,
        ap (sum_deltas d.deltas) made.appended,
        sum_deltas-append d.deltas s.items made.rows,
        sum_deltas-later d.deltas s.next_item_id made.rows c.bounded made.later,
        on_hand-append s.items made.rows,
        made.sum,
        c.booked,
      )

  book_delivery-booked :
      (ctx : Caller) (inventory : ℕ) (d : Delivery D F) (s t : Store D F) (n : ℕ)
      → IsSound s
      → Carried s.items s.next_item_id d n
      → book_delivery ctx inventory d s ≡ ok t
      → (on_hand t.items ≡ on_hand s.items + n) × (moved t.transactions ≡ moved s.transactions + n)
  unfolding book_delivery increase_quantity_inventory_items
  book_delivery-booked ctx inventory d s t n sound c h =
      let (some_rows, h1) = passed_test (length d.transactions == 0) _ _ t h in
      elim (Option-cases ctx.user_email) [
        | inl missing ↦ absurd (cc (rw missing at h1))
        | inr (email, there) ↦
            let (u, created, h2) = and_then-eq-ok _ _ (rw there at h1) in
            let made = create_items-Created d.new_items s u c.unsaved created in
            let (fresh, same) =
              moved-link_purchase inventory u.items d.transactions c.unsaved_moves in
            let (kept, moving) =
              save_transactions-moved (increase_quantity_inventory_items d.deltas u) _ fresh in
            rw (← ok-injective h2) (
              ap on_hand kept ∙ on_hand-booked d s u n sound c made,
              omega (arith, moving, same, c.moving, ap moved made.same_transactions),
            )
      ]

  -- A delivery that is applied to a stock whose items have distinct ids and no negative quantities
  -- adds to what is on hand, and to what the transactions move, exactly the sum of its lines.
  pub receive_inventory-booked :
      (to_string : D → Text) (ctx : Caller) (req : DeliveryRequest D) (s t : OrderStore D F)
      (after : PurchaseOrder D F)
      → IsSound s.stock
      → is_applied req s ≡ false
      → receive_inventory to_string ctx req s ≡ ok (after, t)
      → (on_hand t.stock.items ≡ on_hand s.stock.items + asked req.items)
        × (moved t.stock.transactions ≡ moved s.stock.transactions + asked req.items)
  receive_inventory-booked to_string ctx req s t after sound fresh h =
      let a = receive_inventory-Applied to_string ctx req s t after h fresh in
      let rows = join_rows a.inventory s a.po.items in
      let items = s.stock.items in
      let bound = s.stock.next_item_id in
      let c =
        receive_lines-Carried a.inventory items bound sound.distinct sound.under to_string rows
          req.items (start_delivery rows) a.d 0 (join_rows-IsStocked a.inventory s a.po.items)
          (start_delivery-Carried items bound rows) a.received in
      let (hand, moving) =
        book_delivery-booked ctx a.inventory a.d s.stock a.stock (0 + asked req.items) sound c
          a.booked in
      rw (← a.stored) (omega (arith, hand), omega (arith, moving))
