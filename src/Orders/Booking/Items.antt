-- ===== src/Orders/Booking/Items.antt =====
-- What a delivery makes of the items of its order.
use cim_backend.Prelude.{
  Text, ℕ, ◌≡◌, ◌∙◌, refl, ap, sym, subst, inl, inr, false, ◌==◌, ==_iff, none, some, Option-cases,
  List, [], ◌∷◌, map, find, find-holds, All, ok, ok-injective, if◌then◌else◌,
}
use cim_backend.Decimal.{Decimal, minus}
use cim_backend.Caller.{Caller}
use cim_backend.Orders.{PurchaseOrderItem, PurchaseOrder}
use cim_backend.Orders.Statuses.{update_order_status-next}
use cim_backend.Orders.Receive.{
  Product, OrderStore, OrderRow, ReceivedItem, DeliveryRequest, Delivery, row_of, join_rows,
  start_delivery, receive_item, take_line, receive_lines,
}
use cim_backend.Orders.Booking.{receivable_order, is_applied, receive_inventory}
use cim_backend.Orders.Booking.Applied.{delivered_order, receive_inventory-Applied}
use cim_backend.Orders.Booking.Taken.{receive_lines-taken}
use cim_backend.Orders.Booking.Lines.{AllGiven, Follows, run, run-Follows}

map-then :
    {A : Type 0} (f g h : A → A) (xs : List A)
    → ((x : A) → g (f x) ≡ h x)
    → map g (map f xs) ≡ map h xs
map-then f g h [] e = refl
map-then f g h (x ∷ xs) e = rw (e x, map-then f g h xs e) refl

map-nothing : {A : Type 0} (xs : List A) → xs ≡ map (λ x. x) xs
map-nothing [] = refl
map-nothing (x ∷ xs) = ap (λ l. x ∷ l) (map-nothing xs)

module _ {D F : Type 0} ⦃dec : Decimal D⦄ where
  abbrev unit_of : List (OrderRow D F) → ℕ → ℕ
  unit_of rows id = elim (row_of id rows) [ none ↦ 0 | some r ↦ r.product_unit.unit_id ]

  take_line-items :
      (inventory : ℕ) (row : OrderRow D F) (q : D) (d : Delivery D F)
      → (take_line inventory row q d).items
        ≡ map
            (λ i. if i.id == row.item.id then receive_item row.product_unit.unit_id q i else i)
            d.items
  unfolding take_line
  take_line-items inventory row q d = elim (Option-cases row.inventory_item_id) [
    | inl new ↦ rw (new, take_line) refl
    | inr (id, old) ↦ rw (old, take_line) refl
  ]

  receive_lines-run :
      (to_string : D → Text) (inventory : ℕ) (rows : List (OrderRow D F))
      (lines : List (ReceivedItem D)) (d d' : Delivery D F)
      → receive_lines to_string inventory rows lines d ≡ ok d'
      → (d'.items ≡ map (run (unit_of rows) lines) d.items) × AllGiven lines
  unfolding receive_lines
  receive_lines-run to_string inventory rows [] d d' h =
      (ap (λ (x : Delivery D F). x.items) (sym (ok-injective h)) ∙ map-nothing d.items, tt)
  receive_lines-run to_string inventory rows (l ∷ ls) d d' h =
      let q = l.received_quantity in
      let (row, found, given, h1) = receive_lines-taken to_string inventory rows l ls d d' h in
      let (rest, all) =
        receive_lines-run to_string inventory rows ls (take_line inventory row q d) d' h1 in
      let its_id =
        (==_iff row.item.id l.id).0 (find-holds (λ r. r.item.id == l.id) rows row found) in
      let unit : unit_of rows l.id ≡ row.product_unit.unit_id = rw (found, unit_of) refl in
      (
        rest
            ∙ ap (map (run (unit_of rows) ls)) (take_line-items inventory row q d)
            ∙ map-then _ _ _ d.items (λ i. rw (its_id, ← unit) refl),
        (given, all),
      )

  -- Each item, and what the lines have made of it.
  abbrev pub AllFollow :
      List (ReceivedItem D) → List (PurchaseOrderItem D F) → List (PurchaseOrderItem D F) → Type 0
  AllFollow lines [] [] = Unit
  AllFollow lines (i ∷ is) (j ∷ js) = Follows lines i j × AllFollow lines is js
  AllFollow lines _ _ = ⊥

  AllFollow-run :
      (unit : ℕ → ℕ) (lines : List (ReceivedItem D)) (items : List (PurchaseOrderItem D F))
      → AllGiven lines
      → All (λ i. minus i.received_quantity ≡ 0) items
      → AllFollow lines items (map (run unit lines) items)
  AllFollow-run unit lines [] given all = tt
  AllFollow-run unit lines (i ∷ is) given (here, all) =
      (run-Follows unit lines i given here, AllFollow-run unit lines is given all)

  abbrev pub IsKnown : List Product → PurchaseOrderItem D F → Type 0
  IsKnown products i = (p : Product) × (find (λ q. q.id == i.product_id) products ≡ some p)

  join_rows-items :
      (inventory : ℕ) (s : OrderStore D F) (items : List (PurchaseOrderItem D F))
      → All (IsKnown s.products) items
      → map (λ (r : OrderRow D F). r.item) (join_rows inventory s items) ≡ items
  unfolding join_rows
  join_rows-items inventory s [] known = refl
  join_rows-items inventory s (i ∷ is) ((p, found), known) =
      rw (found, join_rows) (ap (λ l. i ∷ l) (join_rows-items inventory s is known))

  pub receive_inventory-items :
      (to_string : D → Text) (ctx : Caller) (req : DeliveryRequest D) (s t : OrderStore D F)
      (po after : PurchaseOrder D F)
      → receivable_order req.purchase_order_id s ≡ some po
      → All (IsKnown s.products) po.items
      → All (λ i. minus i.received_quantity ≡ 0) po.items
      → is_applied req s ≡ false
      → receive_inventory to_string ctx req s ≡ ok (after, t)
      → AllFollow req.items po.items after.items
  receive_inventory-items to_string ctx req s t po after found known gained fresh h =
      let a = receive_inventory-Applied to_string ctx req s t after h fresh in
      let same : a.po ≡ po = cc (a.found, found) in
      let rows = join_rows a.inventory s a.po.items in
      let (made, given) =
        receive_lines-run to_string a.inventory rows req.items (start_delivery rows) a.d
          a.received in
      let kept =
        join_rows-items a.inventory s a.po.items
          (subst (λ (x : PurchaseOrder D F). All (IsKnown s.products) x.items) (sym same) known) in
      let final =
        ap (λ (x : PurchaseOrder D F). x.items)
          (update_order_status-next (delivered_order req a.po s a.d) after a.updated).1 in
      let whole =
        sym final
        ∙ made
        ∙ ap (map (run (unit_of rows) req.items)) (kept ∙ ap (λ x. x.items) same) in
      subst (AllFollow req.items po.items) (sym whole)
        (AllFollow-run (unit_of rows) req.items po.items given gained)
