-- ===== src/Orders/Edit/Kept.antt =====
-- What an edit of an order stores and answers.
use cim_backend.Prelude.{
  ℕ, ◌≡◌, ◌∙◌, refl, ap, sym, subst, inl, inr, String, Bool, Bool-cases, ◌||◌, not, ◌==◌, ==_refl,
  ==_iff, some, List, [], ◌∷◌, find, find-holds, select, length, passed_test, and_then-eq-ok,
  Option-cases, none, true, err, ok, ok-injective, if◌then◌else◌,
}
use cim_backend.Decimal.{Decimal}
use cim_backend.Errors.{completed, cancelled, order_eq, prepare_update_fields}
use cim_backend.Caller.{Caller}
use cim_backend.Orders.{PurchaseOrderItem, PurchaseOrder, update_order_status}
use cim_backend.Orders.Statuses.{update_order_status-next}
use cim_backend.Orders.Receive.{OrderStore}
use cim_backend.Orders.Booking.{Received, read_order, save_order}
use cim_backend.Orders.Edit.{
  EditRequest, OrderEdit, existing_item, delete_items, save_edit, update_purchase_order,
}
use cim_backend.Orders.Edit.Rows.{DistinctRows, is_received, removed_ids-AllSpared}
use cim_backend.Orders.Edit.Edited.{AllEdited-refl}
use cim_backend.Orders.Edit.Going.{Going, edit_lines-Going}
use cim_backend.Orders.Edit.Left.{AllKept, AllKept-delete_items, create_order_items-appended}
use cim_backend.Orders.Edit.Ordered.{Stays, AllOrdered, AllOrdered-delete_items, edit_lines-Stays}

module _ {D F : Type 0} where
  find-save_order :
      (after po : PurchaseOrder D F) (orders : List (PurchaseOrder D F))
      → find (λ o. o.id == after.id) orders ≡ some po
      → find (λ o. o.id == after.id) (save_order after orders) ≡ some after
  find-save_order after po [] h = absurd (cc)
  find-save_order after po (o ∷ os) h = elim (Bool-cases (o.id == after.id)) [
    | inl here ↦ rw (here, ==_refl after.id) refl
    | inr other ↦ rw (other, other) (find-save_order after po os (rw other at h))
  ]

  -- The status is updated where there are items.
  abbrev HasUpdated : PurchaseOrder D F → PurchaseOrder D F → Type 0
  HasUpdated po after = (if length po.items == 0 then ok po else update_order_status po) ≡ ok after

  HasUpdated-kept :
      (po after : PurchaseOrder D F)
      → HasUpdated po after
      → (after.id ≡ po.id) × (after.items ≡ po.items)
  HasUpdated-kept po after h = elim (Bool-cases (length po.items == 0)) [
    | inl empty ↦
        let same = ok-injective (rw empty at h) in
        (ap (λ (x : PurchaseOrder D F). x.id) (sym same), ap (λ x. x.items) (sym same))
    | inr full ↦
        let same = (update_order_status-next po after (rw full at h)).1 in
        (ap (λ (x : PurchaseOrder D F). x.id) (sym same), ap (λ x. x.items) (sym same))
  ]

module _ {D F : Type 0} ⦃dec : Decimal D⦄ where
  -- What is stored of an edited order, and what is answered.
  pub record Saved (rows : List (PurchaseOrderItem D F)) (po after : PurchaseOrder D F)
      (s t : OrderStore D F) : Type 0 where
    pub stored : PurchaseOrder D F
    pub saved : t.orders ≡ save_order stored s.orders
    pub same_id : stored.id ≡ po.id
    pub answer : read_order stored ≡ after
    pub kept : AllKept rows stored.items
    pub ordered : AllOrdered rows rows stored.items

  save_edit-Saved :
      (ctx : Caller) (rows : List (PurchaseOrderItem D F)) (notes : String) (e : OrderEdit D F)
      (po after : PurchaseOrder D F) (s t : OrderStore D F)
      → Going rows e
      → ((i : PurchaseOrderItem D F)
          → is_received i ≡ true
          → existing_item i.supplier_id i.product_id rows ≡ some i
          → Stays i e.items)
      → save_edit ctx notes e po s ≡ ok (after, t)
      → Saved rows po after s t
  unfolding save_edit
  save_edit-Saved ctx rows notes e po after s t g stays h =
      let ((created, next), made, h1) = and_then-eq-ok _ _ (given ctx h) in
      let saved = delete_items e.deleted created in
      let remaining = select (λ i. not i.is_deleted) saved in
      let edited = record po { status = e.status; items = remaining; notes = notes } in
      let (news, whole, nothing) =
        create_order_items-appended e.new_items e.items created s.next_order_item_id next g.nothing
          made in
      let (a, updated, h2) = and_then-eq-ok _ _ h1 in
      let h3 = ok-injective h2 in
      let (same_id, same_items) = HasUpdated-kept edited a updated in
      record {
        stored = record a { items = saved };
        saved = ap (λ q. q.1.orders) (sym h3);
        same_id = same_id;
        answer = ap (λ l. record a { items = l }) (sym same_items) ∙ ap (λ q. q.0) h3;
        kept =
            subst (λ l. AllKept rows (delete_items e.deleted l)) (sym whole)
              (AllKept-delete_items e.deleted rows e.items news g.edited g.spared nothing);
        ordered =
            subst (λ l. AllOrdered rows rows (delete_items e.deleted l)) (sym whole)
              (AllOrdered-delete_items e.deleted rows rows e.items news g.edited stays);
      }
    where
      given :
          (c : Caller) {r : Received D F} {p : PurchaseOrder D F × OrderStore D F}
          → ◌≡◌ {A = Received D F}
              (elim c.user_email [ none ↦ err prepare_update_fields | some _ ↦ r ])
              (ok p)
          → r ≡ ok p
      given c k = elim (Option-cases c.user_email) [
        | inl missing ↦ absurd (cc (rw missing at k))
        | inr (email, there) ↦ rw there at k
      ]

  -- An edit of an order, whose rows have distinct ids, that succeeds stores the order that it
  -- answers with. Every row stays in its place with its id, product, supplier and received quantity;
  -- one that has received something is not deleted, and where its ordered quantity has changed it is
  -- not less than what was received. A live row that has received something and is the last live one
  -- of its supplier and product is in any case ordered with no less than what was received. The rows
  -- that come after are new and have received nothing.
  pub update_purchase_order-Kept :
      (same_price : F → F → Bool) (ctx : Caller) (id : ℕ) (req : EditRequest D F)
      (s t : OrderStore D F) (po after : PurchaseOrder D F)
      → find (λ o. o.id == id) s.orders ≡ some po
      → DistinctRows po.items
      → update_purchase_order same_price ctx id req s ≡ ok (after, t)
      → (stored : PurchaseOrder D F) × (find (λ o. o.id == id) t.orders ≡ some stored)
        × (read_order stored ≡ after)
        × AllKept po.items stored.items
        × AllOrdered po.items po.items stored.items
  unfolding update_purchase_order
  update_purchase_order-Kept same_price ctx id req s t po after found distinct h =
      let (going, h1) =
        passed_test (order_eq po.status completed || order_eq po.status cancelled) _ _ _
          (rw (update_purchase_order, found) at h) in
      let (removed, fine, h2) = and_then-eq-ok _ _ h1 in
      let (e, edited, h3) = and_then-eq-ok _ _ h2 in
      let start : OrderEdit D F = record {
        status = po.status;
        items = po.items;
        new_items = [];
        deleted = removed;
      } in
      let began : Going po.items start = record {
        edited = AllEdited-refl po.items;
        distinct = distinct;
        spared = removed_ids-AllSpared req.items po.items removed distinct fine;
        nothing = tt;
      } in
      let g = edit_lines-Going same_price po.items req.items start e began edited in
      let stays =
        edit_lines-Stays same_price po.items req.items removed start e began refl fine edited in
      let v = save_edit-Saved ctx po.items req.notes e po after s t g stays h3 in
      let its_id : v.stored.id ≡ id =
        v.same_id ∙ (==_iff po.id id).0 (find-holds (λ o. o.id == id) s.orders po found) in
      let here = subst (λ k. find (λ o. o.id == k) s.orders ≡ some po) (sym its_id) found in
      (
        v.stored,
        ap (λ os. find (λ o. o.id == id) os) v.saved
            ∙ subst (λ k. find (λ o. o.id == k) (save_order v.stored s.orders) ≡ some v.stored)
                its_id (find-save_order v.stored po s.orders here),
        v.answer,
        v.kept,
        v.ordered,
      )
