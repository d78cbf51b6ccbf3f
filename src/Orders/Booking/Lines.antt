-- ===== src/Orders/Booking/Lines.antt =====
-- What the lines of a delivery do to one item of the order.
use cim_backend.Prelude.{
  ℕ, ◌+◌, ◌≡◌, ◌∙◌, refl, sym, subst, inl, inr, Bool, true, false, Bool-cases, ◌==◌, some, List, [],
  ◌∷◌, any, All, arith, if◌then◌else◌,
}
use cim_backend.Decimal.{Decimal, plus, minus, is_negative_test}
use cim_backend.Orders.{PurchaseOrderItem, item_cancelled, item_eq, item_status_after}
use cim_backend.Orders.Statuses.{delivery_of, item_status_after-delivery}
use cim_backend.Orders.Booking.Deltas.{add_gained}
use cim_backend.Orders.Receive.{ReceivedItem, receive_item}

module _ {D : Type 0} ⦃dec : Decimal D⦄ where
  -- What the lines receive for an item.
  abbrev pub asked_for : ℕ → List (ReceivedItem D) → ℕ
  asked_for id [] = 0
  asked_for id (l ∷ ls) = (if id == l.id then plus l.received_quantity else 0) + asked_for id ls

  abbrev pub is_named : ℕ → List (ReceivedItem D) → Bool
  is_named id lines = any (λ (l : ReceivedItem D). id == l.id) lines

  abbrev pub AllGiven : List (ReceivedItem D) → Type 0
  AllGiven lines = All (λ (l : ReceivedItem D). minus l.received_quantity ≡ 0) lines

module _ {D F : Type 0} ⦃dec : Decimal D⦄ where
  -- The item `j` is what the lines have made of the item `i`.
  pub record Follows (lines : List (ReceivedItem D)) (i j : PurchaseOrderItem D F) : Type 0 where
    pub same_id : j.id ≡ i.id
    pub same_quantity : j.quantity ≡ i.quantity
    pub gained : minus j.received_quantity ≡ 0
    pub sum : plus j.received_quantity ≡ plus i.received_quantity + asked_for i.id lines
    pub unnamed : is_named i.id lines ≡ false → j ≡ i
    pub named :
        is_named i.id lines ≡ true
        → item_eq i.status item_cancelled ≡ false
        → j.status ≡ delivery_of j.received_quantity j.quantity

  item_status_after-live :
      (i : PurchaseOrderItem D F)
      → item_eq i.status item_cancelled ≡ false
      → item_eq (item_status_after i) item_cancelled ≡ false
  unfolding item_status_after
  item_status_after-live i live = ground (arith, live)

  -- The item `j` is what a line that names the item `i` makes of it.
  record Took (q : D) (i j : PurchaseOrderItem D F) : Type 0 where
    same_id : j.id ≡ i.id
    same_quantity : j.quantity ≡ i.quantity
    gained : minus j.received_quantity ≡ 0
    sum : plus j.received_quantity ≡ plus i.received_quantity + plus q
    live :
        item_eq i.status item_cancelled ≡ false
        → (item_eq j.status item_cancelled ≡ false)
          × (j.status ≡ delivery_of j.received_quantity j.quantity)

  receive_item-Took :
      (unit : ℕ) (q : D) (i : PurchaseOrderItem D F)
      → minus q ≡ 0
      → minus i.received_quantity ≡ 0
      → Took q i (receive_item unit q i)
  unfolding receive_item
  receive_item-Took unit q i hq hi =
      let given = record i {
        unit_id = some unit;
        received_quantity = dec.add i.received_quantity q;
      } in
      let (up, sum) = add_gained i.received_quantity q hi hq in
      record {
        same_id = refl;
        same_quantity = refl;
        gained = up;
        sum = sum;
        live = λ live. (
          item_status_after-live given live,
          item_status_after-delivery given live
              (ground (arith, up, is_negative_test given.received_quantity)),
        );
      }

  Follows-other :
      (l : ReceivedItem D) (ls : List (ReceivedItem D)) (i k : PurchaseOrderItem D F)
      → (i.id == l.id) ≡ false
      → Follows ls i k
      → Follows (l ∷ ls) i k
  Follows-other l ls i k other f = record {
    same_id = f.same_id;
    same_quantity = f.same_quantity;
    gained = f.gained;
    sum = rw other (omega (arith, f.sum));
    unnamed = λ h. f.unnamed (rw other at h);
    named = λ h live. f.named (rw other at h) live;
  }

  Follows-Took :
      (l : ReceivedItem D) (ls : List (ReceivedItem D)) (i j k : PurchaseOrderItem D F)
      → (i.id == l.id) ≡ true
      → Took l.received_quantity i j
      → Follows ls j k
      → Follows (l ∷ ls) i k
  Follows-Took l ls i j k same took f =
      let total =
        subst (λ n. plus k.received_quantity ≡ plus j.received_quantity + asked_for n ls)
          took.same_id f.sum in
      record {
        same_id = f.same_id ∙ took.same_id;
        same_quantity = f.same_quantity ∙ took.same_quantity;
        gained = f.gained;
        sum = rw same (omega (arith, total, took.sum));
        unnamed = λ h. absurd (cc (rw same at h));
        named = λ h live. elim (Bool-cases (is_named j.id ls)) [
          | inl later ↦ f.named later (took.live live).0
          | inr last ↦
              subst
                (λ (x : PurchaseOrderItem D F).
                  x.status ≡ delivery_of x.received_quantity x.quantity)
                (sym (f.unnamed last)) (took.live live).1
        ];
      }

  -- The lines, one after another, at one item; `unit_of` is the unit of a line's row.
  abbrev pub run : (ℕ → ℕ) → List (ReceivedItem D) → PurchaseOrderItem D F → PurchaseOrderItem D F
  run unit_of [] i = i
  run unit_of (l ∷ ls) i =
      run unit_of ls (if i.id == l.id then receive_item (unit_of l.id) l.received_quantity i else i)

  pub run-Follows :
      (unit_of : ℕ → ℕ) (lines : List (ReceivedItem D)) (i : PurchaseOrderItem D F)
      → AllGiven lines
      → minus i.received_quantity ≡ 0
      → Follows lines i (run unit_of lines i)
  run-Follows unit_of [] i given hi = record {
    same_id = refl;
    same_quantity = refl;
    gained = hi;
    sum = omega arith;
    unnamed = λ h. refl;
    named = λ h. absurd (cc);
  }
  run-Follows unit_of (l ∷ ls) i (here, given) hi = elim (Bool-cases (i.id == l.id)) [
    | inr other ↦
        let f = run-Follows unit_of ls i given hi in
        rw (other, run) (Follows-other l ls i _ other f)
    | inl same ↦
        let took = receive_item-Took (unit_of l.id) l.received_quantity i here hi in
        let f = run-Follows unit_of ls _ given took.gained in
        rw (same, run) (Follows-Took l ls i _ _ same took f)
  ]
