-- ===== src/Orders/Booking/Carried.antt =====
-- What the loop over the lines of a delivery carries: as much as was received so far.
use cim_backend.Prelude.{
  Text, ℕ, ◌+◌, ◌≤◌, ◌<◌, ◌≡◌, refl, subst, inl, inr, Bool, some, Option-cases, List, [], ◌∷◌, find,
  All, All-find, All-append, ok, ok-injective, arith,
}
use cim_backend.Decimal.{Decimal, plus, minus}
use cim_backend.Models.Item.{InventoryItem}
use cim_backend.Stock.Fifo.Items.{DistinctIds}
use cim_backend.Stock.Fifo.Conserved.{on_hand}
use cim_backend.Orders.Receive.{
  OrderRow, ReceivedItem, Delivery, take_line, new_stock_item, purchase_txn, receive_lines,
}
use cim_backend.Orders.Booking.Taken.{receive_lines-taken}
use cim_backend.Orders.Booking.Deltas.{
  delta_of, AllGained, raise_delta-AllGained, delta_of-raise_delta, AllStocked, sum_deltas,
  sum_deltas-found,
}
use cim_backend.Orders.Booking.Saved.{moved, moved-append, on_hand-append, AllNew, AllNewItems}

module _ {D : Type 0} ⦃dec : Decimal D⦄ where
  -- What the lines received.
  abbrev pub asked : List (ReceivedItem D) → ℕ
  asked [] = 0
  asked (l ∷ ls) = plus l.received_quantity + asked ls

module _ {D F : Type 0} ⦃dec : Decimal D⦄ where
  -- The inventory item of a row is one of the items.
  pub record IsStocked (items : List (InventoryItem D F)) (row : OrderRow D F) : Type 0 where
    pub at :
        (k : ℕ)
        → row.inventory_item_id ≡ some k
        → (p : InventoryItem D F → Bool) × (i : InventoryItem D F) × (find p items ≡ some i)
          × (i.id ≡ k)

  pub record Carried (items : List (InventoryItem D F)) (bound : ℕ) (d : Delivery D F) (n : ℕ)
      : Type 0 where
    pub gained : AllGained d.deltas
    pub stocked : AllStocked d.new_items
    pub unsaved : AllNewItems d.new_items
    pub booked : sum_deltas d.deltas items + on_hand d.new_items ≡ n
    pub moving : moved d.transactions ≡ n
    pub unsaved_moves : AllNew d.transactions
    pub bounded : (k : ℕ) → bound ≤ k → delta_of k d.deltas ≡ 0

  module _ (inventory : ℕ) (items : List (InventoryItem D F)) (bound : ℕ)
      (distinct : DistinctIds items) (under : All (λ i. i.id < bound) items) where
    take_line-Carried :
        (row : OrderRow D F) (q : D) (d : Delivery D F) (n : ℕ)
        → IsStocked items row
        → minus q ≡ 0
        → Carried items bound d n
        → Carried items bound (take_line inventory row q d) (n + plus q)
    unfolding take_line purchase_txn new_stock_item
    take_line-Carried row q d n here hq c =
        let moving' = moved-append d.transactions (purchase_txn row q ∷ []) in
        let unsaved' =
          All-append _ d.transactions (purchase_txn row q ∷ []) c.unsaved_moves (refl, tt) in
        elim (Option-cases row.inventory_item_id) [
          | inl new ↦
              rw (new, take_line)
                (record {
                  gained = c.gained;
                  stocked =
                      All-append _ d.new_items (new_stock_item inventory row q ∷ []) c.stocked
                        (hq, tt);
                  unsaved =
                      All-append _ d.new_items (new_stock_item inventory row q ∷ []) c.unsaved
                        (refl, tt);
                  booked = omega (
                    arith,
                    c.booked,
                    on_hand-append d.new_items (new_stock_item inventory row q ∷ []),
                  );
                  moving = omega (arith, c.moving, moving');
                  unsaved_moves = unsaved';
                  bounded = c.bounded;
                })
          | inr (k, old) ↦
              let (p, i, found, same) = here.at k old in
              let raised' = sum_deltas-found p q d.deltas items i hq c.gained distinct found in
              let low = All-find (λ (j : InventoryItem D F). j.id < bound) p items i found under in
              rw (old, take_line)
                (record {
                  gained = raise_delta-AllGained k q d.deltas hq c.gained;
                  stocked = c.stocked;
                  unsaved = c.unsaved;
                  booked = omega (arith, c.booked, rw same at raised');
                  moving = omega (arith, c.moving, moving');
                  unsaved_moves = unsaved';
                  bounded = λ j le. ground (
                    arith,
                    delta_of-raise_delta j k q d.deltas hq c.gained,
                    c.bounded j le,
                    low,
                    same,
                  );
                })
        ]

    pub receive_lines-Carried :
        (to_string : D → Text) (rows : List (OrderRow D F)) (lines : List (ReceivedItem D))
        (d d' : Delivery D F) (n : ℕ)
        → All (IsStocked items) rows
        → Carried items bound d n
        → receive_lines to_string inventory rows lines d ≡ ok d'
        → Carried items bound d' (n + asked lines)
    unfolding receive_lines
    receive_lines-Carried to_string rows [] d d' n known c h =
        subst (λ (x : Delivery D F). Carried items bound x (n + 0)) (ok-injective h)
          (subst (Carried items bound d) (omega arith) c)
    receive_lines-Carried to_string rows (l ∷ ls) d d' n known c h =
        let q = l.received_quantity in
        let (row, found, given, rest) = receive_lines-taken to_string inventory rows l ls d d' h in
        let here = All-find (IsStocked items) _ rows row found known in
        subst (Carried items bound d') (omega arith) (
          receive_lines-Carried to_string rows ls (take_line inventory row q d) d' (n + plus q)
            known (take_line-Carried row q d n here given c) rest)
