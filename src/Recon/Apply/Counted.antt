-- ===== src/Recon/Apply/Counted.antt =====
-- What applying a reconciliation leaves on hand.
use cim_backend.Prelude.{
  ℕ, ◌+◌, ◌≡◌, ◌∙◌, refl, inl, inr, true, false, ◌==◌, Bool-cases, none, some, List, [], ◌++◌, find,
  All, lookup, lookup_or, ◌+ℤ◌, ◌-ℤ◌, ok, subst, if◌then◌else◌, arith,
}
use cim_backend.Decimal.{
  Decimal, Float64, plus, minus, sides, sub_parts, add_parts, neg_parts, zero_value_parts,
  units-moved, is_zero_test, is_positive_test, is_negative_test,
}
use cim_backend.Models.Transaction.{InventoryTransaction, sell}
use cim_backend.Models.Item.{InventoryItem, InventoryItemChange}
use cim_backend.Models.Submission.{QuantityItem}
use cim_backend.Stock.Fifo.{Consumed, consume_fifo, consume_items}
use cim_backend.Stock.Fifo.Items.{DistinctIds, consume_fifo_iff}
use cim_backend.Stock.Fifo.Changes.{
  changed_quantity, changed_quantity-append, consume_items-present, consume_items-DistinctIds,
}
use cim_backend.Stock.Handlers.{counter_handler}
use cim_backend.Recon.Apply.{
  build_item_map, Deltas, stock_up_changes, stock_up_txns, book_deltas, plan_reconcile,
}
use cim_backend.Recon.Apply.Maps.{find-id, lookup-build_item_map, build_item_map-Keyed}
use cim_backend.Recon.Apply.Split.{
  IsCounted, delta_of-counted, deltas, DistinctLines, deltas-present, split_deltas-counted,
  deltas-AllGive,
}
use cim_backend.Recon.Apply.StockUp.{
  quantity_after, quantity_after-changed, changed_quantity-stock_up,
}

module _ {D F : Type 0} ⦃dec : Decimal D⦄ where
  -- The arithmetic of one line: consumed, kept or raised.
  abbrev Follows : InventoryItem D F → QuantityItem D → D → D → Type 0
  Follows item line counted q =
      plus q + minus item.quantity + plus line.prev_quantity + minus counted
      ≡ minus q + plus item.quantity + minus line.prev_quantity + plus counted

module _ {D F : Type 0} ⦃dec : Decimal D⦄ ⦃fl : Float64 F⦄ (created_at : ℕ)
    (items : List (InventoryItem D F)) (lines : List (QuantityItem D)) where
  -- What the lines put down, and what consuming it leaves.
  abbrev all_deltas : Deltas D
  all_deltas = deltas (record { consume = []; stock_up = [] }) lines

  abbrev consumed : Consumed (Unit {0}) D F
  consumed = consume_items (counter_handler sell created_at) all_deltas.consume tt items

  abbrev saved : List (InventoryItemChange D F)
  saved = consumed.changes ++ stock_up_changes (build_item_map consumed.items) all_deltas.stock_up

  book_deltas-saved :
      consume_fifo (counter_handler sell created_at) tt [] items all_deltas.consume ≡ ok consumed
      → book_deltas created_at items all_deltas
        ≡ ok (saved, consumed.txns ++ stock_up_txns created_at all_deltas.stock_up)
  unfolding book_deltas
  book_deltas-saved h = rw (h, book_deltas)

  plan_reconcile-saved :
      DistinctIds items
      → All (IsCounted items) lines
      → plan_reconcile created_at items lines
        ≡ ok (saved, consumed.txns ++ stock_up_txns created_at all_deltas.stock_up)
  unfolding plan_reconcile
  plan_reconcile-saved unique all =
      let none_yet : Deltas D = record { consume = []; stock_up = [] } in
      rw (split_deltas-counted items none_yet lines unique all) (
        book_deltas-saved (
          (consume_fifo_iff (counter_handler sell created_at) all_deltas.consume tt items).1
            (deltas-AllGive items none_yet lines all tt)))

  abbrev stocked : List (InventoryItemChange D F)
  stocked = stock_up_changes (build_item_map consumed.items) all_deltas.stock_up

  -- What is saved for an item that is consumed, and for one that is not.
  changed_quantity-consumed :
      (k : ℕ) (item : InventoryItem D F)
      → DistinctIds items
      → find (λ j. j.id == k) items ≡ some item
      → dec.is_zero (lookup_or dec.zero_value k all_deltas.consume) ≡ false
      → changed_quantity k saved
        ≡ some (dec.sub item.quantity (lookup_or dec.zero_value k all_deltas.consume))
  changed_quantity-consumed k item unique found taken =
      let present =
        consume_items-present (counter_handler sell created_at) all_deltas.consume k tt items item
          unique found in
      changed_quantity-append k consumed.changes stocked ∙ rw (present.0, taken)

  changed_quantity-kept :
      (k : ℕ) (item : InventoryItem D F)
      → DistinctIds items
      → k == 0 ≡ false
      → find (λ j. j.id == k) items ≡ some item
      → dec.is_zero (lookup_or dec.zero_value k all_deltas.consume) ≡ true
      → changed_quantity k saved ≡ (elim (lookup k all_deltas.stock_up) [
        | none ↦ none
        | some g ↦ some (dec.add item.quantity g)
      ])
  changed_quantity-kept k item unique known found kept =
      let handler = counter_handler sell created_at in
      let present = consume_items-present handler all_deltas.consume k tt items item unique found in
      let active = build_item_map consumed.items in
      let still : lookup k active ≡ some item =
        lookup-build_item_map k consumed.items known
          (consume_items-DistinctIds handler all_deltas.consume tt items unique)
        ∙ present.1 kept in
      changed_quantity-append k consumed.changes stocked
      ∙ rw (present.0, kept)
          (changed_quantity-stock_up active k item all_deltas.stock_up
            (build_item_map-Keyed consumed.items) still)

  abbrev PutDown : ℕ → D → Type 0
  PutDown k d =
      (lookup k all_deltas.consume ≡ (if dec.is_positive d then some d else none))
      × (lookup k all_deltas.stock_up ≡ (
          if dec.is_positive d then none else if dec.is_negative d then some (dec.neg d) else none))

  line-PutDown :
      (line : QuantityItem D) (here : IsCounted items line)
      → DistinctLines lines
      → find (λ j. j.inventory_item_id == line.inventory_item_id) lines ≡ some line
      → PutDown line.inventory_item_id (dec.sub line.prev_quantity here.counted)
  unfolding lookup
  line-PutDown line here apart there =
      let none_yet : Deltas D = record { consume = []; stock_up = [] } in
      subst (PutDown line.inventory_item_id) (delta_of-counted items line here)
        (deltas-present line.inventory_item_id none_yet lines line apart there refl refl)

  saved-Follows :
      (line : QuantityItem D) (here : IsCounted items line)
      → DistinctIds items
      → DistinctLines lines
      → find (λ j. j.inventory_item_id == line.inventory_item_id) lines ≡ some line
      → Follows here.item line here.counted (quantity_after saved here.item)
  unfolding lookup_or
  saved-Follows line here unique apart there =
      let k = line.inventory_item_id in
      let item = here.item in
      let d = dec.sub line.prev_quantity here.counted in
      let (c, u) = line-PutDown line here apart there in
      let id : item.id ≡ k = find-id k items item here.found in
      elim (Bool-cases (dec.is_positive d)) [
        | inl less ↦
            let q : lookup_or dec.zero_value k all_deltas.consume ≡ d = rw (c, less, lookup_or) in
            rw
              (quantity_after-changed saved item k (some (dec.sub item.quantity d)) id (
                changed_quantity-consumed k item unique here.found
                  (rw q (ground (arith, less, is_positive_test d, is_zero_test d, sides d)))
                ∙ rw q))
              (omega (arith, sub_parts item.quantity d, sub_parts line.prev_quantity here.counted))
        | inr enough ↦
            let q : lookup_or dec.zero_value k all_deltas.consume ≡ dec.zero_value =
              rw (c, enough, lookup_or) in
            let kept =
              changed_quantity-kept k item unique here.known here.found
                (rw q (rw is_zero_test (ground (arith, zero_value_parts dec)))) in
            elim (Bool-cases (dec.is_negative d)) [
              | inl more ↦
                  rw
                    (quantity_after-changed saved item k (some (dec.add item.quantity (dec.neg d)))
                      id (kept ∙ rw (u, enough, more)))
                    (omega (
                      arith,
                      add_parts item.quantity (dec.neg d),
                      neg_parts d,
                      sub_parts line.prev_quantity here.counted,
                    ))
              | inr even ↦
                  rw (quantity_after-changed saved item k none id (kept ∙ rw (u, enough, even))) (
                    ground (
                      arith,
                      enough,
                      even,
                      is_positive_test d,
                      is_negative_test d,
                      sub_parts line.prev_quantity here.counted,
                    ))
            ]
      ]

  -- For active items with distinct ids, and lines with distinct items that each name an active
  -- item with an id other than 0, a count that is not negative and a baseline that its quantity on
  -- hand still covers: plan_reconcile succeeds, and the changes that it saves leave the item of
  -- each line with its quantity on hand, less the baseline of the line, plus its count.
  pub plan_reconcile-counted :
      (line : QuantityItem D) (here : IsCounted items line)
      → DistinctIds items
      → DistinctLines lines
      → All (IsCounted items) lines
      → find (λ j. j.inventory_item_id == line.inventory_item_id) lines ≡ some line
      → (plan : List (InventoryItemChange D F) × List (InventoryTransaction D F)) × (plan_reconcile
            created_at items lines
          ≡ ok plan)
        × (dec.units (quantity_after plan.0 here.item)
            ≡ dec.units here.item.quantity
              -ℤ dec.units line.prev_quantity
              +ℤ dec.units here.counted)
  plan_reconcile-counted line here unique apart all there = (
    (saved, consumed.txns ++ stock_up_txns created_at all_deltas.stock_up),
    plan_reconcile-saved unique all,
    units-moved (quantity_after saved here.item) here.item.quantity line.prev_quantity here.counted
        (saved-Follows line here unique apart there),
  )
