-- ===== src/Models/Transaction/Totals.antt =====
-- The net quantities of `AggTxnQuantities` against the movements.
use cim_backend.Prelude.{
  ℕ, ◌≡◌, refl, inl, inr, ◌==◌, ==_iff, Bool-cases, List, [], ◌∷◌, Map, lookup, lookup_or,
  lookup_or-put, ℤ, pos, ◌+ℤ◌, int_laws, sum_by, if◌then◌else◌,
}
use cim_backend.Decimal.{Decimal}
use cim_backend.Models.Transaction.{
  InventoryTransaction, stock_delta, agg_step, agg_loop, agg_txn_quantities,
}

module _ {D F : Type 0} ⦃dec : Decimal D⦄ (id : ℕ) where
  -- What one movement adds to the item's stock.
  abbrev pub delta_units : InventoryTransaction D F → ℤ
  delta_units t =
      if t.inventory_item_id == id
      then dec.units (stock_delta t.transaction_type t.quantity)
      else pos 0

  units-agg_step :
      (m : Map D) (t : InventoryTransaction D F)
      → dec.units (lookup_or dec.zero_value id (agg_step m t))
        ≡ dec.units (lookup_or dec.zero_value id m) +ℤ delta_units t
  unfolding agg_step
  units-agg_step m t = elim (Bool-cases (t.inventory_item_id == id)) [
    | inl same ↦
        let e : t.inventory_item_id ≡ id = (==_iff t.inventory_item_id id).0 same in
        rw (lookup_or-put, same, dec.units-add, e) refl
    | inr other ↦ rw (lookup_or-put, other) (omega int_laws)
  ]

  units-agg_loop :
      (m : Map D) (ts : List (InventoryTransaction D F))
      → dec.units (lookup_or dec.zero_value id (agg_loop m ts))
        ≡ dec.units (lookup_or dec.zero_value id m) +ℤ sum_by delta_units ts
  unfolding agg_loop
  units-agg_loop m [] = omega int_laws
  units-agg_loop m (t ∷ ts) =
      rw (units-agg_loop (agg_step m t) ts, units-agg_step m t) (omega int_laws)

  -- The net quantity of an item is the sum of the stock deltas of its movements, and 0 for an
  -- item without one.
  pub agg_txn_quantities-units :
      (ts : List (InventoryTransaction D F))
      → dec.units (lookup_or dec.zero_value id (agg_txn_quantities ts)) ≡ sum_by delta_units ts
  unfolding agg_txn_quantities lookup_or lookup
  agg_txn_quantities-units ts = rw (units-agg_loop [] ts) (rw dec.units-zero_value (omega int_laws))
