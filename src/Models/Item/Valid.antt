-- ===== src/Models/Item/Valid.antt =====
-- What the validation of an item says of its movements.
use cim_backend.Prelude.{
  ◌≡◌, ◌∙◌, refl, sym, inl, inr, true, false, ◌==◌, Bool-cases, List, [], ◌∷◌, length, arith, ℤ,
  pos, ◌+ℤ◌, int_laws, sum_by, eqb_ℤ, eq_of_parts,
}
use cim_backend.Decimal.{Decimal}
use cim_backend.Models.Transaction.{InventoryTransaction}
use cim_backend.Models.Item.{
  InventoryItem, valid, unconsumed, total_loop, validate_active_purchase_transactions,
}

eqb_ℤ→eq : (a b : ℤ) → eqb_ℤ a b ≡ true → a ≡ b
eqb_ℤ→eq a b h = eq_of_parts a b (ground (arith, h))

module _ {D F : Type 0} ⦃dec : Decimal D⦄ where
  -- What is left of one movement, in units.
  abbrev pub open_units : InventoryTransaction D F → ℤ
  open_units t = dec.units (unconsumed t)

  units-total_loop :
      (acc : D) (ts : List (InventoryTransaction D F))
      → dec.units (total_loop acc ts) ≡ dec.units acc +ℤ sum_by open_units ts
  unfolding total_loop
  units-total_loop acc [] = omega int_laws
  units-total_loop acc (t ∷ ts) =
      rw (units-total_loop (dec.add acc (unconsumed t)) ts, dec.units-add) (omega int_laws)

  -- The validation, by the item's quantity and its movements.
  valid-open_units :
      (q : D) (ts : List (InventoryTransaction D F))
      → (i : InventoryItem D F) → i.quantity ≡ q
      → i.consumable_transactions ≡ ts
      → validate_active_purchase_transactions i ≡ valid
      → dec.units q ≡ sum_by open_units ts
  unfolding validate_active_purchase_transactions
  valid-open_units q [] i eq et h = elim (Bool-cases (dec.is_zero q)) [
    | inl zero_now ↦ eqb_ℤ→eq (dec.units q) (pos 0) (sym (dec.is_zero-eq q) ∙ zero_now)
    | inr some_left ↦ absurd (cc (rw (eq, et, some_left) at h))
  ]
  valid-open_units q (t ∷ ts) i eq et h =
      let positive : (length (t ∷ ts) == 0) ≡ false = ground arith in
      elim (Bool-cases (dec.is_zero q)) [
        | inl zero_now ↦ absurd (cc (rw (eq, et, zero_now, positive) at h))
        | inr some_left ↦ elim (Bool-cases (dec.equal (total_loop dec.zero_value (t ∷ ts)) q)) [
          | inl same ↦
              sym (
                eqb_ℤ→eq (dec.units (total_loop dec.zero_value (t ∷ ts))) (dec.units q)
                  (sym (dec.equal-eq (total_loop dec.zero_value (t ∷ ts)) q) ∙ same))
              ∙ (units-total_loop dec.zero_value (t ∷ ts)
                  ∙ rw dec.units-zero_value (omega int_laws))
          | inr other ↦ absurd (cc (rw (eq, et, some_left, positive, other) at h))
        ]
      ]

  -- An item that passes validate_active_purchase_transactions has on hand exactly what is left
  -- of its consumable movements.
  pub validate_active_purchase_transactions-valid :
      (i : InventoryItem D F)
      → validate_active_purchase_transactions i ≡ valid
      → dec.units i.quantity ≡ sum_by open_units i.consumable_transactions
  validate_active_purchase_transactions-valid i h =
      valid-open_units i.quantity i.consumable_transactions i refl refl h
