-- ===== src/Models/Item.antt =====
-- internal/models/inventory_item.go: an item in stock and the movements that it can be taken from.
pub mod Valid
use cim_backend.Prelude.{
  ℕ, Bool, true, false, List, [], ◌∷◌, ◌==◌, ◌&&◌, ◌||◌, not, length, if◌then◌else◌,
}
use cim_backend.Decimal.{Decimal}
use cim_backend.Models.Transaction.{InventoryTransaction}

pub data ItemStatus : Type 0 where
  active inactive : ItemStatus

abbrev pub is_active : ItemStatus → Bool
is_active active = true
is_active inactive = false

pub record InventoryItem (D F : Type 0) : Type 0 where
  pub id : ℕ
  pub inventory_id : ℕ
  pub product_id : ℕ
  pub quantity : D
  pub unit_id : ℕ
  pub status : ItemStatus
  pub consuming_transaction_id : ℕ
  pub consumable_transactions : List (InventoryTransaction D F)

-- A change carries the quantity that the item had when it was read.
pub record InventoryItemChange (D F : Type 0) : Type 0 where
  pub item : InventoryItem D F
  pub original_quantity : D

pub data ItemCheck : Type 0 where
  valid invalid_quantity bad_item_state : ItemCheck

module _ {D F : Type 0} ⦃dec : Decimal D⦄ where
  -- What is left of one movement.
  unfoldable pub unconsumed : InventoryTransaction D F → D
  unconsumed t = dec.sub t.quantity t.consumed_quantity

  total_loop : D → List (InventoryTransaction D F) → D
  unfolding unconsumed
  total_loop acc [] = acc
  total_loop acc (t ∷ ts) = total_loop (dec.add acc (unconsumed t)) ts

  -- `ValidateActivePurchaseTransactions`
  unfoldable pub validate_active_purchase_transactions : InventoryItem D F → ItemCheck
  unfolding total_loop
  validate_active_purchase_transactions i =
      let none_left = length i.consumable_transactions == 0 in
      if dec.is_zero i.quantity && none_left
      then valid
      else if (not (dec.is_zero i.quantity) && none_left)
          || (dec.is_zero i.quantity && not none_left)
      then invalid_quantity
      else if not (dec.equal (total_loop dec.zero_value i.consumable_transactions) i.quantity)
      then bad_item_state
      else valid

  -- `IsNew`
  abbrev pub is_new : InventoryItem D F → Bool
  is_new i = i.id == 0
