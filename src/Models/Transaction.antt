-- ===== src/Models/Transaction.antt =====
-- internal/models/inventory_transaction.go: stock movements and what each adds to the stock.
pub mod Totals
use cim_backend.Prelude.{ℕ, Bool, Option, List, [], ◌∷◌, ◌==◌, any, Map, lookup_or, put}
use cim_backend.Decimal.{Decimal}

-- `unknown` stands for every string that is none of the constants.
pub data TransactionType : Type 0 where
  purchase disposal sell transfer_out transfer_in reconcile_stock_up initial unknown :
      TransactionType

abbrev type_code : TransactionType → ℕ
type_code purchase = 0
type_code disposal = 1
type_code sell = 2
type_code transfer_out = 3
type_code transfer_in = 4
type_code reconcile_stock_up = 5
type_code initial = 6
type_code unknown = 7

-- `==` on the strings.
abbrev pub type_eq : TransactionType → TransactionType → Bool
type_eq s t = type_code s == type_code t

pub record InventoryTransaction (D F : Type 0) : Type 0 where
  pub id : ℕ
  pub created_at : ℕ
  pub inventory_item_id : ℕ
  pub transaction_type : TransactionType
  pub price : F
  pub quantity : D
  pub consumed_quantity : D
  pub counter_transaction_id : Option ℕ
  pub is_adjustment : Bool
  -- The pointer `InventoryItem` of a row that is not saved yet: the product of the change that holds
  -- the item. It is nil in the rows that are read.
  pub inventory_item : Option ℕ

abbrev pub consumable_transaction_types : List TransactionType
consumable_transaction_types = purchase ∷ transfer_in ∷ reconcile_stock_up ∷ initial ∷ []

unfoldable pub is_consumable : TransactionType → Bool
is_consumable t = any (type_eq t) consumable_transaction_types

module _ {D : Type 0} ⦃dec : Decimal D⦄ where
  -- What a movement of this type adds to the stock.
  unfoldable pub stock_delta : TransactionType → D → D
  stock_delta purchase qty = qty
  stock_delta transfer_in qty = qty
  stock_delta reconcile_stock_up qty = qty
  stock_delta initial qty = qty
  stock_delta sell qty = dec.neg qty
  stock_delta disposal qty = dec.neg qty
  stock_delta transfer_out qty = dec.neg qty
  stock_delta unknown qty = dec.zero_value

  agg_step : {F : Type 0} → Map D → InventoryTransaction D F → Map D
  agg_step quantities txn =
      put txn.inventory_item_id
        (dec.add (lookup_or dec.zero_value txn.inventory_item_id quantities)
          (stock_delta txn.transaction_type txn.quantity))
        quantities

  agg_loop : {F : Type 0} → Map D → List (InventoryTransaction D F) → Map D
  agg_loop quantities [] = quantities
  agg_loop quantities (txn ∷ txns) = agg_loop (agg_step quantities txn) txns

  -- Net quantities by item.
  unfoldable pub agg_txn_quantities : {F : Type 0} → List (InventoryTransaction D F) → Map D
  unfolding agg_loop agg_step
  agg_txn_quantities txns = agg_loop [] txns
