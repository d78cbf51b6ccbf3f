-- ===== src/Store/Items.antt =====
-- internal/repository/inventory_item.go, and the item lookups of the inventory service.
use cim_backend.Prelude.{
  ℕ, ◌+◌, Bool, true, false, ◌&&◌, ◌||◌, not, ltb, ◌==◌, Option, none, some, List, [], ◌∷◌, ◌++◌,
  map, any, find, Map, put, lookup_or, select, sort_stable, ok, err, if◌then◌else◌,
}
use cim_backend.Decimal.{Decimal}
use cim_backend.Errors.{
  AppError, no_active_inventory_items, item_validation_failed, optimistic_lock_conflict,
  inventory_item_not_found,
}
use cim_backend.Caller.{Caller}
use cim_backend.Models.Transaction.{InventoryTransaction, is_consumable}
use cim_backend.Models.Item.{
  InventoryItem, InventoryItemChange, valid, is_active, is_new,
  validate_active_purchase_transactions,
}
use cim_backend.Store.Tables.{
  Store, Tx, ◌>>=◌, ◌>>◌, pure, raise_if, gets, modify, with_update_fields,
}

module _ {D F : Type 0} where
  -- `ORDER BY created_at ASC, id ASC`
  abbrev pub older : InventoryTransaction D F → InventoryTransaction D F → Bool
  older a b = ltb a.created_at b.created_at || (a.created_at == b.created_at && ltb a.id b.id)

  abbrev pub item_with_id : ℕ → List (InventoryItem D F) → Option (InventoryItem D F)
  item_with_id id items = find (λ i. i.id == id) items

module _ {D F : Type 0} ⦃dec : Decimal D⦄ where
  abbrev pub is_open_layer : ℕ → InventoryTransaction D F → Bool
  is_open_layer item_id t =
      t.inventory_item_id == item_id
      && is_consumable t.transaction_type
      && dec.less_than t.consumed_quantity t.quantity

  -- `populateConsumableTransactions`, for one item
  unfoldable pub populate : Store D F → InventoryItem D F → InventoryItem D F
  populate s i = record i {
    consumable_transactions = sort_stable older (select (is_open_layer i.id) s.transactions);
  }

  -- `GetActiveInventoryItems` of the repository
  unfoldable pub active_items_query : ℕ → List ℕ → Store D F → List (InventoryItem D F)
  active_items_query inventory_id ids s = map (populate s) (
      select
        (λ i. i.inventory_id == inventory_id && any (λ id. id == i.id) ids && is_active i.status)
        s.items)

  abbrev pub is_valid_item : InventoryItem D F → Bool
  is_valid_item i = elim (validate_active_purchase_transactions i) [ valid ↦ true | _ ↦ false ]

  -- `getActiveInventoryItems` of the service
  unfoldable pub get_active_inventory_items : ℕ → List ℕ → Tx D F (List (InventoryItem D F))
  get_active_inventory_items inventory_id ids = do
    items ← gets (active_items_query inventory_id ids)
    raise_if (not (any (λ i. true) items)) no_active_inventory_items
    raise_if (any (λ i. not (is_valid_item i)) items) item_validation_failed
    pure items

  -- The optimistic lock of `updateInventoryItems`.
  abbrev pub check_change : Store D F → InventoryItemChange D F → Option AppError
  check_change s c = if is_new c.item then none else elim (item_with_id c.item.id s.items) [
    | none ↦ some (inventory_item_not_found c.item.id)
    | some row ↦
        if dec.equal row.quantity c.original_quantity
        then none
        else some (optimistic_lock_conflict c.item.id)
  ]

  abbrev pub check_changes : Store D F → List (InventoryItemChange D F) → Option AppError
  check_changes s [] = none
  check_changes s (c ∷ cs) = elim (check_change s c) [ some e ↦ some e | none ↦ check_changes s cs ]

  -- `Save` of one item: every column of its row, or a new row. The movements are not a column.
  unfoldable pub save_item : Store D F → InventoryItem D F → Store D F
  save_item s i =
      let row = record i { consumable_transactions = [] } in
      if is_new i
      then record s {
        items = s.items ++ record row { id = s.next_item_id } ∷ [];
        next_item_id = s.next_item_id + 1;
      }
      else record s { items = map (λ r. if r.id == i.id then row else r) s.items }

  abbrev pub save_items : Store D F → List (InventoryItemChange D F) → Store D F
  save_items s [] = s
  save_items s (c ∷ cs) = save_items (save_item s c.item) cs

  -- `Save` of one transaction: GORM stamps a new row that has no creation time.
  unfoldable pub save_transaction : Store D F → InventoryTransaction D F → Store D F
  save_transaction s t =
      if t.id == 0
      then record s {
        transactions =
            s.transactions
            ++ record t {
              id = s.next_transaction_id;
              created_at = if t.created_at == 0 then s.clock else t.created_at;
            }
              ∷ [];
        next_transaction_id = s.next_transaction_id + 1;
      }
      else record s { transactions = map (λ r. if r.id == t.id then t else r) s.transactions }

  abbrev pub save_transactions : Store D F → List (InventoryTransaction D F) → Store D F
  save_transactions s [] = s
  save_transactions s (t ∷ ts) = save_transactions (save_transaction s t) ts

  -- The ids that the items of the changes have once they are saved, by product.
  abbrev pub saved_items : Map ℕ → ℕ → List (InventoryItemChange D F) → Map ℕ
  saved_items ids next [] = ids
  saved_items ids next (c ∷ cs) =
      if is_new c.item
      then saved_items (put c.item.product_id next ids) (next + 1) cs
      else saved_items (put c.item.product_id c.item.id ids) next cs

  -- `txn.InventoryItemID = txn.InventoryItem.ID`
  abbrev pub link_txn : Map ℕ → InventoryTransaction D F → InventoryTransaction D F
  link_txn ids t = elim t.inventory_item [
    | none ↦ t
    | some product ↦ record t {
      inventory_item_id = lookup_or t.inventory_item_id product ids;
      inventory_item = none;
    }
  ]

  abbrev pub raise_some : Option AppError → Tx D F (Unit {0})
  raise_some none s = ok (tt, s)
  raise_some (some e) s = err e

  -- The hooks run only where there is a row to write.
  abbrev pub hooks :
      Caller → List (InventoryItemChange D F) → List (InventoryTransaction D F) → Tx D F (Unit {0})
  hooks ctx [] [] = pure tt
  hooks ctx _ _ = with_update_fields ctx

  -- `SaveInventoryItemChanges`
  unfoldable pub save_inventory_item_changes :
      Caller → List (InventoryItemChange D F) → List (InventoryTransaction D F) → Tx D F (Unit {0})
  save_inventory_item_changes ctx changes txns = do
    clash ← gets (λ s. check_changes s changes)
    raise_some clash
    hooks ctx changes txns
    modify (λ s.
        save_transactions (save_items s changes)
          (map (link_txn (saved_items [] s.next_item_id changes)) txns))
