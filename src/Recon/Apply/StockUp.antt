-- ===== src/Recon/Apply/StockUp.antt =====
-- What the surpluses of a reconciliation raise, item by item.
use cim_backend.Prelude.{
  ℕ, ◌≡◌, ◌∙◌, refl, inl, inr, ◌==◌, ==_iff, ==_refl, Bool-cases, Option-cases, Option, none, some,
  List, [], ◌∷◌, Map, lookup, ap,
}
use cim_backend.Decimal.{Decimal}
use cim_backend.Models.Item.{InventoryItem, InventoryItemChange}
use cim_backend.Stock.Fifo.Changes.{changed_quantity}
use cim_backend.Recon.Apply.{stock_up_change, stock_up_changes}
use cim_backend.Recon.Apply.Maps.{Keyed}

module _ {D F : Type 0} where
  -- The quantity of an item once the changes are saved.
  unfoldable pub quantity_after : List (InventoryItemChange D F) → InventoryItem D F → D
  quantity_after changes item = elim (changed_quantity item.id changes) [
    | none ↦ item.quantity
    | some q ↦ q
  ]

module _ {D F : Type 0} ⦃dec : Decimal D⦄ where
  pub quantity_after-changed :
      (changes : List (InventoryItemChange D F)) (item : InventoryItem D F) (k : ℕ) (o : Option D)
      → item.id ≡ k
      → changed_quantity k changes ≡ o
      → quantity_after changes item ≡ (elim o [ none ↦ item.quantity | some q ↦ q ])
  unfolding quantity_after
  quantity_after-changed changes item k o id h =
      ap (λ j. elim (changed_quantity j changes) as (λ _. D) [ none ↦ item.quantity | some q ↦ q ])
        id
      ∙ rw h

  abbrev raised : InventoryItem D F → D → InventoryItemChange D F
  raised item surplus = record {
    item = record item { quantity = dec.add item.quantity surplus };
    original_quantity = item.quantity;
  }

  stock_up_change-missing :
      (active : Map (InventoryItem D F)) (id : ℕ) (surplus : D)
      → lookup id active ≡ none
      → stock_up_change active id surplus ≡ []
  unfolding stock_up_change
  stock_up_change-missing active id surplus h = rw (h, stock_up_change)

  stock_up_change-found :
      (active : Map (InventoryItem D F)) (id : ℕ) (surplus : D) (item : InventoryItem D F)
      → lookup id active ≡ some item
      → stock_up_change active id surplus ≡ raised item surplus ∷ []
  unfolding stock_up_change
  stock_up_change-found active id surplus item h = rw (h, stock_up_change)

  pub changed_quantity-stock_up :
      (active : Map (InventoryItem D F)) (k : ℕ) (item : InventoryItem D F) (m : Map D)
      → Keyed active
      → lookup k active ≡ some item
      → changed_quantity k (stock_up_changes active m)
        ≡ (elim (lookup k m) [ none ↦ none | some surplus ↦ some (dec.add item.quantity surplus) ])
  unfolding stock_up_changes changed_quantity lookup
  changed_quantity-stock_up active k item [] keyed here = refl
  changed_quantity-stock_up active k item ((id, surplus) ∷ m) keyed here =
      let ih = changed_quantity-stock_up active k item m keyed here in
      elim (Bool-cases (id == k)) [
        | inl same ↦
            let e : id ≡ k = (==_iff id k).0 same in
            rw
              (
                same,
                e,
                stock_up_change-found active k surplus item here,
                keyed k item here,
                ==_refl k,
              )
              refl
        | inr other ↦ elim (Option-cases (lookup id active)) [
          | inl gone ↦ rw (other, stock_up_change-missing active id surplus gone) ih
          | inr (j, there) ↦
              rw (other, stock_up_change-found active id surplus j there, keyed id j there, other)
                ih
        ]
      ]
