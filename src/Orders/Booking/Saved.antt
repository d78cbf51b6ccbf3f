-- ===== src/Orders/Booking/Saved.antt =====
-- What the saves of a delivery leave of the stock's tables.
use cim_backend.Prelude.{
  ℕ, ◌+◌, ◌≤◌, ◌≡◌, ◌∙◌, refl, sym, subst, inl, inr, Bool-cases, ◌&&◌, ◌==◌, any, Option-cases,
  List, [], ◌∷◌, ◌++◌, map, All, ok, ok-injective, arith,
}
use mathlib.Core.List.{append-nil, append_assoc}
use cim_backend.Decimal.{Decimal, plus}
use cim_backend.Models.Transaction.{InventoryTransaction}
use cim_backend.Models.Item.{InventoryItem}
use cim_backend.Stock.Fifo.Conserved.{on_hand}
use cim_backend.Store.{Store}
use cim_backend.Store.Items.{save_item, save_transaction, save_transactions}
use cim_backend.Orders.Booking.{create_items, link_purchase}
use cim_backend.Orders.Booking.Deltas.{AllStocked}

module _ {D F : Type 0} ⦃dec : Decimal D⦄ where
  -- The quantities of transactions.
  abbrev pub moved : List (InventoryTransaction D F) → ℕ
  moved [] = 0
  moved (t ∷ ts) = plus t.quantity + moved ts

  pub moved-append :
      (ts us : List (InventoryTransaction D F)) → moved (ts ++ us) ≡ moved ts + moved us
  moved-append [] us = omega arith
  moved-append (t ∷ ts) us = omega (arith, moved-append ts us)

  pub on_hand-append :
      (is js : List (InventoryItem D F)) → on_hand (is ++ js) ≡ on_hand is + on_hand js
  on_hand-append [] js = omega arith
  on_hand-append (i ∷ is) js = omega (arith, on_hand-append is js)

  abbrev pub AllNew : List (InventoryTransaction D F) → Type 0
  AllNew ts = All (λ t. t.id ≡ 0) ts

  abbrev pub AllNewItems : List (InventoryItem D F) → Type 0
  AllNewItems is = All (λ i. i.id ≡ 0) is

  save_transaction-new :
      (s : Store D F) (t : InventoryTransaction D F)
      → t.id ≡ 0
      → ((save_transaction s t).items ≡ s.items)
        × (moved (save_transaction s t).transactions ≡ moved s.transactions + plus t.quantity)
  unfolding save_transaction
  save_transaction-new s t new =
      rw (new, save_transaction) (refl, moved-append s.transactions _ ∙ omega arith)

  pub save_transactions-moved :
      (s : Store D F) (ts : List (InventoryTransaction D F))
      → AllNew ts
      → ((save_transactions s ts).items ≡ s.items)
        × (moved (save_transactions s ts).transactions ≡ moved s.transactions + moved ts)
  save_transactions-moved s [] new = (refl, omega arith)
  save_transactions-moved s (t ∷ ts) (here, new) =
      let one = save_transaction-new s t here in
      let rest = save_transactions-moved (save_transaction s t) ts new in
      (rest.0 ∙ one.0, omega (arith, rest.1, one.1))

  link_purchase-new :
      (inventory : ℕ) (items : List (InventoryItem D F)) (t : InventoryTransaction D F)
      → ((link_purchase inventory items t).id ≡ t.id)
        × ((link_purchase inventory items t).quantity ≡ t.quantity)
  link_purchase-new inventory items t = elim (Option-cases t.inventory_item) [
    | inl old ↦ rw (old, link_purchase) (refl, refl)
    | inr (product, new) ↦ rw (new, link_purchase) (refl, refl)
  ]

  pub moved-link_purchase :
      (inventory : ℕ) (items : List (InventoryItem D F)) (ts : List (InventoryTransaction D F))
      → AllNew ts
      → AllNew (map (link_purchase inventory items) ts)
        × (moved (map (link_purchase inventory items) ts) ≡ moved ts)
  moved-link_purchase inventory items [] new = (tt, refl)
  moved-link_purchase inventory items (t ∷ ts) (here, new) =
      let (same_id, same) = link_purchase-new inventory items t in
      let (all, sum) = moved-link_purchase inventory items ts new in
      ((same_id ∙ here, all), rw same (omega (arith, sum)))

  -- The rows that were created, after those that there were.
  pub record Created (s t : Store D F) (is : List (InventoryItem D F)) : Type 0 where
    pub rows : List (InventoryItem D F)
    pub appended : t.items ≡ s.items ++ rows
    pub sum : on_hand rows ≡ on_hand is
    pub stocked : AllStocked is → AllStocked rows
    pub later : All (λ i. s.next_item_id ≤ i.id) rows
    pub same_transactions : t.transactions ≡ s.transactions

  -- The row of an item that is created.
  abbrev row_of_new : ℕ → InventoryItem D F → InventoryItem D F
  row_of_new id i = record i { id = id; consumable_transactions = [] }

  save_item-new :
      (s : Store D F) (i : InventoryItem D F)
      → i.id ≡ 0
      → save_item s i ≡ record s {
        items = s.items ++ row_of_new s.next_item_id i ∷ [];
        next_item_id = s.next_item_id + 1;
      }
  unfolding save_item
  save_item-new s i new = rw (new, save_item) refl

  AllLater-weaken :
      (a b : ℕ) (is : List (InventoryItem D F))
      → a ≤ b
      → All (λ i. b ≤ i.id) is
      → All (λ i. a ≤ i.id) is
  AllLater-weaken a b [] le all = tt
  AllLater-weaken a b (i ∷ is) le (here, all) = (omega arith, AllLater-weaken a b is le all)

  pub create_items-Created :
      (is : List (InventoryItem D F)) (s t : Store D F)
      → AllNewItems is
      → create_items is s ≡ ok t
      → Created s t is
  unfolding create_items
  create_items-Created [] s t new h =
      subst (λ u. Created s u []) (ok-injective h)
        (record {
          rows = [];
          appended = sym (append-nil s.items);
          sum = refl;
          stocked = λ all. tt;
          later = tt;
          same_transactions = refl;
        })
  create_items-Created (i ∷ is) s t (here, new) h =
      elim (Bool-cases
        (any (λ r. r.inventory_id == i.inventory_id && r.product_id == i.product_id) s.items)) [
          | inl taken ↦ absurd (cc (rw (taken, create_items) at h))
          | inr free ↦
              let saved = save_item-new s i here in
              let c =
                create_items-Created is _ t new (rw saved at (rw (free, create_items) at h)) in
              let row = row_of_new s.next_item_id i in
              record {
                rows = row ∷ c.rows;
                appended = c.appended ∙ append_assoc s.items (row ∷ []) c.rows;
                sum = omega (arith, c.sum);
                stocked = λ all. (all.0, c.stocked all.1);
                later = (
                  omega arith,
                  AllLater-weaken s.next_item_id (s.next_item_id + 1) c.rows (omega arith) c.later,
                );
                same_transactions = c.same_transactions;
              }
        ]
