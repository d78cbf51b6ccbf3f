-- ===== src/Stock/Fifo/Ledger.antt =====
-- The transactions that `consumeFIFO` writes: they account for the whole quantity consumed.
use cim_backend.Prelude.{
  ℕ, ◌+◌, ◌≡◌, inl, inr, false, List, [], ◌∷◌, ◌++◌, arith, All, Bool-cases, if◌then◌else◌,
}
use cim_backend.Decimal.{Decimal, plus, minus}
use cim_backend.Models.Transaction.{TransactionType, InventoryTransaction, type_eq}
use cim_backend.Models.Item.{InventoryItem, unconsumed}
use cim_backend.Stock.Fifo.{ConsumeHandler, consume_qty_for_txn, consume_layers, consume_item}
use cim_backend.Stock.Fifo.Layers.{IsLayer, plus-consume_qty_for_txn, sub_rest}
use cim_backend.Stock.Fifo.Items.{IsInSync, CanGive, item_after-IsInSync}

module _ {D F : Type 0} ⦃dec : Decimal D⦄ where
  -- The units moved by the transactions of one type.
  abbrev pub moved : TransactionType → List (InventoryTransaction D F) → ℕ
  moved type [] = 0
  moved type (t ∷ ts) =
      (if type_eq t.transaction_type type then plus t.quantity else 0) + moved type ts

  moved-append :
      (type : TransactionType) (xs ys : List (InventoryTransaction D F))
      → moved type (xs ++ ys) ≡ moved type xs + moved type ys
  moved-append type [] ys = omega arith
  moved-append type (x ∷ xs) ys = omega (arith, moved-append type xs ys)

module _ {S D F : Type 0} ⦃dec : Decimal D⦄ (type : TransactionType)
    (handler : ConsumeHandler S D F) where
  -- Each call of the handler writes transactions of the type for the whole quantity.
  abbrev pub Writes : Type 0
  Writes =
      (s : S) (i : InventoryItem D F) (t : InventoryTransaction D F) (q : D)
      → moved type (handler s i t q).1 ≡ plus q

  moved-consume_layers :
      (item : InventoryItem D F) (s : S) (last : ℕ) (q : D)
      (layers : List (InventoryTransaction D F))
      → Writes
      → All (λ t. type_eq t.transaction_type type ≡ false) layers
      → minus q ≡ 0
      → All IsLayer layers
      → let r = consume_layers handler item s last q layers in
        moved type r.txns + plus r.to_consume ≡ plus q
  unfolding consume_layers
  moved-consume_layers item s last q [] w ty hq hl = omega arith
  moved-consume_layers item s last q (t ∷ ts) w (ty, tys) hq (ht, hts) =
      let qty = consume_qty_for_txn q t in
      let (amount, nonneg) = plus-consume_qty_for_txn q t hq ht in
      let (rest, rest_nonneg) = sub_rest q qty hq nonneg (omega (arith, amount)) in
      let called = handler s item t qty in
      elim (Bool-cases (dec.greater_than q dec.zero_value)) [
        | inl more ↦ elim (Bool-cases (dec.is_zero (unconsumed t))) [
          | inl empty ↦ rw (more, empty) (moved-consume_layers item s last q ts w tys hq hts)
          | inr some_left ↦
              rw (more, some_left)
                (rw (moved-append, ty)
                  (omega (
                    arith,
                    amount,
                    rest,
                    w s item t qty,
                    moved-consume_layers item called.0 t.id (dec.sub q qty) ts w tys rest_nonneg
                        hts,
                  )))
        ]
        | inr done ↦ rw done (omega arith)
      ]

  -- For a handler whose every call writes transactions of a type for the whole quantity of the
  -- call, an item without movements of that type whose quantity equals what is left of its
  -- movements, and a quantity that it can give: the transactions of that type that consume_item
  -- writes add up to exactly that quantity.
  pub moved-consume_item :
      (i : InventoryItem D F) (s : S) (q : D)
      → Writes
      → All (λ t. type_eq t.transaction_type type ≡ false) i.consumable_transactions
      → IsInSync i
      → CanGive i q
      → moved type (consume_item handler i s q).txns ≡ plus q
  unfolding consume_item
  moved-consume_item i s q w ty sync can = omega (
    arith,
    (item_after-IsInSync handler i s q sync can).2,
    moved-consume_layers i s 0 q i.consumable_transactions w ty can.0 sync.layers,
  )
