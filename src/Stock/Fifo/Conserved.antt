-- ===== src/Stock/Fifo/Conserved.antt =====
-- A handler that puts what it is given elsewhere: `consumeFIFO` neither makes nor loses stock.
use cim_backend.Prelude.{
  ℕ, ◌+◌, ◌≡◌, inl, inr, List, [], ◌∷◌, arith, All, Bool-cases, Map, lookup_or, ok, subst,
}
use cim_backend.Decimal.{Decimal, plus, minus}
use cim_backend.Models.Transaction.{InventoryTransaction}
use cim_backend.Models.Item.{InventoryItem, unconsumed}
use cim_backend.Stock.Fifo.{
  ConsumeHandler, Consumed, consume_qty_for_txn, consume_layers, consume_item, item_after,
  consume_items, consume_fifo,
}
use cim_backend.Stock.Fifo.Layers.{IsLayer, plus-consume_qty_for_txn, sub_rest}
use cim_backend.Stock.Fifo.Items.{
  IsInSync, CanGive, item_after-IsInSync, DistinctIds, consume_fifo-ok, asked-CanGive-All,
  FindsItself-distinct,
}

module _ {D F : Type 0} ⦃dec : Decimal D⦄ where
  -- What a list of items has on hand.
  abbrev pub on_hand : List (InventoryItem D F) → ℕ
  on_hand [] = 0
  on_hand (x ∷ xs) = plus x.quantity + on_hand xs

module _ {S D F : Type 0} ⦃dec : Decimal D⦄ (handler : ConsumeHandler S D F) (Sound : S → Type 0)
    (held : S → ℕ) where
  -- The handler's state holds, after a call, the quantity of the call more than before.
  abbrev pub Holds : Type 0
  Holds =
      (s : S) (i : InventoryItem D F) (t : InventoryTransaction D F) (q : D)
      → Sound s
      → minus q ≡ 0
      → Sound (handler s i t q).0 × (held (handler s i t q).0 ≡ held s + plus q)

  consume_layers-held :
      (item : InventoryItem D F) (s : S) (last : ℕ) (q : D)
      (layers : List (InventoryTransaction D F))
      → Holds
      → Sound s
      → minus q ≡ 0
      → All IsLayer layers
      → let r = consume_layers handler item s last q layers in
        Sound r.handler_state × (held r.handler_state + plus r.to_consume ≡ held s + plus q)
  unfolding consume_layers
  consume_layers-held item s last q [] holds sound hq hl = (sound, omega arith)
  consume_layers-held item s last q (t ∷ ts) holds sound hq (ht, hts) =
      let qty = consume_qty_for_txn q t in
      let (amount, nonneg) = plus-consume_qty_for_txn q t hq ht in
      let (rest, rest_nonneg) = sub_rest q qty hq nonneg (omega (arith, amount)) in
      let called = handler s item t qty in
      elim (Bool-cases (dec.greater_than q dec.zero_value)) [
        | inl more ↦ elim (Bool-cases (dec.is_zero (unconsumed t))) [
          | inl empty ↦ rw (more, empty) (consume_layers-held item s last q ts holds sound hq hts)
          | inr some_left ↦
              let (sound', more_held) = holds s item t qty sound nonneg in
              let ih =
                consume_layers-held item called.0 t.id (dec.sub q qty) ts holds sound' rest_nonneg
                  hts in
              rw (more, some_left) (ih.0, omega (arith, amount, rest, more_held, ih.1))
        ]
        | inr done ↦ rw done (sound, omega arith)
      ]

  consume_items-held :
      (wanted : Map D) (s : S) (xs : List (InventoryItem D F))
      → Holds
      → Sound s
      → All IsInSync xs
      → All (λ i. CanGive i (lookup_or dec.zero_value i.id wanted)) xs
      → let c = consume_items handler wanted s xs in
        Sound c.handler_state × (on_hand c.items + held c.handler_state ≡ on_hand xs + held s)
  unfolding consume_items consume_item item_after
  consume_items-held wanted s [] holds sound sync can = (sound, omega arith)
  consume_items-held wanted s (x ∷ xs) holds sound (sy, sys) (c, cs) =
      let q = lookup_or dec.zero_value x.id wanted in
      let r = consume_item handler x s q in
      elim (Bool-cases (dec.is_zero q)) [
        | inl skip ↦
            let ih = consume_items-held wanted s xs holds sound sys cs in
            rw skip (ih.0, omega (arith, ih.1))
        | inr taken ↦
            let (sync', less, all) = item_after-IsInSync handler x s q sy c in
            let (sound', here) =
              consume_layers-held x s 0 q x.consumable_transactions holds sound c.0 sy.layers in
            let ih = consume_items-held wanted r.handler_state xs holds sound' sys cs in
            rw taken (ih.0, omega (arith, ih.1, here, less, all, c.1, sy.nonneg))
      ]

  -- Where consume_fifo succeeds, what the items have lost is what the handler's state has gained.
  pub consume_fifo-held :
      (wanted : Map D) (s : S) (items : List (InventoryItem D F)) (c : Consumed S D F)
      → Holds
      → Sound s
      → DistinctIds items
      → All IsInSync items
      → consume_fifo handler s [] items wanted ≡ ok c
      → on_hand c.items + held c.handler_state ≡ on_hand items + held s
  consume_fifo-held wanted s items c holds sound unique sync h =
      let (e, gives) = consume_fifo-ok handler wanted s items c h in
      subst
        (λ (r : Consumed S D F). on_hand r.items + held r.handler_state ≡ on_hand items + held s) e
        (consume_items-held wanted s items holds sound sync
          (asked-CanGive-All items items wanted gives (FindsItself-distinct items unique) sync)).1
