-- ===== src/Stock/Fifo/Layers.antt =====
-- One movement and one item in `consumeFIFO`: what the inner loop takes, and from where.
use cim_backend.Prelude.{
  ℕ, zero, suc, ◌+◌, ◌-◌, ◌≤◌, ◌≡◌, refl, ap, inl, inr, List, [], ◌∷◌, arith, ltb, min, take, All,
  length, Bool-cases,
}
use cim_backend.Decimal.{
  Decimal, plus, minus, sides, zero_value_parts, add_parts, sub_parts, is_zero_test, less_than_test,
  greater_than_test,
}
use cim_backend.Models.Transaction.{InventoryTransaction}
use cim_backend.Models.Item.{InventoryItem, unconsumed}
use cim_backend.Stock.Fifo.{
  ConsumeHandler, LoopState, consume_qty_for_txn, consume_txn, consume_layers,
}

module _ {D F : Type 0} ⦃dec : Decimal D⦄ where
  -- No more was taken from a movement than it brought.
  abbrev pub IsLayer : InventoryTransaction D F → Type 0
  IsLayer t = minus (unconsumed t) ≡ 0

  -- What is left of a list of movements, in units.
  abbrev pub open_total : List (InventoryTransaction D F) → ℕ
  open_total [] = 0
  open_total (t ∷ ts) = plus (unconsumed t) + open_total ts

  pub plus-consume_qty_for_txn :
      (q : D) (t : InventoryTransaction D F)
      → minus q ≡ 0
      → IsLayer t
      → (plus (consume_qty_for_txn q t) ≡ min (plus q) (plus (unconsumed t)))
        × (minus (consume_qty_for_txn q t) ≡ 0)
  unfolding consume_qty_for_txn
  plus-consume_qty_for_txn q t hq ht = ground (arith, less_than_test q (unconsumed t))

  -- Taking `qty` from a movement leaves that much less of it.
  pub unconsumed-consume_txn :
      (qty : D) (t : InventoryTransaction D F)
      → minus qty ≡ 0
      → IsLayer t
      → plus qty ≤ plus (unconsumed t)
      → (plus (unconsumed (consume_txn qty t)) ≡ plus (unconsumed t) - plus qty)
        × (minus (unconsumed (consume_txn qty t)) ≡ 0)
  unfolding consume_txn unconsumed
  unconsumed-consume_txn qty t hq ht le = omega (
    arith,
    sub_parts t.quantity (dec.add t.consumed_quantity qty),
    sub_parts t.quantity t.consumed_quantity,
    add_parts t.consumed_quantity qty,
    sides (dec.sub t.quantity (dec.add t.consumed_quantity qty)),
  )

module _ {D : Type 0} ⦃dec : Decimal D⦄ where
  pub sub_rest :
      (a b : D)
      → minus a ≡ 0
      → minus b ≡ 0
      → plus b ≤ plus a
      → (plus (dec.sub a b) ≡ plus a - plus b) × (minus (dec.sub a b) ≡ 0)
  sub_rest a b ha hb le = omega (arith, sub_parts a b, sides (dec.sub a b))

  greater_than_zero : (q : D) → minus q ≡ 0 → dec.greater_than q dec.zero_value ≡ ltb 0 (plus q)
  greater_than_zero q h = ground (arith, greater_than_test q dec.zero_value, zero_value_parts dec)

module _ {D F : Type 0} ⦃dec : Decimal D⦄ where
  -- One round that takes from a movement.
  take_step :
      (q : D) (t : InventoryTransaction D F)
      → minus q ≡ 0
      → IsLayer t
      → let qty = consume_qty_for_txn q t in
        IsLayer (consume_txn qty t)
        × (plus (unconsumed (consume_txn qty t)) ≡ plus (unconsumed t) - plus q)
        × (plus (dec.sub q qty) ≡ plus q - plus (unconsumed t))
        × (minus (dec.sub q qty) ≡ 0)
  take_step q t hq ht =
      let qty = consume_qty_for_txn q t in
      omega
        (arith, plus-consume_qty_for_txn q t hq ht, unconsumed-consume_txn qty t, sub_rest q qty)

-- What the loop did to the movements and to the rest of the quantity.
module _ {S D F : Type 0} ⦃dec : Decimal D⦄ where
  pub record Took (q : D) (before : List (InventoryTransaction D F)) (r : LoopState S D F)
      : Type 0 where
    pub layers : All IsLayer r.layers
    pub same_length : length r.layers ≡ length before
    pub oldest_first : (n : ℕ) → open_total (take n r.layers) ≡ open_total (take n before) - plus q
    pub left : plus r.to_consume ≡ plus q - open_total before
    pub left_nonneg : minus r.to_consume ≡ 0
    pub total : open_total r.layers ≡ open_total before - plus q

  -- Nothing to take: the movements stay.
  Took-stop :
      (q : D) (before : List (InventoryTransaction D F)) (r : LoopState S D F)
      → minus q ≡ 0
      → plus q ≡ 0
      → All IsLayer before
      → r.layers ≡ before
      → r.to_consume ≡ q
      → Took q before r
  Took-stop q before r hq none_left hl el eq = record {
    layers = rw el hl;
    same_length = ap length el;
    oldest_first = λ n. rw el (omega arith);
    left = rw eq (omega arith);
    left_nonneg = rw eq hq;
    total = rw el (omega arith);
  }

  Took-layers :
      (q q' : D) (t t' : InventoryTransaction D F) (ts : List (InventoryTransaction D F))
      (r r' : LoopState S D F)
      → Took q' ts r
      → r'.layers ≡ t' ∷ r.layers
      → r'.to_consume ≡ r.to_consume
      → IsLayer t'
      → (plus (unconsumed t') ≡ plus (unconsumed t) - plus q)
      → (plus q' ≡ plus q - plus (unconsumed t))
      → Took q (t ∷ ts) r'
  Took-layers q q' t t' ts r r' took el eq ht open' rest' = record {
    layers = rw el (ht, took.layers);
    same_length = rw el (ap suc took.same_length);
    oldest_first = λ n. rw el (prefix n);
    left = rw eq (omega (arith, took.left));
    left_nonneg = rw eq took.left_nonneg;
    total = rw el (omega (arith, took.total));
  }
    where
      prefix : (n : ℕ) → open_total (take n (t' ∷ r.layers)) ≡ open_total (take n (t ∷ ts)) - plus q
      prefix zero = omega arith
      prefix (suc n) = omega (arith, took.oldest_first n)

module _ {S D F : Type 0} ⦃dec : Decimal D⦄ (handler : ConsumeHandler S D F)
    (item : InventoryItem D F) where
  -- For a quantity that is not negative and movements that are not overdrawn: for every n, the
  -- first n movements are left with what they held less the quantity, stopping at 0, so that stock
  -- is taken from the oldest movement first; what stays outstanding is the quantity less what all
  -- held, stopping at 0; and no movement is overdrawn, added or lost.
  pub consume_layers-Took :
      (s : S) (last : ℕ) (q : D) (layers : List (InventoryTransaction D F))
      → minus q ≡ 0
      → All IsLayer layers
      → Took q layers (consume_layers handler item s last q layers)
  unfolding consume_layers
  consume_layers-Took s last q [] hq hl = record {
    layers = tt;
    same_length = refl;
    oldest_first = elim [ zero ↦ omega arith | suc n ↦ omega arith ];
    left = omega arith;
    left_nonneg = hq;
    total = omega arith;
  }
  consume_layers-Took s last q (t ∷ ts) hq (ht, hts) =
      elim (Bool-cases (dec.greater_than q dec.zero_value)) [
        | inl more ↦ elim (Bool-cases (dec.is_zero (unconsumed t))) [
          | inl empty ↦
              rw (more, empty)
                (Took-layers q q t t ts _ _ (consume_layers-Took s last q ts hq hts) refl refl ht
                  (ground (arith, is_zero_test (unconsumed t)))
                  (ground (arith, is_zero_test (unconsumed t))))
          | inr some_left ↦
              rw (more, some_left)
                (let qty = consume_qty_for_txn q t in
                  let (ht', open', rest', hq') = take_step q t hq ht in
                  Took-layers q (dec.sub q qty) t (consume_txn qty t) ts _ _
                    (consume_layers-Took (handler s item t qty).0 t.id (dec.sub q qty) ts hq' hts)
                    refl refl ht' open' rest')
        ]
        | inr done ↦
            rw done (
              Took-stop q (t ∷ ts) _ hq (ground (arith, greater_than_zero q hq)) (ht, hts) refl
                refl)
      ]
