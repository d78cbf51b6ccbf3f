-- ===== src/Legacy/Transfers.antt =====
-- A transfer neither makes nor loses stock.
use cim_backend.Prelude.{
  ℕ, ◌+◌, ◌-◌, ◌≤◌, ◌≡◌, ap, subst, inl, inr, ◌==◌, Bool-cases, none, some, Option-cases, List, [],
  ◌∷◌, All, Map, lookup, lookup-put, put, ok, arith,
}
use cim_backend.Decimal.{Decimal, plus, minus, add_parts, sides, zero_value_parts}
use cim_backend.Models.Item.{InventoryItem, InventoryItemChange}
use cim_backend.Stock.Fifo.{Consumed, consume_fifo}
use cim_backend.Stock.Fifo.Items.{IsInSync, DistinctIds}
use cim_backend.Stock.Fifo.Conserved.{on_hand, Holds, consume_fifo-held}
use cim_backend.Stock.Transfer.{
  Destination, build_product_id_map, put_products, put_product, change_of, new_destination,
  raise_change, transfer_handler,
}

module _ {D F : Type 0} ⦃dec : Decimal D⦄ where
  -- By how much a change raises its item.
  abbrev raise_of : InventoryItemChange D F → ℕ
  raise_of c = plus c.item.quantity - plus c.original_quantity

  -- What the changes of the destination have put on it.
  abbrev pub gained : Destination D F → ℕ
  gained [] = 0
  gained ((_, c) ∷ changes) = raise_of c + gained changes

  gained-put-new :
      (k : ℕ) (c : InventoryItemChange D F) (m : Destination D F)
      → lookup k m ≡ none
      → gained (put k c m) ≡ gained m + raise_of c
  unfolding lookup put
  gained-put-new k c [] h = omega arith
  gained-put-new k c ((j, x) ∷ m) h = elim (Bool-cases (j == k)) [
    | inl same ↦ absurd (cc (rw same at h))
    | inr other ↦ rw other (omega (arith, gained-put-new k c m (rw other at h)))
  ]

  gained-put-old :
      (k : ℕ) (c d : InventoryItemChange D F) (m : Destination D F)
      → lookup k m ≡ some d
      → gained (put k c m) + raise_of d ≡ gained m + raise_of c
  unfolding lookup put
  gained-put-old k c d [] h = absurd (cc)
  gained-put-old k c d ((j, x) ∷ m) h = elim (Bool-cases (j == k)) [
    | inl same ↦ let e : x ≡ d = cc (rw same at h) in rw (same, ← e) (omega arith)
    | inr other ↦ rw other (omega (arith, gained-put-old k c d m (rw other at h)))
  ]

  -- A change that raises its item, from a quantity that is not negative.
  record IsRaised (c : InventoryItemChange D F) : Type 0 where
    nonneg : minus c.item.quantity ≡ 0
    raised : plus c.original_quantity ≤ plus c.item.quantity

  abbrev AllRaised : Destination D F → Type 0
  AllRaised m = (k : ℕ) (c : InventoryItemChange D F) → lookup k m ≡ some c → IsRaised c

  AllNonneg : Map (InventoryItem D F) → Type 0
  AllNonneg m = (k : ℕ) (i : InventoryItem D F) → lookup k m ≡ some i → minus i.quantity ≡ 0

  put_products-AllNonneg :
      (m : Map (InventoryItem D F)) (items : List (InventoryItem D F))
      → AllNonneg m
      → All (λ i. minus i.quantity ≡ 0) items
      → AllNonneg (put_products m items)
  unfolding AllNonneg
  put_products-AllNonneg m [] hm all = hm
  put_products-AllNonneg m (x ∷ xs) hm (here, all) =
      put_products-AllNonneg (put_product m x) xs
        (λ k i found. ground (arith, lookup-put x.product_id k x m, hm k i, here)) all

  raise_change-IsRaised :
      (q : D) (c : InventoryItemChange D F)
      → minus q ≡ 0
      → IsRaised c
      → IsRaised (raise_change q c) × (raise_of (raise_change q c) ≡ raise_of c + plus q)
  raise_change-IsRaised q c hq h =
      let a = add_parts c.item.quantity q in
      let o = sides (dec.add c.item.quantity q) in
      (
        record {
          nonneg = ground (arith, a, o, h.nonneg, hq);
          raised = ground (arith, a, o, h.nonneg, hq, h.raised);
        },
        ground (arith, a, o, h.nonneg, hq, h.raised),
      )

  -- The change that a call starts from: one that is there, or one that raises by nothing.
  change_of-IsRaised :
      (destination : ℕ) (dest_items : Map (InventoryItem D F)) (m : Destination D F)
      (item : InventoryItem D F)
      → AllNonneg dest_items
      → AllRaised m
      → let c = change_of destination dest_items m item in
        IsRaised c
        × (lookup item.product_id m ≡ none → raise_of c ≡ 0)
        × ((d : InventoryItemChange D F) → lookup item.product_id m ≡ some d → c ≡ d)
  unfolding change_of new_destination AllNonneg
  change_of-IsRaised destination dest_items m item hd hm =
      elim (Option-cases (lookup item.product_id m)) [
        | inr (c, there) ↦
            rw (there, change_of) (hm item.product_id c there, λ e. absurd (cc), λ d e. cc)
        | inl new ↦ elim (Option-cases (lookup item.product_id dest_items)) [
          | inr (i, there) ↦
              rw (new, there, change_of)
                (
                  record { nonneg = hd item.product_id i there; raised = omega arith },
                  λ e. omega arith,
                  λ d e. absurd (cc),
                )
          | inl missing ↦
              rw (new, missing, change_of)
                (
                  record { nonneg = (zero_value_parts dec).1; raised = omega arith },
                  λ e. omega arith,
                  λ d e. absurd (cc),
                )
        ]
      ]

  after_put :
      (j k : ℕ) (c x : InventoryItemChange D F) (m : Destination D F)
      → AllRaised m
      → IsRaised c
      → lookup k (put j c m) ≡ some x
      → IsRaised x
  after_put j k c x m hm done found =
      let found' = rw (lookup-put j k c m) at found in
      elim (Bool-cases (j == k)) [
        | inl same ↦ let e : c ≡ x = cc (rw same at found') in subst IsRaised e done
        | inr other ↦ hm k x (rw other at found')
      ]

  transfer_handler-Holds :
      (destination : ℕ) (dest_items : Map (InventoryItem D F))
      → AllNonneg dest_items
      → Holds (transfer_handler destination dest_items) AllRaised gained
  unfolding transfer_handler
  transfer_handler-Holds destination dest_items hd m item t q hm hq =
      let c = change_of destination dest_items m item in
      let (start, new, old) = change_of-IsRaised destination dest_items m item hd hm in
      let (done, more) = raise_change-IsRaised q c hq start in
      (
        λ k x found. after_put item.product_id k (raise_change q c) x m hm done found,
        elim (Option-cases (lookup item.product_id m)) [
          | inl missing ↦ omega (
            arith,
            gained-put-new item.product_id (raise_change q c) m missing,
            more,
            new missing,
          )
          | inr (d, there) ↦ omega (
            arith,
            gained-put-old item.product_id (raise_change q c) d m there,
            more,
            ap raise_of (old d there),
          )
        ],
      )

  -- When the consumption of a transfer succeeds, for items of the source with distinct ids whose
  -- quantities equal what is left of their movements, and items of the destination whose quantities
  -- are not negative: what the source has left on hand, with what the changes of the destination
  -- add to it, is what the source had on hand.
  pub transfer_handler-conserves :
      (destination : ℕ) (dest_items items : List (InventoryItem D F)) (wanted : Map D)
      (c : Consumed (Destination D F) D F)
      → All (λ i. minus i.quantity ≡ 0) dest_items
      → DistinctIds items
      → All IsInSync items
      → consume_fifo
          (transfer_handler destination (build_product_id_map dest_items))
          []
          []
          items
          wanted
        ≡ ok c
      → on_hand c.items + gained c.handler_state ≡ on_hand items
  unfolding build_product_id_map AllNonneg lookup
  transfer_handler-conserves destination dest_items items wanted c nonneg unique sync h =
      let source = build_product_id_map dest_items in
      let sound = put_products-AllNonneg [] dest_items (λ k i found. absurd (cc)) nonneg in
      let kept =
        consume_fifo-held (transfer_handler destination source) AllRaised gained wanted [] items c
          (transfer_handler-Holds destination source sound) (λ k x found. absurd (cc)) unique sync
          h in
      omega (arith, kept)
