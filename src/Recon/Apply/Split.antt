-- ===== src/Recon/Apply/Split.antt =====
-- The deltas that the lines of a reconciliation put down, item by item.
use cim_backend.Prelude.{
  ℕ, ◌+◌, ◌≤◌, ◌≡◌, refl, inl, inr, true, false, ◌==◌, ==_iff, Bool-cases, none, some, List, [],
  ◌∷◌, find, All, Map, lookup, lookup-put, put, ok, if◌then◌else◌, arith,
}
use cim_backend.Decimal.{Decimal, plus, minus, sides, sub_parts, is_positive_test}
use cim_backend.Models.Item.{InventoryItem}
use cim_backend.Models.Submission.{QuantityItem}
use cim_backend.Stock.Fifo.Items.{DistinctIds, Gives, AllGive}
use cim_backend.Recon.Apply.{build_item_map, Deltas, add_delta, split_deltas}
use cim_backend.Recon.Apply.Maps.{lookup-build_item_map}

module _ {D F : Type 0} ⦃dec : Decimal D⦄ where
  -- A line that counts an active item, whose baseline the stock on hand still covers.
  pub record IsCounted (items : List (InventoryItem D F)) (line : QuantityItem D) : Type 0 where
    pub item : InventoryItem D F
    pub counted : D
    pub known : line.inventory_item_id == 0 ≡ false
    pub found : find (λ j. j.id == line.inventory_item_id) items ≡ some item
    pub has_quantity : line.quantity ≡ some counted
    pub nonneg : minus counted ≡ 0
    pub covered :
        plus line.prev_quantity + minus item.quantity
        ≤ plus item.quantity + minus line.prev_quantity

module _ {D : Type 0} ⦃dec : Decimal D⦄ where
  -- What the line says is missing: its baseline less what was counted.
  unfoldable pub delta_of : QuantityItem D → D
  delta_of line = elim line.quantity [
    | none ↦ dec.zero_value
    | some counted ↦ dec.sub line.prev_quantity counted
  ]

  unfoldable pub deltas : Deltas D → List (QuantityItem D) → Deltas D
  deltas ds [] = ds
  deltas ds (line ∷ rest) = deltas (add_delta line.inventory_item_id (delta_of line) ds) rest

  -- No two lines are for one item.
  abbrev pub DistinctLines : List (QuantityItem D) → Type 0
  DistinctLines [] = Unit
  DistinctLines (x ∷ xs) =
      (find (λ j. j.inventory_item_id == x.inventory_item_id) xs ≡ none) × DistinctLines xs

  lookup-add_delta :
      (k id : ℕ) (d : D) (ds : Deltas D)
      → (lookup k (add_delta id d ds).consume ≡ (
          if dec.is_positive d
          then if id == k then some d else lookup k ds.consume
          else lookup k ds.consume))
        × (lookup k (add_delta id d ds).stock_up ≡ (
            if dec.is_positive d
            then lookup k ds.stock_up
            else if dec.is_negative d
            then if id == k then some (dec.neg d) else lookup k ds.stock_up
            else lookup k ds.stock_up))
  lookup-add_delta k id d ds =
      ground (arith, lookup-put id k d ds.consume, lookup-put id k (dec.neg d) ds.stock_up)

  deltas-absent :
      (k : ℕ) (ds : Deltas D) (lines : List (QuantityItem D))
      → find (λ j. j.inventory_item_id == k) lines ≡ none
      → (lookup k (deltas ds lines).consume ≡ lookup k ds.consume)
        × (lookup k (deltas ds lines).stock_up ≡ lookup k ds.stock_up)
  unfolding deltas
  deltas-absent k ds [] h = (refl, refl)
  deltas-absent k ds (x ∷ xs) h = elim (Bool-cases (x.inventory_item_id == k)) [
    | inl same ↦ absurd (cc (rw same at h))
    | inr other ↦
        let one = lookup-add_delta k x.inventory_item_id (delta_of x) ds in
        let ih =
          deltas-absent k (add_delta x.inventory_item_id (delta_of x) ds) xs (rw other at h) in
        ground (arith, one, ih)
  ]

  pub deltas-present :
      (k : ℕ) (ds : Deltas D) (lines : List (QuantityItem D)) (line : QuantityItem D)
      → DistinctLines lines
      → find (λ j. j.inventory_item_id == k) lines ≡ some line
      → (lookup k ds.consume ≡ none)
      → (lookup k ds.stock_up ≡ none)
      → let d = delta_of line in
        let ds' = deltas ds lines in
        (lookup k ds'.consume ≡ (if dec.is_positive d then some d else none))
        × (lookup k ds'.stock_up ≡ (
            if dec.is_positive d
            then none
            else if dec.is_negative d
            then some (dec.neg d)
            else none))
  unfolding deltas
  deltas-present k ds [] line d h c s = absurd (cc)
  deltas-present k ds (x ∷ xs) line (apart, d) h c s =
      let one = lookup-add_delta k x.inventory_item_id (delta_of x) ds in
      elim (Bool-cases (x.inventory_item_id == k)) [
        | inl same ↦
            let e : x.inventory_item_id ≡ k = (==_iff x.inventory_item_id k).0 same in
            let f : x ≡ line = cc (rw same at h) in
            let rest =
              deltas-absent k (add_delta x.inventory_item_id (delta_of x) ds) xs (rw e at apart) in
            rw (rest.0, rest.1, one.0, one.1, same, c, s, f) (refl, refl)
        | inr other ↦
            deltas-present k (add_delta x.inventory_item_id (delta_of x) ds) xs line d
              (rw other at h) (ground (arith, one, c)) (ground (arith, one, s))
      ]

module _ {D F : Type 0} ⦃dec : Decimal D⦄ (items : List (InventoryItem D F)) where
  pub split_deltas-counted :
      (ds : Deltas D) (lines : List (QuantityItem D))
      → DistinctIds items
      → All (IsCounted items) lines
      → split_deltas (build_item_map items) ds lines ≡ ok (deltas ds lines)
  unfolding split_deltas deltas delta_of
  split_deltas-counted ds [] unique all = refl
  split_deltas-counted ds (x ∷ xs) unique (here, all) =
      let found = lookup-build_item_map x.inventory_item_id items here.known unique in
      rw (here.has_quantity, found, here.found)
        (split_deltas-counted
          (add_delta x.inventory_item_id (dec.sub x.prev_quantity here.counted) ds) xs unique all)

  pub delta_of-counted :
      (line : QuantityItem D) (here : IsCounted items line)
      → delta_of line ≡ dec.sub line.prev_quantity here.counted
  unfolding delta_of
  delta_of-counted line here = rw here.has_quantity

  pub AllGive-put :
      (k : ℕ) (q : D) (wanted : Map D)
      → Gives items k q
      → AllGive items wanted
      → AllGive items (put k q wanted)
  unfolding put
  AllGive-put k q [] here all = (here, tt)
  AllGive-put k q ((j, r) ∷ wanted) here (first, all) = elim (Bool-cases (j == k)) [
    | inl same ↦ rw same (here, all)
    | inr other ↦ rw other (first, AllGive-put k q wanted here all)
  ]

  IsCounted-Gives :
      (line : QuantityItem D) (here : IsCounted items line)
      → dec.is_positive (delta_of line) ≡ true
      → Gives items line.inventory_item_id (delta_of line)
  unfolding delta_of
  IsCounted-Gives line here h =
      let c = here.counted in
      let p = line.prev_quantity in
      let h' : dec.is_positive (dec.sub p c) ≡ true = rw here.has_quantity at h in
      (
        here.item,
        here.found,
        rw here.has_quantity (
            ground (
              arith,
              here.covered,
              here.nonneg,
              h',
              sub_parts p c,
              is_positive_test (dec.sub p c),
              sides (dec.sub p c),
              sides p,
              sides here.item.quantity,
            )),
      )

  pub deltas-AllGive :
      (ds : Deltas D) (lines : List (QuantityItem D))
      → All (IsCounted items) lines
      → AllGive items ds.consume
      → AllGive items (deltas ds lines).consume
  unfolding deltas
  deltas-AllGive ds [] all gives = gives
  deltas-AllGive ds (x ∷ xs) (here, all) gives =
      deltas-AllGive (add_delta x.inventory_item_id (delta_of x) ds) xs all
        (elim (Bool-cases (dec.is_positive (delta_of x))) [
          | inl more ↦ rw more (
              AllGive-put x.inventory_item_id (delta_of x) ds.consume (IsCounted-Gives x here more)
                gives)
          | inr less ↦ rw less (elim (Bool-cases (dec.is_negative (delta_of x))) [
            | inl down ↦ rw down gives
            | inr even ↦ rw even gives
          ])
        ])
