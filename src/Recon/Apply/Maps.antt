-- ===== src/Recon/Apply/Maps.antt =====
-- `buildItemMap` against the list of items that it is built from.
use cim_backend.Prelude.{
  ℕ, ◌≡◌, refl, ap, sym, ◌∙◌, inl, inr, false, ◌==◌, ==_iff, Bool-cases, Option, none, some, List,
  [], ◌∷◌, find, Map, lookup, lookup-put, if◌then◌else◌, arith,
}
use cim_backend.Decimal.{Decimal}
use cim_backend.Models.Item.{InventoryItem}
use cim_backend.Stock.Fifo.Items.{DistinctIds}
use cim_backend.Recon.Apply.{put_item, put_items, build_item_map}

module _ {D F : Type 0} ⦃dec : Decimal D⦄ where
  abbrev or_before :
      Map (InventoryItem D F) → ℕ → Option (InventoryItem D F) → Option (InventoryItem D F)
  or_before m k none = lookup k m
  or_before m k (some i) = some i

  lookup-put_item :
      (m : Map (InventoryItem D F)) (i : InventoryItem D F) (k : ℕ)
      → k == 0 ≡ false
      → lookup k (put_item m i) ≡ (if i.id == k then some i else lookup k m)
  lookup-put_item m i k h = ground (arith, lookup-put i.id k i m)

  or_before-agree :
      (m n : Map (InventoryItem D F)) (k : ℕ) (o : Option (InventoryItem D F))
      → lookup k m ≡ lookup k n
      → or_before m k o ≡ or_before n k o
  or_before-agree m n k none h = h
  or_before-agree m n k (some i) h = refl

  lookup-put_items :
      (k : ℕ) (m : Map (InventoryItem D F)) (items : List (InventoryItem D F))
      → k == 0 ≡ false
      → DistinctIds items
      → lookup k (put_items m items) ≡ or_before m k (find (λ j. j.id == k) items)
  lookup-put_items k m [] h d = refl
  lookup-put_items k m (x ∷ xs) h (apart, d) = elim (Bool-cases (x.id == k)) [
    | inl same ↦
        let e : x.id ≡ k = (==_iff x.id k).0 same in
        rw (
          lookup-put_items k (put_item m x) xs h d,
          same,
          rw e at apart,
          lookup-put_item m x k h,
          same,
        )
    | inr other ↦
        rw (lookup-put_items k (put_item m x) xs h d, other)
          (or_before-agree (put_item m x) m k (find (λ j. j.id == k) xs)
            (rw (lookup-put_item m x k h, other) refl))
  ]

  pub lookup-build_item_map :
      (k : ℕ) (items : List (InventoryItem D F))
      → k == 0 ≡ false
      → DistinctIds items
      → lookup k (build_item_map items) ≡ find (λ j. j.id == k) items
  unfolding build_item_map lookup
  lookup-build_item_map k items h d =
      rw (lookup-put_items k [] items h d) (same (find (λ j. j.id == k) items))
    where
      same : (o : Option (InventoryItem D F)) → or_before [] k o ≡ o
      same none = refl
      same (some i) = refl

  -- Each item of the map stands under its own id.
  abbrev pub Keyed : Map (InventoryItem D F) → Type 0
  Keyed m = (k : ℕ) (i : InventoryItem D F) → lookup k m ≡ some i → i.id ≡ k

  put_item-Keyed :
      (m : Map (InventoryItem D F)) (i : InventoryItem D F) → Keyed m → Keyed (put_item m i)
  put_item-Keyed m i keyed k j h = ground (arith, lookup-put i.id k i m, ==_iff i.id k, keyed k j)

  put_items-Keyed :
      (m : Map (InventoryItem D F)) (items : List (InventoryItem D F))
      → Keyed m
      → Keyed (put_items m items)
  put_items-Keyed m [] keyed = keyed
  put_items-Keyed m (x ∷ xs) keyed = put_items-Keyed (put_item m x) xs (put_item-Keyed m x keyed)

  pub build_item_map-Keyed : (items : List (InventoryItem D F)) → Keyed (build_item_map items)
  unfolding build_item_map lookup
  build_item_map-Keyed items = put_items-Keyed [] items (λ k i h. absurd (cc))

  pub find-id :
      (k : ℕ) (items : List (InventoryItem D F)) (i : InventoryItem D F)
      → find (λ j. j.id == k) items ≡ some i
      → i.id ≡ k
  find-id k [] i h = absurd (cc)
  find-id k (x ∷ xs) i h = elim (Bool-cases (x.id == k)) [
    | inl same ↦
        let f : x ≡ i = cc (rw same at h) in
        ap (λ (j : InventoryItem D F). j.id) (sym f) ∙ (==_iff x.id k).0 same
    | inr other ↦ find-id k xs i (rw other at h)
  ]
