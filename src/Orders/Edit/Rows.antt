-- ===== src/Orders/Edit/Rows.antt =====
-- The rows of an order while it is edited.
use cim_backend.Prelude.{
  ℕ, ◌≡◌, ◌⊎◌, ◌∙◌, refl, ap, sym, subst, inl, inr, Bool, true, false, Bool-cases, ◌&&◌, ◌||◌, not,
  ◌==◌, ==_refl, ==_iff, none, some, Option-cases, List, [], ◌∷◌, ◌++◌, any, any-append, find, All,
  Outcome-cases, ok, and_then, ok-injective, arith,
}
use cim_backend.Decimal.{Decimal}
use cim_backend.Orders.{PurchaseOrderItem}
use cim_backend.Orders.Edit.{
  EditItem, existing_item, is_keyed, is_overwritten, is_requested, removed_ids,
}

module _ {D F : Type 0} where
  abbrev pub DistinctRows : List (PurchaseOrderItem D F) → Type 0
  DistinctRows [] = Unit
  DistinctRows (x ∷ xs) = (find (λ j. j.id == x.id) xs ≡ none) × DistinctRows xs

  -- The rows with the id of an item are that item.
  abbrev pub AllOnly : PurchaseOrderItem D F → List (PurchaseOrderItem D F) → Type 0
  AllOnly i items = All (λ j. (j.id == i.id) ≡ true → j ≡ i) items

  AllOnly-missing :
      (i : PurchaseOrderItem D F) (items : List (PurchaseOrderItem D F))
      → find (λ j. j.id == i.id) items ≡ none
      → AllOnly i items
  AllOnly-missing i [] h = tt
  AllOnly-missing i (x ∷ xs) h = elim (Bool-cases (x.id == i.id)) [
    | inl here ↦ absurd (cc (rw here at h))
    | inr other ↦ (λ same. absurd (cc (sym same, other)), AllOnly-missing i xs (rw other at h))
  ]

  pub existing_item-AllOnly :
      (supplier product : ℕ) (items : List (PurchaseOrderItem D F)) (i : PurchaseOrderItem D F)
      → DistinctRows items
      → existing_item supplier product items ≡ some i
      → (find (λ j. j.id == i.id) items ≡ some i) × AllOnly i items
  unfolding existing_item
  existing_item-AllOnly supplier product [] i d h = absurd (cc)
  existing_item-AllOnly supplier product (x ∷ xs) i (apart, d) h =
      elim (Option-cases (existing_item supplier product xs)) [
        | inr (j, later) ↦
            let same : j ≡ i = cc (rw (later, existing_item) at h) in
            let (found, only) = existing_item-AllOnly supplier product xs i d (rw same at later) in
            elim (Bool-cases (x.id == i.id)) [
              | inl here ↦
                  let e = (==_iff x.id i.id).0 here in
                  absurd (cc (subst (λ k. find (λ j. j.id == k) xs ≡ none) e apart, found))
              | inr other ↦ (rw other found, (λ eq. absurd (cc (sym eq, other)), only))
            ]
        | inl last ↦
            let h1 = rw (last, existing_item) at h in
            elim (Bool-cases (not x.is_deleted && is_keyed supplier product x)) [
              | inr other ↦ absurd (cc (rw other at h1))
              | inl here ↦
                  let same : x ≡ i = cc (rw here at h1) in
                  subst
                    (λ (z : PurchaseOrderItem D F).
                      (find (λ j. j.id == z.id) (x ∷ xs) ≡ some z) × AllOnly z (x ∷ xs))
                    same (rw (==_refl x.id) refl, (λ eq. refl, AllOnly-missing x xs apart))
            ]
      ]

module _ {D F : Type 0} ⦃dec : Decimal D⦄ where
  abbrev pub is_received : PurchaseOrderItem D F → Bool
  is_received i = dec.greater_than i.received_quantity dec.zero_value

  -- No item that received something is among the ids.
  abbrev pub AllSpared : List ℕ → List (PurchaseOrderItem D F) → Type 0
  AllSpared ids items = All (λ i. is_received i ≡ true → any (λ k. k == i.id) ids ≡ false) items

  -- An item that received nothing is deleted.
  pub AllSpared-last :
      (ids : List ℕ) (i : PurchaseOrderItem D F) (items : List (PurchaseOrderItem D F))
      → AllOnly i items
      → is_received i ≡ false
      → AllSpared ids items
      → AllSpared (ids ++ i.id ∷ []) items
  AllSpared-last ids i [] only nothing spared = tt
  AllSpared-last ids i (x ∷ xs) (here, only) nothing (kept, spared) = (
    λ received.
        any-append _ ids _
        ∙ rw (kept received) (elim (Bool-cases (i.id == x.id)) [
          | inr other ↦ rw other refl
          | inl same ↦
              let e : x ≡ i = here (ground (arith, same)) in
              absurd (cc (received, nothing, ap (λ (z : PurchaseOrderItem D F). is_received z) e))
        ]),
    AllSpared-last ids i xs only nothing spared,
  )

  pub removed_ids-cases :
      (requests : List (EditItem D F)) (i : PurchaseOrderItem D F)
      (is : List (PurchaseOrderItem D F)) (ids : List ℕ)
      → removed_ids requests (i ∷ is) ≡ ok ids
      → (removed_ids requests is ≡ ok ids)
        ⊎ ((rest : List ℕ) × (removed_ids requests is ≡ ok rest)
            × (is_received i ≡ false)
            × (i.id ∷ rest ≡ ids))
  unfolding removed_ids
  removed_ids-cases requests i is ids h =
      elim (Bool-cases (i.is_deleted || is_overwritten i is || is_requested requests i)) [
        | inl stays ↦ inl (rw (stays, removed_ids) at h)
        | inr goes ↦
            let h1 = rw (goes, removed_ids) at h in
            elim (Bool-cases (is_received i)) [
              | inl received ↦ absurd (cc (rw received at h1))
              | inr nothing ↦ elim (Outcome-cases (removed_ids requests is)) [
                | inr (e, bad) ↦ absurd (cc (rw (nothing, bad, and_then) at h1))
                | inl (rest, fine) ↦
                    inr (rest, fine, nothing, ok-injective (rw (nothing, fine, and_then) at h1))
              ]
            ]
      ]

  removed_ids-missing :
      (requests : List (EditItem D F)) (items : List (PurchaseOrderItem D F)) (ids : List ℕ) (k : ℕ)
      → find (λ j. j.id == k) items ≡ none
      → removed_ids requests items ≡ ok ids
      → any (λ n. n == k) ids ≡ false
  unfolding removed_ids
  removed_ids-missing requests [] ids k missing h = rw (← ok-injective h) refl
  removed_ids-missing requests (i ∷ is) ids k missing h = elim (Bool-cases (i.id == k)) [
    | inl here ↦ absurd (cc (rw here at missing))
    | inr other ↦
        let later = rw other at missing in
        elim (removed_ids-cases requests i is ids h) [
          | inl same ↦ removed_ids-missing requests is ids k later same
          | inr (rest, fine, nothing, whole) ↦
              rw (← whole) (rw other (removed_ids-missing requests is rest k later fine))
        ]
  ]

  AllSpared-first :
      (i : PurchaseOrderItem D F) (ids : List ℕ) (items : List (PurchaseOrderItem D F))
      → find (λ j. j.id == i.id) items ≡ none
      → AllSpared ids items
      → AllSpared (i.id ∷ ids) items
  AllSpared-first i ids [] missing spared = tt
  AllSpared-first i ids (x ∷ xs) missing (kept, spared) = elim (Bool-cases (x.id == i.id)) [
    | inl here ↦ absurd (cc (rw here at missing))
    | inr other ↦ (
      λ received. ground (arith, kept received, other),
      AllSpared-first i ids xs (rw other at missing) spared,
    )
  ]

  pub removed_ids-AllSpared :
      (requests : List (EditItem D F)) (items : List (PurchaseOrderItem D F)) (ids : List ℕ)
      → DistinctRows items
      → removed_ids requests items ≡ ok ids
      → AllSpared ids items
  removed_ids-AllSpared requests [] ids d h = tt
  removed_ids-AllSpared requests (i ∷ is) ids (apart, d) h =
      elim (removed_ids-cases requests i is ids h) [
        | inl same ↦ (
          λ received. removed_ids-missing requests is ids i.id apart same,
          removed_ids-AllSpared requests is ids d same,
        )
        | inr (rest, fine, nothing, whole) ↦
            subst (λ l. AllSpared l (i ∷ is)) whole
              (
                λ received. absurd (cc (received, nothing)),
                AllSpared-first i rest is apart (removed_ids-AllSpared requests is rest d fine),
              )
      ]
