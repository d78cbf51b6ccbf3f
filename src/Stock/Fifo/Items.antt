-- ===== src/Stock/Fifo/Items.antt =====
-- Whole items in `consumeFIFO`: when it accepts the quantities, and what it leaves of each item.
use cim_backend.Prelude.{
  ℕ, ◌+◌, ◌-◌, ◌≤◌, ◌≡◌, refl, inl, inr, ◌↔◌, none, some, List, [], ◌∷◌, arith, ◌==◌, ==_refl,
  ==_iff, find, All, Bool-cases, Option-cases, Map, lookup, lookup_or, ok, ok-injective, list_cases,
  subst,
}
use cim_backend.Decimal.{
  Decimal, plus, minus, sides, zero_value_parts, is_zero_test, is_negative_test, greater_than_test,
}
use cim_backend.Models.Item.{InventoryItem}
use cim_backend.Stock.Fifo.{
  ConsumeHandler, Consumed, consume_item, item_after, consume_items, validate_consume,
  validate_consumes, consume_fifo,
}
use cim_backend.Stock.Fifo.Layers.{IsLayer, open_total, consume_layers-Took, sub_rest}

module _ {D F : Type 0} ⦃dec : Decimal D⦄ where
  -- The quantity on hand is what is left of the item's movements, and none is overdrawn.
  pub record IsInSync (i : InventoryItem D F) : Type 0 where
    pub layers : All IsLayer i.consumable_transactions
    pub on_hand : plus i.quantity ≡ open_total i.consumable_transactions
    pub nonneg : minus i.quantity ≡ 0

  -- A quantity that the item can give.
  abbrev pub CanGive : InventoryItem D F → D → Type 0
  CanGive i q = (minus q ≡ 0) × (plus q + minus i.quantity ≤ plus i.quantity)

module _ {S D F : Type 0} ⦃dec : Decimal D⦄ (handler : ConsumeHandler S D F) where
  -- Consuming a quantity that an item can give, where the quantity of the item equals what is left
  -- of its movements: afterwards they are equal again, the quantity is lowered by exactly what was
  -- consumed, and nothing stays outstanding.
  pub item_after-IsInSync :
      (i : InventoryItem D F) (s : S) (q : D)
      → IsInSync i
      → CanGive i q
      → IsInSync (item_after i q (consume_item handler i s q))
        × (plus (item_after i q (consume_item handler i s q)).quantity ≡ plus i.quantity - plus q)
        × (plus (consume_item handler i s q).to_consume ≡ 0)
  unfolding consume_item item_after
  item_after-IsInSync i s q sync (hq, le) =
      let took = consume_layers-Took handler i s 0 q i.consumable_transactions hq sync.layers in
      let (less, nonneg') = sub_rest i.quantity q sync.nonneg hq (omega arith) in
      (
        record {
          layers = took.layers;
          on_hand = omega (arith, took.total, sync.on_hand, less);
          nonneg = nonneg';
        },
        less,
        omega (arith, took.left, sync.on_hand),
      )

module _ {D F : Type 0} ⦃dec : Decimal D⦄ where
  -- An item that the validation accepts for a quantity.
  abbrev pub Gives : List (InventoryItem D F) → ℕ → D → Type 0
  Gives items k q = (i : InventoryItem D F) × (find (λ j. j.id == k) items ≡ some i) × CanGive i q

  -- The validation has no error exactly when an active item with that id can give the quantity.
  pub validate_consume_iff :
      (items : List (InventoryItem D F)) (k : ℕ) (q : D)
      → (validate_consume items k q ≡ none) ↔ Gives items k q
  unfolding validate_consume
  validate_consume_iff items k q = elim (Option-cases (find (λ j. j.id == k) items)) [
    | inl missing ↦ rw missing (λ h. absurd (cc), λ g. absurd (cc (g.1)))
    | inr (i, found) ↦ rw found (
      λ h. (
        i,
        refl,
        ground
            (arith, is_negative_test q, greater_than_test q i.quantity, sides q, sides i.quantity),
      ),
      λ g. ground (
        arith,
        g.1,
        g.2,
        is_negative_test q,
        greater_than_test q i.quantity,
        sides q,
        sides i.quantity,
      ),
    )
  ]

  abbrev pub AllGive : List (InventoryItem D F) → Map D → Type 0
  AllGive items [] = Unit
  AllGive items ((k, q) ∷ wanted) = Gives items k q × AllGive items wanted

  -- The validation of consumeFIFO reports no error exactly when for every entry asked there is an
  -- item with that id and the quantity is not negative and at most what the item has on hand.
  pub validate_consumes_iff :
      (items : List (InventoryItem D F)) (wanted : Map D)
      → (validate_consumes items wanted ≡ []) ↔ AllGive items wanted
  unfolding validate_consumes
  validate_consumes_iff items [] = (λ h. tt, λ h. refl)
  validate_consumes_iff items ((k, q) ∷ wanted) =
      let ih = validate_consumes_iff items wanted in
      let here = validate_consume_iff items k q in
      elim (Option-cases (validate_consume items k q)) [
        | inl fine ↦ rw (fine, validate_consumes) (λ h. (here.0 fine, ih.0 h), λ g. ih.1 g.1)
        | inr (e, bad) ↦
            rw (bad, validate_consumes) (λ h. absurd (cc), λ g. absurd (cc (here.1 g.0)))
      ]

  AllGive-lookup :
      (items : List (InventoryItem D F)) (wanted : Map D) (k : ℕ) (q : D)
      → AllGive items wanted
      → lookup k wanted ≡ some q
      → Gives items k q
  unfolding lookup
  AllGive-lookup items [] k q g h = absurd (cc)
  AllGive-lookup items ((j, r) ∷ wanted) k q g h = elim (Bool-cases (j == k)) [
    | inl same ↦
        let e : j ≡ k = (==_iff j k).0 same in let f : r ≡ q = ground arith in rw (← e, ← f) g.0
    | inr other ↦ AllGive-lookup items wanted k q g.1 (rw other at h)
  ]

  -- No two items have one id: ids are a primary key.
  abbrev pub DistinctIds : List (InventoryItem D F) → Type 0
  DistinctIds [] = Unit
  DistinctIds (x ∷ xs) = (find (λ j. j.id == x.id) xs ≡ none) × DistinctIds xs

  abbrev FindsItself : List (InventoryItem D F) → InventoryItem D F → Type 0
  FindsItself items i = find (λ j. j.id == i.id) items ≡ some i

  FindsItself-cons :
      (x : InventoryItem D F) (xs ys : List (InventoryItem D F))
      → find (λ j. j.id == x.id) xs ≡ none
      → All (FindsItself xs) ys
      → All (FindsItself (x ∷ xs)) ys
  FindsItself-cons x xs [] h all = tt
  FindsItself-cons x xs (y ∷ ys) h (a, all) = (
    elim (Bool-cases (x.id == y.id)) [
      | inl same ↦ absurd (let e : x.id ≡ y.id = (==_iff x.id y.id).0 same in cc (rw e at h))
      | inr other ↦ rw other a
    ],
    FindsItself-cons x xs ys h all,
  )

  pub FindsItself-distinct :
      (xs : List (InventoryItem D F)) → DistinctIds xs → All (FindsItself xs) xs
  FindsItself-distinct [] d = tt
  FindsItself-distinct (x ∷ xs) (h, d) =
      (rw (==_refl x.id) refl, FindsItself-cons x xs xs h (FindsItself-distinct xs d))

  -- Position by position: every item gave the quantity that was asked of it, and is in sync.
  abbrev pub Gave : Map D → List (InventoryItem D F) → List (InventoryItem D F) → Type 0
  Gave wanted [] [] = Unit
  Gave wanted [] (y ∷ ys) = ⊥
  Gave wanted (x ∷ xs) [] = ⊥
  Gave wanted (x ∷ xs) (y ∷ ys) =
      IsInSync y
      × (y.id ≡ x.id)
      × (plus y.quantity ≡ plus x.quantity - plus (lookup_or dec.zero_value x.id wanted))
      × Gave wanted xs ys

  asked-CanGive :
      (items : List (InventoryItem D F)) (wanted : Map D) (i : InventoryItem D F)
      → AllGive items wanted
      → find (λ j. j.id == i.id) items ≡ some i
      → IsInSync i
      → CanGive i (lookup_or dec.zero_value i.id wanted)
  unfolding lookup_or
  asked-CanGive items wanted i gives unique sync = elim (Option-cases (lookup i.id wanted)) [
    | inl unasked ↦ rw (unasked, lookup_or) (omega (arith, zero_value_parts dec, sync.nonneg))
    | inr (q, asked) ↦
        rw (asked, lookup_or) (same q (AllGive-lookup items wanted i.id q gives asked))
  ]
    where
      same : (q : D) → Gives items i.id q → CanGive i q
      same q (x, found, can) = let e : x ≡ i = cc in subst (λ y. CanGive y q) e can

  pub asked-CanGive-All :
      (items xs : List (InventoryItem D F)) (wanted : Map D)
      → AllGive items wanted
      → All (FindsItself items) xs
      → All IsInSync xs
      → All (λ i. CanGive i (lookup_or dec.zero_value i.id wanted)) xs
  asked-CanGive-All items [] wanted gives unique sync = tt
  asked-CanGive-All items (x ∷ xs) wanted gives (u, us) (sy, sys) =
      (asked-CanGive items wanted x gives u sy, asked-CanGive-All items xs wanted gives us sys)

module _ {S D F : Type 0} ⦃dec : Decimal D⦄ (handler : ConsumeHandler S D F) (wanted : Map D) where
  consume_items-Gave :
      (s : S) (xs : List (InventoryItem D F))
      → All IsInSync xs
      → All (λ i. CanGive i (lookup_or dec.zero_value i.id wanted)) xs
      → Gave wanted xs (consume_items handler wanted s xs).items
  unfolding consume_items
  consume_items-Gave s [] sync can = tt
  consume_items-Gave s (x ∷ xs) (sy, sys) (c, cs) =
      let q = lookup_or dec.zero_value x.id wanted in
      elim (Bool-cases (dec.is_zero q)) [
        | inl skip ↦
            rw skip
              (sy, refl, ground (arith, is_zero_test q, sides q), consume_items-Gave s xs sys cs)
        | inr taken ↦ rw taken (
            let (sync', less, all) = item_after-IsInSync handler x s q sy c in
            (
              sync',
              unfold item_after in refl,
              less,
              consume_items-Gave (consume_item handler x s q).handler_state xs sys cs,
            ))
      ]

  -- What a successful run returns.
  pub consume_fifo-ok :
      (s : S) (items : List (InventoryItem D F)) (c : Consumed S D F)
      → consume_fifo handler s [] items wanted ≡ ok c
      → (consume_items handler wanted s items ≡ c) × AllGive items wanted
  unfolding consume_fifo
  consume_fifo-ok s items c h = elim (list_cases (validate_consumes items wanted)) [
    | inl fine ↦ (ok-injective (rw fine at h), (validate_consumes_iff items wanted).0 fine)
    | inr (x, xs, bad) ↦ absurd (ground arith)
  ]

  -- When consume_fifo, started without errors, succeeds on items with distinct ids whose
  -- quantities equal what is left of their movements: each item, position by position, keeps its
  -- id, has its quantity lowered by exactly what was asked of it, and its quantity again equals
  -- what is left of its movements.
  pub consume_fifo-Gave :
      (s : S) (items : List (InventoryItem D F)) (c : Consumed S D F)
      → DistinctIds items
      → All IsInSync items
      → consume_fifo handler s [] items wanted ≡ ok c
      → Gave wanted items c.items
  consume_fifo-Gave s items c unique sync h =
      let (e, gives) = consume_fifo-ok s items c h in
      subst (λ (r : Consumed S D F). Gave wanted items r.items) e
        (consume_items-Gave s items sync
          (asked-CanGive-All items items wanted gives (FindsItself-distinct items unique) sync))

  -- consume_fifo, started without errors, returns what consume_items computes exactly when for
  -- every entry asked there is an item with that id and the quantity is not negative and at most
  -- what the item has on hand.
  pub consume_fifo_iff :
      (s : S) (items : List (InventoryItem D F))
      → ((consume_fifo handler s [] items wanted ≡ ok (consume_items handler wanted s items))
          ↔ AllGive items wanted)
  unfolding consume_fifo
  consume_fifo_iff s items =
      let valid = validate_consumes_iff items wanted in
      elim (list_cases (validate_consumes items wanted)) [
        | inl fine ↦ (λ h. valid.0 fine, λ g. rw fine)
        | inr (x, xs, bad) ↦ (λ h. absurd (ground arith), λ g. absurd (cc (valid.1 g)))
      ]
