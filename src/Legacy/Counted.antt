-- ===== src/Legacy/Counted.antt =====
-- What a reconcile request leaves on hand.
use cim_backend.Prelude.{
  ℕ, ◌+◌, ◌≡◌, ◌∙◌, refl, ap, sym, inl, inr, true, false, ◌==◌, ==_iff, Bool-cases, none, some,
  Option-cases, List, [], ◌∷◌, ◌++◌, find, Map, lookup, lookup_or, lookup-put, put, Outcome, ok,
  Outcome-cases, ok-injective, if◌then◌else◌, arith,
}
use cim_backend.Decimal.{Decimal, plus, minus, sub_parts, is_zero_test, equal_test}
use cim_backend.Errors.{AppError, has_any_errors}
use cim_backend.Models.Transaction.{sell}
use cim_backend.Models.Item.{InventoryItem, InventoryItemChange}
use cim_backend.Models.Submission.{QuantityItem}
use cim_backend.Stock.Fifo.{Consumed}
use cim_backend.Stock.Fifo.Items.{DistinctIds, consume_fifo-ok}
use cim_backend.Stock.Fifo.Changes.{changed_quantity, consume_items-present}
use cim_backend.Stock.Handlers.{counter_handler}
use cim_backend.Recon.Apply.{build_item_map}
use cim_backend.Recon.Apply.Maps.{lookup-build_item_map, find-id}
use cim_backend.Recon.Apply.Split.{DistinctLines}
use cim_backend.Recon.Apply.StockUp.{quantity_after, quantity_after-changed}
use cim_backend.Legacy.{Checked, check_lines, checked, reconcile_line, plan_legacy_reconcile}

still_failed : (es : List AppError) (e : AppError) → has_any_errors (es ++ e ∷ []) ≡ true
still_failed [] e = refl
still_failed (x ∷ es) e = refl

module _ {D : Type 0} (check : QuantityItem D → Outcome AppError D) where
  -- An error stays.
  check_lines-failed :
      (acc : Checked D) (lines : List (QuantityItem D))
      → has_any_errors acc.errors ≡ true
      → has_any_errors (check_lines check acc lines).errors ≡ true
  unfolding check_lines
  check_lines-failed acc [] h = h
  check_lines-failed acc (x ∷ xs) h = elim (Outcome-cases (check x)) [
    | inl (q, fine) ↦
        rw (fine, check_lines)
          (check_lines-failed (record acc { wanted = put x.inventory_item_id q acc.wanted }) xs h)
    | inr (e, bad) ↦
        rw (bad, check_lines)
          (check_lines-failed (record acc { errors = acc.errors ++ e ∷ [] }) xs
            (still_failed acc.errors e))
  ]

  check_lines-absent :
      (k : ℕ) (acc : Checked D) (lines : List (QuantityItem D))
      → find (λ j. j.inventory_item_id == k) lines ≡ none
      → lookup k (check_lines check acc lines).wanted ≡ lookup k acc.wanted
  unfolding check_lines
  check_lines-absent k acc [] h = refl
  check_lines-absent k acc (x ∷ xs) h = elim (Bool-cases (x.inventory_item_id == k)) [
    | inl same ↦ absurd (cc (rw same at h))
    | inr other ↦ elim (Outcome-cases (check x)) [
      | inl (q, fine) ↦
          rw (fine, check_lines)
            (check_lines-absent k (record acc { wanted = put x.inventory_item_id q acc.wanted }) xs
                (rw other at h)
              ∙ lookup-put x.inventory_item_id k q acc.wanted
              ∙ rw other refl)
      | inr (e, bad) ↦
          rw (bad, check_lines)
            (check_lines-absent k (record acc { errors = acc.errors ++ e ∷ [] }) xs (rw other at h))
    ]
  ]

module _ {D : Type 0} ⦃dec : Decimal D⦄ (check : QuantityItem D → Outcome AppError D) where
  -- Without errors, the quantity of a line is the one that its check gave.
  pub check_lines-present :
      (k : ℕ) (acc : Checked D) (lines : List (QuantityItem D)) (line : QuantityItem D)
      → DistinctLines lines
      → find (λ j. j.inventory_item_id == k) lines ≡ some line
      → has_any_errors (check_lines check acc lines).errors ≡ false
      → (q : D) × (check line ≡ ok q) × (lookup k (check_lines check acc lines).wanted ≡ some q)
  unfolding check_lines
  check_lines-present k acc [] line d h clean = absurd (cc)
  check_lines-present k acc (x ∷ xs) line (apart, d) h clean = elim (Outcome-cases (check x)) [
    | inr (e, bad) ↦ absurd (
        cc (
          check_lines-failed check (record acc { errors = acc.errors ++ e ∷ [] }) xs
              (still_failed acc.errors e),
          rw (bad, check_lines) at clean,
        ))
    | inl (q, fine) ↦
        let acc' : Checked D = record acc { wanted = put x.inventory_item_id q acc.wanted } in
        elim (Bool-cases (x.inventory_item_id == k)) [
          | inl same ↦
              let e : x.inventory_item_id ≡ k = (==_iff x.inventory_item_id k).0 same in
              let f : x ≡ line = cc (rw same at h) in
              (
                q,
                ap check (sym f) ∙ fine,
                rw (fine, check_lines)
                    (check_lines-absent check k acc' xs (rw e at apart)
                      ∙ lookup-put x.inventory_item_id k q acc.wanted
                      ∙ rw same refl),
              )
          | inr other ↦
              rw (fine, check_lines)
                (check_lines-present k acc' xs line d (rw other at h)
                  (rw (fine, check_lines) at clean))
        ]
  ]

module _ {D F : Type 0} ⦃dec : Decimal D⦄ where
  -- What the check of a reconcile line requires.
  record Agreed (active : Map (InventoryItem D F)) (line : QuantityItem D) (q : D) : Type 0 where
    item : InventoryItem D F
    counted : D
    there : lookup line.inventory_item_id active ≡ some item
    has_quantity : line.quantity ≡ some counted
    amount : q ≡ dec.sub item.quantity counted

  reconcile_line-Agreed :
      (active : Map (InventoryItem D F)) (line : QuantityItem D) (q : D)
      → reconcile_line active line ≡ ok q
      → Agreed active line q
  unfolding reconcile_line
  reconcile_line-Agreed active line q h = elim (Option-cases line.quantity) [
    | inl missing ↦ absurd (cc (rw missing at h))
    | inr (counted, has) ↦
        let h1 = rw has at h in
        elim (Option-cases (lookup line.inventory_item_id active)) [
          | inl missing ↦ absurd (cc (rw (missing, reconcile_line) at h1))
          | inr (item, there) ↦
              let h2 = rw (there, reconcile_line) at h1 in
              elim (Bool-cases (dec.equal item.quantity line.prev_quantity)) [
                | inr stale ↦ absurd (cc (rw stale at h2))
                | inl current ↦ record {
                  item = item;
                  counted = counted;
                  there = there;
                  has_quantity = has;
                  amount = sym (ok-injective (rw current at h2));
                }
              ]
        ]
  ]

  counted_down :
      (changes : List (InventoryItemChange D F)) (item : InventoryItem D F) (q counted : D)
      → q ≡ dec.sub item.quantity counted
      → changed_quantity item.id changes
        ≡ (if dec.is_zero q then none else some (dec.sub item.quantity q))
      → dec.equal (quantity_after changes item) counted ≡ true
  counted_down changes item q counted amount h =
      let i = item.quantity in
      let s : plus q + minus i + plus counted ≡ minus q + plus i + minus counted =
        rw amount (sub_parts i counted) in
      elim (Bool-cases (dec.is_zero q)) [
        | inl even ↦
            rw (quantity_after-changed changes item item.id none refl (h ∙ rw even refl))
              (ground (arith, even, s, is_zero_test q, equal_test i counted))
        | inr less ↦
            rw
              (quantity_after-changed changes item item.id (some (dec.sub item.quantity q)) refl
                (h ∙ rw less refl))
              (ground (arith, s, sub_parts i q, equal_test (dec.sub i q) counted))
      ]

  -- For active items with distinct ids and lines with distinct items: when the check of the lines
  -- of a legacy reconcile request has no error and its consumption succeeds, each line whose id is
  -- not 0 names an active item and has a counted quantity, and the changes that are saved leave
  -- that item with exactly the counted quantity.
  pub plan_legacy_reconcile-counted :
      (items : List (InventoryItem D F)) (lines : List (QuantityItem D)) (line : QuantityItem D)
      (c : Consumed (Unit {0}) D F)
      → DistinctIds items
      → DistinctLines lines
      → find (λ j. j.inventory_item_id == line.inventory_item_id) lines ≡ some line
      → line.inventory_item_id == 0 ≡ false
      → has_any_errors (checked (reconcile_line (build_item_map items)) lines).errors ≡ false
      → plan_legacy_reconcile items lines ≡ ok c
      → (item : InventoryItem D F) × (counted : D) × (find
            (λ j. j.id == line.inventory_item_id)
            items
          ≡ some item)
        × (line.quantity ≡ some counted)
        × (dec.equal (quantity_after c.changes item) counted ≡ true)
  unfolding plan_legacy_reconcile lookup_or
  plan_legacy_reconcile-counted items lines line c unique apart there known clean h =
      let k = line.inventory_item_id in
      let check = reconcile_line (build_item_map items) in
      let wanted = (checked check lines).wanted in
      let (q, ok_q, put_down) =
        check_lines-present check k (record { errors = []; wanted = [] }) lines line apart there
          clean in
      let a = reconcile_line-Agreed (build_item_map items) line q ok_q in
      let found = sym (lookup-build_item_map k items known unique) ∙ a.there in
      let handler = counter_handler sell 0 in
      let (same, gives) = consume_fifo-ok handler wanted tt items c h in
      let present = (consume_items-present handler wanted k tt items a.item unique found).0 in
      let asked : lookup_or dec.zero_value k wanted ≡ q = rw (put_down, lookup_or) refl in
      let id = find-id k items a.item found in
      (
        a.item,
        a.counted,
        found,
        a.has_quantity,
        counted_down c.changes a.item q a.counted a.amount (
            ap (λ i. changed_quantity i c.changes) id
            ∙ ap (λ (r : Consumed (Unit {0}) D F). changed_quantity k r.changes) (sym same)
            ∙ rw asked at present),
      )
