-- ===== src/Legacy/Covered.antt =====
-- What a submission to dispose or transfer has been checked for.
use cim_backend.Prelude.{
  ◌≡◌, ◌∙◌, refl, sym, inl, inr, ◌↔◌, true, false, Bool-cases, none, some, Option-cases, List, [],
  ◌∷◌, All, Map, lookup, put, arith, ok, ◌==◌,
}
use cim_backend.Decimal.{Decimal, is_positive_test, greater_than_test, sides}
use cim_backend.Models.Transaction.{disposal}
use cim_backend.Stock.Fifo.{Consumed, consume_items, consume_fifo}
use cim_backend.Stock.Fifo.Items.{DistinctIds, Gives, AllGive, consume_fifo_iff}
use cim_backend.Stock.Handlers.{counter_handler}
use cim_backend.Recon.Apply.{build_item_map}
use cim_backend.Recon.Apply.Maps.{lookup-build_item_map}
use cim_backend.Recon.Apply.Split.{AllGive-put}
use cim_backend.Legacy.{Checked, check_lines, checked, dispose_line}
use cim_backend.Models.Item.{InventoryItem}
use cim_backend.Models.Submission.{QuantityItem}
use cim_backend.Legacy.Creation.{first_refusal, require_consume_quantity, refuse_consume}

module _ {D F : Type 0} ⦃dec : Decimal D⦄ where
  -- A positive quantity of an active item, at most what it has on hand.
  pub record IsCovered (active : Map (InventoryItem D F)) (line : QuantityItem D) : Type 0 where
    pub item : InventoryItem D F
    pub wanted : D
    pub there : lookup line.inventory_item_id active ≡ some item
    pub has_quantity : line.quantity ≡ some wanted
    pub positive : dec.is_positive wanted ≡ true
    pub enough : dec.greater_than wanted item.quantity ≡ false

  refuse_consume_iff :
      (active : Map (InventoryItem D F)) (line : QuantityItem D)
      → (refuse_consume active line ≡ none) ↔ IsCovered active line
  unfolding refuse_consume require_consume_quantity
  refuse_consume_iff active line = (
    λ h. elim (Option-cases line.quantity) [
      | inl missing ↦ absurd (cc (rw (missing, refuse_consume, require_consume_quantity) at h))
      | inr (q, has) ↦
          let h1 = rw (has, refuse_consume, require_consume_quantity) at h in
          elim (Bool-cases (dec.is_positive q)) [
            | inr low ↦ absurd (cc (rw low at h1))
            | inl up ↦
                let h2 = rw up at h1 in
                elim (Option-cases (lookup line.inventory_item_id active)) [
                  | inl missing ↦ absurd (cc (rw missing at h2))
                  | inr (item, there) ↦
                      let h3 = rw (there, has) at h2 in
                      elim (Bool-cases (dec.greater_than q item.quantity)) [
                        | inl over ↦ absurd (cc (rw over at h3))
                        | inr enough ↦ record {
                          item = item;
                          wanted = q;
                          there = there;
                          has_quantity = has;
                          positive = up;
                          enough = enough;
                        }
                      ]
                ]
          ]
    ],
    λ c.
        rw
          (
            c.has_quantity, refuse_consume, require_consume_quantity, c.positive, c.there,
            c.has_quantity, c.enough,
          )
          refl,
  )

  -- The check of a request to dispose or transfer accepts it exactly when every line asks for a
  -- positive quantity of an active item, at most what the item has on hand.
  pub first_refusal-refuse_consume_iff :
      (active : Map (InventoryItem D F)) (lines : List (QuantityItem D))
      → (first_refusal (refuse_consume active) lines ≡ none) ↔ All (IsCovered active) lines
  unfolding first_refusal
  first_refusal-refuse_consume_iff active [] = (λ h. tt, λ h. refl)
  first_refusal-refuse_consume_iff active (x ∷ xs) =
      let here = refuse_consume_iff active x in
      let ih = first_refusal-refuse_consume_iff active xs in
      elim (Option-cases (refuse_consume active x)) [
        | inl fine ↦ rw (fine, first_refusal) (λ h. (here.0 fine, ih.0 h), λ c. ih.1 c.1)
        | inr (e, bad) ↦ rw (bad, first_refusal) (λ h. absurd (cc), λ c. absurd (cc (here.1 c.0)))
      ]

module _ {D F : Type 0} ⦃dec : Decimal D⦄ (items : List (InventoryItem D F)) where
  IsCovered-Gives :
      (line : QuantityItem D) (c : IsCovered (build_item_map items) line)
      → DistinctIds items
      → line.inventory_item_id == 0 ≡ false
      → Gives items line.inventory_item_id c.wanted
  IsCovered-Gives line c unique known =
      let i = c.item in
      (
        i,
        sym (lookup-build_item_map line.inventory_item_id items known unique) ∙ c.there,
        ground (
          arith,
          c.positive,
          c.enough,
          is_positive_test c.wanted,
          greater_than_test c.wanted i.quantity,
          sides c.wanted,
          sides i.quantity,
        ),
      )

  checked-AllGive :
      (acc : Checked D) (lines : List (QuantityItem D))
      → DistinctIds items
      → All (λ l. l.inventory_item_id == 0 ≡ false) lines
      → All (IsCovered (build_item_map items)) lines
      → AllGive items acc.wanted
      → ((check_lines dispose_line acc lines).errors ≡ acc.errors)
        × AllGive items (check_lines dispose_line acc lines).wanted
  unfolding check_lines dispose_line
  checked-AllGive acc [] unique known all gives = (refl, gives)
  checked-AllGive acc (x ∷ xs) unique (known, knowns) (c, cs) gives =
      rw (c.has_quantity, check_lines, dispose_line)
        (checked-AllGive (record acc { wanted = put x.inventory_item_id c.wanted acc.wanted }) xs
          unique knowns cs
          (AllGive-put items x.inventory_item_id c.wanted acc.wanted
            (IsCovered-Gives x c unique known) gives))

  -- A request to dispose of active items with distinct ids, whose lines have ids other than 0 and
  -- are accepted by the check of CreateDisposeSubmission, is consumed without an error as long as
  -- those items are in stock as they were.
  pub accepted_dispose-consumed :
      (lines : List (QuantityItem D))
      → DistinctIds items
      → All (λ l. l.inventory_item_id == 0 ≡ false) lines
      → first_refusal (refuse_consume (build_item_map items)) lines ≡ none
      → ((checked dispose_line lines).errors ≡ [])
        × (c : Consumed (Unit {0}) D F) × (consume_fifo
              (counter_handler disposal 0)
              tt
              []
              items
              (checked dispose_line lines).wanted
            ≡ ok c)
  accepted_dispose-consumed lines unique known accepted =
      let none_yet : Checked D = record { errors = []; wanted = [] } in
      let covered = (first_refusal-refuse_consume_iff (build_item_map items) lines).0 accepted in
      let (clean, gives) = checked-AllGive none_yet lines unique known covered tt in
      (
        clean,
        consume_items (counter_handler disposal 0) (checked dispose_line lines).wanted tt items,
        (consume_fifo_iff (counter_handler disposal 0) (checked dispose_line lines).wanted tt
              items).1
            gives,
      )
