-- ===== src/Recon/Counts.antt =====
-- The validation of a count session: internal/services/inventory_reconcile_items.go, lines 100 to 253.
pub mod Labels
use cim_backend.Prelude.{
  ℕ, ◌+◌, String, Bool, true, false, ◌&&◌, ◌||◌, not, ltb, ◌==◌, Option, none, some, List, [], ◌∷◌,
  ◌++◌, map, any, select, length, is_some, str_eq, Text, text_eq, trim_space, Map, lookup,
  lookup_or, put, Outcome, ok, err, and_then, if◌then◌else◌,
}
use cim_backend.Decimal.{Decimal}
use cim_backend.Errors.{
  AppError, recon_item_missing_quantity, recon_item_negative_quantity, recon_item_label_too_long,
  recon_item_no_snapshot_baseline, recon_item_label_required_for_duplicate,
  recon_item_label_conflict, recon_row_label_too_long, recon_row_label_required,
  recon_row_label_conflict,
}
use cim_backend.Models.Session.{ReconciliationRequestItem, SessionPayload, PayloadLine, lines}

abbrev pub max_recon_item_label_length : ℕ
max_recon_item_label_length = 255

-- `dto.ReconciliationCountItem`
pub record ReconciliationCountItem (D : Type 0) : Type 0 where
  pub inventory_item_id : ℕ
  pub quantity : Option D
  pub label : Text

-- The two maps of `validateCountLabelDistinctness`; a map of sets is the list of its pairs.
pub record SeenLabels : Type 0 where
  pub blanks : Map ℕ
  pub non_blank : List (ℕ × Text)

abbrev pub has_pair : ℕ → Text → List (ℕ × Text) → Bool
has_pair id label pairs = any (λ p. p.0 == id && text_eq p.1 label) pairs

module _ {D : Type 0} where
  -- One round: the error, or the maps after it.
  unfoldable pub see_label : SeenLabels → ReconciliationCountItem D → Outcome AppError SeenLabels
  see_label seen item =
      let id = item.inventory_item_id in
      let label = trim_space item.label in
      let blank_count = lookup_or 0 id seen.blanks + 1 in
      if text_eq label []
      then if ltb 1 blank_count
        then err (recon_item_label_required_for_duplicate id)
        else ok (record seen { blanks = put id blank_count seen.blanks })
      else if has_pair id label seen.non_blank
      then err (recon_item_label_conflict id label)
      else ok (record seen { non_blank = (id, label) ∷ seen.non_blank })

  unfoldable pub see_labels :
      SeenLabels → List (ReconciliationCountItem D) → Outcome AppError SeenLabels
  see_labels seen [] = ok seen
  see_labels seen (item ∷ items) = and_then (see_label seen item) (λ seen'. see_labels seen' items)

  -- `validateCountLabelDistinctness`
  unfoldable pub validate_count_label_distinctness :
      List (ReconciliationCountItem D) → Outcome AppError SeenLabels
  validate_count_label_distinctness items =
      see_labels (record { blanks = []; non_blank = [] }) items

  -- The trimmed labels of the owner's other rows.
  unfoldable pub other_labels : String → ℕ → List (ReconciliationRequestItem D) → List Text
  other_labels owner exclude rows =
      map (λ (r : ReconciliationRequestItem D). trim_space r.label)
        (select (λ r. not (r.id == exclude || not (str_eq r.created_by owner))) rows)

  -- `validateRowLabel`
  unfoldable pub validate_row_label :
      String → Text → ℕ → List (ReconciliationRequestItem D) → Outcome AppError Text
  validate_row_label owner raw_label exclude rows =
      let label = trim_space raw_label in
      if ltb max_recon_item_label_length (length label)
      then err recon_row_label_too_long
      else if any (text_eq label) (other_labels owner exclude rows)
      then if text_eq label []
        then err recon_row_label_required
        else err (recon_row_label_conflict label)
      else ok label

module _ {D : Type 0} ⦃dec : Decimal D⦄ where
  -- `buildReconItemPayload`
  unfoldable pub payload_line : ReconciliationCountItem D → PayloadLine D
  payload_line item = record {
    inventory_item_id = item.inventory_item_id;
    quantity = elim item.quantity [ none ↦ dec.zero_value | some q ↦ q ];
    label = trim_space item.label;
  }

  unfoldable pub build_recon_item_payload : List (ReconciliationCountItem D) → SessionPayload D
  build_recon_item_payload items = lines (map payload_line items)

  -- One round of the loop of `validateCountsAgainstSnapshot`. The error names the item by its id.
  unfoldable pub check_count : Map D → ReconciliationCountItem D → Option AppError
  check_count baselines item = elim item.quantity [
    | none ↦ some (recon_item_missing_quantity item.inventory_item_id)
    | some quantity ↦
        if dec.is_negative quantity
        then some (recon_item_negative_quantity item.inventory_item_id)
        else if ltb max_recon_item_label_length (length (trim_space item.label))
        then some (recon_item_label_too_long item.inventory_item_id)
        else if not (is_some (lookup item.inventory_item_id baselines))
        then some (recon_item_no_snapshot_baseline item.inventory_item_id)
        else none
  ]

  unfoldable pub check_counts : Map D → List (ReconciliationCountItem D) → Option AppError
  check_counts baselines [] = none
  check_counts baselines (item ∷ items) = elim (check_count baselines item) [
    | some e ↦ some e
    | none ↦ check_counts baselines items
  ]

  -- `validateCountsAgainstSnapshot`, after the baselines are loaded
  unfoldable pub validate_counts_against_snapshot :
      Map D → List (ReconciliationCountItem D) → Outcome AppError (SessionPayload D)
  validate_counts_against_snapshot baselines items = elim (check_counts baselines items) [
    | some e ↦ err e
    | none ↦
        and_then (validate_count_label_distinctness items)
          (λ seen. ok (build_recon_item_payload items))
  ]
