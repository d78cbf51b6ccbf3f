-- ===== src/Recon/Synthesize.antt =====
-- internal/services/inventory_reconcile_synthesize.go: the count sessions of a reconciliation summed
-- to one request. Warning texts and product names are not modelled.
pub mod Totals
pub mod Review
use cim_backend.Prelude.{
  ℕ, zero, suc, ◌+◌, String, Bool, true, false, ◌&&◌, ◌||◌, not, ltb, ◌==◌, Option, none, some,
  List, [], ◌∷◌, ◌++◌, map, any, length, str_eq, Text, text_eq, Map, lookup, lookup_or, put,
  sort_stable, is_some, Outcome, ok, err, and_then, if◌then◌else◌,
}
use cim_backend.Decimal.{Decimal}
use cim_backend.Errors.{AppError, bad_recon_item_payload}
use cim_backend.Models.Submission.{QuantityItem, InventoryRequest}
use cim_backend.Models.Session.{
  ReconciliationRequestItem, SessionPayload, PayloadLine, SessionStatus, no_lines, garbled, lines,
  is_ready,
}

pub data ReviewLabel : Type 0 where
  in_progress ready_for_review : ReviewLabel

-- `dto.SubmissionItemWarning`, by its code
pub data ItemAnomaly : Type 0 where
  no_baseline overage : ℕ → ItemAnomaly

-- `dto.ReconcileItemBreakdown`, with the number of entries before it
pub record BreakdownEntry (D : Type 0) : Type 0 where
  pub inventory_item_id : ℕ
  pub label : Text
  pub quantity : D
  pub session_label : Text
  pub created_by : String
  pub created_at : ℕ
  pub seq : ℕ

pub record SynthesizedReconcile (D : Type 0) : Type 0 where
  pub request : InventoryRequest D
  pub label : ReviewLabel
  pub item_anomalies : List ItemAnomaly
  pub breakdown : List (BreakdownEntry D)

-- The lines of a session: an empty payload is skipped, and bytes that do not decode are an error.
abbrev pub parse_lines :
    {D : Type 0} → ℕ → SessionPayload D → Outcome AppError (List (PayloadLine D))
parse_lines row_id no_lines = ok []
parse_lines row_id garbled = err (bad_recon_item_payload row_id)
parse_lines row_id (lines ls) = ok ls

abbrev pub parse_payload :
    {D : Type 0} → ReconciliationRequestItem D → Outcome AppError (List (PayloadLine D))
parse_payload row = parse_lines row.id row.payload

module _ {D : Type 0} ⦃dec : Decimal D⦄ where
  unfoldable pub add_line : Map D → PayloadLine D → Map D
  add_line totals line =
      put line.inventory_item_id
        (dec.add (lookup_or dec.zero_value line.inventory_item_id totals) line.quantity) totals

  abbrev pub add_lines : Map D → List (PayloadLine D) → Map D
  add_lines totals [] = totals
  add_lines totals (l ∷ ls) = add_lines (add_line totals l) ls

  -- The first loop of `synthesizeReconcile`.
  unfoldable pub totals_of : Map D → List (ReconciliationRequestItem D) → Outcome AppError (Map D)
  totals_of totals [] = ok totals
  totals_of totals (row ∷ rows) =
      and_then (parse_payload row) (λ ls. totals_of (add_lines totals ls) rows)

  -- The keys of the totals, ascending.
  unfoldable pub item_ids : Map D → List ℕ
  item_ids totals = sort_stable ltb (map (λ e. e.0) totals)

  abbrev pub item_line : Map D → Map D → ℕ → QuantityItem D
  item_line totals baselines id = elim (lookup id baselines) [
    | none ↦ record {
      inventory_item_id = id;
      quantity = some dec.zero_value;
      prev_quantity = dec.zero_value;
    }
    | some baseline ↦ record {
      inventory_item_id = id;
      quantity = some (lookup_or dec.zero_value id totals);
      prev_quantity = baseline;
    }
  ]

  abbrev pub anomalies_of : Map D → Map D → ℕ → List ItemAnomaly
  anomalies_of totals baselines id = elim (lookup id baselines) [
    | none ↦ no_baseline id ∷ []
    | some baseline ↦
        if dec.greater_than (lookup_or dec.zero_value id totals) baseline
        then overage id ∷ []
        else []
  ]

  abbrev pub all_anomalies : Map D → Map D → List ℕ → List ItemAnomaly
  all_anomalies totals baselines [] = []
  all_anomalies totals baselines (id ∷ ids) =
      anomalies_of totals baselines id ++ all_anomalies totals baselines ids

  -- `sessionBreakdown`: one entry for an item, a creator, a session label and a count label.
  abbrev pub same_entry : ReconciliationRequestItem D → PayloadLine D → BreakdownEntry D → Bool
  same_entry row line e =
      e.inventory_item_id == line.inventory_item_id
      && (str_eq e.created_by row.created_by
          && (text_eq e.session_label row.label && text_eq e.label line.label))

  abbrev pub new_entry : ReconciliationRequestItem D → PayloadLine D → ℕ → BreakdownEntry D
  new_entry row line n = record {
    inventory_item_id = line.inventory_item_id;
    label = line.label;
    quantity = dec.add dec.zero_value line.quantity;
    session_label = row.label;
    created_by = row.created_by;
    created_at = row.created_at;
    seq = n;
  }

  -- `n` counts the entries before the list.
  unfoldable pub add_entry :
      ReconciliationRequestItem D
      → PayloadLine D
      → ℕ
      → List (BreakdownEntry D)
      → List (BreakdownEntry D)
  add_entry row line n [] = new_entry row line n ∷ []
  add_entry row line n (e ∷ es) =
      if same_entry row line e
      then record e { quantity = dec.add e.quantity line.quantity } ∷ es
      else e ∷ add_entry row line (n + 1) es

  abbrev pub add_entries :
      ReconciliationRequestItem D
      → List (BreakdownEntry D)
      → List (PayloadLine D)
      → List (BreakdownEntry D)
  add_entries row es [] = es
  add_entries row es (l ∷ ls) = add_entries row (add_entry row l 0 es) ls

  unfoldable pub entries_of :
      List (BreakdownEntry D)
      → List (ReconciliationRequestItem D)
      → Outcome AppError (List (BreakdownEntry D))
  entries_of es [] = ok es
  entries_of es (row ∷ rows) =
      and_then (parse_payload row) (λ ls. entries_of (add_entries row es ls) rows)

  abbrev pub entry_before : BreakdownEntry D → BreakdownEntry D → Bool
  entry_before a b =
      if not (a.inventory_item_id == b.inventory_item_id)
      then ltb a.inventory_item_id b.inventory_item_id
      else ltb a.seq b.seq

  unfoldable pub session_breakdown :
      List (ReconciliationRequestItem D) → Outcome AppError (List (BreakdownEntry D))
  session_breakdown rows =
      and_then (entries_of [] (sort_stable (λ a b. ltb a.id b.id) rows))
        (λ es. ok (sort_stable entry_before es))

  -- `aggregateReviewLabel`; the flag says whether a staff session came before.
  abbrev pub review_loop : (ℕ → Bool) → Bool → List (ReconciliationRequestItem D) → ReviewLabel
  review_loop manager_owned some_staff [] = if some_staff then ready_for_review else in_progress
  review_loop manager_owned some_staff (row ∷ rows) =
      let skipped = review_loop manager_owned some_staff rows in
      let counted = review_loop manager_owned true rows in
      if manager_owned row.id then skipped else if is_ready row.status then counted else in_progress

  unfoldable pub aggregate_review_label :
      List (ReconciliationRequestItem D) → (ℕ → Bool) → ReviewLabel
  aggregate_review_label rows manager_owned = review_loop manager_owned false rows

  -- `synthesizeReconcile`
  unfoldable pub synthesize_reconcile :
      ℕ
      → List (ReconciliationRequestItem D)
      → Map D
      → (ℕ → Bool)
      → Outcome AppError (SynthesizedReconcile D)
  synthesize_reconcile inventory_id rows baselines manager_owned =
      and_then (totals_of [] rows) (λ totals. and_then (session_breakdown rows) (λ breakdown.
        ok (record {
          request = record {
            inventory_id = inventory_id;
            items = map (item_line totals baselines) (item_ids totals);
          };
          label = aggregate_review_label rows manager_owned;
          item_anomalies = all_anomalies totals baselines (item_ids totals);
          breakdown = breakdown;
        })))
