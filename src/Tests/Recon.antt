-- ===== src/Tests/Recon.antt =====
-- Runs of the reconciliation's parts.
use cim_backend.Prelude.{
  ℕ, ◌≡◌, refl, lookup, lookup_or, arith, ◌+ℤ◌, ◌-ℤ◌, ℤ, pos, false, List, [], ◌∷◌, Map, ok, put,
  trim_space, sum_by, sort_stable, insert_sorted, insert_all,
}
use cim_backend.Decimal.{int_decimal, plus, minus}
use cim_backend.Errors.{closed}
use cim_backend.Models.Transaction.{InventoryTransaction}
use cim_backend.Models.Item.{InventoryItemChange}
use cim_backend.Models.Submission.{InventorySubmission, is_active_reconcile}
use cim_backend.Recon.Apply.{plan_reconcile}
use cim_backend.Recon.Apply.Split.{IsCounted}
use cim_backend.Recon.Apply.StockUp.{quantity_after}
use cim_backend.Recon.Apply.Counted.{plan_reconcile-counted}
use cim_backend.Recon.Counts.{validate_count_label_distinctness}
use cim_backend.Recon.Counts.Labels.{
  is_ok, all_distinct, validate_count_label_distinctness-all_distinct,
}
use cim_backend.Recon.Synthesize.{
  BreakdownEntry, add_line, add_entry, entries_of, totals_of, session_breakdown,
}
use cim_backend.Recon.Synthesize.Totals.{
  totals_of-units, session_breakdown-units, session_units, entry_units,
}
use cim_backend.Caller.{has_permission}
use cim_backend.Recon.Guards.{load_active_reconcile_parent}
use cim_backend.Recon.Managers.{manager_owned_sessions}
use cim_backend.Store.{Store}
use cim_backend.Store.Sessions.{list_by_submission, role_by_email}
use cim_backend.Recon.Lifecycle.{build_not_ready_session_warnings, close_reconciliation}
use cim_backend.Recon.Lifecycle.Statuses.{Moved, closing}
use cim_backend.Recon.Lifecycle.Moves.{closes, Step-Moved}
use cim_backend.Store.Submissions.{
  submission_by_id, snapshots_exist, update_reconcile_status, update_submission,
}
use cim_backend.Tests.Sample.{
  no_managers, nat_float, rice, salt, two_items, line_of, two_lines, count_line, two_sessions,
  manager, open_reconcile, open_store,
}

rice-IsCounted : IsCounted two_items (line_of 7 4 7)
unfolding plus minus
rice-IsCounted = record {
  item = rice;
  counted = pos 4;
  known = refl;
  found = refl;
  has_quantity = refl;
  nonneg = refl;
  covered = omega arith;
}

salt-IsCounted : IsCounted two_items (line_of 8 5 3)
unfolding plus minus
salt-IsCounted = record {
  item = salt;
  counted = pos 5;
  known = refl;
  found = refl;
  has_quantity = refl;
  nonneg = refl;
  covered = omega arith;
}

-- Rice, of which 7 were on hand, ends with the 4 that were counted.
plan_reconcile-counted_example :
    (plan : List (InventoryItemChange ℤ ℕ) × List (InventoryTransaction ℤ ℕ)) × (plan_reconcile 9
        two_items two_lines
      ≡ ok plan)
    × (quantity_after plan.0 rice ≡ pos 7 -ℤ pos 7 +ℤ pos 4)
unfolding rice-IsCounted
plan_reconcile-counted_example =
    plan_reconcile-counted 9 two_items two_lines (line_of 7 4 7) rice-IsCounted (refl, (refl, tt))
      (refl, (refl, tt)) (rice-IsCounted, (salt-IsCounted, tt)) refl

validate_count_label_distinctness-all_distinct_example :
    is_ok (
      validate_count_label_distinctness
        (count_line 7 4 (32 ∷ 65 ∷ []) ∷ count_line 7 3 (65 ∷ []) ∷ []))
    ≡ all_distinct (count_line 7 4 (32 ∷ 65 ∷ []) ∷ count_line 7 3 (65 ∷ []) ∷ [])
validate_count_label_distinctness-all_distinct_example =
    validate_count_label_distinctness-all_distinct
      (count_line 7 4 (32 ∷ 65 ∷ []) ∷ count_line 7 3 (65 ∷ []) ∷ [])

-- The label " A" is the label "A".
same_label : all_distinct (count_line 7 4 (32 ∷ 65 ∷ []) ∷ count_line 7 3 (65 ∷ []) ∷ []) ≡ false
unfolding trim_space
same_label = refl

abbrev two_totals : Map ℤ
two_totals = (7, pos 4) ∷ (8, pos 5) ∷ []

totals_of-units_example : lookup_or (pos 0) 7 two_totals ≡ sum_by (session_units 7) two_sessions
unfolding totals_of add_line put lookup_or lookup ◌+ℤ◌
totals_of-units_example = totals_of-units two_sessions two_totals 7 refl

abbrev entry_of : ℕ → ℕ → ℕ → ℕ → BreakdownEntry ℤ
entry_of item quantity session n = record {
  inventory_item_id = item;
  label = [];
  quantity = pos quantity;
  session_label = session ∷ [];
  created_by = "ann@example.com";
  created_at = session;
  seq = n;
}

abbrev three_entries : List (BreakdownEntry ℤ)
three_entries = entry_of 7 3 1 0 ∷ entry_of 7 1 2 1 ∷ entry_of 8 5 2 2 ∷ []

session_breakdown-units_example :
    sum_by (entry_units 7) three_entries ≡ sum_by (session_units 7) two_sessions
unfolding session_breakdown entries_of add_entry sort_stable insert_sorted insert_all ◌+ℤ◌
session_breakdown-units_example = session_breakdown-units two_sessions three_entries 7 refl

abbrev closed_reconcile : InventorySubmission ℤ
closed_reconcile = record open_reconcile { reconcile_status = closed }

abbrev closed_store : Store ℤ ℕ
closed_store = record open_store { submissions = closed_reconcile ∷ [] }

closed_now :
    close_reconciliation no_managers manager 5 open_store
    ≡ ok ((closed_reconcile, []), closed_store)
unfolding close_reconciliation has_permission load_active_reconcile_parent submission_by_id
    snapshots_exist is_active_reconcile list_by_submission update_reconcile_status update_submission
    manager_owned_sessions build_not_ready_session_warnings role_by_email
closed_now = refl

Step-Moved_example : Moved closing manager 5 open_store closed_store closed_reconcile
Step-Moved_example =
    Step-Moved no_managers manager 5 open_store closed_store closed_reconcile closing
      (closes [] closed_now)
