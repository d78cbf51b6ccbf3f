-- ===== src/Tests/Models.antt =====
-- Runs of the models' methods and of the review label.
use cim_backend.Prelude.{
  ◌≡◌, refl, ◌+ℤ◌, ◌-ℤ◌, ◌&&◌, ◌==◌, pos, not, lookup_or, sum_by, if◌then◌else◌,
}
use cim_backend.Decimal.{int_decimal}
use cim_backend.Models.Transaction.{agg_txn_quantities}
use cim_backend.Models.Transaction.Totals.{delta_units, agg_txn_quantities-units}
use cim_backend.Models.Item.{unconsumed, valid, validate_active_purchase_transactions}
use cim_backend.Models.Item.Valid.{open_units, validate_active_purchase_transactions-valid}
use cim_backend.Recon.Synthesize.{in_progress, ready_for_review, aggregate_review_label}
use cim_backend.Recon.Synthesize.Review.{some_unready, some_staff, aggregate_review_label-staff}
use cim_backend.Tests.Sample.{rice, old_layers, two_sessions}

rice-valid : validate_active_purchase_transactions rice ≡ valid
unfolding validate_active_purchase_transactions unconsumed ◌-ℤ◌ ◌+ℤ◌
rice-valid = refl

validate_active_purchase_transactions-valid_example : pos 7 ≡ sum_by open_units old_layers
validate_active_purchase_transactions-valid_example =
    validate_active_purchase_transactions-valid rice rice-valid

agg_txn_quantities-units_example :
    lookup_or (pos 0) 7 (agg_txn_quantities old_layers) ≡ sum_by (delta_units 7) old_layers
agg_txn_quantities-units_example = agg_txn_quantities-units 7 old_layers

aggregate_review_label-staff_example : aggregate_review_label two_sessions (λ id. id == 1) ≡ (
    if not (some_unready (λ id. id == 1) two_sessions) && some_staff (λ id. id == 1) two_sessions
    then ready_for_review
    else in_progress)
aggregate_review_label-staff_example = aggregate_review_label-staff (λ id. id == 1) two_sessions
