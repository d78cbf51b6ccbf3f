-- ===== src/Tests/Import.antt =====
-- A sheet of four rows: rice in stock, tea that is new, a row with no name, and salt in another unit.
use cim_backend.Prelude.{
  split, ℕ, ◌≡◌, refl, true, false, not, Option, none, some, List, [], ◌∷◌, ◌-◌, map, select, All,
  Text, ℤ, pos, ◌+ℤ◌, trim_space, is_space, lookup, put, insert_all, insert_sorted, sort_stable,
}
use cim_backend.Decimal.{decimal_places, int_decimal}
use cim_backend.Import.{
  SheetRow, Rejection, RowReason, is_failed, validate_rows, validate_row, parse_quantity, reject,
  unit_mismatch, name_required,
}
use cim_backend.Import.Lookups.{
  StockUnit, StockProduct, StockItem, ImportTables, reject_rows, product_reason, item_reason,
  active_item, matched_product, unit_label_matches, resolve_unit,
}
use cim_backend.Import.Plan.{
  PlanRow, ImportPlan, ImportAction, plan_rows, plan_row, effective_unit, governing_unit, fit_row,
  general_unit, new_products, ordered_units, match_product, create_product, create_item,
  create_transaction, skip_zero_quantity, build_plan,
}
use cim_backend.Import.Planned.{Fits, build_plan-Fits}
use cim_backend.Import.Rejected.{build_plan-rows}

abbrev same_text : Text → Text
same_text s = s

-- A number of one digit.
abbrev parse_digit : Text → Option ℤ
parse_digit [] = none
parse_digit (c ∷ []) = some (pos (c - 48))
parse_digit (c ∷ d ∷ cs) = none

-- A digit and no point.
abbrev whole_numbers : ℤ → Text
whole_numbers d = 48 ∷ []

abbrev kilo : StockUnit
kilo = record {
  id = 1;
  is_deleted = false;
  is_general = true;
  name = 75 ∷ [];
  symbol = 107 ∷ [];
  decimal_places = 3;
}

abbrev product_of : ℕ → ℕ → StockProduct
product_of id name = record {
  id = id;
  is_deleted = false;
  name = name ∷ [];
  product_type = [];
  unit_id = 1;
}

abbrev rice_item : StockItem ℤ
rice_item = record {
  id = 7;
  is_deleted = false;
  has_active_status = true;
  inventory_id = 3;
  product_id = 1;
  quantity = pos 4;
  unit_id = 1;
}

abbrev tables : ImportTables ℤ
tables = record {
  units = kilo ∷ [];
  products = product_of 1 82 ∷ product_of 2 83 ∷ [];
  items = rice_item ∷ [];
}

abbrev sheet_row_of : ℕ → Text → ℕ → Text → SheetRow
sheet_row_of number name unit quantity = record {
  sheet_row = number;
  name = name;
  unit = unit ∷ [];
  raw_quantity = quantity;
  product_type = [];
}

abbrev rice : SheetRow
rice = sheet_row_of 4 (82 ∷ []) 75 (53 ∷ [])

abbrev tea : SheetRow
tea = sheet_row_of 5 (84 ∷ []) 66 []

abbrev unnamed : SheetRow
unnamed = sheet_row_of 6 [] 75 (53 ∷ [])

abbrev salt : SheetRow
salt = sheet_row_of 7 (83 ∷ []) 66 (53 ∷ [])

abbrev sheet : List SheetRow
sheet = rice ∷ salt ∷ unnamed ∷ tea ∷ []

abbrev result : ImportPlan ℤ × List Rejection
result = build_plan same_text parse_digit (pos 99) whole_numbers 3 tables sheet

abbrev rejected_for : Rejection → ℕ × RowReason
rejected_for r = (r.row, r.reason)

abbrev action_of : PlanRow ℤ → List ImportAction × ℤ
action_of p = (p.actions, p.current_quantity)

-- The rejections are in the order of the sheet's numbers.
imported :
    (map (λ p. p.src) result.0.rows ≡ rice ∷ tea ∷ [])
    × (map rejected_for result.1 ≡ (6, name_required) ∷ (7, unit_mismatch) ∷ [])
    × (map action_of result.0.rows
        ≡ (match_product ∷ create_transaction ∷ [], pos 4)
          ∷ (create_product ∷ create_item ∷ skip_zero_quantity ∷ [], pos 0)
          ∷ [])
unfolding decimal_places split build_plan plan_rows reject_rows validate_rows validate_row
    trim_space parse_quantity reject product_reason item_reason active_item matched_product plan_row
    effective_unit governing_unit unit_label_matches fit_row ◌+ℤ◌ resolve_unit general_unit
    new_products ordered_units lookup put insert_all insert_sorted sort_stable is_space
imported = (refl, refl, refl)

build_plan-rows_example :
    map (λ p. p.src) result.0.rows ≡ select (λ r. not (is_failed r result.1)) sheet
build_plan-rows_example =
    build_plan-rows same_text parse_digit (pos 99) whole_numbers 3 tables sheet
      (refl, (refl, (refl, (refl, tt))))

build_plan-Fits_example : All (Fits same_text parse_digit (pos 99) whole_numbers) result.0.rows
build_plan-Fits_example =
    build_plan-Fits same_text parse_digit (pos 99) whole_numbers 3 tables sheet
