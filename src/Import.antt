-- ===== src/Import.antt =====
-- internal/services/initial_stock_import_plan.go: the plan of an import of initial stock from a sheet,
-- which rejects a row for one reason or plans what is written for it. The maps of the source by unit
-- label, product name and product are functions here, read at the keys that the rows ask for;
-- UPPER and TRIM of the queries are taken to be ToUpper and TrimSpace.
pub mod Lookups
pub mod Plan
pub mod Labels
pub mod Quantities
pub mod Rejected
pub mod Planned
use cim_backend.Prelude.{
  ℕ, Bool, true, false, ◌&&◌, ◌||◌, ltb, ◌==◌, Option, none, some, List, [], ◌∷◌, ◌++◌, Text,
  text_eq, trim_space, length, any, select, Map, put, Outcome, ok, err, if◌then◌else◌,
}
use cim_backend.Decimal.{Decimal}

pub record SheetRow : Type 0 where
  pub sheet_row : ℕ
  pub name : Text
  pub unit : Text
  pub raw_quantity : Text
  pub product_type : Text

-- The keys of the messages of a rejected row.
pub data RowReason : Type 0 where
  name_required duplicate_name name_too_long unit_required unit_too_long : RowReason
  quantity_invalid quantity_negative quantity_too_large quantity_scale result_too_large : RowReason
  product_ambiguous product_deleted product_type_too_long : RowReason
  item_soft_deleted item_inactive : RowReason
  unit_soft_deleted unit_mismatch unit_ambiguous : RowReason

-- dto.InitialStockImportError
pub record Rejection : Type 0 where
  pub row : ℕ
  pub reason : RowReason
  pub name : Text
  pub unit : Text
  pub quantity : Text

-- `rowRejections`: a row has failed when it is among them.
abbrev pub is_failed : SheetRow → List Rejection → Bool
is_failed row rejections = any (λ r. r.row == row.sheet_row) rejections

unfoldable pub reject : SheetRow → RowReason → List Rejection → List Rejection
reject row reason rejections =
    if is_failed row rejections
    then rejections
    else rejections
      ++ record {
        row = row.sheet_row;
        reason = reason;
        name = row.name;
        unit = row.unit;
        quantity = row.raw_quantity;
      }
        ∷ []

abbrev pub product_name_max_len : ℕ
product_name_max_len = 255

abbrev pub unit_name_max_len : ℕ
unit_name_max_len = 100

-- `to_upper` is strings.ToUpper.
module _ (to_upper : Text → Text) where
  abbrev pub upper_trim : Text → Text
  upper_trim s = to_upper (trim_space s)

  abbrev pub name_count : Text → List SheetRow → ℕ
  name_count key rows =
      if text_eq key []
      then 0
      else length (select (λ (r : SheetRow). text_eq (upper_trim r.name) key) rows)

-- `parse` is decimal.NewFromString, and `max_storable` what it makes of 99999999.99.
module _ {D : Type 0} ⦃dec : Decimal D⦄ (parse : Text → Option D) (max_storable : D) where
  unfoldable pub parse_quantity : Text → Outcome RowReason D
  parse_quantity raw = if text_eq raw [] then ok dec.zero_value else elim (parse raw) [
    | none ↦ err quantity_invalid
    | some q ↦
        if dec.is_negative q
        then err quantity_negative
        else if dec.greater_than q max_storable
        then err quantity_too_large
        else ok q
  ]

module _ {D : Type 0} ⦃dec : Decimal D⦄ (to_upper : Text → Text) (parse : Text → Option D)
    (max_storable : D) where
  -- The body of the loop of `validateRowSyntax`.
  unfoldable pub validate_row : List SheetRow → SheetRow → Outcome RowReason D
  validate_row rows row =
      if text_eq row.name []
      then err name_required
      else if ltb 1 (name_count to_upper (upper_trim to_upper row.name) rows)
      then err duplicate_name
      else if ltb product_name_max_len (length row.name)
      then err name_too_long
      else if text_eq row.unit []
      then err unit_required
      else if ltb unit_name_max_len (length row.unit)
      then err unit_too_long
      else parse_quantity parse max_storable row.raw_quantity

  unfoldable pub validate_rows :
      List SheetRow → List SheetRow → List Rejection → Map D → List Rejection × Map D
  validate_rows rows [] rejections quantities = (rejections, quantities)
  validate_rows rows (row ∷ rest) rejections quantities = elim (validate_row rows row) [
    | err reason ↦ validate_rows rows rest (reject row reason rejections) quantities
    | ok q ↦ validate_rows rows rest rejections (put row.sheet_row q quantities)
  ]
